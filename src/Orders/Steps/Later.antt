-- ===== src/Orders/Steps/Later.antt =====
-- The steps of a paid or closed order, and every step together: what it does to its order and to the rows.
use mathlib.Core.Path.{subst}
use shop_orbit.Base.{
  ℕ, ◌≡◌, ◌≢◌, refl, sym, ap, ◌∙◌, ◌≤◌, true, false, Option, none, some, ok, arith, put, Bool-cases,
  Option-cases, Result-cases, inl, inr,
}
use shop_orbit.Cart.Models.{
  Order, OrderStatus, same_status, same_status→eq, awaiting_payment, payment_confirmed,
  payment_failed, accepted, packed, cancelled,
}
use shop_orbit.Cart.Services.{cancel_order, advance_order_status, accept_order, mark_order_packed}
use shop_orbit.Cart.Services.Advance.{advance-Saved}
use shop_orbit.Cart.Services.Cancel.{cancel_order-Cancelled}
use shop_orbit.Cart.Services.Reservations.{reserved_units, cancel_order-held_units}
use shop_orbit.Fulfillment.Models.{Shipment, ShipmentStatus}
use shop_orbit.Inventory.Models.{Target}
use shop_orbit.Orders.Lifecycle.{
  Move, Event, transition, checkout, capture_report, failure_report, expiry, retrial, cancellation,
  acceptance, packing, courier_report, refund_report,
}
use shop_orbit.Orders.Steps.{
  OrderStep, IsRow, place, capture, fail, expire, retry, cancel, accept, pack, ship, refund,
}
use shop_orbit.Orders.Steps.Balance.{
  same_after, Balanced, status_at, status_of, held_at, held_of, unmoved, restated, resaved,
}
use shop_orbit.Payments.Models.{Payment, Refund, RefundStatus}
use shop_orbit.Payments.Pipeline.{on_refund_processed, refunded_status}
use shop_orbit.Returns.Services.{mark_return_refunded}
use shop_orbit.Shop.{Shop, save_status, save_shipment, sync_order_status, order_status_by_shipment}
use shop_orbit.Orders.Steps.Effects.{
  placed-Balanced, captured-Balanced, failed-Balanced, expired-Balanced, retried-Balanced,
}

refunded_moves :
    (old : OrderStatus) (r : RefundStatus)
    → (transition (refund_report r) (some old) (some (refunded_status r)) ≡ true)
      × (same_status (refunded_status r) awaiting_payment ≡ false)
refunded_moves old r = ground arith

courier_moves :
    (sh : ShipmentStatus) (old new : OrderStatus)
    → order_status_by_shipment sh ≡ some new
    → (transition (courier_report sh) (some old) (some new) ≡ true)
      × (same_status new awaiting_payment ≡ false)
courier_moves sh old new moves = ground arith

courier_stays :
    (sh : ShipmentStatus) (a : Option OrderStatus)
    → order_status_by_shipment sh ≡ none
    → transition (courier_report sh) a a ≡ true
courier_stays sh none moves = ground arith
courier_stays sh (some a) moves = ground arith

module _ (id : ℕ) (s : Shop) (keyed : (o : Order) → s.orders id ≡ some o → o.id ≡ id)
    (covered : (t : Target) → held_at t id s ≤ reserved_units t s.inventory) where
  cancelled-Balanced :
      (obj o : Order) (actor : Option ℕ) (s' : Shop)
      → obj.id ≡ id
      → IsRow id o s
      → o.status ≢ payment_failed
      → cancel_order obj actor s ≡ ok s'
      → Balanced (transition cancellation) id s s'
  cancelled-Balanced obj o actor s' at (found, key) decided h =
      let own = ap s.orders at ∙ found in
      let c = cancel_order-Cancelled obj o actor s s' own (key ∙ sym at) h in
      restated (transition cancellation) id o cancelled s s' found
        (c.orders_put ∙ ap (λ k. put k (record o { status = cancelled }) s.orders) key)
        (ground (arith, c.was_cancellable))
        (λ t.
          let fits =
            subst (λ n. n ≤ reserved_units t s.inventory) (ap (held_of t) found) (covered t) in
          cancel_order-held_units obj o actor s s' t own (key ∙ sym at) decided fits h
          ∙ ground arith)

  advanced-Balanced :
      (may : Move) (from to : OrderStatus) (obj : Order) (actor : Option ℕ) (s' : Shop)
      → obj.id ≡ id
      → may (some from) (some to) ≡ true
      → same_status from awaiting_payment ≡ false
      → same_status to awaiting_payment ≡ false
      → advance_order_status from to obj actor s ≡ ok s'
      → Balanced may id s s'
  advanced-Balanced may from to obj actor s' at fits old new h =
      elim (Option-cases (s.orders obj.id)) [
        | inl missing ↦ absurd (unfold advance_order_status in ground arith)
        | inr (o, found) ↦
            let (was, w) = advance-Saved from to obj o actor s s' found h in
            restated may id o to s s' (ap s.orders (sym at) ∙ found)
              (w.orders_put ∙ ap (λ k. put k (record o { status = to }) s.orders) at)
              (subst (λ a. may (some a) (some to) ≡ true) (sym was) fits)
              (λ t. rw w.stock_same (ground arith))
      ]

  refunded-Balanced :
      (r : Refund) (p : Payment) (o : Order)
      → p.order ≡ id
      → s.orders id ≡ some o
      → o.status ≢ awaiting_payment
      → Balanced (transition (refund_report p.refund_status)) id s (on_refund_processed r p s).1
  unfolding on_refund_processed mark_return_refunded
  refunded-Balanced r p o at found paid =
      let new = refunded_status p.refund_status in
      elim (Result-cases (save_status p.order new none true s)) [
        | inr (e, failed) ↦ absurd (unfold save_status in ground (arith, ap s.orders at))
        | inl (m, saved) ↦
            let own = ap s.orders at ∙ found in
            let (fits, moved_on) = refunded_moves o.status p.refund_status in
            let w =
              resaved (transition (refund_report p.refund_status)) id o new none true s m found
                (subst (λ k. save_status k new none true s ≡ ok m) at saved) fits (ground arith)
                moved_on in
            elim (Option-cases r.return_request) [
              | inl missing ↦
                  same_after (transition (refund_report p.refund_status)) id s m _ w (ground arith)
                    (ground arith)
              | inr (request, linked) ↦
                  same_after (transition (refund_report p.refund_status)) id s m _ w (ground arith)
                    (ground arith)
            ]
      ]

  synced-Balanced :
      (sh : Shipment) (o : Order) (m : Shop)
      → sh.order ≡ id
      → s.orders id ≡ some o
      → o.status ≢ awaiting_payment
      → sync_order_status sh (record s { shipments = put sh.order sh s.shipments }) ≡ ok m
      → Balanced (transition (courier_report sh.status)) id s m
  unfolding sync_order_status
  synced-Balanced sh o m at found paid h =
      let may : Move = transition (courier_report sh.status) in
      let own = ap s.orders at ∙ found in
      let parked = record s { shipments = put sh.order sh s.shipments } in
      elim (Option-cases (order_status_by_shipment sh.status)) [
        | inl kept ↦
            unmoved may id s m (courier_stays sh.status (status_at id s) kept) (ground arith)
              (ground arith)
        | inr (new, moves) ↦ elim (Bool-cases (same_status o.status new)) [
          | inl same ↦
              let e = same_status→eq o.status new same in
              let (fits, _) = courier_moves sh.status o.status new moves in
              let still : may (status_at id s) (status_at id s) ≡ true =
                ap (λ x. may (status_of x) (status_of x)) found
                ∙ ap (may (some o.status)) (ap some e)
                ∙ fits in
              unmoved may id s m still (ground arith) (ground arith)
          | inr other ↦
              let (fits, moved_on) = courier_moves sh.status o.status new moves in
              let saved : save_status sh.order new none false parked ≡ ok m = ground arith in
              let w =
                resaved may id o new none false parked m found
                  (subst (λ k. save_status k new none false parked ≡ ok m) at saved) fits
                  (ground arith) moved_on in
              record { others = w.others; moved = w.moved; counted = w.counted; keyed = w.keyed }
        ]
      ]

  shipped-Balanced :
      (sh : Shipment) (o : Order) (actor : Option ℕ) (s' : Shop)
      → sh.order ≡ id
      → s.orders id ≡ some o
      → o.status ≢ awaiting_payment
      → save_shipment sh actor s ≡ ok s'
      → Balanced (transition (courier_report sh.status)) id s s'
  unfolding save_shipment
  shipped-Balanced sh o actor s' at found paid h = elim (Option-cases (s.shipments sh.order)) [
    | inl missing ↦ absurd (ground arith)
    | inr (row, there) ↦
        let parked = record s { shipments = put sh.order sh s.shipments } in
        elim (Result-cases (sync_order_status sh parked)) [
          | inr (e, failed) ↦ absurd (ground arith)
          | inl (m, done) ↦
              same_after (transition (courier_report sh.status)) id s m s'
                (synced-Balanced sh o m at found paid done) (ground arith) (ground arith)
        ]
  ]

-- The event that a step is for its order
abbrev pub event_of : {id : ℕ} {s s' : Shop} → OrderStep id s s' → Event
event_of (place now user form key fresh h) = checkout
event_of (capture env p at h) = capture_report
event_of (fail p at h) = failure_report
event_of (expire obj at h) = expiry
event_of (retry o row h) = retrial
event_of (cancel obj o actor at row decided h) = cancellation
event_of (accept obj actor at h) = acceptance
event_of (pack obj actor at h) = packing
event_of (ship sh o actor at row paid h) = courier_report sh.status
event_of (refund r p o at row paid h) = refund_report p.refund_status

-- Whatever the step, if the order's row stands under its own key and what it holds is reserved.
pub OrderStep-Balanced :
    (id : ℕ) (s s' : Shop)
    → ((o : Order) → s.orders id ≡ some o → o.id ≡ id)
    → ((t : Target) → held_at t id s ≤ reserved_units t s.inventory)
    → (step : OrderStep id s s') → Balanced (transition (event_of step)) id s s'
unfolding accept_order mark_order_packed
OrderStep-Balanced id s s' keyed covered (place now user form key fresh h) =
    placed-Balanced id s keyed covered now user form s' key fresh h
OrderStep-Balanced id s s' keyed covered (capture env p at h) =
    subst (Balanced (transition capture_report) id s) h
      (captured-Balanced id s keyed covered env p at)
OrderStep-Balanced id s s' keyed covered (fail p at h) =
    subst (Balanced (transition failure_report) id s) h (failed-Balanced id s keyed covered p at)
OrderStep-Balanced id s s' keyed covered (expire obj at h) =
    expired-Balanced id s keyed covered obj s' at h
OrderStep-Balanced id s s' keyed covered (retry o row h) =
    retried-Balanced id s keyed covered o s' row h
OrderStep-Balanced id s s' keyed covered (cancel obj o actor at row decided h) =
    cancelled-Balanced id s keyed covered obj o actor s' at row decided h
OrderStep-Balanced id s s' keyed covered (accept obj actor at h) =
    advanced-Balanced id s keyed covered (transition acceptance) payment_confirmed accepted obj
      actor s' at refl refl refl h
OrderStep-Balanced id s s' keyed covered (pack obj actor at h) =
    advanced-Balanced id s keyed covered (transition packing) accepted packed obj actor s' at refl
      refl refl h
OrderStep-Balanced id s s' keyed covered (ship sh o actor at row paid h) =
    shipped-Balanced id s keyed covered sh o actor s' at row.0 paid h
OrderStep-Balanced id s s' keyed covered (refund r p o at row paid h) =
    subst (Balanced (transition (refund_report p.refund_status)) id s) h
      (refunded-Balanced id s keyed covered r p o at row.0 paid)
