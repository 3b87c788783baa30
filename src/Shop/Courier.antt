-- ===== src/Shop/Courier.antt =====
-- What a courier's status does to the order of its shipment.
use shop_orbit.Base.{
  false, ap, sym, refl, ◌∙◌, none, if◌then◌else◌, ◌==◌, ℕ, ◌≡◌, Option, some, ok, arith, put,
  ==_refl, Bool-cases, Option-cases, Result-cases, inl, inr,
}
use shop_orbit.Cart.Models.{Order, OrderStatus, same_status, same_status→eq}
use shop_orbit.Fulfillment.Models.{Shipment, ShipmentStatus, same_shipment_status, ndr}
use shop_orbit.Shop.{
  Shop, save_shipment, sync_order_status, save_status, order_status_by_shipment, shipment_signals,
}
use shop_orbit.Shop.Saves.{save_status-Saved}

-- An order with a new status
abbrev pub restate : OrderStatus → Option Order → Option Order
restate new none = none
restate new (some o) = some (record o { status = new })

synced :
    (sh : Shipment) (s s' : Shop) (o : Order) (new : OrderStatus)
    → s.orders sh.order ≡ some o
    → order_status_by_shipment sh.status ≡ some new
    → sync_order_status sh s ≡ ok s'
    → s'.orders sh.order ≡ some (record o { status = new })
unfolding sync_order_status save_status
synced sh s s' o new found moves h = elim (Bool-cases (same_status o.status new)) [
  | inl same ↦ let e = same_status→eq o.status new same in ground (arith, ==_refl sh.order, e)
  | inr other ↦ ground (arith, ==_refl sh.order)
]

-- A shipment that is saved as picked up, in transit, out for delivery or delivered takes its order
-- to "shipped" or "delivered", whatever the order's status was.
save_shipment-order :
    (sh : Shipment) (actor : Option ℕ) (s s' : Shop) (o : Order) (new : OrderStatus)
    → s.orders sh.order ≡ some o
    → order_status_by_shipment sh.status ≡ some new
    → save_shipment sh actor s ≡ ok s'
    → s'.orders sh.order ≡ some (record o { status = new })
unfolding save_shipment
save_shipment-order sh actor s s' o new found moves h = elim (Option-cases (s.shipments sh.order)) [
  | inl missing ↦ absurd (ground arith)
  | inr (row, there) ↦
      let moved = record s { shipments = put sh.order sh s.shipments } in
      elim (Result-cases (sync_order_status sh moved)) [
        | inr (e, failed) ↦ absurd (ground arith)
        | inl (m, done) ↦ ground (arith, synced sh moved m o new found moves done)
      ]
]

-- what a status that moves the order does to the tables
synced-writes :
    (sh : Shipment) (s m : Shop) (o : Order) (new : OrderStatus)
    → s.orders sh.order ≡ some o
    → order_status_by_shipment sh.status ≡ some new
    → sync_order_status sh s ≡ ok m
    → ((j : ℕ) → m.orders j ≡ (if sh.order == j then restate new (s.orders j) else s.orders j))
      × (m.shipments ≡ s.shipments)
      × (m.inventory ≡ s.inventory)
unfolding sync_order_status
synced-writes sh s m o new found moves h = elim (Bool-cases (same_status o.status new)) [
  | inl same ↦
      let st : o.status ≡ new = same_status→eq o.status new same in
      let e : s ≡ m = ground arith in
      (
        λ j. elim (Bool-cases (sh.order == j)) [
          | inl this ↦
              let key : j ≡ sh.order = ground arith in
              let at : s.orders j ≡ some o = ap s.orders key ∙ found in
              let kept : restate new (s.orders j) ≡ some o =
                ap (restate new) at ∙ ap (λ x. some (record o { status = x })) (sym st) in
              simp this (ap (λ (x : Shop). x.orders j) (sym e) ∙ at ∙ sym kept)
          | inr apart ↦ simp apart (ap (λ (x : Shop). x.orders j) (sym e))
        ],
        ap (λ (x : Shop). x.shipments) (sym e),
        ap (λ (x : Shop). x.inventory) (sym e),
      )
  | inr other ↦
      let saved : save_status sh.order new none false s ≡ ok m = ground arith in
      let w = save_status-Saved sh.order new none false o s m found saved in
      (
        λ j. elim (Bool-cases (sh.order == j)) [
          | inl this ↦
              let key : j ≡ sh.order = ground arith in
              let at : s.orders j ≡ some o = ap s.orders key ∙ found in
              simp this (ap (λ f. f j) w.orders_put ∙ simp this (sym (ap (restate new) at)))
          | inr apart ↦ simp apart (ap (λ f. f j) w.orders_put ∙ simp apart refl)
        ],
        w.shipments_same,
        w.stock_same,
      )
]

signals_same :
    (sh : Shipment) (previous : ShipmentStatus) (actor : Option ℕ) (s : Shop)
    → ((shipment_signals sh previous actor s).orders ≡ s.orders)
      × ((shipment_signals sh previous actor s).shipments ≡ s.shipments)
      × ((shipment_signals sh previous actor s).inventory ≡ s.inventory)
signals_same sh previous actor s = elim (Bool-cases (same_shipment_status previous sh.status)) [
  | inl same ↦ simp same (refl, refl, refl)
  | inr moved ↦ elim (Bool-cases (same_shipment_status sh.status ndr)) [
    | inl mailed ↦ simp (moved, mailed) (refl, refl, refl)
    | inr silent ↦ simp (moved, silent) (refl, refl, refl)
  ]
]

-- All that the save of such a shipment writes, where its row and its order are there: the row, and the order's
-- status. It does not touch the stock.
pub record Marks (sh : Shipment) (new : OrderStatus) (s s' : Shop) : Type 0 where
  pub order_put :
      (j : ℕ) → s'.orders j ≡ (if sh.order == j then restate new (s.orders j) else s.orders j)
  pub row_put : (j : ℕ) → s'.shipments j ≡ (if sh.order == j then some sh else s.shipments j)
  pub stock_same : s'.inventory ≡ s.inventory

pub save_shipment-Marks :
    (sh row : Shipment) (actor : Option ℕ) (s : Shop) (o : Order) (new : OrderStatus)
    → s.shipments sh.order ≡ some row
    → s.orders sh.order ≡ some o
    → order_status_by_shipment sh.status ≡ some new
    → (s' : Shop) × (save_shipment sh actor s ≡ ok s') × Marks sh new s s'
unfolding save_shipment
save_shipment-Marks sh row actor s o new there found moves =
    let parked = record s { shipments = put sh.order sh s.shipments } in
    elim (Result-cases (sync_order_status sh parked)) [
      | inr (e, failed) ↦ absurd (unfold sync_order_status in unfold save_status in ground arith)
      | inl (m, done) ↦
          let (orders, rows, stock) = synced-writes sh parked m o new found moves done in
          let (a, b, c) = signals_same sh row.status actor m in
          (
            shipment_signals sh row.status actor m,
            simp (there, done),
            record {
              order_put = λ j. ap (λ f. f j) a ∙ orders j;
              row_put = λ j. ap (λ f. f j) (b ∙ rows);
              stock_same = c ∙ stock;
            },
          )
    ]
