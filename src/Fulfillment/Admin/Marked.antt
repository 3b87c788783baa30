-- ===== src/Fulfillment/Admin/Marked.antt =====
-- What the bulk marks of shipments come to.
use shop_orbit.Base.{
  ℕ, ◌+◌, ◌≡◌, refl, ap, ◌∙◌, Bool, true, false, Option, none, some, List, [], ◌∷◌, Result, ok, All,
  any_of, length, ◌==◌, ◌||◌, if◌then◌else◌, arith,
}
use shop_orbit.Cart.Models.{Order, OrderStatus}
use shop_orbit.Fulfillment.Admin.{
  as_picked_up, as_delivered, mark_picked_up, mark_delivered, nothing_yet, caught_by_none,
}
use shop_orbit.Fulfillment.Models.{Shipment, ShipmentStatus, picked_up}
use shop_orbit.Fulfillment.Services.{or_now}
use shop_orbit.Shop.{Shop, save_shipment, order_status_by_shipment}
use shop_orbit.Shop.Courier.{restate, Marks, save_shipment-Marks}
use shop_orbit.Staff.Bulk.{Tally, bulk}

abbrev pub is_there {ℓ} : {A : Type ℓ} → Option A → Bool
is_there none = false
is_there (some a) = true

-- The shipment has its row, and its order has one.
abbrev pub HasRows : Shop → Shipment → Type 0
HasRows s sh = (is_there (s.shipments sh.order) ≡ true) × (is_there (s.orders sh.order) ≡ true)

-- whether one of the shipments is of the order `j`
abbrev pub is_shipped_in : ℕ → List Shipment → Bool
is_shipped_in j = any_of (λ (sh : Shipment). sh.order == j)

-- the row of `j` after each of the shipments was saved as `f` makes it
abbrev pub saved_row : (Shipment → Shipment) → ℕ → List Shipment → Option Shipment → Option Shipment
saved_row f j [] row = row
saved_row f j (sh ∷ shipments) row =
    saved_row f j shipments (if sh.order == j then some (f sh) else row)

there : {A : Type 0} (a : Option A) → is_there a ≡ true → (x : A) × (a ≡ some x)
there none h = absurd (ground arith)
there (some x) h = (x, refl)

-- All that marking the shipments leaves: the orders in the new status, the rows as saved, and the stock alone
pub record MarkOutcome (f : Shipment → Shipment) (new : OrderStatus) (shipments : List Shipment)
    (s s' : Shop) : Type 0 where
  pub orders :
      (j : ℕ)
      → s'.orders j ≡ (if is_shipped_in j shipments then restate new (s.orders j) else s.orders j)
  pub rows : (j : ℕ) → s'.shipments j ≡ saved_row f j shipments (s.shipments j)
  pub stock_same : s'.inventory ≡ s.inventory

saved_there :
    (b : Bool) (sh : Shipment) (row : Option Shipment)
    → is_there row ≡ true
    → is_there (if b then some sh else row) ≡ true
saved_there true sh row h = refl
saved_there false sh row h = h

-- an order is restated once, however often it is marked
restated_either :
    (new : OrderStatus) (a b : Bool) (o : Option Order)
    → (if b then restate new (if a then restate new o else o) else if a then restate new o else o)
      ≡ (if a || b then restate new o else o)
restated_either new true true none = refl
restated_either new true true (some o) = refl
restated_either new true false o = refl
restated_either new false true o = refl
restated_either new false false o = refl

restated_there :
    (new : OrderStatus) (b : Bool) (o : Option Order)
    → is_there (if b then restate new o else o) ≡ is_there o
restated_there new true none = refl
restated_there new true (some o) = refl
restated_there new false o = refl

module _ (f : Shipment → Shipment) (new : OrderStatus) (staff : ℕ)
    (same_order : (sh : Shipment) → (f sh).order ≡ sh.order)
    (moves : (sh : Shipment) → order_status_by_shipment (f sh).status ≡ some new) where
  abbrev mark_each : List Shipment → Tally → Shop → Result Tally × Shop
  mark_each = bulk caught_by_none (λ sh. save_shipment (f sh) (some staff))

  still_there :
      (sh : Shipment) (s s' : Shop) (shipments : List Shipment)
      → Marks (f sh) new s s'
      → All (HasRows s) shipments
      → All (HasRows s') shipments
  still_there sh s s' [] m each = tt
  still_there sh s s' (x ∷ shipments) m ((row, order), each) = (
    (
      ap is_there (m.row_put x.order)
          ∙ saved_there ((f sh).order == x.order) (f sh) (s.shipments x.order) row,
      ap is_there (m.order_put x.order)
          ∙ restated_there new ((f sh).order == x.order) (s.orders x.order)
          ∙ order,
    ),
    still_there sh s s' shipments m each,
  )

  mark_each-MarkOutcome :
      (shipments : List Shipment) (t : Tally) (s : Shop)
      → All (HasRows s) shipments
      → ((mark_each shipments t s).0 ≡ ok (record t { done = t.done + length shipments }))
        × MarkOutcome f new shipments s (mark_each shipments t s).1
  unfolding bulk
  mark_each-MarkOutcome [] t s each =
      (ground arith, record { orders = λ j. refl; rows = λ j. refl; stock_same = refl })
  mark_each-MarkOutcome (sh ∷ shipments) t s ((row, order), each) =
      let (r, has_row) = there (s.shipments sh.order) row in
      let (o, has_order) = there (s.orders sh.order) order in
      let key = same_order sh in
      let (s', went, m) =
        save_shipment-Marks (f sh) r (some staff) s o new (ap s.shipments key ∙ has_row)
          (ap s.orders key ∙ has_order) (moves sh) in
      let (counted, rest) =
        mark_each-MarkOutcome shipments (record t { done = t.done + 1 }) s'
          (still_there sh s s' shipments m each) in
      simp went (
        counted ∙ ground arith,
        record {
          orders = λ j.
              rest.orders j
              ∙ ap (λ (x : Option Order). if is_shipped_in j shipments then restate new x else x)
                  (m.order_put j
                    ∙ ap (λ k. if k == j then restate new (s.orders j) else s.orders j) key)
              ∙ restated_either new (sh.order == j) (is_shipped_in j shipments) (s.orders j);
          rows = λ j.
              rest.rows j
              ∙ ap (saved_row f j shipments)
                  (m.row_put j ∙ ap (λ k. if k == j then some (f sh) else s.shipments j) key);
          stock_same = rest.stock_same ∙ m.stock_same;
        },
      )

-- Marking shipments as picked up, or as delivered, in bulk, where each of them and its order are there: the
-- action runs to its end and counts them all. Their orders, whatever their status was, are shipped, or
-- delivered; their rows are saved with the new status and its time (the time of the pick-up only where there
-- was none); and no other order, shipment or stock row has changed.
pub mark_picked_up-MarkOutcome :
    (now staff : ℕ) (shipments : List Shipment) (s : Shop)
    → All (HasRows s) shipments
    → ((mark_picked_up now staff shipments s).0
        ≡ ok (record { done = length shipments; failed = 0 }))
      × MarkOutcome
          (λ sh. record sh { status = picked_up; shipped_at = or_now sh.shipped_at now })
          OrderStatus.shipped
          shipments
          s
          (mark_picked_up now staff shipments s).1
      × ((mark_delivered now staff shipments s).0
          ≡ ok (record { done = length shipments; failed = 0 }))
      × MarkOutcome
          (λ sh. record sh { status = ShipmentStatus.delivered; delivered_at = some now })
          OrderStatus.delivered
          shipments
          s
          (mark_delivered now staff shipments s).1
unfolding mark_picked_up mark_delivered
mark_picked_up-MarkOutcome now staff shipments s each =
    let (counted, picked) =
      mark_each-MarkOutcome (as_picked_up now) OrderStatus.shipped staff (λ sh. refl) (λ sh. refl)
        shipments nothing_yet s each in
    let (counted', brought) =
      mark_each-MarkOutcome (as_delivered now) OrderStatus.delivered staff (λ sh. refl) (λ sh. refl)
        shipments nothing_yet s each in
    (counted ∙ ap ok (ground arith), picked, counted' ∙ ap ok (ground arith), brought)
