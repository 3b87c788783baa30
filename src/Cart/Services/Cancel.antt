-- ===== src/Cart/Services/Cancel.antt =====
-- Cancelling an order: what it does to the order, the stock and the audit trail, and when it is refused.
use shop_orbit.Base.{
  ℕ, ◌≡◌, true, false, Option, some, ◌∷◌, ok, arith, Result-cases, Bool-cases, inl, inr,
  if◌then◌else◌, put, ap,
}
use shop_orbit.Cart.Models.{OrderStatus, Order, same_status, is_cancellable, is_paid, cancelled}
use shop_orbit.Inventory.Models.{StockRow}
use shop_orbit.Inventory.Services.{release_reservation, restore_stock_for_cancellation}
use shop_orbit.Inventory.Services.Effects.{
  demand, free, give_back, Changes, release_reservation-Changes,
  restore_stock_for_cancellation-Changes,
}
use shop_orbit.Shop.{Shop, save_status}
use shop_orbit.Shop.Saves.{on_stock-eq-ok, save_status-Saved}
use shop_orbit.Cart.Services.{cancel_order, give_back_stock}

-- What a cancellation gives back of each row, by the status that the order had.
abbrev pub return_units : OrderStatus → ℕ → StockRow → StockRow
return_units status = if is_paid status then give_back else free

-- All that cancelling the row `o` does to the orders, the stock and the audit trail.
pub record Cancelled (o : Order) (actor : Option ℕ) (s s' : Shop) : Type 0 where
  pub was_cancellable : is_cancellable o.status ≡ true
  pub orders_put : s'.orders ≡ put o.id (record o { status = cancelled }) s.orders
  pub stock_returned :
      Changes (return_units o.status) (λ t. demand t o.items) s.inventory s'.inventory
  pub history_logged :
      s'.order_history
      ≡ record {
        order = o.id;
        previous_status = o.status;
        new_status = cancelled;
        changed_by = actor;
      }
        ∷ s.order_history

give_back_stock-Changes :
    (o : Order) (s s' : Shop)
    → give_back_stock o s ≡ ok s'
    → Changes (return_units o.status) (λ t. demand t o.items) s.inventory s'.inventory
unfolding give_back_stock
give_back_stock-Changes o s s' h = elim (Bool-cases (is_paid o.status)) [
  | inl paid ↦ λ t.
      let (i, run, e) =
        on_stock-eq-ok (restore_stock_for_cancellation o.id o.items) s s' (rw paid at h) in
      rw (paid, e) (restore_stock_for_cancellation-Changes o.id o.items s.inventory i run t)
  | inr unpaid ↦ λ t.
      let (i, run, e) = on_stock-eq-ok (release_reservation o.id o.items) s s' (rw unpaid at h) in
      rw (unpaid, e) (release_reservation-Changes o.id o.items s.inventory i run t)
]

pub give_back_stock-rest :
    (o : Order) (s s' : Shop)
    → give_back_stock o s ≡ ok s'
    → (s'.orders ≡ s.orders) × (s'.order_history ≡ s.order_history)
unfolding give_back_stock
give_back_stock-rest o s s' h = elim (Bool-cases (is_paid o.status)) [
  | inl paid ↦
      let (i, run, e) =
        on_stock-eq-ok (restore_stock_for_cancellation o.id o.items) s s' (rw paid at h) in
      (ap (λ s. s.orders) e, ap (λ s. s.order_history) e)
  | inr unpaid ↦
      let (i, run, e) = on_stock-eq-ok (release_reservation o.id o.items) s s' (rw unpaid at h) in
      (ap (λ s. s.orders) e, ap (λ s. s.order_history) e)
]

cancelled_is_new : (o : OrderStatus) → is_cancellable o ≡ true → same_status o cancelled ≡ false
cancelled_is_new o may = ground arith

-- A cancellation that goes through found the row in a cancellable status, marks it cancelled, gives
-- back what it held (stock on hand if it was paid, its reservation if not), writes one audit entry
-- in the canceller's name, and touches no other order.
pub cancel_order-Cancelled :
    (obj o : Order) (actor : Option ℕ) (s s' : Shop)
    → s.orders obj.id ≡ some o
    → o.id ≡ obj.id
    → cancel_order obj actor s ≡ ok s'
    → Cancelled o actor s s'
unfolding cancel_order
cancel_order-Cancelled obj o actor s s' found key h = elim (Result-cases (give_back_stock o s)) [
  | inr (e, failed) ↦ absurd (ground arith)
  | inl (m, back) ↦ elim (Result-cases (save_status obj.id cancelled actor false m)) [
    | inr (e, failed) ↦ absurd (ground arith)
    | inl (u, saved) ↦
        let (orders, history) = give_back_stock-rest o s m back in
        let w = save_status-Saved obj.id cancelled actor false o m u (rw orders found) saved in
        let stock : s'.inventory ≡ m.inventory = ground (arith, w.stock_same) in
        record {
          was_cancellable = ground arith;
          orders_put = ground (arith, w.orders_put);
          stock_returned = rw stock (give_back_stock-Changes o s m back);
          history_logged = ground (arith, w.history_logged, cancelled_is_new o.status);
        }
  ]
]
