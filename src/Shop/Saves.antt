-- ===== src/Shop/Saves.antt =====
-- What saving an order's status changes, and what it leaves alone.
use shop_orbit.Base.{
  ℕ, ◌≡◌, Bool, Option, some, List, ◌∷◌, ok, arith, if◌then◌else◌, put, Result, >>=-eq-ok,
  ok-injective, sym,
}
use shop_orbit.Cart.Models.{OrderStatus, Order, StatusChange, same_status}
use shop_orbit.Inventory.Models.{Inventory}
use shop_orbit.Shop.{on_stock, Shop, save_status}

-- The audit entries that a status change adds: one, or none if the status is the same.
abbrev pub logged : ℕ → OrderStatus → OrderStatus → Option ℕ → List StatusChange → List StatusChange
logged id old new actor h =
    if same_status old new
    then h
    else record { order = id; previous_status = old; new_status = new; changed_by = actor } ∷ h

-- Everything that `save_status` does to the shop, when it goes through on the row `o`.
pub record Saved (id : ℕ) (o : Order) (new : OrderStatus) (actor : Option ℕ) (s s' : Shop)
    : Type 0 where
  pub stock_same : s'.inventory ≡ s.inventory
  pub orders_put : s'.orders ≡ put id (record o { status = new }) s.orders
  pub history_logged : s'.order_history ≡ logged id o.status new actor s.order_history
  pub shipments_same : s'.shipments ≡ s.shipments
  pub invoices_same : s'.invoices ≡ s.invoices
  pub payments_same : s'.payments ≡ s.payments
  pub refunds_same : s'.refunds ≡ s.refunds
  pub returns_same : s'.returns ≡ s.returns
  pub webhooks_same : s'.webhooks ≡ s.webhooks

pub save_status-Saved :
    (id : ℕ) (new : OrderStatus) (actor : Option ℕ) (skip : Bool) (o : Order) (s s' : Shop)
    → s.orders id ≡ some o
    → save_status id new actor skip s ≡ ok s'
    → Saved id o new actor s s'
unfolding save_status
save_status-Saved id new actor skip o s s' found h = ground arith

-- A function of the inventory that went through left the rest of the shop alone.
pub on_stock-eq-ok :
    (f : Inventory → Result Inventory) (s s' : Shop)
    → on_stock f s ≡ ok s'
    → (i : Inventory) × (f s.inventory ≡ ok i) × (s' ≡ record s { inventory = i })
on_stock-eq-ok f s s' h =
    let (i, run, e) = >>=-eq-ok (f s.inventory) (λ i. ok (record s { inventory = i })) h in
    (i, run, sym (ok-injective e))
