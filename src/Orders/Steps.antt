-- ===== src/Orders/Steps.antt =====
-- The calls of the program that change an order or the stock, as steps of the shop, each with the key of
-- the order that it is about. A step may be a call that raised after a part of it was committed.
pub mod Balance
pub mod Effects
pub mod Later
pub mod Runs
use shop_orbit.Base.{ℕ, ◌≡◌, ◌≢◌, ◌<◌, Option, none, some, ok}
use shop_orbit.Cart.Checkout.{Form, place_order, payment_retry}
use shop_orbit.Cart.Models.{Order, awaiting_payment, payment_failed}
use shop_orbit.Cart.Services.{cancel_order, accept_order, mark_order_packed, expire_order}
use shop_orbit.Fulfillment.Models.{Shipment}
use shop_orbit.Fulfillment.Services.{Env}
use shop_orbit.Payments.Models.{Payment, Refund}
use shop_orbit.Payments.Pipeline.{on_payment_captured, on_payment_failed, on_refund_processed}
use shop_orbit.Shop.{Shop, save_shipment}

-- The row of the order `id` is `o`, under its own key.
abbrev pub IsRow : ℕ → Order → Shop → Type 0
IsRow id o s = (s.orders id ≡ some o) × (o.id ≡ id)

-- `place` takes a key that no order has, as the database hands it out. `retry` is made with the row as it
-- stands. `cancel` leaves out the orders whose payment failed, and `ship` and `refund` those that await
-- their payment.
pub data OrderStep (id : ℕ) (s s' : Shop) : Type 0 where
  place :
      (now user : ℕ) (form : Form)
      → s.next_id ≡ id
      → s.orders id ≡ none
      → place_order now user form s ≡ ok s'
      → OrderStep id s s'
  capture :
      (env : Env) (p : Payment)
      → p.order ≡ id
      → (on_payment_captured env p s).1 ≡ s'
      → OrderStep id s s'
  fail : (p : Payment) → p.order ≡ id → (on_payment_failed p s).1 ≡ s' → OrderStep id s s'
  expire : (obj : Order) → obj.id ≡ id → expire_order obj s ≡ ok (some s') → OrderStep id s s'
  retry : (o : Order) → IsRow id o s → payment_retry o s ≡ ok s' → OrderStep id s s'
  cancel :
      (obj o : Order) (actor : Option ℕ)
      → obj.id ≡ id
      → IsRow id o s
      → o.status ≢ payment_failed
      → cancel_order obj actor s ≡ ok s'
      → OrderStep id s s'
  accept :
      (obj : Order) (actor : Option ℕ)
      → obj.id ≡ id
      → accept_order obj actor s ≡ ok s'
      → OrderStep id s s'
  pack :
      (obj : Order) (actor : Option ℕ)
      → obj.id ≡ id
      → mark_order_packed obj actor s ≡ ok s'
      → OrderStep id s s'
  ship :
      (sh : Shipment) (o : Order) (actor : Option ℕ)
      → sh.order ≡ id
      → IsRow id o s
      → o.status ≢ awaiting_payment
      → save_shipment sh actor s ≡ ok s'
      → OrderStep id s s'
  refund :
      (r : Refund) (p : Payment) (o : Order)
      → p.order ≡ id
      → IsRow id o s
      → o.status ≢ awaiting_payment
      → (on_refund_processed r p s).1 ≡ s'
      → OrderStep id s s'

-- A run of steps, all of them of orders whose keys are below `n`.
pub data Run (n : ℕ) (s : Shop) : Shop → Type 0 where
  here : Run n s s
  next : {t u : Shop} → Run n s t → (id : ℕ) → id < n → OrderStep id t u → Run n s u
