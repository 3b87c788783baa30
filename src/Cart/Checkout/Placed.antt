-- ===== src/Cart/Checkout/Placed.antt =====
-- What an order that was placed, or retried, comes to and holds.
use shop_orbit.Base.{
  ℕ, ◌≡◌, refl, sym, ap, ◌∙◌, ◌+◌, max, false, Option, none, some, List, [], ◌∷◌, ok, arith,
  ==_refl, sum_by, put, >>=-eq-ok, ok-injective,
}
use shop_orbit.Cart.Models.{Order, line_total, awaiting_payment, payment_failed}
use shop_orbit.Cart.Pricing.{CartItem, Coupon, subtotal, auto_promo_discount}
use shop_orbit.Cart.Checkout.{
  Form, order_discount, uses_coupon, coupon_discount, order_item, order_items, new_order,
  place_order, payment_retry, redeem, keep_address, insert_order, reopen,
}
use shop_orbit.Inventory.Models.{Inventory}
use shop_orbit.Inventory.Services.{reserve_stock}
use shop_orbit.Inventory.Services.Effects.{demand, hold, Changes, reserve_stock-Changes}
use shop_orbit.Shop.{Shop, on_stock, save_status}
use shop_orbit.Shop.Saves.{save_status-Saved, on_stock-eq-ok}

-- The discount of an order is the larger of the automatic one and the coupon's.
order_discount-max :
    (coupon : Option Coupon) (items : List CartItem)
    → order_discount coupon items
      ≡ max (auto_promo_discount items) (coupon_discount coupon (subtotal items))
unfolding order_discount uses_coupon
order_discount-max none items = ground arith
order_discount-max (some c) items = ground arith

-- The lines of the order are charged what the cart showed.
order_items-subtotal :
    (id order : ℕ) (items : List CartItem)
    → sum_by line_total (order_items id order items) ≡ subtotal items
unfolding order_items order_item
order_items-subtotal id order [] = refl
order_items-subtotal id order (i ∷ items) = omega (arith, order_items-subtotal (id + 1) order items)

redeem-same :
    (coupon : Option Coupon) (items : List CartItem) (order : Order) (s : Shop)
    → ((redeem coupon items order s).orders ≡ s.orders)
      × ((redeem coupon items order s).inventory ≡ s.inventory)
redeem-same none items order s = (refl, refl)
redeem-same (some c) items order s = ground arith

keep_address-same :
    (user : ℕ) (form : Form) (s : Shop)
    → ((keep_address user form s).orders ≡ s.orders)
      × ((keep_address user form s).inventory ≡ s.inventory)
keep_address-same user form s = ground arith

-- The order and the stock that a checkout that goes through has written.
pub place_order-writes :
    (now user : ℕ) (form : Form) (s s' : Shop)
    → place_order now user form s ≡ ok s'
    → (i : Inventory) × (s'.orders
        ≡ put s.next_id (new_order now user form (s.carts user) s.next_id) s.orders)
      × (s'.inventory ≡ i)
      × (reserve_stock s.next_id
            (new_order now user form (s.carts user) s.next_id).items
            s.inventory
          ≡ ok i)
      × (s'.carts user ≡ [])
unfolding place_order new_order
place_order-writes now user form s s' h =
    let items = s.carts user in
    let order = new_order now user form items s.next_id in
    let (m, held, rest) =
      >>=-eq-ok (on_stock (reserve_stock order.id order.items) (insert_order order s)) _ h in
    let (i, run, e) =
      on_stock-eq-ok (reserve_stock order.id order.items) (insert_order order s) m held in
    let done = sym (ok-injective rest) in
    let redeemed = redeem form.coupon items order m in
    let orders : s'.orders ≡ put order.id order s.orders =
      ap Shop.orders done
      ∙ (keep_address-same user form redeemed).0
      ∙ (redeem-same form.coupon items order m).0
      ∙ ap Shop.orders e in
    let stock : s'.inventory ≡ i =
      ap Shop.inventory done
      ∙ (keep_address-same user form redeemed).1
      ∙ (redeem-same form.coupon items order m).1
      ∙ ap Shop.inventory e in
    (i, orders, stock, run, ap (λ (w : Shop). w.carts user) done ∙ simp (==_refl user))

-- A checkout that goes through leaves an order that awaits payment, holds the units of its lines, charges
-- what the cart showed, and empties the cart.
place_order_placed :
    (now user : ℕ) (form : Form) (s s' : Shop)
    → place_order now user form s ≡ ok s'
    → (o : Order) × (s'.orders s.next_id ≡ some o)
      × (o.status ≡ awaiting_payment)
      × (sum_by line_total o.items ≡ o.subtotal_amount)
      × (o.subtotal_amount ≡ subtotal (s.carts user))
      × Changes hold (λ t. demand t o.items) s.inventory s'.inventory
      × (s'.carts user ≡ [])
unfolding place_order new_order
place_order_placed now user form s s' h =
    let order = new_order now user form (s.carts user) s.next_id in
    let (i, orders, stock, run, emptied) = place_order-writes now user form s s' h in
    (
      order,
      ap (λ f. f s.next_id) orders ∙ simp (==_refl s.next_id),
      refl,
      order_items-subtotal (s.next_id + 1) s.next_id (s.carts user),
      refl,
      λ t. rw stock (reserve_stock-Changes order.id order.items s.inventory i run t),
      emptied,
    )

-- A retry of an order whose payment failed puts it back to awaiting payment and holds the units of its
-- lines again.
payment_retry_reopens :
    (o : Order) (s s' : Shop)
    → s.orders o.id ≡ some o
    → o.status ≡ payment_failed
    → payment_retry o s ≡ ok s'
    → (s'.orders o.id ≡ some (record o { status = awaiting_payment }))
      × Changes hold (λ t. demand t o.items) s.inventory s'.inventory
unfolding payment_retry reopen
payment_retry_reopens o s s' found unpaid h =
    let opened : payment_retry o s ≡ reopen o s = simp unpaid in
    let (m, held, rest) =
      >>=-eq-ok (on_stock (reserve_stock o.id o.items) s)
        (save_status o.id awaiting_payment none false) (sym opened ∙ h) in
    let (i, run, e) = on_stock-eq-ok (reserve_stock o.id o.items) s m held in
    let w =
      save_status-Saved o.id awaiting_payment none false o m s'
        (ap (λ (x : Shop). x.orders o.id) e ∙ found) rest in
    (
      ap (λ f. f o.id) w.orders_put ∙ simp (==_refl o.id),
      λ t. rw (w.stock_same, e) (reserve_stock-Changes o.id o.items s.inventory i run t),
    )
