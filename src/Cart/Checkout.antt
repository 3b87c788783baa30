-- ===== src/Cart/Checkout.antt =====
-- The `checkout` and `payment_retry` views of cart/views.py, as far as they write: the transaction that
-- turns a cart into an order, and a fresh payment attempt. The form is an argument, as it was validated.
pub mod Placed
use Prim.Native.String.{String}
use shop_orbit.Base.{
  ℕ, ◌+◌, Bool, true, false, Option, none, some, List, [], ◌∷◌, Result, ok, bad_status, not, ◌&&◌,
  ◌||◌, ltb, leb, put, ◌==◌, if◌then◌else◌, ◌>>=◌, ◌>>◌, raise_if, length,
}
use shop_orbit.Accounts.Services.{create_address}
use shop_orbit.Cart.Models.{Order, OrderItem, same_status, awaiting_payment, payment_failed}
use shop_orbit.Cart.Pricing.{
  CartItem, Coupon, unit_price, subtotal, auto_promo_discount, calculate_discount, available_stock,
}
use shop_orbit.Inventory.Models.{Inventory}
use shop_orbit.Inventory.Services.{reserve_stock}
use shop_orbit.Shop.{Shop, on_stock, save_status}

-- What the checkout form holds once it is valid; `coupon` is the coupon that its code names.
pub record Form : Type 0 where
  pub state : String
  pub postal_code : String
  pub code : String
  pub coupon : Option Coupon
  pub has_saved_address : Bool
  pub save_address : Bool

-- `_out_of_stock_items(cart_items)`
unfoldable pub out_of_stock_items : Inventory → List CartItem → List CartItem
out_of_stock_items s [] = []
out_of_stock_items s (i ∷ items) =
    let rest = out_of_stock_items s items in
    if ltb (available_stock s i) i.quantity then i ∷ rest else rest

abbrev pub coupon_discount : Option Coupon → ℕ → ℕ
coupon_discount none total = 0
coupon_discount (some c) total = calculate_discount c total

abbrev is_given {ℓ} : {A : Type ℓ} → Option A → Bool
is_given none = false
is_given (some a) = true

-- `use_coupon`, and the discount of the order
unfoldable pub uses_coupon : Option Coupon → List CartItem → Bool
uses_coupon coupon items =
    let discount = coupon_discount coupon (subtotal items) in
    is_given coupon && leb (auto_promo_discount items) discount && ltb 0 discount

unfoldable pub order_discount : Option Coupon → List CartItem → ℕ
unfolding uses_coupon
order_discount coupon items =
    if uses_coupon coupon items
    then coupon_discount coupon (subtotal items)
    else if ltb 0 (auto_promo_discount items)
    then auto_promo_discount items
    else 0

-- `OrderItem.objects.create(...)`
unfoldable pub order_item : ℕ → ℕ → CartItem → OrderItem
order_item id order i = record {
  id = id;
  order = order;
  product = some i.product_id;
  variant = elim i.variant [ none ↦ none | some (v, row) ↦ some v ];
  unit_price = unit_price i;
  quantity = i.quantity;
  gst_rate = i.product.gst_rate;
}

unfoldable pub order_items : ℕ → ℕ → List CartItem → List OrderItem
unfolding order_item
order_items id order [] = []
order_items id order (i ∷ items) = order_item id order i ∷ order_items (id + 1) order items

unfoldable pub new_order : ℕ → ℕ → Form → List CartItem → ℕ → Order
unfolding order_items uses_coupon order_discount
new_order now user form items id = record {
  id = id;
  user = user;
  status = awaiting_payment;
  created_at = now;
  shipping_state = form.state;
  shipping_postal_code = form.postal_code;
  subtotal_amount = subtotal items;
  discount_amount = order_discount form.coupon items;
  coupon_code = if uses_coupon form.coupon items then form.code else "";
  items = order_items (id + 1) id items;
}

-- `CouponRedemption.objects.create(...)`, where the coupon is used
abbrev pub redeem : Option Coupon → List CartItem → Order → Shop → Shop
redeem none items order s = s
redeem (some c) items order s =
    if uses_coupon (some c) items
    then record s {
      redemptions =
          record {
            coupon = c.id;
            user = order.user;
            order = order.id;
            discount_amount = order.discount_amount;
          }
          ∷ s.redemptions;
    }
    else s

-- `create_address(...)`, where the buyer asked for it
abbrev pub keep_address : ℕ → Form → Shop → Shop
keep_address user form s =
    if not form.has_saved_address && form.save_address
    then record s {
      addresses = create_address user s.next_id false s.addresses;
      next_id = s.next_id + 1;
    }
    else s

-- The rows that are there before the reservation
abbrev pub insert_order : Order → Shop → Shop
insert_order order s = record s {
  orders = put order.id order s.orders;
  next_id = order.id + 1 + length order.items;
}

-- `cart.items.all().delete()`
abbrev clear_cart : ℕ → Shop → Shop
clear_cart user s = record s { carts = λ j. if user == j then [] else s.carts j }

-- The transaction of `checkout`, on the lines of the cart: the order's key is the next one
unfoldable pub place_order : ℕ → ℕ → Form → Shop → Result Shop
unfolding new_order
place_order now user form s =
    let items = s.carts user in
    let order = new_order now user form items s.next_id in
    on_stock (reserve_stock order.id order.items) (insert_order order s) >>= λ held.
    ok (clear_cart user (keep_address user form (redeem form.coupon items order held)))

-- the order of a failed payment, with its stock held again
unfoldable pub reopen : Order → Shop → Result Shop
reopen o s =
    on_stock (reserve_stock o.id o.items) s >>= save_status o.id awaiting_payment none false

-- `payment_retry` up to the new payment attempt, on the order that the request loaded
unfoldable pub payment_retry : Order → Shop → Result Shop
unfolding reopen
payment_retry o s = do
  raise_if (not (same_status o.status awaiting_payment || same_status o.status payment_failed))
      bad_status
  if same_status o.status payment_failed then reopen o s else ok s
