-- ===== src/Cart/CheckoutPage.antt =====
-- The `checkout` view of cart/views.py around its transaction: which answer a post gets, and the coupon and
-- the discount that the page shows before.
pub mod Answered
pub mod Limits
use Prim.Native.String.{String}
use shop_orbit.Base.{
  ℕ, Bool, true, false, Option, none, some, List, [], ◌∷◌, Result, ok, err, insufficient_stock, ltb,
  leb, ◌&&◌, if◌then◌else◌, ℤ, pos, ◌-ℤ◌,
}
use shop_orbit.Cart.Checkout.{Form, out_of_stock_items, place_order}
use shop_orbit.Cart.CheckoutForm.{
  Post, Cleaned, FormError, Django, Lookups, SavedAddress, full_clean, is_blank, state, postal_code,
  coupon_code,
}
use shop_orbit.Cart.Pricing.{
  CartItem, Coupon, subtotal, auto_promo_discount, calculate_discount, validate_for,
}
use shop_orbit.Shop.{Shop}
use shop_orbit.Shop.Action.{Action}

-- A redirect to the cart or to the payment of an order, or the page again: with the form's errors, the lines
-- that are out of stock, and the message of an `InsufficientStockError`
pub data Answer : Type 0 where
  to_cart : Answer
  to_payment : ℕ → Answer
  page : List FormError → List CartItem → Option ℕ → Answer

abbrev text_of : Option String → String
text_of none = ""
text_of (some t) = t

abbrev has_address : Option SavedAddress → Bool
has_address none = false
has_address (some a) = true

-- `form.save(commit=False)` and the `cleaned_data` that the transaction reads
abbrev pub form_of : Cleaned → Bool → Form
form_of c save = record {
  state = text_of (c.entry state);
  postal_code = text_of (c.entry postal_code);
  code = text_of (c.entry coupon_code);
  coupon = c.coupon;
  has_saved_address = has_address c.address;
  save_address = save;
}

-- `try: ... except InsufficientStockError: ... else: return redirect(...)`
abbrev pub submitted : Result Shop → Action Answer
submitted (ok s') s = (ok (to_payment s.next_id), s')
submitted (err (insufficient_stock left)) s = (ok (page [] [] (some left)), s)
submitted (err e) s = (err e, s)

-- The tests of a post: an empty cart, lines out of stock, an invalid form
abbrev pub answer : List CartItem → List CartItem → List FormError → Action Answer → Action Answer
answer [] out errors place s = (ok to_cart, s)
answer (i ∷ items) (o ∷ out) errors place s = (ok (page errors (o ∷ out) none), s)
answer (i ∷ items) [] (e ∷ errors) place s = (ok (page (e ∷ errors) [] none), s)
answer (i ∷ items) [] [] place s = place s

-- What the form looks up in this shop, at this time
abbrev pub at_time : Lookups → ℕ → Shop → Lookups
at_time rows now s = record rows { redemptions = s.redemptions; now = now }

module _ (django : Django) (rows : Lookups) (now user : ℕ) where
  -- `checkout` on a POST
  unfoldable pub checkout_post : Post → Action Answer
  unfolding full_clean
  checkout_post post s =
      let items = s.carts user in
      let (errors, cleaned) = full_clean django (at_time rows now s) user (subtotal items) post in
      answer items (out_of_stock_items s.inventory items) errors
        (λ t. submitted (place_order now user (form_of cleaned post.save_address) t) t) s

  -- `applied_coupon` on a GET, by the `coupon_code` of the query
  unfoldable pub preview_coupon : String → Shop → Option Coupon
  preview_coupon raw s =
      let code = django.upper (django.strip raw) in
      if is_blank code then none else elim (rows.coupon_of code) [
        | none ↦ none
        | some c ↦ elim (validate_for c now user (subtotal (s.carts user)) s.redemptions) [
          | none ↦ some c
          | some e ↦ none
        ]
      ]

-- `discount_amount` of the page
unfoldable pub shown_discount : Option Coupon → List CartItem → ℕ
shown_discount coupon items =
    let coupon_discount : ℕ = elim coupon [
      | none ↦ 0
      | some c ↦ calculate_discount c (subtotal items)
    ] in
    let promo = if ltb 0 (auto_promo_discount items) then auto_promo_discount items else 0 in
    elim coupon [
      | none ↦ promo
      | some c ↦
          if leb (auto_promo_discount items) coupon_discount && ltb 0 coupon_discount
          then coupon_discount
          else promo
    ]

-- `total_payable`
unfoldable pub total_payable : Option Coupon → List CartItem → ℤ
unfolding shown_discount
total_payable coupon items = pos (subtotal items) -ℤ pos (shown_discount coupon items)
