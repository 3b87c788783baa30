-- ===== src/Cart/CheckoutPage/Answered.antt =====
-- What a post of the checkout page comes to, from the form to the order that it leaves.
use shop_orbit.Base.{
  ℕ, ◌≡◌, refl, ap, ◌∙◌, ◌⊎◌, inl, inr, true, Option, none, some, List, [], ◌∷◌, Result, Error, ok,
  err, insufficient_stock, arith, Result-cases, Bool-cases, Option-cases, ==_refl,
}
use shop_orbit.Cart.Checkout.{
  Form, place_order, out_of_stock_items, new_order, uses_coupon, order_discount,
}
use shop_orbit.Cart.Checkout.Placed.{place_order-writes}
use shop_orbit.Cart.CheckoutForm.{Post, Cleaned, Django, Lookups, full_clean, FormError}
use shop_orbit.Cart.CheckoutForm.Valid.{IsSound, full_clean-IsSound}
use shop_orbit.Cart.CheckoutPage.{
  Answer, to_payment, answer, submitted, form_of, at_time, checkout_post, shown_discount,
  total_payable,
}
use shop_orbit.Cart.Models.{Order, total_amount, awaiting_payment}
use shop_orbit.Cart.Pricing.{CartItem, Coupon, subtotal, calculate_discount, validate_for}
use shop_orbit.Fulfillment.Services.{is_pincode_serviceable}
use shop_orbit.Inventory.Services.Effects.{demand, hold, Changes, reserve_stock-Changes}
use shop_orbit.Shop.{Shop}
use shop_orbit.Shop.Action.{Action}

-- the discount of the order is the one that the page shows for the same coupon
order_discount-shown :
    (coupon : Option Coupon) (items : List CartItem)
    → order_discount coupon items ≡ shown_discount coupon items
unfolding order_discount uses_coupon shown_discount
order_discount-shown none items = refl
order_discount-shown (some c) items = ground arith

used_discount :
    (coupon : Option Coupon) (c : Coupon) (items : List CartItem)
    → uses_coupon coupon items ≡ true
    → coupon ≡ some c
    → order_discount coupon items ≡ calculate_discount c (subtotal items)
unfolding order_discount
used_discount none c items used there = absurd (ground arith)
used_discount (some b) c items used there = ground arith

-- an order keeps the code of the coupon that it used, and no other
used_code :
    (now user id : ℕ) (form : Form) (items : List CartItem)
    → ((new_order now user form items id).coupon_code ≡ "")
      ⊎ ((c : Coupon) × (form.coupon ≡ some c)
          × ((new_order now user form items id).coupon_code ≡ form.code)
          × ((new_order now user form items id).discount_amount
              ≡ calculate_discount c (subtotal items)))
unfolding new_order
used_code now user id form items = elim (Bool-cases (uses_coupon form.coupon items)) [
  | inr unused ↦ inl (simp unused)
  | inl used ↦ elim (Option-cases form.coupon) [
    | inl missing ↦ absurd (unfold uses_coupon in ground arith)
    | inr (c, there) ↦ inr (c, there, simp used, used_discount form.coupon c items used there)
  ]
]

-- a post that its tests stop leaves the shop as it was; the others have a form without errors
pub answer-cases :
    (items out : List CartItem) (errors : List FormError) (place : Action Answer) (s : Shop)
    → ((answer items out errors place s).1 ≡ s)
      ⊎ ((errors ≡ []) × (answer items out errors place s ≡ place s))
answer-cases [] out errors place s = inl refl
answer-cases (i ∷ items) (o ∷ out) errors place s = inl refl
answer-cases (i ∷ items) [] (e ∷ errors) place s = inl refl
answer-cases (i ∷ items) [] [] place s = inr (refl, refl)

pub submitted-err : (e : Error) (s : Shop) → (submitted (err e) s).1 ≡ s
submitted-err (insufficient_stock left) s = refl
submitted-err _ s = refl

module _ (django : Django) (rows : Lookups) (now user : ℕ) (post : Post) where
  abbrev pub cleaned_of : Shop → Cleaned
  cleaned_of s = (full_clean django (at_time rows now s) user (subtotal (s.carts user)) post).1

  -- The order that a post has left, and what the buyer and the shop may rely on
  pub record Ordered (s s' : Shop) : Type 0 where
    pub order : Order
    pub saved : s'.orders s.next_id ≡ some order
    pub awaits : order.status ≡ awaiting_payment
    pub delivered : is_pincode_serviceable order.shipping_postal_code rows.pincodes ≡ true
    pub coded :
        (order.coupon_code ≡ "")
        ⊎ ((c : Coupon) × (rows.coupon_of order.coupon_code ≡ some c)
            × (validate_for c now user (subtotal (s.carts user)) s.redemptions ≡ none)
            × (order.discount_amount ≡ calculate_discount c (subtotal (s.carts user))))
    pub charged : total_amount order ≡ total_payable (cleaned_of s).coupon (s.carts user)
    pub held : Changes hold (λ t. demand t order.items) s.inventory s'.inventory
    pub emptied : s'.carts user ≡ []

  abbrev pub form_in : Shop → Form
  form_in s = form_of (cleaned_of s) post.save_address

  coupon_kept :
      (s : Shop)
      → IsSound django (at_time rows now s) user (subtotal (s.carts user)) post (cleaned_of s)
      → ((new_order now user (form_in s) (s.carts user) s.next_id).coupon_code ≡ "")
        ⊎ ((c : Coupon) × (rows.coupon_of
                (new_order now user (form_in s) (s.carts user) s.next_id).coupon_code
              ≡ some c)
            × (validate_for c now user (subtotal (s.carts user)) s.redemptions ≡ none)
            × ((new_order now user (form_in s) (s.carts user) s.next_id).discount_amount
                ≡ calculate_discount c (subtotal (s.carts user))))
  coupon_kept s sound = elim (used_code now user s.next_id (form_in s) (s.carts user)) [
    | inl uncoded ↦ inl uncoded
    | inr (c, used, kept, less) ↦
        let (fine, code, at, known) = sound.redeemable c used in
        let same : (form_in s).code ≡ code = simp at in
        inr (c, ap rows.coupon_of (kept ∙ same) ∙ known, fine, less)
  ]

  placed-Ordered :
      (s s' : Shop)
      → IsSound django (at_time rows now s) user (subtotal (s.carts user)) post (cleaned_of s)
      → place_order now user (form_in s) s ≡ ok s'
      → Ordered s s'
  unfolding new_order total_amount total_payable
  placed-Ordered s s' sound run =
      let form = form_in s in
      let items = s.carts user in
      let o = new_order now user form items s.next_id in
      let (i, orders, stock, reserved, empty) = place_order-writes now user form s s' run in
      let (code, at, fine) = sound.delivered_to in
      record {
        order = o;
        saved = ap (λ f. f s.next_id) orders ∙ simp (==_refl s.next_id);
        awaits = refl;
        delivered = simp at fine;
        coded = coupon_kept s sound;
        charged = rw (order_discount-shown (cleaned_of s).coupon items) refl;
        held = λ t. rw stock (reserve_stock-Changes o.id o.items s.inventory i reserved t);
        emptied = empty;
      }

  -- A post of the checkout page, whatever it holds, either leaves the shop as it was, or answers with the
  -- payment of the order that it has left: that order awaits its payment, goes to a pincode that is
  -- served, has no coupon or one that its rules let this buyer use, charges what the page shows for it,
  -- and holds the units of its lines, and the cart is empty.
  pub checkout_post-Ordered :
      (s : Shop)
      → ((checkout_post django rows now user post s).1 ≡ s)
        ⊎ (((checkout_post django rows now user post s).0 ≡ ok (to_payment s.next_id))
            × Ordered s (checkout_post django rows now user post s).1)
  unfolding checkout_post
  checkout_post-Ordered s =
      let items = s.carts user in
      let parts = full_clean django (at_time rows now s) user (subtotal items) post in
      let run = place_order now user (form_in s) s in
      let place : Action Answer = λ t. submitted (place_order now user (form_in s) t) t in
      let out = out_of_stock_items s.inventory items in
      elim (answer-cases items out parts.0 place s) [
        | inl same ↦ inl same
        | inr (valid, placing) ↦ elim (Result-cases run) [
          | inr (e, failed) ↦ inl (
              ap (λ (r : Result Answer × Shop). r.1) placing
              ∙ ap (λ r. (submitted r s).1) failed
              ∙ submitted-err e s)
          | inl (s', went) ↦
              let sound =
                full_clean-IsSound django (at_time rows now s) user (subtotal items) post valid in
              let reached = placing ∙ ap (λ r. submitted r s) went in
              inr (
                ap (λ (r : Result Answer × Shop). r.0) reached,
                rw (ap (λ (r : Result Answer × Shop). r.1) reached)
                    (placed-Ordered s s' sound went),
              )
        ]
      ]
