-- ===== src/Cart/CheckoutPage/Limits.antt =====
-- The limits of a coupon, through the posts of the checkout page.
use Prim.Native.String.{String}
use mathlib.Core.Path.{subst}
use shop_orbit.Base.{
  ℕ, ◌≡◌, refl, sym, ap, ◌∙◌, ◌⊎◌, ◌≤◌, ◌<◌, inl, inr, false, Option, none, some, List, ◌∷◌, Result,
  ok, arith, ◌==◌, Bool-cases, Result-cases, >>=-eq-ok, ok-injective,
}
use shop_orbit.Cart.Checkout.{
  Form, place_order, out_of_stock_items, new_order, redeem, keep_address, insert_order, uses_coupon,
}
use shop_orbit.Cart.CheckoutForm.{Post, Django, Lookups, full_clean}
use shop_orbit.Cart.CheckoutForm.Valid.{full_clean-IsSound}
use shop_orbit.Cart.CheckoutPage.{Answer, submitted, at_time, checkout_post}
use shop_orbit.Cart.CheckoutPage.Answered.{answer-cases, submitted-err, form_in}
use shop_orbit.Cart.Models.{Order}
use shop_orbit.Cart.Pricing.{CartItem, Coupon, Redemption, subtotal, uses, uses_by, validate_for}
use shop_orbit.Inventory.Services.{reserve_stock}
use shop_orbit.Shop.{Shop, on_stock}
use shop_orbit.Shop.Action.{Action}
use shop_orbit.Shop.Saves.{on_stock-eq-ok}

-- What a checkout adds to the redemptions: nothing, or one row, of the form's coupon and of the buyer
abbrev Redeemed : Option Coupon → ℕ → List Redemption → List Redemption → Type 0
Redeemed coupon user rs rs' =
    (rs' ≡ rs)
    ⊎ ((d : Coupon) × (r : Redemption) × (coupon ≡ some d)
        × (rs' ≡ r ∷ rs)
        × (r.coupon ≡ d.id)
        × (r.user ≡ user))

redeem-Redeemed :
    (coupon : Option Coupon) (items : List CartItem) (order : Order) (s : Shop)
    → Redeemed coupon order.user s.redemptions (redeem coupon items order s).redemptions
redeem-Redeemed none items order s = inl refl
redeem-Redeemed (some d) items order s = elim (Bool-cases (uses_coupon (some d) items)) [
  | inr unused ↦ inl (simp unused refl)
  | inl used ↦ inr (
    d,
    record {
      coupon = d.id;
      user = order.user;
      order = order.id;
      discount_amount = order.discount_amount;
    },
    refl,
    simp used refl,
    refl,
    refl,
  )
]

keep_address-redemptions :
    (user : ℕ) (form : Form) (s : Shop) → (keep_address user form s).redemptions ≡ s.redemptions
keep_address-redemptions user form s = ground arith

place_order-Redeemed :
    (now user : ℕ) (form : Form) (s s' : Shop)
    → place_order now user form s ≡ ok s'
    → Redeemed form.coupon user s.redemptions s'.redemptions
unfolding place_order new_order
place_order-Redeemed now user form s s' h =
    let items = s.carts user in
    let order = new_order now user form items s.next_id in
    let (m, held, rest) =
      >>=-eq-ok (on_stock (reserve_stock order.id order.items) (insert_order order s)) _ h in
    let (i, run, e) =
      on_stock-eq-ok (reserve_stock order.id order.items) (insert_order order s) m held in
    let before : m.redemptions ≡ s.redemptions = ap (λ (x : Shop). x.redemptions) e in
    let after : s'.redemptions ≡ (redeem form.coupon items order m).redemptions =
      ap (λ (x : Shop). x.redemptions) (sym (ok-injective rest))
      ∙ keep_address-redemptions user form (redeem form.coupon items order m) in
    subst (λ rs. Redeemed form.coupon user rs s'.redemptions) before
      (subst (Redeemed form.coupon user m.redemptions) (sym after)
        (redeem-Redeemed form.coupon items order m))

-- a coupon that was found valid for the buyer, and was not used up
valid-within :
    (c : Coupon) (now user total : ℕ) (rs : List Redemption) (r : Redemption)
    → validate_for c now user total rs ≡ none
    → r.user ≡ user
    → ((limit : ℕ) → c.usage_limit ≡ some limit → uses c (r ∷ rs) ≤ limit)
      × (0 < c.per_user_limit → uses_by c user (r ∷ rs) ≤ c.per_user_limit)
unfolding validate_for
valid-within c now user total rs r valid of_user =
    (λ limit limited. ground arith, λ per_user. ground arith)

-- The redemptions of the coupon are within its limit overall, and each buyer's within the limit for each, where
-- it has them (a limit of 0 for each buyer is none).
pub record IsWithin (c : Coupon) (rs : List Redemption) : Type 0 where
  pub overall : (limit : ℕ) → c.usage_limit ≡ some limit → uses c rs ≤ limit
  pub each : 0 < c.per_user_limit → (u : ℕ) → uses_by c u rs ≤ c.per_user_limit

others-IsWithin :
    (c : Coupon) (r : Redemption) (rs : List Redemption)
    → (r.coupon == c.id) ≡ false
    → IsWithin c rs
    → IsWithin c (r ∷ rs)
others-IsWithin c r rs other w = record {
  overall = λ limit limited. ground (arith, w.overall limit limited);
  each = λ some_limit u. ground (arith, w.each some_limit u);
}

own-IsWithin :
    (c : Coupon) (now user total : ℕ) (rs : List Redemption) (r : Redemption)
    → validate_for c now user total rs ≡ none
    → r.user ≡ user
    → IsWithin c rs
    → IsWithin c (r ∷ rs)
own-IsWithin c now user total rs r valid of_user w =
    let (overall, own) = valid-within c now user total rs r valid of_user in
    record {
      overall = overall;
      each = λ some_limit u. elim (Bool-cases (user == u)) [
        | inl same ↦
            let e : user ≡ u = ground arith in
            subst (λ v. uses_by c v (r ∷ rs) ≤ c.per_user_limit) e (own some_limit)
        | inr other ↦ ground (arith, w.each some_limit u)
      ];
    }

module _ (django : Django) (rows : Lookups) (now user : ℕ) (post : Post) where
  -- A coupon that is the only one with its key, and whose redemptions are within its limits, overall and for each
  -- buyer, is so after any post of the checkout page, whatever the post holds, whichever coupon it names
  -- and however it ends.
  pub checkout_post-IsWithin :
      (c : Coupon) (s : Shop)
      → ((code : String) (d : Coupon) → rows.coupon_of code ≡ some d → d.id ≡ c.id → d ≡ c)
      → IsWithin c s.redemptions
      → IsWithin c (checkout_post django rows now user post s).1.redemptions
  unfolding checkout_post
  checkout_post-IsWithin c s only within =
      let items = s.carts user in
      let form = form_in django rows now user post s in
      let parts = full_clean django (at_time rows now s) user (subtotal items) post in
      let place : Action Answer = λ t. submitted (place_order now user form t) t in
      let out = out_of_stock_items s.inventory items in
      elim (answer-cases items out parts.0 place s) [
        | inl same ↦ subst (λ (x : Shop). IsWithin c x.redemptions) (sym same) within
        | inr (valid, placing) ↦ elim (Result-cases (place_order now user form s)) [
          | inr (e, failed) ↦
              let same =
                ap (λ (r : Result Answer × Shop). r.1) placing
                ∙ ap (λ r. (submitted r s).1) failed
                ∙ submitted-err e s in
              subst (λ (x : Shop). IsWithin c x.redemptions) (sym same) within
          | inl (s', went) ↦
              let sound =
                full_clean-IsSound django (at_time rows now s) user (subtotal items) post valid in
              let reached =
                ap (λ (r : Result Answer × Shop). r.1) (placing ∙ ap (λ r. submitted r s) went) in
              subst (λ (x : Shop). IsWithin c x.redemptions) (sym reached)
                (elim (place_order-Redeemed now user form s s' went) [
                  | inl kept ↦ subst (IsWithin c) (sym kept) within
                  | inr (d, r, used, grown, of_coupon, of_user) ↦
                      let (fine, code, _, known) = sound.redeemable d used in
                      subst (IsWithin c) (sym grown) (elim (Bool-cases (r.coupon == c.id)) [
                        | inr other ↦ others-IsWithin c r s.redemptions other within
                        | inl own ↦
                            let same : d ≡ c = only code d known (ground arith) in
                            own-IsWithin c now user (subtotal items) s.redemptions r
                              (subst
                                (λ x. validate_for x now user (subtotal items) s.redemptions ≡ none)
                                same fine)
                              of_user within
                      ])
                ])
        ]
      ]
