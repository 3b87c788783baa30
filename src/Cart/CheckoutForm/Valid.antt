-- ===== src/Cart/CheckoutForm/Valid.antt =====
-- What a checkout form that is valid holds.
use Prim.Native.String.{String}
use text.Mathlib.TextEquality.{eq_iff}
use shop_orbit.Base.{
  ℕ, ◌≡◌, refl, true, false, Option, none, some, List, [], ◌∷◌, ◌++◌, if◌then◌else◌, arith,
  Bool-cases, Option-cases, inl, inr, All, ap, ◌∙◌, sym,
}
use shop_orbit.Cart.CheckoutForm.{
  Field, full_name, phone_number, address_line1, city, state, postal_code, coupon_code,
  saved_address, Post, SavedAddress, FormError, Cleaned, Django, Lookups, Outcome, kept, refused,
  errors_of, gathered, is_blank, full_clean, clean_shipping_postal_code, clean_coupon_code,
  clean_saved_address, clean_fields, clean_data, clean_errors, missing_entry, field_checks,
  missing_checks, address_in, coupon_in, value_of, blocked, code_of, copied,
}
use shop_orbit.Cart.Pricing.{Coupon, validate_for}
use shop_orbit.Fulfillment.Services.{is_pincode_serviceable, pincode_block_reason}

some-injective {ℓ} : {A : Type ℓ} {a b : A} → some a ≡ some b → a ≡ b
some-injective h = cc

append-eq-nil {ℓ} : {A : Type ℓ} (xs ys : List A) → xs ++ ys ≡ [] → (xs ≡ []) × (ys ≡ [])
append-eq-nil [] ys h = (refl, h)
append-eq-nil (x ∷ xs) ys h = absurd (ground arith)

gathered-eq-nil : (xss : List (List FormError)) → gathered xss ≡ [] → All (λ xs. xs ≡ []) xss
gathered-eq-nil [] h = tt
gathered-eq-nil (xs ∷ xss) h =
    let (this, rest) = append-eq-nil xs (gathered xss) h in (this, gathered-eq-nil xss rest)

no_error {ℓ} : {A : Type ℓ} (o : Outcome A) → errors_of o ≡ [] → (a : A) × (o ≡ kept a)
no_error (kept a) h = (a, refl)
no_error (refused e) h = absurd (ground arith)

-- The entry is there and holds some text.
abbrev pub IsFilled : Option String → Type 0
IsFilled entry = (t : String) × (entry ≡ some t) × (is_blank t ≡ false)

present : (f : Field) (entry : Option String) → missing_entry f entry ≡ [] → IsFilled entry
present f none h = absurd (ground arith)
present f (some t) h = (t, refl, ground arith)

missing_fine :
    (c : Cleaned)
    → gathered (missing_checks c.entry) ≡ []
    → IsFilled (c.entry full_name)
      × IsFilled (c.entry phone_number)
      × IsFilled (c.entry address_line1)
      × IsFilled (c.entry city)
      × IsFilled (c.entry state)
      × IsFilled (c.entry postal_code)
missing_fine c h =
    let (n, (p, (l, (t, (r, (z, _)))))) = gathered-eq-nil (missing_checks c.entry) h in
    (
      present full_name (c.entry full_name) n,
      present phone_number (c.entry phone_number) p,
      present address_line1 (c.entry address_line1) l,
      present city (c.entry city) t,
      present state (c.entry state) r,
      present postal_code (c.entry postal_code) z,
    )

module _ (django : Django) (rows : Lookups) (user subtotal : ℕ) (post : Post) where
  abbrev cleaned : Cleaned
  cleaned = clean_data (clean_fields django rows user subtotal post)

  -- What the checkout relies on: the fields are filled in, by the buyer or from the saved address; parcels
  -- go to the pincode; and the coupon, if a code was given, is one that its rules let the buyer use now.
  pub record IsSound (c : Cleaned) : Type 0 where
    pub delivered_to :
        (code : String) × (c.entry postal_code ≡ some code)
        × (is_pincode_serviceable code rows.pincodes ≡ true)
    pub filled :
        c.address ≡ none
        → IsFilled (c.entry full_name)
          × IsFilled (c.entry phone_number)
          × IsFilled (c.entry address_line1)
          × IsFilled (c.entry city)
          × IsFilled (c.entry state)
          × IsFilled (c.entry postal_code)
    copied_from :
        (a : SavedAddress)
        → c.address ≡ some a
        → (c.entry full_name ≡ some (a.column full_name))
          × (c.entry phone_number ≡ some (a.column phone_number))
          × (c.entry address_line1 ≡ some (a.column address_line1))
          × (c.entry city ≡ some (a.column city))
          × (c.entry state ≡ some (a.column state))
          × (c.entry postal_code ≡ some (a.column postal_code))
    pub redeemable :
        (coupon : Coupon)
        → c.coupon ≡ some coupon
        → (validate_for coupon rows.now user subtotal rows.redemptions ≡ none)
          × (code : String) × (c.entry coupon_code ≡ some code)
          × (rows.coupon_of code ≡ some coupon)
    pub uncoded : c.coupon ≡ none → c.entry coupon_code ≡ some ""

  posted_none :
      clean_saved_address django rows user subtotal post ≡ kept none
      → is_blank (post.text saved_address) ≡ true
  posted_none h = elim (Bool-cases (is_blank (post.text saved_address))) [
    | inl blank ↦ blank
    | inr given ↦ absurd (ground (arith, Option-cases (rows.address_of (post.text saved_address))))
  ]

  postal_code_checked :
      (code : String)
      → clean_shipping_postal_code django rows user subtotal post ≡ kept code
      → is_blank (post.text saved_address) ≡ true
      → is_blank code ≡ false
      → is_pincode_serviceable code rows.pincodes ≡ true
  postal_code_checked code h manual filled =
      elim (Option-cases (django.clean postal_code (post.text postal_code))) [
        | inl failed ↦ absurd (ground arith)
        | inr (t, cleaned) ↦ ground arith
      ]

  coupon_checked :
      (code : String) (coupon : Option Coupon)
      → clean_coupon_code django rows user subtotal post ≡ kept (code, coupon)
      → ((c : Coupon)
          → coupon ≡ some c
          → (validate_for c rows.now user subtotal rows.redemptions ≡ none)
            × (rows.coupon_of code ≡ some c))
        × (coupon ≡ none → is_blank code ≡ true)
  coupon_checked code coupon h =
      elim (Option-cases (django.clean coupon_code (post.text coupon_code))) [
        | inl failed ↦ absurd (ground arith)
        | inr (t, cleaned) ↦ elim (Option-cases (rows.coupon_of (django.upper (django.strip t)))) [
          | inl unknown ↦ (λ c e. absurd (ground arith), λ e. ground arith)
          | inr (found, known) ↦
              elim (Option-cases (validate_for found rows.now user subtotal rows.redemptions)) [
                | inl fine ↦ (λ c e. (ground arith, ground arith), λ e. ground arith)
                | inr (why, bad) ↦ (λ c e. absurd (ground arith), λ e. ground arith)
              ]
        ]
      ]

  serviced_address :
      (a : SavedAddress)
      → (if is_pincode_serviceable (a.column postal_code) rows.pincodes
          then []
          else blocked saved_address (pincode_block_reason (a.column postal_code) rows.pincodes)
            ∷ [])
        ≡ []
      → is_pincode_serviceable (a.column postal_code) rows.pincodes ≡ true
  serviced_address a h = ground arith

  module _ (code token : String) (coupon : Option Coupon)
      (postal : clean_shipping_postal_code django rows user subtotal post ≡ kept code)
      (coded : clean_coupon_code django rows user subtotal post ≡ kept (token, coupon)) where
    abbrev fresh : Cleaned
    fresh = clean_fields django rows user subtotal post

    coupon_rules :
        ((c : Coupon)
          → fresh.coupon ≡ some c
          → (validate_for c rows.now user subtotal rows.redemptions ≡ none)
            × (code : String) × (fresh.entry coupon_code ≡ some code)
            × (rows.coupon_of code ≡ some c))
        × (fresh.coupon ≡ none → fresh.entry coupon_code ≡ some "")
    coupon_rules =
        let (rule, bare) = coupon_checked token coupon coded in
        let same : fresh.coupon ≡ coupon = ap coupon_in coded in
        (
          λ c e.
              let (fine, known) = rule c (sym same ∙ e) in (fine, token, ap code_of coded, known),
          λ e. ap code_of coded ∙ ap some ((eq_iff token "").0 (bare (sym same ∙ e))),
        )

    manual-IsSound :
        clean_saved_address django rows user subtotal post ≡ kept none
        → clean_errors django rows user subtotal post fresh ≡ []
        → IsSound (clean_data fresh)
    manual-IsSound chosen checks =
        let none_chosen : fresh.address ≡ none = ap address_in chosen in
        let same : clean_data fresh ≡ fresh = simp none_chosen in
        let (rule, bare) = coupon_rules in
        let (names, phone, line, town, region, (pin, at, filled)) =
          missing_fine fresh (simp none_chosen at checks) in
        let same_code : code ≡ pin = some-injective (sym (ap value_of postal) ∙ at) in
        let here : is_blank code ≡ false = rw same_code filled in
        rw same (record {
          delivered_to =
              (code, ap value_of postal, postal_code_checked code postal (posted_none chosen) here);
          filled = λ e. (names, phone, line, town, region, (pin, at, filled));
          copied_from = λ a e. absurd (ground arith);
          redeemable = rule;
          uncoded = bare;
        })

    saved-IsSound :
        (a : SavedAddress)
        → clean_saved_address django rows user subtotal post ≡ kept (some a)
        → clean_errors django rows user subtotal post fresh ≡ []
        → IsSound (clean_data fresh)
    saved-IsSound a chosen checks =
        let a_chosen : fresh.address ≡ some a = ap address_in chosen in
        let same : clean_data fresh ≡ record fresh { entry = copied a fresh.entry } =
          simp a_chosen in
        let (rule, bare) = coupon_rules in
        let serviced = serviced_address a (simp a_chosen at checks) in
        rw same (record {
          delivered_to = (a.column postal_code, refl, serviced);
          filled = λ e. absurd (ground arith);
          copied_from = λ b e.
              (let one : b ≡ a = some-injective (sym e ∙ a_chosen) in
                rw one (refl, refl, refl, refl, refl, refl));
          redeemable = rule;
          uncoded = bare;
        })

    sound :
        (address : Option SavedAddress)
        → clean_saved_address django rows user subtotal post ≡ kept address
        → clean_errors django rows user subtotal post fresh ≡ []
        → IsSound (clean_data fresh)
    sound none = manual-IsSound
    sound (some a) = saved-IsSound a

  -- A checkout form that is valid holds all that the checkout relies on.
  pub full_clean-IsSound :
      (full_clean django rows user subtotal post).0 ≡ []
      → IsSound (full_clean django rows user subtotal post).1
  unfolding full_clean
  full_clean-IsSound valid =
      let (fields, rest) =
        append-eq-nil (gathered (field_checks django rows user subtotal post)) _ valid in
      let fresh = clean_fields django rows user subtotal post in
      let (checks, _) = append-eq-nil (clean_errors django rows user subtotal post fresh) _ rest in
      let (_, (_, (_, (_, (_, (_, (postal_fine, (coupon_fine, (address_fine, _))))))))) =
        gathered-eq-nil (field_checks django rows user subtotal post) fields in
      let (code, postal) =
        no_error (clean_shipping_postal_code django rows user subtotal post) postal_fine in
      let ((token, coupon), coded) =
        no_error (clean_coupon_code django rows user subtotal post) coupon_fine in
      let (address, chosen) =
        no_error (clean_saved_address django rows user subtotal post) address_fine in
      sound code token coupon postal coded address chosen checks
