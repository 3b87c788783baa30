-- ===== src/Cart/CheckoutForm.antt =====
-- cart/forms.py: `CheckoutForm`, from the posted texts to the data that the checkout uses. What Django
-- does itself (`Field.clean` and the checks of the model instance) and Python's `strip` and `upper` are
-- parameters.
pub mod Valid
use Prim.Native.String.{String}
use text.Mathlib.Text.{◌==◌ as str_eq}
use shop_orbit.Base.{ℕ, Bool, Option, none, some, List, [], ◌∷◌, ◌++◌, not, if◌then◌else◌}
use shop_orbit.Cart.Pricing.{Coupon, CouponError, Redemption, validate_for}
use shop_orbit.Fulfillment.Services.{Pincode, is_pincode_serviceable, pincode_block_reason}

pub data Field : Type 0 where
  full_name phone_number address_line1 address_line2 city state postal_code : Field
  coupon_code saved_address : Field

-- `request.POST`, a field that is missing being the empty text
pub record Post : Type 0 where
  pub text : Field → String
  pub save_address : Bool

-- A row of the user's addresses, with the columns that the form copies
pub record SavedAddress : Type 0 where
  pub column : Field → String

pub data FormError : Type 0 where
  invalid missing : Field → FormError
  blocked : Field → String → FormError
  unknown_coupon : FormError
  refused_coupon : CouponError → FormError
  bad_instance : FormError

-- `cleaned_data`, where a field that failed has no entry, with `self.coupon`
pub record Cleaned : Type 0 where
  pub entry : Field → Option String
  pub address : Option SavedAddress
  pub coupon : Option Coupon

-- `Field.clean` strips the text and may refuse it; `instance_is_valid` are the checks of the model.
pub record Django : Type 0 where
  pub clean : Field → String → Option String
  pub strip : String → String
  pub upper : String → String
  pub instance_is_valid : Cleaned → Bool

-- What the form looks up: the pincodes, the coupon of a code, and the user's address of a posted key
pub record Lookups : Type 0 where
  pub pincodes : List Pincode
  pub coupon_of : String → Option Coupon
  pub address_of : String → Option SavedAddress
  pub redemptions : List Redemption
  pub now : ℕ

-- What the cleaning of one field comes to
pub data Outcome {ℓ} (A : Type ℓ) : Type ℓ where
  kept : A → Outcome A
  refused : FormError → Outcome A

-- the errors of one check after another
abbrev pub gathered : List (List FormError) → List FormError
gathered [] = []
gathered (errors ∷ more) = errors ++ gathered more

abbrev pub errors_of {ℓ} : {A : Type ℓ} → Outcome A → List FormError
errors_of (kept a) = []
errors_of (refused e) = e ∷ []

abbrev pub value_of : Outcome String → Option String
value_of (kept a) = some a
value_of (refused e) = none

abbrev pub is_blank : String → Bool
is_blank t = str_eq t ""

abbrev pub then_clean {ℓ} : {A : Type ℓ} → Option String → Field → (String → Outcome A) → Outcome A
then_clean none f check = refused (invalid f)
then_clean (some t) f check = check t

abbrev pub code_of : Outcome (String × Option Coupon) → Option String
code_of (kept (code, c)) = some code
code_of (refused e) = none

abbrev pub coupon_in : Outcome (String × Option Coupon) → Option Coupon
coupon_in (kept (code, c)) = c
coupon_in (refused e) = none

abbrev pub address_in : Outcome (Option SavedAddress) → Option SavedAddress
address_in (kept a) = a
address_in (refused e) = none

-- the columns that `clean` copies from a saved address
abbrev pub copied : SavedAddress → (Field → Option String) → Field → Option String
copied a entry coupon_code = entry coupon_code
copied a entry saved_address = entry saved_address
copied a entry f = some (a.column f)

-- `if not cleaned_data.get(field_name)`
abbrev pub missing_entry : Field → Option String → List FormError
missing_entry f none = missing f ∷ []
missing_entry f (some t) = if is_blank t then missing f ∷ [] else []

-- `clean`
abbrev pub clean_data : Cleaned → Cleaned
clean_data c = elim c.address [ none ↦ c | some a ↦ record c { entry = copied a c.entry } ]

-- `field_labels`, in their order
abbrev pub missing_checks : (Field → Option String) → List (List FormError)
missing_checks entry =
    missing_entry full_name (entry full_name)
    ∷ missing_entry phone_number (entry phone_number)
    ∷ missing_entry address_line1 (entry address_line1)
    ∷ missing_entry city (entry city)
    ∷ missing_entry state (entry state)
    ∷ missing_entry postal_code (entry postal_code)
    ∷ []

module _ (django : Django) (rows : Lookups) (user subtotal : ℕ) (post : Post) where
  -- A field with no method of its own
  abbrev plain : Field → Outcome String
  plain f = elim (django.clean f (post.text f)) [ none ↦ refused (invalid f) | some t ↦ kept t ]

  -- `clean_shipping_postal_code`, after the field's own cleaning
  abbrev pub clean_shipping_postal_code : Outcome String
  clean_shipping_postal_code =
      then_clean (django.clean postal_code (post.text postal_code)) postal_code (λ t.
        let code = django.strip t in
        if not (is_blank (post.text saved_address))
        then kept code
        else if is_blank code
        then kept code
        else if is_pincode_serviceable code rows.pincodes
        then kept code
        else refused (blocked postal_code (pincode_block_reason code rows.pincodes)))

  abbrev check_coupon : String → Option Coupon → Outcome (String × Option Coupon)
  check_coupon code none = refused unknown_coupon
  check_coupon code (some c) = elim (validate_for c rows.now user subtotal rows.redemptions) [
    | none ↦ kept (code, some c)
    | some e ↦ refused (refused_coupon e)
  ]

  -- `clean_coupon_code`, after the field's own cleaning, with the `self.coupon` that it sets
  abbrev pub clean_coupon_code : Outcome (String × Option Coupon)
  clean_coupon_code =
      then_clean (django.clean coupon_code (post.text coupon_code)) coupon_code (λ t.
        let code = django.upper (django.strip t) in
        if is_blank code then kept (code, none) else check_coupon code (rows.coupon_of code))

  -- `saved_address`, a `ModelChoiceField` that is not required
  abbrev pub clean_saved_address : Outcome (Option SavedAddress)
  clean_saved_address =
      if is_blank (post.text saved_address)
      then kept none
      else elim (rows.address_of (post.text saved_address)) [
        | none ↦ refused (invalid saved_address)
        | some a ↦ kept (some a)
      ]

  -- `_clean_fields`: each field in turn
  abbrev pub field_entry : Field → Option String
  field_entry postal_code = value_of clean_shipping_postal_code
  field_entry coupon_code = code_of clean_coupon_code
  field_entry saved_address = none
  field_entry f = value_of (plain f)

  abbrev pub clean_fields : Cleaned
  clean_fields = record {
    entry = field_entry;
    address = address_in clean_saved_address;
    coupon = coupon_in clean_coupon_code;
  }

  abbrev pub field_checks : List (List FormError)
  field_checks =
      errors_of (plain full_name)
      ∷ errors_of (plain phone_number)
      ∷ errors_of (plain address_line1)
      ∷ errors_of (plain address_line2)
      ∷ errors_of (plain city)
      ∷ errors_of (plain state)
      ∷ errors_of clean_shipping_postal_code
      ∷ errors_of clean_coupon_code
      ∷ errors_of clean_saved_address
      ∷ []

  abbrev pub clean_errors : Cleaned → List FormError
  clean_errors c = elim c.address [
    | none ↦ gathered (missing_checks c.entry)
    | some a ↦
        if is_pincode_serviceable (a.column postal_code) rows.pincodes
        then []
        else blocked saved_address (pincode_block_reason (a.column postal_code) rows.pincodes) ∷ []
  ]

  -- `full_clean`: the errors, and the data
  unfoldable pub full_clean : List FormError × Cleaned
  full_clean =
      let cleaned = clean_data clean_fields in
      (
        gathered field_checks
            ++ (clean_errors clean_fields
                ++ (if django.instance_is_valid cleaned then [] else bad_instance ∷ [])),
        cleaned,
      )
