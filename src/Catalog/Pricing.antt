-- ===== src/Catalog/Pricing.antt =====
-- The prices of `Product` and `ProductVariant` in catalog/models.py, in paise.
use shop_orbit.Base.{
  ℕ, ◌+◌, ◌-◌, ◌*◌, ◌/◌, ◌≤◌, ◌≡◌, Option, none, some, ◌==◌, if◌then◌else◌, ℤ, pos, ◌-ℤ◌, arith,
  inl, inr, Option-cases,
}

-- The price fields of `Product`
pub record Product : Type 0 where
  pub price : ℕ
  pub discount_price : Option ℕ
  pub delivery_charge : ℕ
  pub other_fee : ℕ
  pub gst_rate : ℕ

-- The price fields of `ProductVariant`
pub record ProductVariant : Type 0 where
  pub price : Option ℕ
  pub discount_price : Option ℕ

-- `Product._fees`
abbrev pub fees : Product → ℕ
fees p = p.delivery_charge + p.other_fee

-- `d if d else price`: a blank discount and a discount of nothing are both passed over
abbrev pub base_price : Option ℕ → ℕ → ℕ
base_price none price = price
base_price (some d) price = if d == 0 then price else d

-- `Product.display_price`
unfoldable pub display_price : Product → ℕ
display_price p = base_price p.discount_price p.price + fees p

-- `Product.full_price`
unfoldable pub full_price : Product → ℕ
full_price p = p.price + fees p

-- `a if a is not None else b`
abbrev pub own_or {ℓ} : {A : Type ℓ} → Option A → A → A
own_or none b = b
own_or (some a) b = a

-- `x if x is not None else y`, where `y` may be blank too
abbrev pub own_or_blank {ℓ} : {A : Type ℓ} → Option A → Option A → Option A
own_or_blank none y = y
own_or_blank (some a) y = some a

-- `ProductVariant.effective_price`
abbrev pub effective_price : Product → ProductVariant → ℕ
effective_price p v = own_or v.price p.price

-- `ProductVariant.effective_discount_price`
abbrev pub effective_discount_price : Product → ProductVariant → Option ℕ
effective_discount_price p v = own_or_blank v.discount_price p.discount_price

-- `ProductVariant.display_price`
unfoldable pub variant_display_price : Product → ProductVariant → ℕ
variant_display_price p v = base_price (effective_discount_price p v) (effective_price p v) + fees p

-- `ProductVariant.full_price`
unfoldable pub variant_full_price : Product → ProductVariant → ℕ
variant_full_price p v = effective_price p v + fees p

-- `int((savings / price) * 100)`, which drops the fraction towards zero also where `savings` is
-- negative
discount_of : Option ℕ → ℕ → ℤ
discount_of none price = pos 0
discount_of (some d) price =
    if d == 0
    then pos 0
    else if price == 0
    then pos 0
    else pos ((price - d) * 100 / price) -ℤ pos ((d - price) * 100 / price)

-- `Product.discount_percent`
unfoldable pub discount_percent : Product → ℤ
unfolding discount_of
discount_percent p = discount_of p.discount_price p.price

-- `ProductVariant.discount_percent`
unfoldable pub variant_discount_percent : Product → ProductVariant → ℤ
unfolding discount_of
variant_discount_percent p v = discount_of (effective_discount_price p v) (effective_price p v)

-- A variant that sets neither a price nor a discount of its own costs, is struck through at, and is
-- advertised as its product is.
variant_inherits :
    (p : Product) (v : ProductVariant)
    → v.price ≡ none
    → v.discount_price ≡ none
    → (variant_display_price p v ≡ display_price p)
      × (variant_full_price p v ≡ full_price p)
      × (variant_discount_percent p v ≡ discount_percent p)
unfolding variant_display_price display_price variant_full_price full_price variant_discount_percent
    discount_percent
variant_inherits p v price discount = (rw (price, discount), rw price, rw (price, discount))

-- The price that a variant is sold at passes its struck-through price only where its discount price,
-- its own or its product's, passes its price.
variant_display-le-full :
    (p : Product) (v : ProductVariant)
    → ((d : ℕ) → effective_discount_price p v ≡ some d → d ≤ effective_price p v)
    → variant_display_price p v ≤ variant_full_price p v
unfolding variant_display_price variant_full_price
variant_display-le-full p v discounts = elim (Option-cases (effective_discount_price p v)) [
  | inl blank ↦ rw blank (omega arith)
  | inr (d, set) ↦ rw set (ground (arith, discounts d set))
]
