-- ===== src/Cart/Pricing.antt =====
-- The prices of cart/models.py: cart totals, the automatic discount, coupons, and the GST within a
-- price. A percentage and a rate are in hundredths of a percent.
pub mod Discounts
use shop_orbit.Base.{
  ℕ, ◌+◌, ◌-◌, ◌*◌, min, Bool, false, Option, none, some, List, sum_by, ltb, leb, ◌==◌, not, ◌&&◌,
  if◌then◌else◌, round_half_even,
}
use shop_orbit.Catalog.Pricing.{Product, ProductVariant, display_price, variant_display_price}
use shop_orbit.Cart.Models.{OrderItem, line_total}
use shop_orbit.Inventory.Models.{Target, available_to_sell, Inventory}

-- `CartItem`, with the product and the variant that it names
pub record CartItem : Type 0 where
  pub product_id : ℕ
  pub product : Product
  pub variant : Option (ℕ × ProductVariant)
  pub quantity : ℕ

-- `CartItem.unit_price`
unfoldable pub unit_price : CartItem → ℕ
unit_price i = elim i.variant [
  | none ↦ display_price i.product
  | some (id, v) ↦ variant_display_price i.product v
]

-- `CartItem.line_total`
abbrev pub cart_line_total : CartItem → ℕ
cart_line_total i = unit_price i * i.quantity

-- The row that a cart line would be taken from
abbrev pub cart_target : CartItem → Target
cart_target i = elim i.variant [
  | none ↦ Target.product i.product_id
  | some (id, v) ↦ Target.variant id
]

-- `CartItem.available_stock`
abbrev pub available_stock : Inventory → CartItem → ℕ
available_stock s i = elim (s.rows (cart_target i)) [ none ↦ 0 | some r ↦ available_to_sell r ]

-- `Cart.total_items`
abbrev pub total_items : List CartItem → ℕ
total_items = sum_by (λ (i : CartItem). i.quantity)

-- `Cart.subtotal`
abbrev pub subtotal : List CartItem → ℕ
subtotal = sum_by cart_line_total

-- `Cart.auto_promo_discount`: 10%, at most Rs 50, from two items on. The unrounded discount is
-- `subtotal * 1000 / 10000` paise.
unfoldable pub auto_promo_discount : List CartItem → ℕ
auto_promo_discount items =
    if ltb (total_items items) 2
    then 0
    else round_half_even (min (subtotal items * 1000) (5000 * 10000)) 10000

-- `Coupon.DiscountType`
pub data DiscountType : Type 0 where
  percent flat : DiscountType

-- `Coupon`: `discount_value` is in hundredths of a percent, or in paise if flat
pub record Coupon : Type 0 where
  pub id : ℕ
  pub discount_type : DiscountType
  pub discount_value : ℕ
  pub max_discount_amount : Option ℕ
  pub minimum_order_amount : ℕ
  pub valid_from : Option ℕ
  pub valid_until : Option ℕ
  pub usage_limit : Option ℕ
  pub per_user_limit : ℕ
  pub is_active : Bool

-- `CouponRedemption`
pub record Redemption : Type 0 where
  pub coupon : ℕ
  pub user : ℕ
  pub order : ℕ
  pub discount_amount : ℕ

-- The unrounded discount of `calculate_discount`, in ten thousandths of a paisa, before it is held
-- down to the subtotal
raw_discount : Coupon → ℕ → ℕ
raw_discount c subtotal = elim c.discount_type [
  | percent ↦ elim c.max_discount_amount [
    | none ↦ subtotal * c.discount_value
    | some cap ↦ min (subtotal * c.discount_value) (cap * 10000)
  ]
  | flat ↦ c.discount_value * 10000
]

-- `Coupon.calculate_discount(subtotal)`
unfoldable pub calculate_discount : Coupon → ℕ → ℕ
unfolding raw_discount
calculate_discount c subtotal =
    round_half_even (min (raw_discount c subtotal) (subtotal * 10000)) 10000

-- The messages of `validate_for`, in the order of its tests
pub data CouponError : Type 0 where
  inactive not_yet_active has_expired below_minimum used_up already_used : CouponError

abbrev count_redemptions : (Redemption → Bool) → List Redemption → ℕ
count_redemptions p = sum_by (λ r. if p r then 1 else 0)

abbrev pub uses : Coupon → List Redemption → ℕ
uses c = count_redemptions (λ r. r.coupon == c.id)

abbrev pub uses_by : Coupon → ℕ → List Redemption → ℕ
uses_by c user = count_redemptions (λ r. r.coupon == c.id && r.user == user)

abbrev is_before : ℕ → Option ℕ → Bool
is_before now none = false
is_before now (some from) = ltb now from

abbrev is_after : ℕ → Option ℕ → Bool
is_after now none = false
is_after now (some until) = ltb until now

abbrev reaches : Option ℕ → ℕ → Bool
reaches none n = false
reaches (some limit) n = leb limit n

-- `Coupon.validate_for(user, subtotal)` at the time `now`; `none` is the empty message
unfoldable pub validate_for : Coupon → ℕ → ℕ → ℕ → List Redemption → Option CouponError
validate_for c now user subtotal redemptions =
    if not c.is_active
    then some inactive
    else if is_before now c.valid_from
    then some not_yet_active
    else if is_after now c.valid_until
    then some has_expired
    else if ltb subtotal c.minimum_order_amount
    then some below_minimum
    else if reaches c.usage_limit (uses c redemptions)
    then some used_up
    else if not (c.per_user_limit == 0) && leb c.per_user_limit (uses_by c user redemptions)
    then some already_used
    else none

-- `OrderItem.tax_amount`: the GST within a tax-inclusive price
unfoldable pub tax_amount : OrderItem → ℕ
tax_amount i =
    if i.gst_rate == 0 then 0 else round_half_even (line_total i * i.gst_rate) (10000 + i.gst_rate)

-- `OrderItem.taxable_value`; the subtraction never stops at zero, since the tax is within the price
unfoldable pub taxable_value : OrderItem → ℕ
unfolding tax_amount
taxable_value i = line_total i - tax_amount i
