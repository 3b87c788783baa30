-- ===== src/Cart/Models.antt =====
-- The order of cart/models.py: its status, the frozen lines, and the audit trail of cart/signals.py.
-- Money is in paise and a GST rate in hundredths of a percent, so that every stored `Decimal` of two
-- places is a whole number. Text that no code branches on (titles, SKUs, address lines) is left out.
use Prim.Native.String.{String}
use shop_orbit.Base.{
  ℕ, ◌*◌, ◌≡◌, Bool, true, false, Option, List, ℤ, pos, ◌-ℤ◌, ◌==◌, sum_by, arith,
}

-- `Order.Status`
pub data OrderStatus : Type 0 where
  awaiting_payment payment_confirmed payment_failed expired accepted packed : OrderStatus
  shipped delivered cancelled refunded partially_refunded : OrderStatus

-- A number for each choice, by which choices are compared.
abbrev pub status_code : OrderStatus → ℕ
status_code awaiting_payment = 0
status_code payment_confirmed = 1
status_code payment_failed = 2
status_code expired = 3
status_code accepted = 4
status_code packed = 5
status_code shipped = 6
status_code delivered = 7
status_code cancelled = 8
status_code refunded = 9
status_code partially_refunded = 10

-- `a == b` on order statuses
abbrev pub same_status : OrderStatus → OrderStatus → Bool
same_status a b = status_code a == status_code b

pub same_status→eq : (a b : OrderStatus) → same_status a b ≡ true → a ≡ b
same_status→eq a b same = ground arith

-- `Order.CANCELLABLE_STATUSES`
abbrev pub is_cancellable : OrderStatus → Bool
is_cancellable awaiting_payment = true
is_cancellable payment_failed = true
is_cancellable payment_confirmed = true
is_cancellable accepted = true
is_cancellable packed = true
is_cancellable _ = false

-- `Order.PAID_STATUSES`
abbrev pub is_paid : OrderStatus → Bool
is_paid payment_confirmed = true
is_paid accepted = true
is_paid packed = true
is_paid shipped = true
is_paid delivered = true
is_paid _ = false

-- `OrderItem`. Both foreign keys are `SET_NULL`, so either may be missing.
pub record OrderItem : Type 0 where
  pub id : ℕ
  pub order : ℕ
  pub product : Option ℕ
  pub variant : Option ℕ
  pub unit_price : ℕ
  pub quantity : ℕ
  pub gst_rate : ℕ

-- `OrderStatusHistory`
pub record StatusChange : Type 0 where
  pub order : ℕ
  pub previous_status : OrderStatus
  pub new_status : OrderStatus
  pub changed_by : Option ℕ

-- `Order`, with its `items`
pub record Order : Type 0 where
  pub id : ℕ
  pub user : ℕ
  pub status : OrderStatus
  pub created_at : ℕ
  pub shipping_state : String
  pub shipping_postal_code : String
  pub subtotal_amount : ℕ
  pub discount_amount : ℕ
  pub coupon_code : String
  pub items : List OrderItem

-- `OrderItem.line_total`
abbrev pub line_total : OrderItem → ℕ
line_total i = i.unit_price * i.quantity

-- `Order.total_quantity`
unfoldable pub total_quantity : Order → ℕ
total_quantity o = sum_by (λ (i : OrderItem). i.quantity) o.items

-- `Order.total_amount`, negative if the discount is the larger
unfoldable pub total_amount : Order → ℤ
total_amount o = pos o.subtotal_amount -ℤ pos o.discount_amount
