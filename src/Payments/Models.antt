-- ===== src/Payments/Models.antt =====
-- The records of payments/models.py. The raw gateway payloads and free text are left out; a gateway
-- id is `none` where the column is blank.
use Prim.Native.String.{String}
use shop_orbit.Base.{ℕ, ◌≡◌, Bool, true, false, Option, ◌==◌, ◌&&◌, ltb, arith}

-- `Payment.Status`
pub data PaymentStatus : Type 0 where
  created pending authorized captured failed cancelled refunded partially_refunded : PaymentStatus

abbrev pub payment_code : PaymentStatus → ℕ
payment_code created = 0
payment_code pending = 1
payment_code authorized = 2
payment_code captured = 3
payment_code failed = 4
payment_code cancelled = 5
payment_code refunded = 6
payment_code partially_refunded = 7

-- `a == b` on payment statuses
abbrev pub same_payment_status : PaymentStatus → PaymentStatus → Bool
same_payment_status a b = payment_code a == payment_code b

pub same_payment_status→eq : (a b : PaymentStatus) → same_payment_status a b ≡ true → a ≡ b
same_payment_status→eq a b same = ground arith

-- `Payment.Method`
pub data Method : Type 0 where
  upi card netbanking wallet emi other : Method

-- `Payment.RefundStatus`
pub data RefundStatus : Type 0 where
  no_refund partial full : RefundStatus

-- `Payment.TERMINAL_STATUSES`
abbrev pub is_terminal : PaymentStatus → Bool
is_terminal captured = true
is_terminal failed = true
is_terminal cancelled = true
is_terminal refunded = true
is_terminal _ = false

-- `status in (CAPTURED, PARTIALLY_REFUNDED)`
abbrev pub holds_money : PaymentStatus → Bool
holds_money captured = true
holds_money partially_refunded = true
holds_money _ = false

-- `Payment`
pub record Payment : Type 0 where
  pub id : ℕ
  pub order : ℕ
  pub user : ℕ
  pub gateway_order_id : Option String
  pub gateway_payment_id : Option String
  pub signature : Option String
  pub amount : ℕ
  pub method : Option Method
  pub status : PaymentStatus
  pub refunded_amount : ℕ
  pub refund_status : RefundStatus
  pub captured_at : Option ℕ

-- `Payment.is_refundable`: `remaining_refundable > 0` is `refunded_amount < amount`
abbrev pub is_refundable : Payment → Bool
is_refundable p = holds_money p.status && ltb p.refunded_amount p.amount

-- `Refund.Status`
pub data RefundState : Type 0 where
  initiated processed failed : RefundState

abbrev pub same_refund_state : RefundState → RefundState → Bool
same_refund_state initiated initiated = true
same_refund_state processed processed = true
same_refund_state failed failed = true
same_refund_state _ _ = false

-- `Refund`
pub record Refund : Type 0 where
  pub id : ℕ
  pub payment : ℕ
  pub gateway_refund_id : Option String
  pub amount : ℕ
  pub status : RefundState
  pub initiated_by : Option ℕ
  pub return_request : Option ℕ
  pub processed_at : Option ℕ

-- The `event_type` of a `PaymentEvent`
pub data EventType : Type 0 where
  created_event client_verify admin_reconcile refund_initiated : EventType
  webhook_event : String → EventType
  refund_result : RefundState → EventType

-- `PaymentEvent`
pub record PaymentEvent : Type 0 where
  pub payment : ℕ
  pub event_type : EventType
  pub previous_status : Option PaymentStatus
  pub new_status : PaymentStatus

-- `WebhookEvent`: unique by gateway and `dedupe_key`, and there is one gateway
pub record WebhookEvent : Type 0 where
  pub dedupe_key : String
  pub event_type : String
  pub processed_at : Option ℕ
  pub has_error : Bool
