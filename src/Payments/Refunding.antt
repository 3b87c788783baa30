-- ===== src/Payments/Refunding.antt =====
-- The refunds of payments/services.py: how one is started, and how its outcome is applied.
pub mod Balance
use Prim.Native.String.{String}
use shop_orbit.Base.{
  ℕ, ◌+◌, Bool, Option, none, some, ◌∷◌, bad_status, bad_refund_amount, not, ◌||◌, leb,
  if◌then◌else◌, ℤ, pos, leb_ℤ, ltb_ℤ, pos_part, ◌+ℤ◌,
}
use shop_orbit.Fulfillment.Services.{Env}
use shop_orbit.Payments.Models.{
  Payment, Refund, RefundState, same_refund_state, holds_money, failed, refunded,
  partially_refunded, partial, full, initiated, refund_initiated, refund_result,
}
use shop_orbit.Payments.Gateway.{Gateway, GatewayRefund, GatewayRefundStatus}
use shop_orbit.Payments.Pipeline.{on_refund_processed, on_refund_failed}
use shop_orbit.Shop.{Shop}
use shop_orbit.Shop.Action.{Action, pure, gets, modify, lift, guard, ◌>>=◌, ◌>>◌}
use shop_orbit.Payments.Services.{save_payment, save_refund, log_event}

-- `_REFUND_TERMINAL_STATUSES.get(...)`
abbrev pub terminal_state : GatewayRefundStatus → Option RefundState
terminal_state GatewayRefundStatus.processed = some RefundState.processed
terminal_state GatewayRefundStatus.failed = some RefundState.failed
terminal_state GatewayRefundStatus.pending = none

-- The payment with a processed refund of `amount` counted
abbrev pub count_refund : ℕ → Payment → Payment
count_refund amount p =
    let total = p.refunded_amount + amount in
    record p {
      refunded_amount = total;
      refund_status = if leb p.amount total then full else partial;
      status = if leb p.amount total then refunded else partially_refunded;
    }

-- The writes of `_apply_refund_result`, for a refund that moves to `new`
abbrev pub record_refund : ℕ → RefundState → Refund → Payment → Shop → Shop
record_refund now RefundState.processed r p s =
    log_event p.id (refund_result RefundState.processed) none (count_refund r.amount p).status (
      save_payment (count_refund r.amount p)
        (save_refund (record r { status = RefundState.processed; processed_at = some now }) s))
record_refund now new r p s =
    log_event p.id (refund_result new) none p.status
      (save_refund (record r { status = new; processed_at = some now }) s)

abbrev pub after_refund : RefundState → Refund → Payment → Action (Unit {0})
after_refund RefundState.processed r p = on_refund_processed r (count_refund r.amount p)
after_refund _ r p = on_refund_failed r

-- `_apply_refund_result(refund, gateway_status=..., raw_response=...)`, with `refund.payment`. A
-- processed result changes the object that `refund.payment` is, so the changed payment comes back.
unfoldable pub apply_refund_result : ℕ → Refund → Payment → GatewayRefundStatus → Action (Unit {0})
apply_refund_result now r p gateway_status = elim (terminal_state gateway_status) [
  | none ↦ pure tt
  | some new ↦ if same_refund_state r.status new then pure tt else do
    modify (record_refund now new r p)
    after_refund new (record r { status = new; processed_at = some now }) p
]

-- The row of a fresh refund
abbrev pub new_refund : ℕ → ℕ → Option String → ℕ → Option ℕ → Option ℕ → Refund
new_refund id payment gateway_refund_id amount by request = record {
  id = id;
  payment = payment;
  gateway_refund_id = gateway_refund_id;
  amount = amount;
  status = initiated;
  initiated_by = by;
  return_request = request;
  processed_at = none;
}

-- `amount <= 0 or already_refunded + amount > payment.amount`
abbrev pub is_bad_refund : Payment → ℤ → Bool
is_bad_refund p amount =
    leb_ℤ amount (pos 0) || ltb_ℤ (pos p.amount) (pos p.refunded_amount +ℤ amount)

-- The part of `initiate_refund` that follows the gateway's answer
unfoldable pub open_refund : Env → Payment → ℤ → Option ℕ → Option ℕ → GatewayRefund → Action Refund
unfolding apply_refund_result
open_refund env p amount by request answer = do
  r ← gets (λ s. new_refund s.next_id p.id answer.gateway_refund_id (pos_part amount) by request)
  modify (λ s. record s { refunds = r ∷ s.refunds; next_id = s.next_id + 1 })
  modify (log_event p.id refund_initiated (some p.status) p.status)
  apply_refund_result env.now r p answer.status
  pure r

module _ {Body : Type 0} (gateway : Gateway Body) where
  -- `initiate_refund(payment, amount, initiated_by=..., return_request=...)`
  unfoldable pub initiate_refund : Env → Payment → ℤ → Option ℕ → Option ℕ → Action Refund
  unfolding open_refund
  initiate_refund env p amount by request = do
    guard (holds_money p.status) bad_status
    guard (not (is_bad_refund p amount)) bad_refund_amount
    answer ← lift (gateway.initiate_refund p.gateway_payment_id (pos_part amount))
    open_refund env p amount by request answer
