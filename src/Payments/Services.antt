-- ===== src/Payments/Services.antt =====
-- payments/services.py: `PaymentService`, over the gateway that it was made with. A `Payment` argument
-- is the object that the caller has loaded; `payment.save()` writes it whole over its row.
pub mod Once
use Prim.Native.String.{String}
use text.Mathlib.Text.{◌==◌ as str_eq}
use shop_orbit.Base.{
  ℕ, ◌+◌, Bool, true, false, Option, none, some, ◌∷◌, never_reached_gateway, not, ◌&&◌,
  if◌then◌else◌, pos_part, save_by,
}
use shop_orbit.Cart.Models.{Order, total_amount}
use shop_orbit.Fulfillment.Services.{Env}
use shop_orbit.Payments.Models.{
  Payment, PaymentStatus, Refund, EventType, same_payment_status, created, captured, failed,
  no_refund, created_event, client_verify, admin_reconcile,
}
use shop_orbit.Payments.Gateway.{Gateway, GatewayPayment}
use shop_orbit.Payments.Pipeline.{on_payment_captured, on_payment_failed}
use shop_orbit.Shop.{Shop}
use shop_orbit.Shop.Action.{Action, pure, gets, modify, lift, get_or_raise, ◌>>=◌, ◌>>◌}

-- Equality of two text columns, either of which may be blank
abbrev pub same_text : Option String → Option String → Bool
same_text none none = true
same_text none (some b) = false
same_text (some a) none = false
same_text (some a) (some b) = str_eq a b

abbrev pub save_payment : Payment → Shop → Shop
save_payment p s = record s { payments = save_by (λ (q : Payment). q.id) p s.payments }

abbrev pub save_refund : Refund → Shop → Shop
save_refund r s = record s { refunds = save_by (λ (q : Refund). q.id) r s.refunds }

abbrev pub log_event : ℕ → EventType → Option PaymentStatus → PaymentStatus → Shop → Shop
log_event payment kind previous new s = record s {
  payment_events =
      record { payment = payment; event_type = kind; previous_status = previous; new_status = new }
      ∷ s.payment_events;
}

-- `x or y` on a column that may be blank
abbrev pub given_or : Option String → Option String → Option String
given_or none y = y
given_or (some a) y = some a

-- The payment with the gateway's state written into it
abbrev pub apply_state : ℕ → GatewayPayment → Option String → Payment → Payment
apply_state now gp signature p = record p {
  gateway_payment_id = gp.gateway_payment_id;
  status = gp.status;
  method = some gp.method;
  signature = given_or signature p.signature;
  captured_at =
      if same_payment_status gp.status captured
      then elim p.captured_at [ none ↦ some now | some t ↦ some t ]
      else p.captured_at;
}

-- The callback that is registered for the commit, by the status before
abbrev pub react : Env → PaymentStatus → Payment → Action (Unit {0})
react env previous p =
    if same_payment_status p.status captured && not (same_payment_status previous captured)
    then on_payment_captured env p
    else if same_payment_status p.status failed && not (same_payment_status previous failed)
    then on_payment_failed p
    else pure tt

-- `_apply_gateway_payment_state(payment, gateway_payment, source=..., signature=...)`
unfoldable pub apply_gateway_payment_state :
    Env → Payment → GatewayPayment → EventType → Option String → Action (Unit {0})
apply_gateway_payment_state env p gp source signature =
    if same_payment_status p.status gp.status
      && same_text p.gateway_payment_id gp.gateway_payment_id
    then pure tt
    else do
      modify (save_payment (apply_state env.now gp signature p))
      modify (log_event p.id source (some p.status) gp.status)
      react env p.status (apply_state env.now gp signature p)

-- The row of a fresh payment attempt
abbrev pub new_payment : ℕ → Order → ℕ → ℕ → String → Payment
new_payment id order user amount gateway_order_id = record {
  id = id;
  order = order.id;
  user = user;
  gateway_order_id = some gateway_order_id;
  gateway_payment_id = none;
  signature = none;
  amount = amount;
  method = none;
  status = created;
  refunded_amount = 0;
  refund_status = no_refund;
  captured_at = none;
}

module _ {Body : Type 0} (gateway : Gateway Body) where
  -- `create_payment_for_order(order, user)`; an amount is not negative, as the discount of an order that the
  -- checkout makes is at most its subtotal
  unfoldable pub create_payment_for_order : Order → ℕ → Action Payment
  create_payment_for_order order user = do
    gateway_order_id ← lift (gateway.create_order (pos_part (total_amount order)))
    p ←
        gets
          (λ s. new_payment s.next_id order user (pos_part (total_amount order)) gateway_order_id)
    modify (λ s. record s { payments = p ∷ s.payments; next_id = s.next_id + 1 })
    modify (log_event p.id created_event none p.status)
    pure p

  -- `verify_client_callback(payment, ...)`
  unfoldable pub verify_client_callback : Env → Payment → String → String → String → Action Bool
  verify_client_callback env p gateway_payment_id gateway_order_id signature =
      if not (same_text (some gateway_order_id) p.gateway_order_id)
      then pure false
      else if not (gateway.verify_payment_signature gateway_order_id gateway_payment_id signature)
      then pure false
      else do
        gp ← lift (gateway.fetch_payment gateway_payment_id)
        apply_gateway_payment_state env p gp client_verify (some signature)
        pure (same_payment_status gp.status captured)

  -- `reconcile_payment(payment)`
  unfoldable pub reconcile_payment : Env → Payment → Action (Unit {0})
  reconcile_payment env p = do
    id ← get_or_raise p.gateway_payment_id never_reached_gateway
    gp ← lift (gateway.fetch_payment id)
    apply_gateway_payment_state env p gp admin_reconcile none
