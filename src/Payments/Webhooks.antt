-- ===== src/Payments/Webhooks.antt =====
-- The webhooks of payments/services.py. `in_transaction` says that the connection is within a transaction,
-- or that the database locks no rows: Django raises where `select_for_update` runs outside of one.
pub mod Keeps
pub mod Delivery
pub mod Retry
use Prim.Native.String.{String}
use text.Mathlib.Text.{◌==◌ as str_eq}
use shop_orbit.Base.{
  ℕ, Bool, true, false, Option, none, some, List, [], ◌∷◌, Result, ok, err, not_in_transaction,
  does_not_exist, not, ◌&&◌, ◌||◌, ◌==◌, if◌then◌else◌, find,
}
use shop_orbit.Fulfillment.Services.{Env}
use shop_orbit.Payments.Models.{Payment, Refund, WebhookEvent, captured, failed, webhook_event}
use shop_orbit.Payments.Gateway.{Gateway, GatewayPayment, GatewayRefundStatus, WebhookEventData}
use shop_orbit.Shop.{Shop}
use shop_orbit.Shop.Action.{Action, pure, gets, lift, guard, get_or_raise, ◌>>=◌, ◌>>◌}
use shop_orbit.Payments.Services.{same_text, apply_gateway_payment_state}
use shop_orbit.Payments.Refunding.{apply_refund_result}

-- `_find_payment`: `select_for_update` outside of a transaction raises, unless there is no id to
-- search by and so no query
abbrev pub matches : Option String → Option String → Payment → Bool
matches payment_id order_id p =
    elim payment_id [ none ↦ false | some w ↦ same_text p.gateway_payment_id (some w) ]
    || elim order_id [ none ↦ false | some w ↦ same_text p.gateway_order_id (some w) ]

abbrev is_blank : Option String → Bool
is_blank none = true
is_blank (some w) = false

unfoldable pub find_payment : Bool → Option String → Option String → Action (Option Payment)
find_payment in_transaction payment_id order_id =
    if is_blank payment_id && is_blank order_id then pure none else do
      guard in_transaction not_in_transaction
      gets (λ s. find (matches payment_id order_id) s.payments)

module _ {Body : Type 0} (gateway : Gateway Body) (in_transaction : Bool) where
  -- `fetch_payment(event.gateway_payment_id)`; the id is the empty string where the event has none
  abbrev pub fetch : Option String → Result GatewayPayment
  fetch none = gateway.fetch_payment ""
  fetch (some id) = gateway.fetch_payment id

  -- `_handle_payment_state_webhook(event)`
  unfoldable pub handle_payment_state_webhook : Env → WebhookEventData → Action (Unit {0})
  unfolding find_payment apply_gateway_payment_state
  handle_payment_state_webhook env event = do
    found ← find_payment in_transaction event.gateway_payment_id event.gateway_order_id
    elim found [
      | none ↦ pure tt
      | some p ↦ do
        gp ← lift (fetch event.gateway_payment_id)
        apply_gateway_payment_state env p gp (webhook_event event.event_type) none
    ]

  -- the call of `_apply_refund_result` on the refund that was found, which reads `refund.payment`
  abbrev pub apply_to_refund : Env → GatewayRefundStatus → Refund → Action (Unit {0})
  apply_to_refund env status r = do
    owner ← gets (λ s. find (λ (p : Payment). p.id == r.payment) s.payments)
    p ← get_or_raise owner does_not_exist
    apply_refund_result env.now r p status

  -- `_handle_refund_webhook(event, status=...)`
  unfoldable pub handle_refund_webhook :
      Env → WebhookEventData → GatewayRefundStatus → Action (Unit {0})
  unfolding apply_refund_result
  handle_refund_webhook env event status = do
    found ←
        gets (λ s. find (λ (r : Refund). same_text r.gateway_refund_id event.refund_id) s.refunds)
    elim found [ none ↦ pure tt | some r ↦ apply_to_refund env status r ]

  -- `_dispatch_webhook_event(event)`
  unfoldable pub dispatch_webhook_event : Env → WebhookEventData → Action (Unit {0})
  unfolding handle_payment_state_webhook handle_refund_webhook
  dispatch_webhook_event env event =
      if str_eq event.event_type "payment.authorized"
        || str_eq event.event_type "payment.captured"
        || str_eq event.event_type "order.paid"
        || str_eq event.event_type "payment.failed"
      then handle_payment_state_webhook env event
      else if str_eq event.event_type "refund.processed"
      then handle_refund_webhook env event GatewayRefundStatus.processed
      else if str_eq event.event_type "refund.failed"
      then handle_refund_webhook env event GatewayRefundStatus.failed
      else pure tt

  -- `webhook_event.save(...)`, by its dedupe key
  abbrev save_webhook : WebhookEvent → List WebhookEvent → List WebhookEvent
  save_webhook w [] = []
  save_webhook w (v ∷ vs) = (if str_eq v.dedupe_key w.dedupe_key then w else v) ∷ save_webhook w vs

  abbrev put_webhook : WebhookEvent → Shop → Shop
  put_webhook w s = record s { webhooks = save_webhook w s.webhooks }

  -- the row of a delivery that is seen for the first time
  abbrev pub new_webhook : WebhookEventData → WebhookEvent
  new_webhook event = record {
    dedupe_key = event.dedupe_key;
    event_type = event.event_type;
    processed_at = none;
    has_error = false;
  }

  abbrev pub seen : WebhookEventData → Shop → Option WebhookEvent
  seen event s = find (λ (w : WebhookEvent). str_eq w.dedupe_key event.dedupe_key) s.webhooks

  -- the `try` around the dispatch
  abbrev finish : ℕ → WebhookEvent → Result (Unit {0}) × Shop → Result Bool × Shop
  finish now w (ok done, s) =
      (ok true, put_webhook (record w { processed_at = some now; has_error = false }) s)
  finish now w (err e, s) = (err e, put_webhook (record w { has_error = true }) s)

  -- what follows `get_or_create`: the row that it found, or a new one, and the dispatch unless the
  -- event was finished before
  unfoldable pub take_in : Env → WebhookEventData → Option WebhookEvent → Action Bool
  unfolding dispatch_webhook_event
  take_in env event none s =
      finish env.now (new_webhook event)
        (dispatch_webhook_event env event (record s { webhooks = new_webhook event ∷ s.webhooks }))
  take_in env event (some w) s = elim w.processed_at [
    | some t ↦ (ok true, s)
    | none ↦ finish env.now w (dispatch_webhook_event env event s)
  ]

  -- `process_webhook` from `get_or_create` on
  unfoldable pub process_event : Env → WebhookEventData → Action Bool
  unfolding take_in
  process_event env event s = take_in env event (seen event s) s

  -- `process_webhook(raw_body=..., headers=...)`
  unfoldable pub process_webhook : Env → Body → Action Bool
  unfolding process_event
  process_webhook env body =
      if not (gateway.verify_webhook_signature body)
      then pure false
      else do event ← lift (gateway.parse_webhook_event body); process_event env event
