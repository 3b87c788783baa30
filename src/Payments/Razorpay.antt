-- ===== src/Payments/Razorpay.antt =====
-- payments/gateways/razorpay_gateway.py: the gateway that the shop runs on, over the client of Razorpay's SDK, which is
-- a parameter. Amounts are in paise, as Razorpay has them; a missing key of an answer is `none`.
pub mod Reported
use Prim.Native.String.{String}
use text.Mathlib.Text.{◌==◌}
use shop_orbit.Base.{ℕ, Bool, Option, none, some, Result, ok, if◌then◌else◌, ◌>>=◌}
use shop_orbit.Payments.Gateway.{
  Gateway, GatewayPayment, GatewayRefund, GatewayRefundStatus, WebhookEventData,
}
use shop_orbit.Payments.Models.{
  PaymentStatus, created, pending, authorized, captured, failed, refunded, Method, upi, card,
  netbanking, wallet, emi, other,
}
use shop_orbit.Payments.Services.{given_or}

-- The keys that are read of a payment, a refund and a webhook's entities
pub record RawPayment : Type 0 where
  pub id : String
  pub status : Option String
  pub method : Option String

pub record RawRefund : Type 0 where
  pub id : String
  pub status : Option String

pub record Entities : Type 0 where
  pub event : String
  pub payment_id : Option String
  pub payment_order_id : Option String
  pub order_id : Option String
  pub refund_id : Option String
  pub refund_payment_id : Option String
  -- `json.dumps` of the event, its time and its payload, with sorted keys
  pub digest_source : String

-- A delivery: its body, and the header `X-Razorpay-Event-Id`, if it has one
pub record Delivery : Type 0 where
  pub raw_body : String
  pub event_id : Option String

-- The calls of the SDK, `json.loads` with the keys that are read, and `sha256(...).hexdigest()`
pub record Client : Type 0 where
  pub order_create : ℕ → Result String
  pub verify_payment_signature : String → String → String → Bool
  pub payment_fetch : String → Result RawPayment
  pub payment_refund : Option String → ℕ → Result RawRefund
  pub verify_webhook_signature : Delivery → Bool
  pub loads : String → Result Entities
  pub digest : String → String

-- `_STATUS_MAP.get(..., Payment.Status.PENDING)`
abbrev pub payment_status : Option String → PaymentStatus
payment_status none = pending
payment_status (some w) =
    if w == "created"
    then created
    else if w == "authorized"
    then authorized
    else if w == "captured"
    then captured
    else if w == "failed"
    then failed
    else if w == "refunded"
    then refunded
    else pending

-- `_METHOD_MAP.get(..., Payment.Method.OTHER)`
abbrev pub payment_method : Option String → Method
payment_method none = other
payment_method (some w) =
    if w == "upi"
    then upi
    else if w == "card"
    then card
    else if w == "netbanking"
    then netbanking
    else if w == "wallet"
    then wallet
    else if w == "emi"
    then emi
    else other

-- `_normalize_payment`
unfoldable pub normalize_payment : RawPayment → GatewayPayment
normalize_payment r = record {
  gateway_payment_id = some r.id;
  status = payment_status r.status;
  method = payment_method r.method;
}

-- `response.get("status", "pending")`, read as the services read it: a status that they do not know is not final.
abbrev pub refund_status : Option String → GatewayRefundStatus
refund_status none = GatewayRefundStatus.pending
refund_status (some w) =
    if w == "processed"
    then GatewayRefundStatus.processed
    else if w == "failed"
    then GatewayRefundStatus.failed
    else GatewayRefundStatus.pending

module _ (client : Client) where
  -- `fetch_payment`
  unfoldable pub fetch_payment : String → Result GatewayPayment
  unfolding normalize_payment
  fetch_payment id = do r ← client.payment_fetch id; ok (normalize_payment r)

  -- `initiate_refund`
  unfoldable pub create_refund : Option String → ℕ → Result GatewayRefund
  create_refund id amount = do
    r ← client.payment_refund id amount
    ok (record { gateway_refund_id = some r.id; status = refund_status r.status })

  -- the header, or `_fallback_dedupe_key`
  abbrev pub dedupe_key_of : Delivery → Entities → String
  dedupe_key_of d e = elim d.event_id [ none ↦ client.digest e.digest_source | some w ↦ w ]

  -- `parse_webhook_event`
  unfoldable pub parse_webhook_event : Delivery → Result WebhookEventData
  parse_webhook_event d = do
    e ← client.loads d.raw_body
    ok (record {
      dedupe_key = dedupe_key_of d e;
      event_type = e.event;
      gateway_payment_id = given_or e.payment_id e.refund_payment_id;
      gateway_order_id = given_or e.payment_order_id e.order_id;
      refund_id = e.refund_id;
    })

  -- `RazorpayGateway`
  abbrev pub razorpay_gateway : Gateway Delivery
  razorpay_gateway = record {
    create_order = client.order_create;
    verify_payment_signature = client.verify_payment_signature;
    fetch_payment = fetch_payment;
    initiate_refund = create_refund;
    verify_webhook_signature = client.verify_webhook_signature;
    parse_webhook_event = parse_webhook_event;
  }
