-- ===== src/Payments/Gateway.antt =====
-- payments/gateways/base.py: what the payment provider answers. The provider is not part of this
-- program: it is a record of functions that a call takes, which stands for the provider's answers
-- during that one call. A later call may take another record.
use Prim.Native.String.{String}
use shop_orbit.Base.{ℕ, Bool, Option, Result}
use shop_orbit.Payments.Models.{PaymentStatus, Method}

-- `GatewayPayment`
pub record GatewayPayment : Type 0 where
  pub gateway_payment_id : Option String
  pub status : PaymentStatus
  pub method : Method

-- The statuses of a fresh refund
pub data GatewayRefundStatus : Type 0 where
  pending processed failed : GatewayRefundStatus

-- `GatewayRefund`
pub record GatewayRefund : Type 0 where
  pub gateway_refund_id : Option String
  pub status : GatewayRefundStatus

-- `WebhookEventData`, with the id of the refund entity in its payload
pub record WebhookEventData : Type 0 where
  pub dedupe_key : String
  pub event_type : String
  pub gateway_payment_id : Option String
  pub gateway_order_id : Option String
  pub refund_id : Option String

-- `PaymentGateway`: a raised exception is the error of the `Result`. `Body` is a raw delivery with
-- its headers.
pub record Gateway (Body : Type 0) : Type 0 where
  pub create_order : ℕ → Result String
  pub verify_payment_signature : String → String → String → Bool
  pub fetch_payment : String → Result GatewayPayment
  pub initiate_refund : Option String → ℕ → Result GatewayRefund
  pub verify_webhook_signature : Body → Bool
  pub parse_webhook_event : Body → Result WebhookEventData
