-- ===== src/Payments/Views.antt =====
-- payments/views.py: the two requests that the payments answer. `json.loads` and the reading of headers are the web
-- framework's; the order number and the user tell the order.
pub mod Answers
use Prim.Native.String.{String}
use shop_orbit.Base.{
  ℕ, Bool, true, false, ◌&&◌, Option, none, some, ◌==◌, Result, ok, err, does_not_exist, find,
}
use shop_orbit.Cart.Models.{Order}
use shop_orbit.Fulfillment.Services.{Env}
use shop_orbit.Payments.Gateway.{Gateway}
use shop_orbit.Payments.Models.{Payment}
use shop_orbit.Payments.PayPage.{own_order}
use shop_orbit.Payments.Services.{same_text, verify_client_callback}
use shop_orbit.Payments.Webhooks.{process_webhook}
use shop_orbit.Shop.{Shop}
use shop_orbit.Shop.Action.{Action}

-- The fields of the body that the checkout script posts
pub record Callback : Type 0 where
  pub razorpay_order_id : String
  pub razorpay_payment_id : String
  pub razorpay_signature : String

-- The answers of `verify_payment`
pub data CallbackAnswer : Type 0 where
  malformed no_attempt to_success to_failed : CallbackAnswer

abbrev pub answer_of : Result Bool × Shop → Result CallbackAnswer × Shop
answer_of (ok true, s) = (ok to_success, s)
answer_of (ok false, s) = (ok to_failed, s)
answer_of (err e, s) = (err e, s)

-- `Payment.objects.filter(order=order, gateway_order_id=...).order_by("-created_at").first()`
abbrev pub attempt_of : Order → String → Shop → Option Payment
attempt_of o gateway_order_id s =
    find
      (λ (p : Payment). (p.order == o.id) && same_text p.gateway_order_id (some gateway_order_id))
      s.payments

-- The HTTP status of an answer to the gateway
pub data HttpStatus : Type 0 where
  http_200 http_400 http_500 : HttpStatus

abbrev pub http_of : Result Bool × Shop → HttpStatus × Shop
http_of (ok true, s) = (http_200, s)
http_of (ok false, s) = (http_400, s)
http_of (err e, s) = (http_500, s)

module _ {Body : Type 0} (gateway : Gateway Body) where
  abbrev pub verify_own : Env → Order → Option Callback → Action CallbackAnswer
  verify_own env o none s = (ok malformed, s)
  verify_own env o (some c) s = elim (attempt_of o c.razorpay_order_id s) [
    | none ↦ (ok no_attempt, s)
    | some p ↦ answer_of (
        verify_client_callback gateway env p c.razorpay_payment_id c.razorpay_order_id
          c.razorpay_signature s)
  ]

  -- `verify_payment`
  unfoldable pub verify_payment : Env → ℕ → ℕ → Option Callback → Action CallbackAnswer
  verify_payment env user id body s = elim (own_order user id s) [
    | none ↦ (err does_not_exist, s)
    | some o ↦ verify_own env o body s
  ]

  -- `razorpay_webhook`
  unfoldable pub razorpay_webhook : Bool → Env → Body → Shop → HttpStatus × Shop
  razorpay_webhook in_transaction env body s =
      http_of (process_webhook gateway in_transaction env body s)
