-- ===== src/Payments/Views/Answers.antt =====
-- What the answers of the payment requests promise.
use mathlib.Core.Path.{subst}
use shop_orbit.Base.{
  ℕ, ◌≡◌, ◌≢◌, refl, ap, sym, Bool, true, false, some, Result, ok, err, Error, ◌==◌, Bool-cases,
  Option-cases, inl, inr, arith,
}
use shop_orbit.Cart.Models.{Order}
use shop_orbit.Fulfillment.Services.{Env}
use shop_orbit.Payments.Gateway.{Gateway, WebhookEventData}
use shop_orbit.Payments.Models.{Payment}
use shop_orbit.Payments.Services.Once.{forged_callback_refused}
use shop_orbit.Payments.Views.{
  HttpStatus, http_200, http_400, http_500, http_of, razorpay_webhook, Callback, to_success,
  attempt_of, verify_payment,
}
use shop_orbit.Payments.Webhooks.{process_event, process_webhook}
use shop_orbit.Payments.Webhooks.Retry.{Recorded, process_event-Recorded, process_event-answers}
use shop_orbit.Shop.{Shop}

-- What an answer says of a signed delivery of an event
abbrev pub Promise :
    {Body : Type 0} → Gateway Body → Bool → WebhookEventData → HttpStatus → Shop → Type 0
Promise gateway in_transaction event http_200 s = Recorded gateway in_transaction true event s
Promise gateway in_transaction event http_500 s = Recorded gateway in_transaction false event s
Promise gateway in_transaction event http_400 s = ⊥

module _ {Body : Type 0} (gateway : Gateway Body) (in_transaction : Bool) where
  -- from the result of the event to its answer
  answered :
      (event : WebhookEventData) (r : Result Bool × Shop)
      → (r ≡ (ok true, r.1) → Recorded gateway in_transaction true event r.1)
      → ((e : Error) → r ≡ (err e, r.1) → Recorded gateway in_transaction false event r.1)
      → r ≢ (ok false, r.1)
      → Promise gateway in_transaction event (http_of r).0 (http_of r).1
  answered event (ok true, s) taken failed never = taken refl
  answered event (ok false, s) taken failed never = never refl
  answered event (err e, s) taken failed never = failed e refl

  -- Of a delivery whose body parses: if it is signed and answered 200, its event is on record as
  -- finished, so that no later delivery of it is applied again; if it is signed and answered 500,
  -- its event is on record as unfinished, so that the next delivery is; none that is signed is
  -- answered 400; and one whose signature is wrong is answered 400 and changes nothing.
  pub razorpay_webhook-Promise :
      (env : Env) (body : Body) (event : WebhookEventData) (s : Shop)
      → gateway.parse_webhook_event body ≡ ok event
      → let (status, s') = razorpay_webhook gateway in_transaction env body s in
        (gateway.verify_webhook_signature body ≡ true
          → Promise gateway in_transaction event status s')
        × (gateway.verify_webhook_signature body ≡ false → (status ≡ http_400) × (s' ≡ s))
  unfolding razorpay_webhook process_webhook
  razorpay_webhook-Promise env body event s parsed =
      let run = process_event gateway in_transaction env event s in
      let (taken, failed) = process_event-Recorded gateway in_transaction env event s run.1 in
      (
        λ signed.
            let e : process_webhook gateway in_transaction env body s ≡ run =
              simp (signed, parsed) in
            subst
              (λ (r : Result Bool × Shop).
                Promise gateway in_transaction event (http_of r).0 (http_of r).1)
              (sym e)
              (answered event run taken failed
                (process_event-answers gateway in_transaction env event s run.1)),
        λ forged.
            let e : process_webhook gateway in_transaction env body s ≡ (ok false, s) =
              simp forged in
            (
              ap (λ (r : Result Bool × Shop). (http_of r).0) e,
              ap (λ (r : Result Bool × Shop). (http_of r).1) e,
            ),
      )

  -- A callback succeeds only for the buyer's own order, by an attempt of that order with the posted order id, whose
  -- signature the gateway vouches for.
  verify_payment-vouched :
      (env : Env) (user id : ℕ) (c : Callback) (s s' : Shop)
      → verify_payment gateway env user id (some c) s ≡ (ok to_success, s')
      → (o : Order) × (p : Payment) × (s.orders id ≡ some o)
        × (o.user ≡ user)
        × (attempt_of o c.razorpay_order_id s ≡ some p)
        × (gateway.verify_payment_signature c.razorpay_order_id c.razorpay_payment_id
              c.razorpay_signature
            ≡ true)
  unfolding verify_payment
  verify_payment-vouched env user id c s s' h = elim (Option-cases (s.orders id)) [
    | inl missing ↦ absurd (ground arith)
    | inr (o, found) ↦ elim (Bool-cases (o.user == user)) [
      | inr foreign ↦ absurd (ground arith)
      | inl own ↦ elim (Option-cases (attempt_of o c.razorpay_order_id s)) [
        | inl unknown ↦ absurd (ground arith)
        | inr (p, attempt) ↦
            elim (Bool-cases (
              gateway.verify_payment_signature c.razorpay_order_id c.razorpay_payment_id
                c.razorpay_signature)) [
                  | inl vouched ↦ (o, p, found, ground arith, attempt, vouched)
                  | inr forged ↦
                      let refused =
                        forged_callback_refused gateway env p c.razorpay_payment_id
                          c.razorpay_order_id c.razorpay_signature s (inr forged) in
                      absurd (ground arith)
                ]
      ]
    ]
  ]
