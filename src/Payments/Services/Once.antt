-- ===== src/Payments/Services/Once.antt =====
-- A gateway's state of a payment is applied once, and a callback that cannot be trusted changes nothing.
use Prim.Native.String.{String}
use text.Mathlib.TextPositions.{eq_refl}
use shop_orbit.Base.{
  ◌≡◌, refl, true, false, Option, none, some, ok, ==_refl, Bool-cases, inl, inr, ◌⊎◌,
}
use shop_orbit.Fulfillment.Services.{Env}
use shop_orbit.Payments.Models.{Payment, EventType, payment_code}
use shop_orbit.Payments.Gateway.{Gateway, GatewayPayment}
use shop_orbit.Payments.Services.{
  same_text, apply_state, apply_gateway_payment_state, verify_client_callback,
}
use shop_orbit.Shop.{Shop}

same_text_refl : (a : Option String) → same_text a a ≡ true
same_text_refl none = refl
same_text_refl (some w) = eq_refl w

-- A state that the gateway reports again, on the payment as the first report left it, changes nothing and
-- raises nothing, whatever the time, the source and the signature.
applied_once :
    (env env' : Env) (p : Payment) (gp : GatewayPayment) (source : EventType)
    (signature signature' : Option String) (s : Shop)
    → apply_gateway_payment_state env' (apply_state env.now gp signature p) gp source signature' s
      ≡ (ok tt, s)
unfolding apply_gateway_payment_state
applied_once env env' p gp source signature signature' s =
    simp (==_refl (payment_code gp.status), same_text_refl gp.gateway_payment_id)

module _ {Body : Type 0} (gateway : Gateway Body) where
  -- A client callback whose order id is not the payment's, or whose signature the gateway does not
  -- vouch for, answers false and changes nothing.
  pub forged_callback_refused :
      (env : Env) (p : Payment) (payment_id order_id signature : String) (s : Shop)
      → (same_text (some order_id) p.gateway_order_id ≡ false)
        ⊎ (gateway.verify_payment_signature order_id payment_id signature ≡ false)
      → verify_client_callback gateway env p payment_id order_id signature s ≡ (ok false, s)
  unfolding verify_client_callback
  forged_callback_refused env p payment_id order_id signature s (inl foreign) = simp foreign
  forged_callback_refused env p payment_id order_id signature s (inr forged) =
      elim (Bool-cases (same_text (some order_id) p.gateway_order_id)) [
        | inl own ↦ simp (own, forged)
        | inr foreign ↦ simp foreign
      ]
