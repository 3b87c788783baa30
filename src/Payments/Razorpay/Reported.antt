-- ===== src/Payments/Razorpay/Reported.antt =====
-- An order is confirmed only on Razorpay's own word.
use Prim.Native.String.{String}
use text.Mathlib.Text.{◌==◌ as str_eq}
use text.Mathlib.TextEquality.{eq_iff}
use shop_orbit.Base.{
  ℕ, ◌≡◌, sym, ap, ◌∙◌, Bool, true, false, not, ◌&&◌, Option, none, some, ok, arith, Bool-cases,
  Option-cases, Result-cases, inl, inr,
}
use shop_orbit.Cart.Models.{Order, same_status, payment_confirmed}
use shop_orbit.Fulfillment.Services.{Env}
use shop_orbit.Payments.Gateway.{GatewayPayment}
use shop_orbit.Payments.Models.{
  Payment, PaymentStatus, EventType, same_payment_status, same_payment_status→eq, captured,
  client_verify,
}
use shop_orbit.Payments.Pipeline.{on_payment_failed, release}
use shop_orbit.Payments.Pipeline.Idempotent.{release-Settled}
use shop_orbit.Payments.Razorpay.{
  Client, RawPayment, payment_status, normalize_payment, fetch_payment, razorpay_gateway,
}
use shop_orbit.Payments.Services.{
  same_text, apply_state, save_payment, log_event, react, apply_gateway_payment_state,
  verify_client_callback,
}
use shop_orbit.Shop.{Shop}

-- whether an order is confirmed
abbrev pub is_confirmed : ℕ → Shop → Bool
is_confirmed k s = elim (s.orders k) [
  | none ↦ false
  | some o ↦ same_status o.status payment_confirmed
]

failure_confirms_none :
    (k : ℕ) (p : Payment) (s : Shop)
    → ((o : Order) → s.orders p.order ≡ some o → o.id ≡ p.order)
    → is_confirmed k (on_payment_failed p s).1 ≡ true
    → is_confirmed k s ≡ true
unfolding on_payment_failed
failure_confirms_none k p s keyed after = elim (Option-cases (s.orders p.order)) [
  | inl missing ↦ ground arith
  | inr (o, found) ↦ elim (Result-cases (release o s)) [
    | inr (e, failed) ↦ ground arith
    | inl (m, run) ↦
        let (w, freed) = release-Settled o s m (ap s.orders (keyed o found) ∙ found) run in
        let row = ap (λ f. f k) w.order_put in ground arith
  ]
]

react_confirms_none :
    (k : ℕ) (env : Env) (previous : PaymentStatus) (p : Payment) (s : Shop)
    → ((o : Order) → s.orders p.order ≡ some o → o.id ≡ p.order)
    → same_payment_status p.status captured ≡ false
    → is_confirmed k (react env previous p s).1 ≡ true
    → is_confirmed k s ≡ true
react_confirms_none k env previous p s keyed other after =
    elim (Bool-cases (
      same_payment_status p.status PaymentStatus.failed
      && not (same_payment_status previous PaymentStatus.failed))) [
        | inr neither ↦
            let e : (react env previous p s).1 ≡ s = ground arith in
            ap (is_confirmed k) (sym e) ∙ after
        | inl failed ↦
            let e : (react env previous p s).1 ≡ (on_payment_failed p s).1 = ground arith in
            failure_confirms_none k p s keyed (ap (is_confirmed k) (sym e) ∙ after)
      ]

applied_confirms_none :
    (k : ℕ) (env : Env) (p : Payment) (gp : GatewayPayment) (source : EventType)
    (signature : Option String) (s : Shop)
    → ((o : Order) → s.orders p.order ≡ some o → o.id ≡ p.order)
    → same_payment_status gp.status captured ≡ false
    → is_confirmed k (apply_gateway_payment_state env p gp source signature s).1 ≡ true
    → is_confirmed k s ≡ true
unfolding apply_gateway_payment_state
applied_confirms_none k env p gp source signature s keyed other after =
    elim (Bool-cases (
      same_payment_status p.status gp.status
      && same_text p.gateway_payment_id gp.gateway_payment_id)) [
        | inl same ↦
            let e : (apply_gateway_payment_state env p gp source signature s).1 ≡ s = simp same in
            ap (is_confirmed k) (sym e) ∙ after
        | inr news ↦
            let saved = apply_state env.now gp signature p in
            let logged = log_event p.id source (some p.status) gp.status (save_payment saved s) in
            let e : (apply_gateway_payment_state env p gp source signature s).1
                ≡ (react env p.status saved logged).1 =
              simp news in
            react_confirms_none k env p.status saved logged keyed other
              (ap (is_confirmed k) (sym e) ∙ after)
      ]

-- Razorpay's word is `captured` just where the payment is.
captured_iff : (w : Option String) → payment_status w ≡ captured → w ≡ some "captured"
captured_iff none h = absurd (cc)
captured_iff (some w) h = elim (Bool-cases (str_eq w "captured")) [
  | inl same ↦ ap some ((eq_iff w "captured").0 same)
  | inr other ↦ absurd (ground arith)
]

unchanged_clash :
    (k : ℕ) (s' s : Shop) → s' ≡ s → is_confirmed k s ≡ false → is_confirmed k s' ≡ true → ⊥
unchanged_clash k s' s e before after =
    let clash : false ≡ true = sym before ∙ ap (is_confirmed k) (sym e) ∙ after in cc

module _ (client : Client) where
  -- Where the payment's order stands under its own key, a browser's callback confirms an order that
  -- was not confirmed before only if its signature is vouched for and Razorpay itself, asked for
  -- the payment, answers that it is captured.
  pub callback_confirms_captured :
      (k : ℕ) (env : Env) (p : Payment) (payment_id order_id signature : String) (s : Shop)
      → ((o : Order) → s.orders p.order ≡ some o → o.id ≡ p.order)
      → is_confirmed k s ≡ false
      → is_confirmed k
          (verify_client_callback (razorpay_gateway client) env p payment_id order_id signature s).1
        ≡ true
      → (client.verify_payment_signature order_id payment_id signature ≡ true)
        × (raw : RawPayment) × (client.payment_fetch payment_id ≡ ok raw)
        × (raw.status ≡ some "captured")
  unfolding verify_client_callback fetch_payment normalize_payment
  callback_confirms_captured k env p payment_id order_id signature s keyed before after =
      let run =
        verify_client_callback (razorpay_gateway client) env p payment_id order_id signature s in
      elim (Bool-cases (same_text (some order_id) p.gateway_order_id)) [
        | inr foreign ↦
            let e : run.1 ≡ s = ground arith in absurd (unchanged_clash k run.1 s e before after)
        | inl own ↦
            elim (Bool-cases (client.verify_payment_signature order_id payment_id signature)) [
              | inr forged ↦
                  let e : run.1 ≡ s = ground arith in
                  absurd (unchanged_clash k run.1 s e before after)
              | inl vouched ↦ elim (Result-cases (client.payment_fetch payment_id)) [
                | inr (x, failed) ↦
                    let e : run.1 ≡ s = ground arith in
                    absurd (unchanged_clash k run.1 s e before after)
                | inl (raw, fetched) ↦
                    elim (Bool-cases (same_payment_status (payment_status raw.status) captured)) [
                      | inl reported ↦ (
                        vouched,
                        raw,
                        fetched,
                        captured_iff raw.status
                            (same_payment_status→eq (payment_status raw.status) captured reported),
                      )
                      | inr other ↦
                          let gp = normalize_payment raw in
                          let e : run.1
                              ≡ (apply_gateway_payment_state env p gp client_verify (some signature)
                                  s).1 =
                            ground arith in
                          let was =
                            applied_confirms_none k env p gp client_verify (some signature) s keyed
                              other (ap (is_confirmed k) (sym e) ∙ after) in
                          absurd (ground arith)
                    ]
              ]
            ]
      ]
