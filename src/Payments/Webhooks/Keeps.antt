-- ===== src/Payments/Webhooks/Keeps.antt =====
-- Nothing that a webhook sets off writes the table of deliveries.
use Prim.Native.String.{String}
use text.Mathlib.Text.{◌==◌ as str_eq}
use text.Mathlib.TextPositions.{eq_refl}
use shop_orbit.Base.{
  ℕ, ◌≡◌, refl, ap, sym, ◌∙◌, Bool, true, Option, none, some, List, [], ◌∷◌, ok, not_in_transaction,
  ◌==◌, does_not_exist, find, find-fits, if◌then◌else◌, Bool-cases, Option-cases, inl, inr,
}
use shop_orbit.Fulfillment.Services.{Env}
use shop_orbit.Payments.Models.{
  PaymentStatus, Payment, Refund, RefundState, same_refund_state, WebhookEvent, EventType,
  webhook_event,
}
use shop_orbit.Payments.Gateway.{Gateway, GatewayPayment, GatewayRefundStatus, WebhookEventData}
use shop_orbit.Payments.Pipeline.Keeps.{
  table, on_payment_captured-Keeps, on_payment_failed-Keeps, on_refund_processed-Keeps,
  on_refund_failed-Keeps,
}
use shop_orbit.Payments.Services.{
  apply_gateway_payment_state, apply_state, react, same_text, save_payment, log_event,
}
use shop_orbit.Payments.Refunding.{
  apply_refund_result, terminal_state, record_refund, after_refund, count_refund,
}
use shop_orbit.Payments.Webhooks.{
  find_payment, handle_payment_state_webhook, handle_refund_webhook, dispatch_webhook_event, fetch,
  apply_to_refund, save_webhook, matches,
}
use shop_orbit.Shop.{Shop}
use shop_orbit.Shop.Action.{
  Keeps, >>=-Keeps, if-Keeps, gets-Keeps, pure-Keeps, modify-Keeps, ◌>>◌, guard-Keeps,
  get_or_raise-Keeps, pure, modify,
}

react-Keeps :
    (env : Env) (previous : PaymentStatus) (p : Payment) → Keeps table (react env previous p)
react-Keeps env previous p =
    if-Keeps table _ (on_payment_captured-Keeps env p)
      (if-Keeps table _ (on_payment_failed-Keeps p) (pure-Keeps table (ok tt)))

apply_gateway_payment_state-Keeps :
    (env : Env) (p : Payment) (gp : GatewayPayment) (source : EventType) (signature : Option String)
    → Keeps table (apply_gateway_payment_state env p gp source signature)
unfolding apply_gateway_payment_state
apply_gateway_payment_state-Keeps env p gp source signature =
    let saved = apply_state env.now gp signature p in
    if-Keeps table _ (pure-Keeps table (ok tt)) (
      >>=-Keeps table (modify-Keeps table (save_payment saved) (λ s. refl)) (λ _.
        >>=-Keeps table
          (modify-Keeps table (log_event p.id source (some p.status) gp.status) (λ s. refl))
          (λ _. react-Keeps env p.status saved)))

after_refund-Keeps :
    (new : RefundState) (r : Refund) (p : Payment) → Keeps table (after_refund new r p)
after_refund-Keeps RefundState.processed r p = on_refund_processed-Keeps r (count_refund r.amount p)
after_refund-Keeps RefundState.failed r p = on_refund_failed-Keeps r
after_refund-Keeps RefundState.initiated r p = on_refund_failed-Keeps r

record_refund-same :
    (now : ℕ) (new : RefundState) (r : Refund) (p : Payment) (s : Shop)
    → table (record_refund now new r p s) ≡ table s
record_refund-same now RefundState.processed r p s = refl
record_refund-same now RefundState.failed r p s = refl
record_refund-same now RefundState.initiated r p s = refl

apply_refund_result-Keeps :
    (now : ℕ) (r : Refund) (p : Payment) (status : GatewayRefundStatus)
    → Keeps table (apply_refund_result now r p status)
unfolding apply_refund_result
apply_refund_result-Keeps now r p status = go (terminal_state status)
  where
    moved :
        (new : RefundState)
        → Keeps table (
            if same_refund_state r.status new
            then pure tt
            else (modify (record_refund now new r p)
                >> after_refund new (record r { status = new; processed_at = some now }) p))
    moved new = if-Keeps table _ (pure-Keeps table (ok tt)) (
        >>=-Keeps table
          (modify-Keeps table (record_refund now new r p) (record_refund-same now new r p))
          (λ _. after_refund-Keeps new (record r { status = new; processed_at = some now }) p))

    go :
        (t : Option RefundState)
        → Keeps table (elim t [
          | none ↦ pure tt
          | some new ↦
              if same_refund_state r.status new
              then pure tt
              else (modify (record_refund now new r p)
                  >> after_refund new (record r { status = new; processed_at = some now }) p)
        ])
    go none = pure-Keeps table (ok tt)
    go (some new) = moved new

some_injective : {A : Type 0} {a b : A} → some a ≡ some b → a ≡ b
some_injective h = cc

module _ {Body : Type 0} (gateway : Gateway Body) (in_transaction : Bool) where
  pub save_webhook-find :
      (key : String) (w w' : WebhookEvent) (ws : List WebhookEvent)
      → find (λ (v : WebhookEvent). str_eq v.dedupe_key key) ws ≡ some w
      → w'.dedupe_key ≡ w.dedupe_key
      → find
          (λ (v : WebhookEvent). str_eq v.dedupe_key key)
          (save_webhook gateway in_transaction w' ws)
        ≡ some w'
  save_webhook-find key w w' [] found same = absurd (cc)
  save_webhook-find key w w' (v ∷ vs) found same =
      let fits : str_eq w'.dedupe_key key ≡ true =
        ap (λ k. str_eq k key) same
        ∙ find-fits (λ (u : WebhookEvent). str_eq u.dedupe_key key) w (v ∷ vs) found in
      elim (Bool-cases (str_eq v.dedupe_key key)) [
        | inl hit ↦
            let e : some v ≡ some w =
              sym (
                ap
                  (λ b.
                    if b then some v else find (λ (u : WebhookEvent). str_eq u.dedupe_key key) vs)
                  hit)
              ∙ found in
            let swapped : str_eq v.dedupe_key w'.dedupe_key ≡ true =
              ap (str_eq v.dedupe_key) (same ∙ ap WebhookEvent.dedupe_key (sym (some_injective e)))
              ∙ eq_refl v.dedupe_key in
            simp (swapped, fits)
        | inr other ↦ elim (Bool-cases (str_eq v.dedupe_key w'.dedupe_key)) [
          | inl swapped ↦ simp (swapped, fits)
          | inr apart ↦
              simp (apart, other)
                (save_webhook-find key w w' vs
                  (sym (
                      ap
                        (λ b.
                          if b
                          then some v
                          else find (λ (u : WebhookEvent). str_eq u.dedupe_key key) vs)
                        other)
                    ∙ found)
                  same)
        ]
      ]

  find_payment-Keeps : (a b : Option String) → Keeps table (find_payment in_transaction a b)
  unfolding find_payment
  find_payment-Keeps a b = if-Keeps table _ (pure-Keeps table (ok none)) (
      >>=-Keeps table (guard-Keeps table in_transaction not_in_transaction)
        (λ _. gets-Keeps table (λ s. find (matches a b) s.payments)))

  handle_payment_state_webhook-Keeps :
      (env : Env) (event : WebhookEventData)
      → Keeps table (handle_payment_state_webhook gateway in_transaction env event)
  unfolding handle_payment_state_webhook
  handle_payment_state_webhook-Keeps env event =
      >>=-Keeps table (find_payment-Keeps event.gateway_payment_id event.gateway_order_id) (elim [
        | none ↦ pure-Keeps table (ok tt)
        | some p ↦
            >>=-Keeps table
              (pure-Keeps table (fetch gateway in_transaction event.gateway_payment_id))
              (λ gp.
                apply_gateway_payment_state-Keeps env p gp (webhook_event event.event_type) none)
      ])

  apply_to_refund-Keeps :
      (env : Env) (status : GatewayRefundStatus) (r : Refund)
      → Keeps table (apply_to_refund gateway in_transaction env status r)
  apply_to_refund-Keeps env status r = record {
    kept = λ s.
        (>>=-Keeps table
            (get_or_raise-Keeps table (find (λ (p : Payment). p.id == r.payment) s.payments)
              does_not_exist)
            (λ p. apply_refund_result-Keeps env.now r p status)).kept
          s;
  }

  handle_refund_webhook-Keeps :
      (env : Env) (event : WebhookEventData) (status : GatewayRefundStatus)
      → Keeps table (handle_refund_webhook gateway in_transaction env event status)
  unfolding handle_refund_webhook
  handle_refund_webhook-Keeps env event status = record {
    kept = λ s.
        elim (Option-cases
          (find (λ (r : Refund). same_text r.gateway_refund_id event.refund_id) s.refunds)) [
            | inl missing ↦ simp missing
            | inr (r, found) ↦ simp found ((apply_to_refund-Keeps env status r).kept s)
          ];
  }

  pub dispatch_webhook_event-Keeps :
      (env : Env) (event : WebhookEventData)
      → Keeps table (dispatch_webhook_event gateway in_transaction env event)
  unfolding dispatch_webhook_event
  dispatch_webhook_event-Keeps env event =
      if-Keeps table _ (handle_payment_state_webhook-Keeps env event) (
        if-Keeps table _ (handle_refund_webhook-Keeps env event GatewayRefundStatus.processed) (
          if-Keeps table _ (handle_refund_webhook-Keeps env event GatewayRefundStatus.failed)
            (pure-Keeps table (ok tt))))
