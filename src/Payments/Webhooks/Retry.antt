-- ===== src/Payments/Webhooks/Retry.antt =====
-- What the answer to a delivery says of the event: whether it was taken in, or will be by the next delivery.
use text.Mathlib.TextPositions.{eq_refl}
use text.Mathlib.Text.{◌==◌ as str_eq}
use shop_orbit.Base.{
  ℕ, ◌≡◌, ◌≢◌, refl, ap, sym, ◌∙◌, Bool, true, false, Option, none, some, ◌∷◌, Result, ok, err,
  Error, find, Option-cases, inl, inr,
}
use shop_orbit.Fulfillment.Services.{Env}
use shop_orbit.Payments.Gateway.{Gateway, WebhookEventData}
use shop_orbit.Payments.Models.{WebhookEvent}
use shop_orbit.Payments.Webhooks.{
  dispatch_webhook_event, process_event, take_in, seen, finish, new_webhook,
}
use shop_orbit.Payments.Webhooks.Delivery.{finish-found}
use shop_orbit.Payments.Webhooks.Keeps.{dispatch_webhook_event-Keeps, save_webhook-find}
use shop_orbit.Shop.{Shop}

-- whether `processed_at` is set
abbrev pub is_finished : Option ℕ → Bool
is_finished none = false
is_finished (some t) = true

module _ {Body : Type 0} (gateway : Gateway Body) (in_transaction : Bool) where
  -- the event is in the table, finished or not
  abbrev pub Recorded : Bool → WebhookEventData → Shop → Type 0
  Recorded finished event s =
      (w : WebhookEvent) × (seen gateway in_transaction event s ≡ some w)
      × (is_finished w.processed_at ≡ finished)

  failed-found :
      (now : ℕ) (event : WebhookEventData) (w : WebhookEvent) (m : Result (Unit {0}) × Shop)
      (e : Error) (s' : Shop)
      → finish gateway in_transaction now w m ≡ (err e, s')
      → find (λ (v : WebhookEvent). str_eq v.dedupe_key event.dedupe_key) m.1.webhooks ≡ some w
      → w.processed_at ≡ none
      → Recorded false event s'
  failed-found now event w (ok done, s) e s' h found unfinished = absurd (cc)
  failed-found now event w (err x, s) e s' h found unfinished =
      let w' = record w { has_error = true } in
      (
        w',
        ap (λ (r : Result Bool × Shop). seen gateway in_transaction event r.1) (sym h)
            ∙ save_webhook-find gateway in_transaction event.dedupe_key w w' s.webhooks found refl,
        ap is_finished unfinished,
      )

  taken_in-Recorded :
      (env : Env) (event : WebhookEventData) (o : Option WebhookEvent) (s s' : Shop)
      → seen gateway in_transaction event s ≡ o
      → (take_in gateway in_transaction env event o s ≡ (ok true, s') → Recorded true event s')
        × ((e : Error)
            → take_in gateway in_transaction env event o s ≡ (err e, s')
            → Recorded false event s')
  unfolding take_in
  taken_in-Recorded env event none s s' at =
      let w = new_webhook gateway in_transaction event in
      let opened = record s { webhooks = w ∷ s.webhooks } in
      let run = dispatch_webhook_event gateway in_transaction env event opened in
      let found : find (λ (v : WebhookEvent). str_eq v.dedupe_key event.dedupe_key) run.1.webhooks
          ≡ some w =
        ap (find _) ((dispatch_webhook_event-Keeps gateway in_transaction env event).kept opened)
        ∙ simp (eq_refl event.dedupe_key) in
      (
        λ h.
            let (w', there, finished) =
              finish-found gateway in_transaction env.now event w run s' h found in
            (w', there, ap is_finished finished),
        λ e h. failed-found env.now event w run e s' h found refl,
      )
  taken_in-Recorded env event (some w) s s' at = elim (Option-cases w.processed_at) [
    | inr (t, finished) ↦
        let skips : take_in gateway in_transaction env event (some w) s ≡ (ok true, s) =
          simp finished in
        (
          λ h.
              let same : s ≡ s' = ap (λ (r : Result Bool × Shop). r.1) (sym skips ∙ h) in
              (w, ap (seen gateway in_transaction event) (sym same) ∙ at, ap is_finished finished),
          λ e h.
              let clash : ok true ≡ err e = ap (λ (r : Result Bool × Shop). r.0) (sym skips ∙ h) in
              absurd (cc),
        )
    | inl fresh ↦
        let run = dispatch_webhook_event gateway in_transaction env event s in
        let opens : take_in gateway in_transaction env event (some w) s
            ≡ finish gateway in_transaction env.now w run =
          simp fresh in
        let found : find (λ (v : WebhookEvent). str_eq v.dedupe_key event.dedupe_key) run.1.webhooks
            ≡ some w =
          ap (find _) ((dispatch_webhook_event-Keeps gateway in_transaction env event).kept s)
          ∙ at in
        (
          λ h.
              let (w', there, finished) =
                finish-found gateway in_transaction env.now event w run s' (sym opens ∙ h) found in
              (w', there, ap is_finished finished),
          λ e h. failed-found env.now event w run e s' (sym opens ∙ h) found fresh,
        )
  ]

  pub process_event-Recorded :
      (env : Env) (event : WebhookEventData) (s s' : Shop)
      → (process_event gateway in_transaction env event s ≡ (ok true, s') → Recorded true event s')
        × ((e : Error)
            → process_event gateway in_transaction env event s ≡ (err e, s')
            → Recorded false event s')
  unfolding process_event
  process_event-Recorded env event s s' =
      taken_in-Recorded env event (seen gateway in_transaction event s) s s' refl

  finish-answers :
      (now : ℕ) (w : WebhookEvent) (m : Result (Unit {0}) × Shop) (s' : Shop)
      → finish gateway in_transaction now w m ≢ (ok false, s')
  finish-answers now w (ok done, s) s' h = cc
  finish-answers now w (err e, s) s' h = cc

  taken_in-answers :
      (env : Env) (event : WebhookEventData) (o : Option WebhookEvent) (s s' : Shop)
      → take_in gateway in_transaction env event o s ≢ (ok false, s')
  unfolding take_in
  taken_in-answers env event none s s' h =
      finish-answers env.now (new_webhook gateway in_transaction event) _ s' h
  taken_in-answers env event (some w) s s' h = elim (Option-cases w.processed_at) [
    | inr (t, finished) ↦
        let skips : take_in gateway in_transaction env event (some w) s ≡ (ok true, s) =
          simp finished in
        let clash : ok true ≡ ok false = ap (λ (r : Result Bool × Shop). r.0) (sym skips ∙ h) in cc
    | inl fresh ↦
        let run = dispatch_webhook_event gateway in_transaction env event s in
        let opens : take_in gateway in_transaction env event (some w) s
            ≡ finish gateway in_transaction env.now w run =
          simp fresh in
        finish-answers env.now w run s' (sym opens ∙ h)
  ]

  -- the answer of an event that is taken in is never false
  pub process_event-answers :
      (env : Env) (event : WebhookEventData) (s s' : Shop)
      → process_event gateway in_transaction env event s ≢ (ok false, s')
  unfolding process_event
  process_event-answers env event s s' =
      taken_in-answers env event (seen gateway in_transaction event s) s s'
