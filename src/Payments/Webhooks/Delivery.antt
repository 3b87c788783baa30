-- ===== src/Payments/Webhooks/Delivery.antt =====
-- What a delivery of a webhook leaves behind, and what the second delivery of the event does.
use mathlib.Core.Path.{subst}
use text.Mathlib.Text.{◌==◌ as str_eq}
use text.Mathlib.TextPositions.{eq_refl}
use shop_orbit.Base.{
  ℕ, ◌≡◌, refl, ap, sym, ◌∙◌, Bool, true, false, Option, none, some, ◌∷◌, Result, ok, err, find,
  Option-cases, inl, inr,
}
use shop_orbit.Fulfillment.Services.{Env}
use shop_orbit.Payments.Models.{WebhookEvent}
use shop_orbit.Payments.Gateway.{Gateway, WebhookEventData}
use shop_orbit.Payments.Webhooks.{
  dispatch_webhook_event, process_event, take_in, seen, finish, new_webhook,
}
use shop_orbit.Shop.{Shop}
use shop_orbit.Payments.Webhooks.Keeps.{dispatch_webhook_event-Keeps, save_webhook-find}

module _ {Body : Type 0} (gateway : Gateway Body) (in_transaction : Bool) where
  -- what the table holds once the event is marked as finished
  pub finish-found :
      (now : ℕ) (event : WebhookEventData) (w : WebhookEvent) (m : Result (Unit {0}) × Shop)
      (s' : Shop)
      → finish gateway in_transaction now w m ≡ (ok true, s')
      → find (λ (v : WebhookEvent). str_eq v.dedupe_key event.dedupe_key) m.1.webhooks ≡ some w
      → (w' : WebhookEvent) × (seen gateway in_transaction event s' ≡ some w')
        × (w'.processed_at ≡ some now)
  finish-found now event w (ok done, s) s' h found =
      let w' = record w { processed_at = some now; has_error = false } in
      (
        w',
        ap (λ (r : Result Bool × Shop). seen gateway in_transaction event r.1) (sym h)
            ∙ save_webhook-find gateway in_transaction event.dedupe_key w w' s.webhooks found refl,
        refl,
      )
  finish-found now event w (err e, s) s' h found = absurd (cc)

  finished_ignored :
      (env : Env) (event : WebhookEventData) (w : WebhookEvent) (t : ℕ) (s : Shop)
      → seen gateway in_transaction event s ≡ some w
      → w.processed_at ≡ some t
      → process_event gateway in_transaction env event s ≡ (ok true, s)
  unfolding process_event take_in
  finished_ignored env event w t s found finished =
      ap (λ o. take_in gateway in_transaction env event o s) found ∙ simp finished

  taken_in :
      (env env' : Env) (event : WebhookEventData) (o : Option WebhookEvent) (s s' : Shop)
      → seen gateway in_transaction event s ≡ o
      → take_in gateway in_transaction env event o s ≡ (ok true, s')
      → process_event gateway in_transaction env' event s' ≡ (ok true, s')
  unfolding take_in
  taken_in env env' event none s s' at h =
      let w = new_webhook gateway in_transaction event in
      let opened = record s { webhooks = w ∷ s.webhooks } in
      let run = dispatch_webhook_event gateway in_transaction env event opened in
      let (w', found', finished) = finish-found env.now event w run s' h (
        ap (find _) ((dispatch_webhook_event-Keeps gateway in_transaction env event).kept opened)
        ∙ simp (eq_refl event.dedupe_key)) in
      finished_ignored env' event w' env.now s' found' finished
  taken_in env env' event (some w) s s' at h = elim (Option-cases w.processed_at) [
    | inr (t, finished) ↦
        let skips : take_in gateway in_transaction env event (some w) s ≡ (ok true, s) =
          simp finished in
        subst (λ u. process_event gateway in_transaction env' event u ≡ (ok true, u))
          (ap (λ (r : Result Bool × Shop). r.1) (sym skips ∙ h))
          (finished_ignored env' event w t s at finished)
    | inl fresh ↦
        let run = dispatch_webhook_event gateway in_transaction env event s in
        let opens : take_in gateway in_transaction env event (some w) s
            ≡ finish gateway in_transaction env.now w run =
          simp fresh in
        let (w', found', finished) = finish-found env.now event w run s' (sym opens ∙ h) (
          ap (find _) ((dispatch_webhook_event-Keeps gateway in_transaction env event).kept s)
          ∙ at) in
        finished_ignored env' event w' env.now s' found' finished
  ]

  -- An event that was processed is taken in once: when a delivery has returned, every later delivery of
  -- it, at whatever time, returns at once and leaves the shop as it is.
  pub delivered_once :
      (env env' : Env) (event : WebhookEventData) (s s' : Shop)
      → process_event gateway in_transaction env event s ≡ (ok true, s')
      → process_event gateway in_transaction env' event s' ≡ (ok true, s')
  unfolding process_event
  delivered_once env env' event s s' h =
      taken_in env env' event (seen gateway in_transaction event s) s s' refl h
