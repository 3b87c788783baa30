-- ===== src/Catalog/Alerts/Sent.antt =====
-- Who is told that a product is back, and how often.
use shop_orbit.Base.{
  ℕ, ◌+◌, ◌≡◌, refl, ◌∙◌, Bool, true, false, ◌&&◌, List, [], ◌∷◌, Option, none, some, ◌==◌,
  if◌then◌else◌, any_of, select, arith, Bool-cases, inl, inr,
}
use shop_orbit.Cart.Baskets.{same_variant}
use shop_orbit.Catalog.Alerts.{
  StockAlert, Mail, Alerts, is_alert_of, is_pending, request_stock_alert, notify_back_in_stock,
  notify_restocked, restocked, send_all, mark_notified,
}

-- How many e-mails on a product or variant went to an address.
abbrev pub is_mail_to : ℕ → Option ℕ → ℕ → Mail → Bool
is_mail_to product variant email m =
    (m.product == product) && same_variant m.variant variant && (m.to == email)

abbrev pub mails_to : ℕ → Option ℕ → ℕ → List Mail → ℕ
mails_to product variant email [] = 0
mails_to product variant email (m ∷ ms) =
    (if is_mail_to product variant email m then 1 else 0) + mails_to product variant email ms

-- How many alerts of an address are still to be answered.
abbrev pub is_open_for : ℕ → Option ℕ → ℕ → StockAlert → Bool
is_open_for product variant email a = is_pending product variant a && (a.email == email)

abbrev pub open_alerts : ℕ → Option ℕ → ℕ → List StockAlert → ℕ
open_alerts product variant email [] = 0
open_alerts product variant email (a ∷ alerts) =
    (if is_open_for product variant email a then 1 else 0)
    + open_alerts product variant email alerts

same_variant_refl : (v : Option ℕ) → same_variant v v ≡ true
same_variant_refl none = refl
same_variant_refl (some a) = ground arith

module _ (product : ℕ) (variant : Option ℕ) where
  send_all-mails :
      (email : ℕ) (alerts : List StockAlert) (sent : List Mail)
      → mails_to product variant email
          (send_all product variant (select (is_pending product variant) alerts) sent)
        ≡ mails_to product variant email sent + open_alerts product variant email alerts
  send_all-mails email [] sent = omega arith
  send_all-mails email (a ∷ alerts) sent = elim (Bool-cases (is_pending product variant a)) [
    | inl pending ↦
        let m : Mail = record { product = product; variant = variant; to = a.email } in
        let fits = same_variant_refl variant in
        let rest = send_all-mails email alerts (m ∷ sent) in ground arith
    | inr answered ↦ let rest = send_all-mails email alerts sent in ground arith
  ]

  mark_notified-none :
      (now email : ℕ) (alerts : List StockAlert)
      → open_alerts product variant email (mark_notified now product variant alerts) ≡ 0
  mark_notified-none now email [] = refl
  mark_notified-none now email (a ∷ alerts) = ground (arith, mark_notified-none now email alerts)

-- When a product or variant comes back, an address is sent one e-mail for each alert of it that is still open, and
-- has no open alert left.
notify_back_in_stock-mails :
    (now product : ℕ) (variant : Option ℕ) (email : ℕ) (s : Alerts)
    → let s' = notify_back_in_stock now product variant s in
      (mails_to product variant email s'.sent
        ≡ mails_to product variant email s.sent + open_alerts product variant email s.alerts)
      × (open_alerts product variant email s'.alerts ≡ 0)
unfolding notify_back_in_stock
notify_back_in_stock-mails now product variant email s = (
  send_all-mails product variant email s.alerts s.sent,
  mark_notified-none product variant now email s.alerts,
)

-- Once an address has an alert that was answered, and none that is open, a new request of it is dropped: it is
-- accepted, and the next time the product or variant comes back the address is sent nothing.
pub answered_alert_silent :
    (now product : ℕ) (variant : Option ℕ) (email : ℕ) (user previous : Option ℕ) (new_stock : ℕ)
    (s : Alerts)
    → any_of (is_alert_of product variant email) s.alerts ≡ true
    → open_alerts product variant email s.alerts ≡ 0
    → mails_to product variant email
        (notify_restocked now false previous new_stock product variant
          (request_stock_alert product variant email user s)).sent
      ≡ mails_to product variant email s.sent
unfolding request_stock_alert notify_restocked
answered_alert_silent now product variant email user previous new_stock s known answered =
    let told = notify_back_in_stock-mails now product variant email s in
    let dropped : request_stock_alert product variant email user s ≡ s = simp known in
    rw dropped (elim (Bool-cases (restocked previous new_stock)) [
      | inl back ↦ simp back (told.0 ∙ omega (arith, answered))
      | inr same ↦ simp same
    ])
