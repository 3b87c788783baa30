-- ===== src/Catalog/Alerts.antt =====
-- "Notify me when back in stock" (catalog/signals.py, catalog/emails.py, `request_stock_alert` of catalog/views.py).
pub mod Sent
use shop_orbit.Base.{
  ℕ, Bool, true, false, ◌&&◌, List, [], ◌∷◌, Option, none, some, ltb, leb, ◌==◌, if◌then◌else◌,
  any_of, select,
}
use shop_orbit.Cart.Baskets.{same_variant}

-- `StockAlert`; an address is told by a number.
pub record StockAlert : Type 0 where
  pub product : ℕ
  pub variant : Option ℕ
  pub user : Option ℕ
  pub email : ℕ
  pub notified_at : Option ℕ

-- A "back in stock" e-mail
pub record Mail : Type 0 where
  pub product : ℕ
  pub variant : Option ℕ
  pub to : ℕ

-- The alerts and the e-mails sent, newest first
pub record Alerts : Type 0 where
  pub alerts : List StockAlert
  pub sent : List Mail

-- `product=..., variant=..., email=...`
abbrev pub is_alert_of : ℕ → Option ℕ → ℕ → StockAlert → Bool
is_alert_of product variant email a =
    (a.product == product) && same_variant a.variant variant && (a.email == email)

-- `StockAlert.objects.get_or_create(...)` of `request_stock_alert`
unfoldable pub request_stock_alert : ℕ → Option ℕ → ℕ → Option ℕ → Alerts → Alerts
request_stock_alert product variant email user s =
    if any_of (is_alert_of product variant email) s.alerts then s else record s {
      alerts =
          record {
            product = product;
            variant = variant;
            user = user;
            email = email;
            notified_at = none;
          }
          ∷ s.alerts;
    }

abbrev pub is_none : Option ℕ → Bool
is_none none = true
is_none (some n) = false

-- `filter(product=..., variant=..., notified_at__isnull=True)`
abbrev pub is_pending : ℕ → Option ℕ → StockAlert → Bool
is_pending product variant a =
    (a.product == product) && same_variant a.variant variant && is_none a.notified_at

-- The loop that sends, and `alerts.update(notified_at=timezone.now())`
abbrev pub send_all : ℕ → Option ℕ → List StockAlert → List Mail → List Mail
send_all product variant [] sent = sent
send_all product variant (a ∷ alerts) sent =
    send_all product variant alerts
      (record { product = product; variant = variant; to = a.email } ∷ sent)

abbrev pub mark_notified : ℕ → ℕ → Option ℕ → List StockAlert → List StockAlert
mark_notified now product variant [] = []
mark_notified now product variant (a ∷ alerts) =
    let rest = mark_notified now product variant alerts in
    if is_pending product variant a then record a { notified_at = some now } ∷ rest else a ∷ rest

-- `notify_back_in_stock`
unfoldable pub notify_back_in_stock : ℕ → ℕ → Option ℕ → Alerts → Alerts
notify_back_in_stock now product variant s = record {
  alerts = mark_notified now product variant s.alerts;
  sent = send_all product variant (select (is_pending product variant) s.alerts) s.sent;
}

-- `_restocked`
abbrev pub restocked : Option ℕ → ℕ → Bool
restocked none new_stock = false
restocked (some previous) new_stock = leb previous 0 && ltb 0 new_stock

-- `_notify_product_restocked` and `_notify_variant_restocked`, with what `_cache_previous_..._stock` kept
unfoldable pub notify_restocked : ℕ → Bool → Option ℕ → ℕ → ℕ → Option ℕ → Alerts → Alerts
notify_restocked now created previous new_stock product variant s =
    if created
    then s
    else if restocked previous new_stock
    then notify_back_in_stock now product variant s
    else s
