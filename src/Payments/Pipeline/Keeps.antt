-- ===== src/Payments/Pipeline/Keeps.antt =====
-- The callbacks of a payment and of a refund do not write the table of webhook deliveries.
use shop_orbit.Base.{
  ℕ, Bool, true, ◌≡◌, arith, Option, none, List, ok, Option-cases, Result-cases, inl, inr,
}
use shop_orbit.Cart.Models.{Order, OrderStatus, payment_confirmed, payment_failed}
use shop_orbit.Fulfillment.Services.{Env}
use shop_orbit.Inventory.Services.{convert_reservation_to_sale, release_reservation}
use shop_orbit.Payments.Models.{Payment, Refund, WebhookEvent}
use shop_orbit.Payments.Pipeline.{
  on_payment_captured, on_payment_failed, on_refund_processed, on_refund_failed, confirm, release,
  refunded_status,
}
use shop_orbit.Payments.Pipeline.Idempotent.{fulfil-same}
use shop_orbit.Returns.Services.{mark_return_refunded, mark_return_refund_failed}
use shop_orbit.Shop.{Shop, save_status}
use shop_orbit.Shop.Action.{Keeps}

abbrev pub table : Shop → List WebhookEvent
table s = s.webhooks

save_status-same :
    (id : ℕ) (new : OrderStatus) (actor : Option ℕ) (skip : Bool) (s s' : Shop)
    → save_status id new actor skip s ≡ ok s'
    → table s' ≡ table s
unfolding save_status
save_status-same id new actor skip s s' h = ground arith

confirm-same : (o : Order) (s s' : Shop) → confirm o s ≡ ok s' → table s' ≡ table s
unfolding confirm
confirm-same o s s' h = elim (Result-cases (convert_reservation_to_sale o.id o.items s.inventory)) [
  | inl (i, e) ↦
      ground
        (arith, save_status-same o.id payment_confirmed none true (record s { inventory = i }) s')
  | inr (x, e) ↦ absurd (ground arith)
]

release-same : (o : Order) (s s' : Shop) → release o s ≡ ok s' → table s' ≡ table s
unfolding release
release-same o s s' h = elim (Result-cases (release_reservation o.id o.items s.inventory)) [
  | inl (i, e) ↦
      ground (arith, save_status-same o.id payment_failed none true (record s { inventory = i }) s')
  | inr (x, e) ↦ absurd (ground arith)
]

pub on_payment_captured-Keeps : (env : Env) (p : Payment) → Keeps table (on_payment_captured env p)
unfolding on_payment_captured
on_payment_captured-Keeps env p = record {
  kept = λ s. elim (Option-cases (s.orders p.order)) [
    | inl missing ↦ ground arith
    | inr (o, found) ↦ elim (Result-cases (confirm o s)) [
      | inl (m, e) ↦
          let (_, _, _, _, w) = fulfil-same env o m in ground (arith, confirm-same o s m e)
      | inr (x, e) ↦ ground arith
    ]
  ];
}

pub on_payment_failed-Keeps : (p : Payment) → Keeps table (on_payment_failed p)
unfolding on_payment_failed
on_payment_failed-Keeps p = record {
  kept = λ s. elim (Option-cases (s.orders p.order)) [
    | inl missing ↦ ground arith
    | inr (o, found) ↦ elim (Result-cases (release o s)) [
      | inl (m, e) ↦ ground (arith, release-same o s m e)
      | inr (x, e) ↦ ground arith
    ]
  ];
}

pub on_refund_processed-Keeps : (r : Refund) (p : Payment) → Keeps table (on_refund_processed r p)
unfolding on_refund_processed mark_return_refunded
on_refund_processed-Keeps r p = record {
  kept = λ s.
      let new = refunded_status p.refund_status in
      elim (Result-cases (save_status p.order new none true s)) [
        | inl (m, e) ↦ elim (Option-cases r.return_request) [
          | inl missing ↦ ground (arith, save_status-same p.order new none true s m e)
          | inr (id, found) ↦ ground (arith, save_status-same p.order new none true s m e)
        ]
        | inr (x, e) ↦ ground arith
      ];
}

pub on_refund_failed-Keeps : (r : Refund) → Keeps table (on_refund_failed r)
unfolding on_refund_failed mark_return_refund_failed
on_refund_failed-Keeps r = record { kept = λ s. ground arith }
