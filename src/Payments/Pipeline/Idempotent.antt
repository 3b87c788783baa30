-- ===== src/Payments/Pipeline/Idempotent.antt =====
-- The callbacks of a payment: what the first one does to the order, and that the later ones do nothing.
use mathlib.Core.Path.{subst}
use shop_orbit.Base.{
  ℕ, ◌≡◌, ◌≢◌, true, none, some, ok, arith, Result-cases, inl, inr, put, ==_refl, ap, ◌∙◌,
}
use shop_orbit.Cart.Models.{Order, OrderStatus, awaiting_payment, payment_confirmed, payment_failed}
use shop_orbit.Fulfillment.Services.{Env, generate_invoice, generate_packing_slip, create_shipment}
use shop_orbit.Inventory.Services.{convert_reservation_to_sale, release_reservation}
use shop_orbit.Inventory.Services.Availability.{HasRows}
use shop_orbit.Inventory.Services.Roundtrip.{convert_total, release_total}
use shop_orbit.Inventory.Services.Effects.{
  demand, free, sell, Changes, convert_reservation_to_sale-Changes, release_reservation-Changes,
}
use shop_orbit.Payments.Models.{Payment}
use shop_orbit.Payments.Pipeline.{confirm, release, fulfil, on_payment_captured, on_payment_failed}
use shop_orbit.Shop
use shop_orbit.Shop.{Shop, on_stock, save_status, send}
use shop_orbit.Shop.Saves.{save_status-Saved, on_stock-eq-ok}

-- Once an order no longer awaits payment, neither callback changes anything: in particular a capture
-- that is reported for an expired or cancelled order is taken note of nowhere.
callbacks_ignored :
    (env : Env) (p : Payment) (o : Order) (s : Shop)
    → s.orders p.order ≡ some o
    → o.status ≢ awaiting_payment
    → (on_payment_captured env p s ≡ (ok tt, s)) × (on_payment_failed p s ≡ (ok tt, s))
unfolding on_payment_captured on_payment_failed
callbacks_ignored env p o s found moved = (ground arith, ground arith)

-- What one of the two transactions does to the order and the stock.
pub record Settled (o : Order) (new : OrderStatus) (s s' : Shop) : Type 0 where
  pub order_put : s'.orders ≡ put o.id (record o { status = new }) s.orders
  pub payments_same : s'.payments ≡ s.payments
  pub refunds_same : s'.refunds ≡ s.refunds
  pub webhooks_same : s'.webhooks ≡ s.webhooks

pub confirm-Settled :
    (o : Order) (s s' : Shop)
    → s.orders o.id ≡ some o
    → confirm o s ≡ ok s'
    → Settled o payment_confirmed s s'
      × Changes sell (λ t. demand t o.items) s.inventory s'.inventory
unfolding confirm
confirm-Settled o s s' found h =
    elim (Result-cases (on_stock (convert_reservation_to_sale o.id o.items) s)) [
      | inr (e, failed) ↦ absurd (ground arith)
      | inl (m, sold) ↦
          let (i, run, e) = on_stock-eq-ok (convert_reservation_to_sale o.id o.items) s m sold in
          let w =
            save_status-Saved o.id payment_confirmed none true o m s' (rw e found) (ground arith) in
          (
            ground (arith, w.orders_put, w.payments_same, w.refunds_same, w.webhooks_same),
            λ t.
                rw (w.stock_same, e)
                  (convert_reservation_to_sale-Changes o.id o.items s.inventory i run t),
          )
    ]

pub release-Settled :
    (o : Order) (s s' : Shop)
    → s.orders o.id ≡ some o
    → release o s ≡ ok s'
    → Settled o payment_failed s s' × Changes free (λ t. demand t o.items) s.inventory s'.inventory
unfolding release
release-Settled o s s' found h =
    elim (Result-cases (on_stock (release_reservation o.id o.items) s)) [
      | inr (e, failed) ↦ absurd (ground arith)
      | inl (m, freed) ↦
          let (i, run, e) = on_stock-eq-ok (release_reservation o.id o.items) s m freed in
          let w =
            save_status-Saved o.id payment_failed none true o m s' (rw e found) (ground arith) in
          (
            ground (arith, w.orders_put, w.payments_same, w.refunds_same, w.webhooks_same),
            λ t.
                rw (w.stock_same, e) (release_reservation-Changes o.id o.items s.inventory i run t),
          )
    ]

-- What is made outside of the transaction leaves the orders and the stock alone.
pub fulfil-same :
    (env : Env) (o : Order) (s : Shop)
    → ((fulfil env o s).orders ≡ s.orders)
      × ((fulfil env o s).inventory ≡ s.inventory)
      × ((fulfil env o s).payments ≡ s.payments)
      × ((fulfil env o s).refunds ≡ s.refunds)
      × ((fulfil env o s).webhooks ≡ s.webhooks)
unfolding fulfil generate_invoice create_shipment
fulfil-same env o s = ground arith

confirm_total :
    (o : Order) (s : Shop)
    → s.orders o.id ≡ some o
    → HasRows s.inventory o.items
    → (s' : Shop) × (confirm o s ≡ ok s')
unfolding confirm
confirm_total o s found there =
    let (i, run) = convert_total o.id o.items s.inventory there in
    elim (Result-cases
      (save_status o.id payment_confirmed none true (record s { inventory = i }))) [
        | inr (e, failed) ↦ absurd (unfold save_status in ground arith)
        | inl (s', saved) ↦ (s', ground arith)
      ]

release_ok :
    (o : Order) (s : Shop)
    → s.orders o.id ≡ some o
    → HasRows s.inventory o.items
    → (s' : Shop) × (release o s ≡ ok s')
unfolding release
release_ok o s found there =
    let (i, run) = release_total o.id o.items s.inventory there in
    elim (Result-cases (save_status o.id payment_failed none true (record s { inventory = i }))) [
      | inr (e, failed) ↦ absurd (unfold save_status in ground arith)
      | inl (s', saved) ↦ (s', ground arith)
    ]

-- The documents that a confirmed order has.
abbrev pub HasDocuments : ℕ → Shop → Type 0
HasDocuments id s = (s.invoices id ≢ none) × (s.packing_slips id ≡ true) × (s.shipments id ≢ none)

fulfil-HasDocuments : (env : Env) (o : Order) (s : Shop) → HasDocuments o.id (fulfil env o s)
unfolding fulfil generate_invoice generate_packing_slip create_shipment
fulfil-HasDocuments env o s = (
  λ e. ground (arith, ==_refl o.id),
  ground (arith, ==_refl o.id),
  λ e. ground (arith, ==_refl o.id),
)

module _ (p : Payment) (o : Order) (s : Shop) (found : s.orders p.order ≡ some o)
    (key : o.id ≡ p.order) (waiting : o.status ≡ awaiting_payment)
    (there : HasRows s.inventory o.items) where
  -- The first capture that is reported for an order that awaits payment returns, where the rows of
  -- its lines are there. It confirms the order, takes the units of its lines off both stock
  -- counters, and leaves an invoice, a packing slip and a shipment behind. After it, no further
  -- report for the order, of success or failure, at whatever time and by whatever attempt, changes
  -- anything.
  pub captured_once :
      (env : Env)
      → (s' : Shop) × (on_payment_captured env p s ≡ (ok tt, s'))
        × (s'.orders p.order ≡ some (record o { status = payment_confirmed }))
        × Changes sell (λ t. demand t o.items) s.inventory s'.inventory
        × HasDocuments p.order s'
        × ((env' : Env) (p' : Payment)
            → p'.order ≡ p.order
            → (on_payment_captured env' p' s' ≡ (ok tt, s'))
              × (on_payment_failed p' s' ≡ (ok tt, s')))
  captured_once env =
      let at : s.orders o.id ≡ some o = ap s.orders key ∙ found in
      let (m, run) = confirm_total o s at there in
      let (w, stock) = confirm-Settled o s m at run in
      let (orders, inventory, _, _, _) = fulfil-same env o m in
      let saved : (fulfil env o m).orders p.order ≡ some (record o { status = payment_confirmed }) =
        ground (arith, orders, w.order_put, ==_refl o.id) in
      (
        fulfil env o m,
        unfold on_payment_captured in ground arith,
        saved,
        λ t. rw inventory (stock t),
        subst (λ k. HasDocuments k (fulfil env o m)) key (fulfil-HasDocuments env o m),
        λ env' p' same.
            callbacks_ignored env' p' (record o { status = payment_confirmed }) (fulfil env o m)
              (rw same saved) (λ e. cc),
      )

  -- The first failure that is reported for an order that awaits payment returns, where the rows of
  -- its lines are there. It marks the order payment-failed and takes the units of its lines off
  -- `reserved_count`. After it, no further report for the order, of success or failure, changes
  -- anything.
  failed_once :
      (s' : Shop) × (on_payment_failed p s ≡ (ok tt, s'))
      × (s'.orders p.order ≡ some (record o { status = payment_failed }))
      × Changes free (λ t. demand t o.items) s.inventory s'.inventory
      × ((env' : Env) (p' : Payment)
          → p'.order ≡ p.order
          → (on_payment_captured env' p' s' ≡ (ok tt, s'))
            × (on_payment_failed p' s' ≡ (ok tt, s')))
  failed_once =
      let at : s.orders o.id ≡ some o = ap s.orders key ∙ found in
      let (m, run) = release_ok o s at there in
      let (w, stock) = release-Settled o s m at run in
      let saved : m.orders p.order ≡ some (record o { status = payment_failed }) =
        ground (arith, w.order_put, ==_refl o.id) in
      (
        send (Shop.payment_failed o.id) m,
        unfold on_payment_failed in ground arith,
        saved,
        stock,
        λ env' p' same.
            callbacks_ignored env' p' (record o { status = payment_failed })
              (send (Shop.payment_failed o.id) m) (rw same saved) (λ e. cc),
      )
