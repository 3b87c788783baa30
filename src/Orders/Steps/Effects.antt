-- ===== src/Orders/Steps/Effects.antt =====
-- The steps that take or free what an order holds, in turn: what each does to its order and to the rows.
use mathlib.Core.Path.{subst}
use shop_orbit.Base.{
  ℕ, ◌≡◌, refl, sym, ap, ◌∙◌, ◌-◌, ◌≤◌, true, false, Option, none, some, ok, arith, ==_refl, put,
  Bool-cases, Option-cases, Result-cases, inl, inr, >>=-eq-ok,
}
use shop_orbit.Cart.Checkout.{Form, new_order, place_order, payment_retry, reopen}
use shop_orbit.Cart.Checkout.Placed.{place_order-writes}
use shop_orbit.Cart.Models.{
  Order, OrderStatus, same_status, same_status→eq, awaiting_payment, payment_confirmed,
  payment_failed, expired,
}
use shop_orbit.Cart.Services.{expire_order}
use shop_orbit.Cart.Services.Sweeps.{expire_order-freed}
use shop_orbit.Cart.Services.Reservations.{reserved_units}
use shop_orbit.Fulfillment.Services.{Env}
use shop_orbit.Inventory.Models.{Target}
use shop_orbit.Inventory.Services.{reserve_stock}
use shop_orbit.Inventory.Services.Effects.{demand}
use shop_orbit.Orders.Lifecycle.{
  Move, transition, checkout, capture_report, failure_report, expiry, retrial,
}
use shop_orbit.Orders.Steps.{IsRow}
use shop_orbit.Orders.Steps.Balance.{
  stayed, Balanced, status_at, status_of, held_at, held_of, restated, reserved-free, reserved-sell,
  reserved-hold,
}
use shop_orbit.Payments.Models.{Payment}
use shop_orbit.Payments.Pipeline.{on_payment_captured, on_payment_failed, confirm, release, fulfil}
use shop_orbit.Payments.Pipeline.Idempotent.{confirm-Settled, release-Settled, fulfil-same}
use shop_orbit.Shop
use shop_orbit.Shop.{Shop, on_stock, save_status, send}
use shop_orbit.Shop.Saves.{save_status-Saved, on_stock-eq-ok}

capture_stays : (a : Option OrderStatus) → transition capture_report a a ≡ true
capture_stays none = refl
capture_stays (some a) = ground arith

failure_stays : (a : Option OrderStatus) → transition failure_report a a ≡ true
failure_stays none = refl
failure_stays (some a) = ground arith

-- an order that awaited its payment gives up what it held, and no longer awaits it
given_up :
    (may : Move) (id : ℕ) (o : Order) (new : OrderStatus) (s s' : Shop)
    → s.orders id ≡ some o
    → o.status ≡ awaiting_payment
    → s'.orders ≡ put id (record o { status = new }) s.orders
    → may (some awaiting_payment) (some new) ≡ true
    → same_status new awaiting_payment ≡ false
    → ((t : Target)
        → reserved_units t s'.inventory ≡ reserved_units t s.inventory - demand t o.items)
    → ((t : Target) → held_at t id s ≤ reserved_units t s.inventory)
    → Balanced may id s s'
given_up may id o new s s' found waiting orders fits moved_on less covered =
    restated may id o new s s' found orders
      (subst (λ a. may (some a) (some new) ≡ true) (sym waiting) fits)
      (λ t. let held = ap (held_of t) found in ground (arith, less t, covered t, held))

module _ (id : ℕ) (s : Shop) (keyed : (o : Order) → s.orders id ≡ some o → o.id ≡ id)
    (covered : (t : Target) → held_at t id s ≤ reserved_units t s.inventory) where
  pub placed-Balanced :
      (now user : ℕ) (form : Form) (s' : Shop)
      → s.next_id ≡ id
      → s.orders id ≡ none
      → place_order now user form s ≡ ok s'
      → Balanced (transition checkout) id s s'
  unfolding new_order
  placed-Balanced now user form s' key fresh h =
      let order = new_order now user form (s.carts user) s.next_id in
      let (i, orders, stock, run, _) = place_order-writes now user form s s' h in
      let there : s'.orders id ≡ some order =
        ap (λ f. f id) orders
        ∙ subst (λ k. put s.next_id order s.orders k ≡ some order) key (simp (==_refl s.next_id)) in
      record {
        others = λ j apart. ap (λ f. f j) orders ∙ ground (arith, key);
        moved = ground (arith, there, fresh);
        counted = λ t.
            let more = reserved-hold order.id order.items s.inventory i t run in
            let old = ap (held_of t) fresh in
            let new = ap (held_of t) there in rw stock (omega (arith, more, old, new));
        keyed = λ _ o at. ground (arith, there, key);
      }

  -- the order of a callback, and the shop that its transaction leaves, up to what is sent or made after it
  decided_Balanced :
      (may : Move) (o : Order) (new : OrderStatus) (m s' : Shop)
      → s.orders id ≡ some o
      → same_status o.status awaiting_payment ≡ true
      → m.orders ≡ put o.id (record o { status = new }) s.orders
      → may (some awaiting_payment) (some new) ≡ true
      → same_status new awaiting_payment ≡ false
      → ((t : Target)
          → reserved_units t m.inventory ≡ reserved_units t s.inventory - demand t o.items)
      → s'.orders ≡ m.orders
      → s'.inventory ≡ m.inventory
      → Balanced may id s s'
  decided_Balanced may o new m s' found waiting saved fits moved_on less orders stock =
      given_up may id o new s s' found (same_status→eq o.status awaiting_payment waiting)
        (orders
          ∙ subst (λ k. m.orders ≡ put k (record o { status = new }) s.orders) (keyed o found)
              saved)
        fits moved_on (λ t. rw stock (less t)) covered

  pub captured-Balanced :
      (env : Env) (p : Payment)
      → p.order ≡ id
      → Balanced (transition capture_report) id s (on_payment_captured env p s).1
  unfolding on_payment_captured
  captured-Balanced env p at = elim (Option-cases (s.orders p.order)) [
    | inl missing ↦
        stayed (transition capture_report) id s (capture_stays (status_at id s)) (simp missing)
    | inr (o, found) ↦ elim (Bool-cases (same_status o.status awaiting_payment)) [
      | inr moved ↦
          stayed (transition capture_report) id s (capture_stays (status_at id s))
            (simp (found, moved))
      | inl waiting ↦ elim (Result-cases (confirm o s)) [
        | inr (e, failed) ↦
            stayed (transition capture_report) id s (capture_stays (status_at id s)) (ground arith)
        | inl (m, run) ↦
            let row = ap s.orders (sym at) ∙ found in
            let key = keyed o row in
            let (w, sold) = confirm-Settled o s m (ap s.orders key ∙ row) run in
            let (orders, stock, _, _, _) = fulfil-same env o m in
            let e : (on_payment_captured env p s).1 ≡ fulfil env o m = ground arith in
            subst (Balanced (transition capture_report) id s) (sym e) (
              decided_Balanced (transition capture_report) o payment_confirmed m (fulfil env o m)
                row waiting w.order_put refl refl
                (λ t. reserved-sell (λ u. demand u o.items) s.inventory m.inventory t sold) orders
                stock)
      ]
    ]
  ]

  pub failed-Balanced :
      (p : Payment)
      → p.order ≡ id
      → Balanced (transition failure_report) id s (on_payment_failed p s).1
  unfolding on_payment_failed
  failed-Balanced p at = elim (Option-cases (s.orders p.order)) [
    | inl missing ↦
        stayed (transition failure_report) id s (failure_stays (status_at id s)) (simp missing)
    | inr (o, found) ↦ elim (Bool-cases (same_status o.status awaiting_payment)) [
      | inr moved ↦
          stayed (transition failure_report) id s (failure_stays (status_at id s))
            (simp (found, moved))
      | inl waiting ↦ elim (Result-cases (release o s)) [
        | inr (e, failed) ↦
            stayed (transition failure_report) id s (failure_stays (status_at id s)) (ground arith)
        | inl (m, run) ↦
            let row = ap s.orders (sym at) ∙ found in
            let (w, freed) = release-Settled o s m (ap s.orders (keyed o row) ∙ row) run in
            let e : (on_payment_failed p s).1 ≡ send (Shop.payment_failed o.id) m = ground arith in
            subst (Balanced (transition failure_report) id s) (sym e) (
              decided_Balanced (transition failure_report) o payment_failed m
                (send (Shop.payment_failed o.id) m) row waiting w.order_put refl refl
                (λ t. reserved-free (λ u. demand u o.items) s.inventory m.inventory t freed) refl
                refl)
      ]
    ]
  ]

  pub expired-Balanced :
      (obj : Order) (s' : Shop)
      → obj.id ≡ id
      → expire_order obj s ≡ ok (some s')
      → Balanced (transition expiry) id s s'
  expired-Balanced obj s' at h = elim (Option-cases (s.orders obj.id)) [
    | inl missing ↦ absurd (unfold expire_order in ground arith)
    | inr (o, found) ↦
        let row = ap s.orders (sym at) ∙ found in
        let (waiting, saved, freed) = expire_order-freed obj o s s' found h in
        decided_Balanced (transition expiry) o expired s' s' row waiting
          (subst (λ k. s'.orders ≡ put k (record o { status = expired }) s.orders)
            (at ∙ sym (keyed o row)) saved)
          refl refl (λ t. reserved-free (λ u. demand u o.items) s.inventory s'.inventory t freed)
          refl refl
  ]

  pub retried-Balanced :
      (o : Order) (s' : Shop)
      → IsRow id o s
      → payment_retry o s ≡ ok s'
      → Balanced (transition retrial) id s s'
  unfolding payment_retry reopen
  retried-Balanced o s' (found, key) h = elim (Bool-cases (same_status o.status payment_failed)) [
    | inr other ↦
        stayed (transition retrial) id s (ground (arith, ap status_of found)) (ground arith)
    | inl unpaid ↦
        let failed = same_status→eq o.status payment_failed unpaid in
        let opened : payment_retry o s ≡ reopen o s = simp failed in
        let (m, held, rest) =
          >>=-eq-ok (on_stock (reserve_stock o.id o.items) s)
            (save_status o.id awaiting_payment none false) (sym opened ∙ h) in
        let (i, run, e) = on_stock-eq-ok (reserve_stock o.id o.items) s m held in
        let row = ap (λ (x : Shop). x.orders o.id) e ∙ ap s.orders key ∙ found in
        let w = save_status-Saved o.id awaiting_payment none false o m s' row rest in
        let orders : s'.orders ≡ put id (record o { status = awaiting_payment }) s.orders =
          w.orders_put
          ∙ ap (λ f. put o.id (record o { status = awaiting_payment }) f) (ap Shop.orders e)
          ∙ ap (λ k. put k (record o { status = awaiting_payment }) s.orders) key in
        restated (transition retrial) id o awaiting_payment s s' found orders (ground arith) (λ t.
          let more = reserved-hold o.id o.items s.inventory i t run in
          rw (w.stock_same, e) (ground (arith, more)))
  ]
