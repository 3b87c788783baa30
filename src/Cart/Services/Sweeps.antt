-- ===== src/Cart/Services/Sweeps.antt =====
-- The sweeps over unpaid orders: what they leave behind.
use shop_orbit.Base.{
  ℕ, ◌≡◌, Bool, true, false, Option, none, some, List, [], ◌∷◌, ok, arith, not, All, Result-cases,
  Option-cases, inl, inr, put, ==_refl, Error, ◌&&◌, select, ◌*◌, ◌+◌,
}
use mathlib.Core.Path.{subst}
use shop_orbit.Cart.Models.{Order, same_status, awaiting_payment, expired}
use shop_orbit.Inventory.Services.{release_reservation}
use shop_orbit.Inventory.Services.Effects.{demand, free, Changes, release_reservation-Changes}
use shop_orbit.Shop.{Shop, save_status, on_stock}
use shop_orbit.Shop.Saves.{save_status-Saved, on_stock-eq-ok}
use shop_orbit.Cart.Services.{expire_order, sweep, is_older, release_expired_reservations}

-- The row of the order, if it is there, does not await payment.
abbrev pub not_awaiting : ℕ → Shop → Bool
not_awaiting id s = elim (s.orders id) [
  | none ↦ true
  | some o ↦ not (same_status o.status awaiting_payment)
]

-- The shop after one round: as the body left it, or as it was if the order was passed over.
abbrev after : Shop → Option Shop → Shop
after s none = s
after s (some s') = s'

-- an order that is expired awaited its payment, and gives up what it held
pub expire_order-freed :
    (o row : Order) (s s' : Shop)
    → s.orders o.id ≡ some row
    → expire_order o s ≡ ok (some s')
    → (same_status row.status awaiting_payment ≡ true)
      × (s'.orders ≡ put o.id (record row { status = expired }) s.orders)
      × Changes free (λ t. demand t row.items) s.inventory s'.inventory
unfolding expire_order
expire_order-freed o row s s' found h =
    elim (Result-cases (on_stock (release_reservation row.id row.items) s)) [
      | inr (e, failed) ↦ absurd (ground arith)
      | inl (m, freed) ↦ elim (Result-cases (save_status o.id expired none false m)) [
        | inr (e, failed) ↦ absurd (ground arith)
        | inl (u, saved) ↦
            let (i, run, e) = on_stock-eq-ok (release_reservation row.id row.items) s m freed in
            let w = save_status-Saved o.id expired none false row m u (rw e found) saved in
            let same : s'.inventory ≡ i = ground (arith, w.stock_same) in
            (
              ground arith,
              ground (arith, w.orders_put),
              λ t. rw same (release_reservation-Changes row.id row.items s.inventory i run t),
            )
      ]
    ]

expire_order-orders :
    (o row : Order) (s s' : Shop)
    → s.orders o.id ≡ some row
    → expire_order o s ≡ ok (some s')
    → s'.orders ≡ put o.id (record row { status = expired }) s.orders
expire_order-orders o row s s' found h = (expire_order-freed o row s s' found h).1

-- One round takes its order out of the awaiting state, and puts no order into it.
expire_order-not_awaiting :
    (o : Order) (s : Shop) (r : Option Shop)
    → expire_order o s ≡ ok r
    → (not_awaiting o.id (after s r) ≡ true)
      × ((j : ℕ) → not_awaiting j s ≡ true → not_awaiting j (after s r) ≡ true)
expire_order-not_awaiting o s none h = elim (Option-cases (s.orders o.id)) [
  | inl missing ↦ (ground arith, λ j p. p)
  | inr (row, found) ↦ (unfold expire_order in ground arith, λ j p. p)
]
expire_order-not_awaiting o s (some s') h = elim (Option-cases (s.orders o.id)) [
  | inl missing ↦ absurd (unfold expire_order in ground arith)
  | inr (row, found) ↦
      let saved = expire_order-orders o row s s' found h in
      (ground (arith, saved, ==_refl o.id), λ j p. ground (arith, saved))
]

sweep-passed :
    (o : Order) (orders : List Order) (s : Shop) (n : ℕ)
    → expire_order o s ≡ ok none
    → sweep expire_order orders (s, n) ≡ sweep expire_order (o ∷ orders) (s, n)
unfolding sweep
sweep-passed o orders s n e = rw (e, sweep)

sweep-done :
    (o : Order) (orders : List Order) (s s' : Shop) (n : ℕ)
    → expire_order o s ≡ ok (some s')
    → sweep expire_order orders (s', n + 1) ≡ sweep expire_order (o ∷ orders) (s, n)
unfolding sweep
sweep-done o orders s s' n e = rw (e, sweep)

-- What a sweep from `s` that met no exception has reached.
abbrev Swept : List Order → Shop → Shop × ℕ × Option Error → Type 0
Swept orders s r =
    r.2 ≡ none
    → All (λ (o : Order). not_awaiting o.id r.0 ≡ true) orders
      × ((j : ℕ) → not_awaiting j s ≡ true → not_awaiting j r.0 ≡ true)

sweep-Swept :
    (orders : List Order) (s : Shop) (n : ℕ) → Swept orders s (sweep expire_order orders (s, n))
sweep-Swept [] s n = λ fine. (tt, unfold sweep in λ j p. p)
sweep-Swept (o ∷ orders) s n = elim (Result-cases (expire_order o s)) [
  | inr (e, failed) ↦ λ fine. absurd (unfold sweep in ground arith)
  | inl (none, passed) ↦ subst (Swept (o ∷ orders) s) (sweep-passed o orders s n passed) (λ fine.
      let (this, kept) = expire_order-not_awaiting o s none passed in
      let (rest, later) = sweep-Swept orders s n fine in ((later o.id this, rest), later))
  | inl (some s', done) ↦ subst (Swept (o ∷ orders) s) (sweep-done o orders s s' n done) (λ fine.
      let (this, kept) = expire_order-not_awaiting o s (some s') done in
      let (rest, later) = sweep-Swept orders s' (n + 1) fine in
      ((later o.id this, rest), λ j p. later j (kept j p)))
]

-- After a sweep for expired reservations that met no exception, no order that its query picked still
-- awaits payment: each was expired by the sweep, or had moved on before.
pub release_expired_reservations-done :
    (now minutes : ℕ) (table : List Order) (s : Shop)
    → (release_expired_reservations now minutes table s).2 ≡ none
    → All
        (λ (o : Order).
          not_awaiting o.id (release_expired_reservations now minutes table s).0 ≡ true)
        (select (λ o. same_status o.status awaiting_payment && is_older now (minutes * 60) o) table)
unfolding release_expired_reservations
release_expired_reservations-done now minutes table s fine =
    (sweep-Swept
      (select (λ o. same_status o.status awaiting_payment && is_older now (minutes * 60) o) table) s
      0 fine).0
