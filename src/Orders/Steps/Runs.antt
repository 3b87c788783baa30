-- ===== src/Orders/Steps/Runs.antt =====
-- Runs of the program's calls: what is reserved is just what is held, and each order moves as the machine
-- of Orders/Lifecycle allows.
use mathlib.Core.Path.{subst}
use shop_orbit.Base.{
  List, [], ◌∷◌, if◌then◌else◌, ℕ, zero, suc, ◌≡◌, refl, sym, ap, ◌∙◌, ◌+◌, ◌≤◌, ◌<◌, true, false,
  some, arith, ◌==◌, Bool-cases, inl, inr,
}
use shop_orbit.Cart.Models.{Order}
use shop_orbit.Cart.Services.Reservations.{reserved_units}
use shop_orbit.Inventory.Models.{Target}
use shop_orbit.Orders.Lifecycle
use shop_orbit.Orders.Lifecycle.{Event, transition, Course}
use shop_orbit.Orders.Steps.{OrderStep, Run, here, next}
use shop_orbit.Orders.Steps.Balance.{Balanced, held_at, held_of, status_at, status_of}
use shop_orbit.Orders.Steps.Later.{event_of, OrderStep-Balanced}
use shop_orbit.Shop.{Shop}

-- The units of a row that the orders with keys below `n` hold together.
abbrev pub held_below : ℕ → Target → Shop → ℕ
held_below zero t s = 0
held_below (suc n) t s = held_at t n s + held_below n t s

-- The orders are those with keys below `n`, each under its own key, and every row's `reserved_count` is
-- just what they hold together.
pub record IsExact (n : ℕ) (s : Shop) : Type 0 where
  pub counted : (t : Target) → reserved_units t s.inventory ≡ held_below n t s
  pub keyed : (j : ℕ) → j < n → (o : Order) → s.orders j ≡ some o → o.id ≡ j

held_at-le-below : (n id : ℕ) (t : Target) (s : Shop) → id < n → held_at t id s ≤ held_below n t s
held_at-le-below zero id t s h = absurd (omega arith)
held_at-le-below (suc n) id t s h = elim (Bool-cases (id == n)) [
  | inl same ↦
      let e : id ≡ n = ground arith in
      subst (λ k. held_at t k s ≤ held_at t n s + held_below n t s) (sym e) (omega arith)
  | inr apart ↦ omega (arith, held_at-le-below n id t s (ground arith))
]

held_below-same :
    (n : ℕ) (t : Target) (s s' : Shop)
    → ((j : ℕ) → j < n → s'.orders j ≡ s.orders j)
    → held_below n t s' ≡ held_below n t s
held_below-same zero t s s' same = refl
held_below-same (suc n) t s s' same =
    let this = ap (held_of t) (same n (omega arith)) in
    omega (arith, this, held_below-same n t s s' (λ j h. same j (omega arith)))

-- a step changes the sum by as much as it changes its own order's part
held_below-step :
    (n id : ℕ) (t : Target) (s s' : Shop)
    → id < n
    → ((j : ℕ) → (id == j) ≡ false → s'.orders j ≡ s.orders j)
    → held_below n t s' + held_at t id s ≡ held_below n t s + held_at t id s'
held_below-step zero id t s s' h others = absurd (omega arith)
held_below-step (suc n) id t s s' h others = elim (Bool-cases (id == n)) [
  | inl same ↦
      let e : id ≡ n = ground arith in
      let rest = held_below-same n t s s' (λ j le. others j (ground arith)) in
      let old = ap (λ k. held_at t k s) e in
      let new = ap (λ k. held_at t k s') e in omega (arith, rest, old, new)
  | inr apart ↦
      let this = ap (held_of t) (others n apart) in
      omega (arith, this, held_below-step n id t s s' (ground arith) others)
]

module _ (n id : ℕ) (s s' : Shop) (below : id < n) (exact : IsExact n s)
    (step : OrderStep id s s') where
  pub balanced : Balanced (transition (event_of step)) id s s'
  balanced =
      OrderStep-Balanced id s s' (exact.keyed id below)
        (λ t. omega (arith, exact.counted t, held_at-le-below n id t s below)) step

  step-IsExact : IsExact n s'
  step-IsExact = record {
    counted = λ t. omega (
      arith,
      balanced.counted t,
      exact.counted t,
      held_below-step n id t s s' below balanced.others,
    );
    keyed = λ j h o at. elim (Bool-cases (id == j)) [
      | inl same ↦
          let e : id ≡ j = ground arith in
          balanced.keyed (exact.keyed id below) o (ap s'.orders e ∙ at) ∙ e
      | inr apart ↦ exact.keyed j h o (sym (balanced.others j apart) ∙ at)
    ];
  }

-- Start from a shop where every row's `reserved_count` is just what the orders that await payment
-- ask for. Through any run of checkouts, captures, failures, expiries, retries, acceptances,
-- packings, cancellations of orders whose payment did not fail, and courier reports and refunds of
-- orders that do not await payment, it stays so: nothing is held twice, and nothing stays held.
pub Run-IsExact : (n : ℕ) (s s' : Shop) → IsExact n s → Run n s s' → IsExact n s'
Run-IsExact n s s' exact here = exact
Run-IsExact n s s' exact (next {t = m} run id below step) =
    step-IsExact n id m s' below (Run-IsExact n s m exact run) step

-- What the steps of a run are for the order `j`, newest first
abbrev pub events : {n : ℕ} {s s' : Shop} → ℕ → Run n s s' → List Event
events j here = []
events j (next run id below step) = if id == j then event_of step ∷ events j run else events j run

-- From a shop where every row's `reserved_count` is just what the orders that await payment ask for, any run
-- of those calls takes each order along the abstract machine of Orders.Lifecycle, by just the calls that
-- were about it: each moves the order by the transition of its own event (only an acceptance accepts,
-- and only what was confirmed; only what was accepted is packed; and so on), and a call about another
-- order leaves it.
pub Run-Course :
    (n : ℕ) (s s' : Shop)
    → IsExact n s
    → (run : Run n s s') → (j : ℕ) → Course (status_at j s) (events j run) (status_at j s')
Run-Course n s s' exact here j = Lifecycle.Course.here
Run-Course n s s' exact (next {t = m} run id below step) j =
    let before = Run-Course n s m exact run j in
    let b = balanced n id m s' below (Run-IsExact n s m exact run) step in
    elim (Bool-cases (id == j)) [
      | inl same ↦
          let e : id ≡ j = ground arith in
          simp same (
            Lifecycle.Course.next (event_of step) before (
              subst (λ k. transition (event_of step) (status_at k m) (status_at k s') ≡ true) e
                b.moved))
      | inr apart ↦ simp apart (
          subst (λ x. Course (status_at j s) (events j run) (status_of x)) (sym (b.others j apart))
            before)
    ]
