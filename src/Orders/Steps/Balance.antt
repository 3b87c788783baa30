-- ===== src/Orders/Steps/Balance.antt =====
-- What one step does to its order, to the other orders, and to the units that are held.
use mathlib.Core.Path.{subst}
use shop_orbit.Base.{
  ℕ, ◌≡◌, refl, sym, ap, ◌∙◌, ◌+◌, ◌-◌, Bool, true, false, List, Option, none, some, ok, arith,
  ◌==◌, ==_refl, put, Option-cases, inl, inr,
}
use shop_orbit.Cart.Models.{Order, OrderItem, OrderStatus, same_status, awaiting_payment}
use shop_orbit.Cart.Services.Reservations.{reserved_units, held_units}
use shop_orbit.Inventory.Models.{Target, Inventory}
use shop_orbit.Inventory.Services.Effects.{demand, free, sell, Changes, reserve_stock-Changes}
use shop_orbit.Orders.Lifecycle.{Move}
use shop_orbit.Inventory.Services.{reserve_stock}
use shop_orbit.Inventory.Services.Availability.{covered_of-reserve}
use shop_orbit.Shop.{Shop, save_status}
use shop_orbit.Shop.Saves.{save_status-Saved}

-- The status of the order `id`, if there is one, and the units of a row that it holds.
abbrev pub status_of : Option Order → Option OrderStatus
status_of none = none
status_of (some o) = some o.status

abbrev pub held_of : Target → Option Order → ℕ
held_of t none = 0
held_of t (some o) = held_units t o

abbrev pub status_at : ℕ → Shop → Option OrderStatus
status_at id s = status_of (s.orders id)

abbrev pub held_at : Target → ℕ → Shop → ℕ
held_at t id s = held_of t (s.orders id)

-- The step moved its order as it may, left the other orders as they were, and changed each row's
-- `reserved_count` by just what the order holds more or less than before.
pub record Balanced (may : Move) (id : ℕ) (s s' : Shop) : Type 0 where
  pub others : (j : ℕ) → (id == j) ≡ false → s'.orders j ≡ s.orders j
  pub moved : may (status_at id s) (status_at id s') ≡ true
  pub counted :
      (t : Target)
      → reserved_units t s'.inventory + held_at t id s
        ≡ reserved_units t s.inventory + held_at t id s'
  pub keyed :
      ((o : Order) → s.orders id ≡ some o → o.id ≡ id)
      → (o : Order) → s'.orders id ≡ some o
      → o.id ≡ id

pub unmoved :
    (may : Move) (id : ℕ) (s s' : Shop)
    → may (status_at id s) (status_at id s) ≡ true
    → s'.orders ≡ s.orders
    → s'.inventory ≡ s.inventory
    → Balanced may id s s'
unmoved may id s s' fits orders stock = record {
  others = λ j apart. ap (λ f. f j) orders;
  moved = rw orders fits;
  counted = λ t. rw (orders, stock) refl;
  keyed = λ key o at. key o (ap (λ f. f id) (sym orders) ∙ at);
}

-- an order that was there and has a new status
pub restated :
    (may : Move) (id : ℕ) (o : Order) (new : OrderStatus) (s s' : Shop)
    → s.orders id ≡ some o
    → s'.orders ≡ put id (record o { status = new }) s.orders
    → may (some o.status) (some new) ≡ true
    → ((t : Target)
        → reserved_units t s'.inventory + held_units t o
          ≡ reserved_units t s.inventory + held_units t (record o { status = new }))
    → Balanced may id s s'
restated may id o new s s' found orders fits count =
    let put_there : s'.orders id ≡ some (record o { status = new }) =
      ap (λ f. f id) orders ∙ simp (==_refl id) in
    let status : status_at id s ≡ some o.status = ap status_of found in
    let status' : status_at id s' ≡ some new = ap status_of put_there in
    record {
      others = λ j apart. ap (λ f. f j) orders ∙ simp apart;
      moved =
          subst (λ a. may a (status_at id s') ≡ true) (sym status)
            (subst (λ b. may (some o.status) b ≡ true) (sym status') fits);
      counted = λ t.
          let held = ap (held_of t) found in
          let held' = ap (held_of t) put_there in omega (arith, held, held', count t);
      keyed = λ key row at. ground (arith, put_there, key o found);
    }

-- How the changes of the rows change what is reserved.
pub reserved-free :
    (asked : Target → ℕ) (i i' : Inventory) (t : Target)
    → Changes free asked i i'
    → reserved_units t i' ≡ reserved_units t i - asked t
reserved-free asked i i' t same = elim (Option-cases (i.rows t)) [
  | inl missing ↦ ground (arith, same t)
  | inr (r, found) ↦ ground (arith, same t)
]

pub reserved-sell :
    (asked : Target → ℕ) (i i' : Inventory) (t : Target)
    → Changes sell asked i i'
    → reserved_units t i' ≡ reserved_units t i - asked t
reserved-sell asked i i' t same = elim (Option-cases (i.rows t)) [
  | inl missing ↦ ground (arith, same t)
  | inr (r, found) ↦ ground (arith, same t)
]

-- What a reservation leaves reserved: a row that is not there was asked for nothing.
pub reserved-hold :
    (order : ℕ) (items : List OrderItem) (i i' : Inventory) (t : Target)
    → reserve_stock order items i ≡ ok i'
    → reserved_units t i' ≡ reserved_units t i + demand t items
reserved-hold order items i i' t run =
    let same = reserve_stock-Changes order items i i' run in
    let covered = covered_of-reserve order items i i' t run in
    elim (Option-cases (i.rows t)) [
      | inl missing ↦ ground (arith, same t, covered)
      | inr (r, found) ↦ ground (arith, same t)
    ]

-- A status that neither the old nor the new one of which is "awaiting payment", saved by itself.
pub resaved :
    (may : Move) (id : ℕ) (o : Order) (new : OrderStatus) (actor : Option ℕ) (skip : Bool)
    (s s' : Shop)
    → s.orders id ≡ some o
    → save_status id new actor skip s ≡ ok s'
    → may (some o.status) (some new) ≡ true
    → same_status o.status awaiting_payment ≡ false
    → same_status new awaiting_payment ≡ false
    → Balanced may id s s'
resaved may id o new actor skip s s' found saved fits old_free new_free =
    let w = save_status-Saved id new actor skip o s s' found saved in
    restated may id o new s s' found w.orders_put fits (λ t. rw w.stock_same (ground arith))

-- a call that leaves the shop it was given
pub stayed :
    (may : Move) (id : ℕ) (s : Shop) {s' : Shop}
    → may (status_at id s) (status_at id s) ≡ true
    → s' ≡ s
    → Balanced may id s s'
stayed may id s fits e = subst (Balanced may id s) (sym e) (unmoved may id s s fits refl refl)

-- what is sent or made after a step does not count
pub same_after :
    (may : Move) (id : ℕ) (s m s' : Shop)
    → Balanced may id s m
    → s'.orders ≡ m.orders
    → s'.inventory ≡ m.inventory
    → Balanced may id s s'
same_after may id s m s' w orders stock = record {
  others = λ j apart. ap (λ f. f j) orders ∙ w.others j apart;
  moved =
      subst (λ x. may (status_at id s) (status_of x) ≡ true) (ap (λ f. f id) (sym orders)) w.moved;
  counted = λ t.
      let held = ap (λ f. held_of t (f id)) orders in
      let units = ap (λ i. reserved_units t i) stock in omega (arith, w.counted t, held, units);
  keyed = λ key o at. w.keyed key o (ap (λ f. f id) (sym orders) ∙ at);
}
