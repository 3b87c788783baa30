-- ===== src/Cart/Services/Reservations.antt =====
-- Who holds what: an order that awaits payment holds the units of its lines, every other order none.
use shop_orbit.Base.{
  ℕ, ◌+◌, ◌-◌, ◌≤◌, ◌≡◌, ◌≢◌, false, Option, none, some, ok, err, arith, is_ok, Error, ◌&&◌,
  bad_status, Result-cases, Option-cases, Bool-cases, inl, inr, if◌then◌else◌,
}
use shop_orbit.Cart.Models.{
  Order, same_status, is_cancellable, is_paid, awaiting_payment, payment_failed,
}
use shop_orbit.Inventory.Models.{Target, Inventory}
use shop_orbit.Inventory.Services.Effects.{demand}
use shop_orbit.Inventory.Services.Availability.{HasRows}
use shop_orbit.Inventory.Services.Roundtrip.{release_total, restore_total}
use shop_orbit.Shop.{Shop, save_status}
use shop_orbit.Cart.Services.{cancel_order, give_back_stock}
use shop_orbit.Cart.Services.Cancel.{cancel_order-Cancelled, give_back_stock-rest}

-- The `reserved_count` of a row, zero if it is not there.
abbrev pub reserved_units : Target → Inventory → ℕ
reserved_units t i = elim (i.rows t) [ none ↦ 0 | some r ↦ r.reserved_count ]

-- The units of a row that an order's reservation stands for.
abbrev pub held_units : Target → Order → ℕ
held_units t o = if same_status o.status awaiting_payment then demand t o.items else 0

-- Cancelling an order that did not fail its payment lowers each row's `reserved_count` by exactly what
-- the order held of it, provided that the row's count covers that: other orders keep their holds.
pub cancel_order-held_units :
    (obj o : Order) (actor : Option ℕ) (s s' : Shop) (t : Target)
    → s.orders obj.id ≡ some o
    → o.id ≡ obj.id
    → o.status ≢ payment_failed
    → held_units t o ≤ reserved_units t s.inventory
    → cancel_order obj actor s ≡ ok s'
    → reserved_units t s'.inventory + held_units t o ≡ reserved_units t s.inventory
cancel_order-held_units obj o actor s s' t found key paid_or_waiting covered h =
    let c = cancel_order-Cancelled obj o actor s s' found key h in
    elim (Option-cases (s.inventory.rows t)) [
      | inl missing ↦ ground (arith, c.stock_returned t, c.was_cancellable)
      | inr (r, there) ↦ ground (arith, c.stock_returned t, c.was_cancellable)
    ]

-- An order whose payment failed holds nothing, yet cancelling it takes the units of its lines off
-- each row's `reserved_count` once more, as far as they go.
pub cancel_order_failed :
    (obj o : Order) (actor : Option ℕ) (s s' : Shop) (t : Target)
    → s.orders obj.id ≡ some o
    → o.id ≡ obj.id
    → o.status ≡ payment_failed
    → cancel_order obj actor s ≡ ok s'
    → (held_units t o ≡ 0)
      × (reserved_units t s'.inventory ≡ reserved_units t s.inventory - demand t o.items)
cancel_order_failed obj o actor s s' t found key failed h =
    let c = cancel_order-Cancelled obj o actor s s' found key h in
    elim (Option-cases (s.inventory.rows t)) [
      | inl missing ↦ ground (arith, c.stock_returned t)
      | inr (r, there) ↦ ground (arith, c.stock_returned t)
    ]

-- Giving an order's stock back never raises where the rows are there.
give_back_stock-ne-err :
    (o : Order) (s : Shop) (e : Error) → HasRows s.inventory o.items → give_back_stock o s ≢ err e
unfolding give_back_stock
give_back_stock-ne-err o s e there h = elim (Bool-cases (is_paid o.status)) [
  | inl paid ↦ let (i, run) = restore_total o.id o.items s.inventory there in ground arith
  | inr unpaid ↦ let (i, run) = release_total o.id o.items s.inventory there in ground arith
]

-- Where the order and all that its lines name are in their tables, cancelling goes through exactly if
-- both the caller's copy and the locked row are in a cancellable status, and is refused as a bad
-- status otherwise.
cancel_order_decided :
    (obj o : Order) (actor : Option ℕ) (s : Shop)
    → s.orders obj.id ≡ some o
    → HasRows s.inventory o.items
    → (is_ok (cancel_order obj actor s) ≡ (is_cancellable obj.status && is_cancellable o.status))
      × (is_ok (cancel_order obj actor s) ≡ false → cancel_order obj actor s ≡ err bad_status)
unfolding cancel_order
cancel_order_decided obj o actor s found there = elim (Result-cases (give_back_stock o s)) [
  | inr (e, failed) ↦ absurd (give_back_stock-ne-err o s e there failed)
  | inl (m, back) ↦
      let (orders, history) = give_back_stock-rest o s m back in
      unfold save_status in (ground arith, λ refused. ground arith)
]
