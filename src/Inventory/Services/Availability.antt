-- ===== src/Inventory/Services/Availability.antt =====
-- When the loops succeed, and what a reservation followed by its release, its sale or its cancellation
-- leaves behind.
use shop_orbit.Base.{
  ℕ, ◌+◌, ◌≡◌, ◌↔◌, ◌≤◌, none, some, List, [], ◌∷◌, arith, inl, inr, ok, err, Error, Result-cases,
  Bool, true, false, ◌≢◌, refl, ◌∙◌, Option-cases, >>=-eq-ok, All, for_each,
}
use shop_orbit.Cart.Models.{OrderItem}
use shop_orbit.Inventory.Models.{
  Target, same_target→eq, same_target_refl, StockRow, available_to_sell, Inventory, item_target,
  record_row,
}
use shop_orbit.Inventory.Services.{reserve_row, reserve_line, reserve_stock}
use shop_orbit.Inventory.Services.Effects.{line_demand, demand, hold, Changes, reserve_line-Changes}

-- The units of a row that can be sold.
abbrev pub available : Target → Inventory → ℕ
available t s = elim (s.rows t) [ none ↦ 0 | some r ↦ available_to_sell r ]

-- The row that a line names is in its table, as the foreign keys guarantee.
abbrev pub has_row : Inventory → OrderItem → Bool
has_row s item = elim (item_target item) [
  | none ↦ true
  | some t ↦ elim (s.rows t) [ none ↦ false | some r ↦ true ]
]

abbrev pub HasRows : Inventory → List OrderItem → Type 0
HasRows s = All (λ item. has_row s item ≡ true)

module _ (order : ℕ) (item : OrderItem) (s s' : Inventory) (t : Target) where
  -- A line that is held was covered, and uses up as much as it asks for.
  reserve_line_covered :
      reserve_line order item s ≡ ok s' → line_demand t item + available t s' ≡ available t s
  unfolding reserve_line reserve_row record_row
  reserve_line_covered h = elim (Option-cases (item_target item)) [
    | inl gone ↦ ground arith
    | inr (u, e) ↦ elim (Option-cases (s.rows u)) [
      | inl missing ↦ ground arith
      | inr (r, found) ↦ ground (arith, same_target→eq u t)
    ]
  ]

-- A line whose row is there and covers it is held.
reserve_line-ne-err :
    (order : ℕ) (item : OrderItem) (s : Inventory) (e : Error)
    → has_row s item ≡ true
    → ((t : Target) → line_demand t item ≤ available t s)
    → reserve_line order item s ≢ err e
unfolding reserve_line reserve_row record_row
reserve_line-ne-err order item s e there covered = elim (Option-cases (item_target item)) [
  | inl gone ↦ ground arith
  | inr (u, at) ↦ elim (Option-cases (s.rows u)) [
    | inl missing ↦ ground arith
    | inr (r, found) ↦ ground (arith, covered u, same_target_refl u)
  ]
]

-- Rows stay where they are.
has_row-Changes :
    (change : ℕ → StockRow → StockRow) (asked : Target → ℕ) (s s' : Inventory) (item : OrderItem)
    → Changes change asked s s'
    → has_row s' item ≡ has_row s item
has_row-Changes change asked s s' item same = elim (Option-cases (item_target item)) [
  | inl gone ↦ ground arith
  | inr (u, at) ↦ ground (arith, same u)
]

pub HasRows-Changes :
    (change : ℕ → StockRow → StockRow) (asked : Target → ℕ) (s s' : Inventory)
    (items : List OrderItem)
    → Changes change asked s s'
    → HasRows s items
    → HasRows s' items
HasRows-Changes change asked s s' [] same h = tt
HasRows-Changes change asked s s' (item ∷ items) same h = (
  has_row-Changes change asked s s' item same ∙ h.0,
  HasRows-Changes change asked s s' items same h.1,
)

pub covered_of-reserve :
    (order : ℕ) (items : List OrderItem) (s s' : Inventory) (t : Target)
    → reserve_stock order items s ≡ ok s'
    → demand t items ≤ available t s
unfolding reserve_stock
covered_of-reserve order [] s s' t h = omega arith
covered_of-reserve order (item ∷ items) s s' t h =
    let (s1, first, rest) =
      >>=-eq-ok (reserve_line order item s) (for_each (reserve_line order) items) h in
    omega (
      arith,
      reserve_line_covered order item s s1 t first,
      covered_of-reserve order items s1 s' t rest,
    )

reserve_of-covered :
    (order : ℕ) (items : List OrderItem) (s : Inventory)
    → HasRows s items
    → ((t : Target) → demand t items ≤ available t s)
    → (s' : Inventory) × (reserve_stock order items s ≡ ok s')
unfolding reserve_stock
reserve_of-covered order [] s there covered = (s, refl)
reserve_of-covered order (item ∷ items) s there covered =
    elim (Result-cases (reserve_line order item s)) [
      | inr (e, failed) ↦
          absurd (reserve_line-ne-err order item s e there.0 (λ t. omega (arith, covered t)) failed)
      | inl (s1, first) ↦ rw first (
          reserve_of-covered order items s1
            (HasRows-Changes hold (λ t. line_demand t item) s s1 items
              (reserve_line-Changes order item s s1 first) there.1)
            (λ t. omega (arith, covered t, reserve_line_covered order item s s1 t first)))
    ]

-- Where every line's row exists, an order is reserved exactly if the units that its lines ask for
-- together are available, row by row.
pub reserve_stock_iff :
    (order : ℕ) (items : List OrderItem) (s : Inventory)
    → HasRows s items
    → ((s' : Inventory) × (reserve_stock order items s ≡ ok s'))
      ↔ ((t : Target) → demand t items ≤ available t s)
reserve_stock_iff order items s there =
    (λ (s', h) t. covered_of-reserve order items s s' t h, reserve_of-covered order items s there)
