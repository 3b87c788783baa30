-- ===== src/Inventory/Services/Effects.antt =====
-- What each loop over an order's lines does to the counters, in closed form.
use shop_orbit.Base.{
  ℕ, ◌+◌, ◌-◌, ◌≡◌, none, some, List, [], ◌∷◌, arith, Result, ok, Option-cases, Bool-cases,
  if◌then◌else◌, inl, inr, for_each, >>=-eq-ok, ok-injective,
}
use mathlib.Core.Option
use shop_orbit.Cart.Models.{OrderItem}
use shop_orbit.Inventory.Models.{
  Target, same_target, same_target→eq, StockRow, Inventory, item_target, record_row,
}
use shop_orbit.Inventory.Services.{
  on_line, reserve_row, release_row, convert_row, restore_row, reserve_line, reserve_stock,
  release_line, release_reservation, convert_line, convert_reservation_to_sale, restore_line,
  restore_stock_for_cancellation,
}

-- The units of `t` that one line asks for.
abbrev pub line_demand : Target → OrderItem → ℕ
line_demand t item = elim (item_target item) [
  | none ↦ 0
  | some u ↦ if same_target u t then item.quantity else 0
]

-- The units of `t` that an order asks for, over all its lines.
abbrev pub demand : Target → List OrderItem → ℕ
demand t [] = 0
demand t (item ∷ items) = line_demand t item + demand t items

-- What an order that asks for `n` units of a row does to it.
abbrev pub hold : ℕ → StockRow → StockRow
hold n r = record r { reserved_count = r.reserved_count + n }

abbrev pub free : ℕ → StockRow → StockRow
free n r = record r { reserved_count = r.reserved_count - n }

abbrev pub sell : ℕ → StockRow → StockRow
sell n r = record r { stock_count = r.stock_count - n; reserved_count = r.reserved_count - n }

abbrev pub give_back : ℕ → StockRow → StockRow
give_back n r = record r { stock_count = r.stock_count + n }

-- Every row of `s'` is the row of `s`, changed by the units that are asked of it.
abbrev pub Changes : (ℕ → StockRow → StockRow) → (Target → ℕ) → Inventory → Inventory → Type 0
Changes change asked s s' = (t : Target) → s'.rows t ≡ Option.map (change (asked t)) (s.rows t)

module _ (change : ℕ → StockRow → StockRow) (change-zero : (r : StockRow) → change 0 r ≡ r)
    (change-add : (m n : ℕ) (r : StockRow) → change n (change m r) ≡ change (m + n) r)
    (line : OrderItem → Inventory → Result Inventory)
    (line-Changes : (item : OrderItem) (s s' : Inventory)
      → line item s ≡ ok s'
      → Changes change (λ t. line_demand t item) s s') where
  for_each-Changes :
      (items : List OrderItem) (s s' : Inventory)
      → for_each line items s ≡ ok s'
      → Changes change (λ t. demand t items) s s'
  for_each-Changes [] s s' h t = rw (← ok-injective h) (elim (Option-cases (s.rows t)) [
    | inl missing ↦ rw missing
    | inr (r, e) ↦ rw (e, change-zero)
  ])
  for_each-Changes (item ∷ items) s s' h t =
      let (s1, first, rest) = >>=-eq-ok (line item s) (for_each line items) h in
      rw (for_each-Changes items s1 s' rest t, line-Changes item s s1 first t)
        (elim (Option-cases (s.rows t)) [
          | inl missing ↦ rw missing
          | inr (r, e) ↦ rw (e, change-add)
        ])

-- The same for one line, from what the body of the loop does to the row that it holds.
on_line-Changes :
    (change : ℕ → StockRow → StockRow) (change-zero : (r : StockRow) → change 0 r ≡ r)
    (body : Target → StockRow → Inventory → Result Inventory) (item : OrderItem)
    → ((t u : Target) (r : StockRow) (s s' : Inventory)
        → body t r s ≡ ok s'
        → s'.rows u ≡ (if same_target t u then some (change item.quantity r) else s.rows u))
    → (s s' : Inventory) → on_line body item s ≡ ok s'
    → Changes change (λ t. line_demand t item) s s'
on_line-Changes change change-zero body item effect s s' h u =
    elim (Option-cases (item_target item)) [
      | inl gone ↦ elim (Option-cases (s.rows u)) [
        | inl missing ↦ ground arith
        | inr (r, e) ↦ ground (arith, change-zero r)
      ]
      | inr (t, e) ↦ elim (Option-cases (s.rows t)) [
        | inl missing ↦ ground arith
        | inr (r, found) ↦ elim (Bool-cases (same_target t u)) [
          | inl same ↦ ground (arith, effect t u r s s', same_target→eq t u same)
          | inr other ↦ elim (Option-cases (s.rows u)) [
            | inl missing ↦ ground (arith, effect t u r s s')
            | inr (q, at) ↦ ground (arith, effect t u r s s', change-zero q)
          ]
        ]
      ]
    ]

reserve_row-rows :
    (order n : ℕ) (t u : Target) (r : StockRow) (s s' : Inventory)
    → reserve_row order n t r s ≡ ok s'
    → s'.rows u ≡ (if same_target t u then some (hold n r) else s.rows u)
unfolding reserve_row record_row
reserve_row-rows order n t u r s s' h = ground arith

release_row-rows :
    (order n : ℕ) (t u : Target) (r : StockRow) (s s' : Inventory)
    → release_row order n t r s ≡ ok s'
    → s'.rows u ≡ (if same_target t u then some (free n r) else s.rows u)
unfolding release_row record_row
release_row-rows order n t u r s s' h = ground arith

convert_row-rows :
    (order n : ℕ) (t u : Target) (r : StockRow) (s s' : Inventory)
    → convert_row order n t r s ≡ ok s'
    → s'.rows u ≡ (if same_target t u then some (sell n r) else s.rows u)
unfolding convert_row record_row
convert_row-rows order n t u r s s' h = ground arith

restore_row-rows :
    (order n : ℕ) (t u : Target) (r : StockRow) (s s' : Inventory)
    → restore_row order n t r s ≡ ok s'
    → s'.rows u ≡ (if same_target t u then some (give_back n r) else s.rows u)
unfolding restore_row record_row
restore_row-rows order n t u r s s' h = ground arith

pub reserve_line-Changes :
    (order : ℕ) (item : OrderItem) (s s' : Inventory)
    → reserve_line order item s ≡ ok s'
    → Changes hold (λ t. line_demand t item) s s'
unfolding reserve_line
reserve_line-Changes order item =
    on_line-Changes hold (λ r. ground arith) _ item (reserve_row-rows order item.quantity)

pub release_line-Changes :
    (order : ℕ) (item : OrderItem) (s s' : Inventory)
    → release_line order item s ≡ ok s'
    → Changes free (λ t. line_demand t item) s s'
unfolding release_line
release_line-Changes order item =
    on_line-Changes free (λ r. ground arith) _ item (release_row-rows order item.quantity)

pub convert_line-Changes :
    (order : ℕ) (item : OrderItem) (s s' : Inventory)
    → convert_line order item s ≡ ok s'
    → Changes sell (λ t. line_demand t item) s s'
unfolding convert_line
convert_line-Changes order item =
    on_line-Changes sell (λ r. ground arith) _ item (convert_row-rows order item.quantity)

pub restore_line-Changes :
    (order : ℕ) (item : OrderItem) (s s' : Inventory)
    → restore_line order item s ≡ ok s'
    → Changes give_back (λ t. line_demand t item) s s'
unfolding restore_line
restore_line-Changes order item =
    on_line-Changes give_back (λ r. ground arith) _ item (restore_row-rows order item.quantity)

module _ (order : ℕ) (items : List OrderItem) (s s' : Inventory) where
  -- A reservation that goes through adds the units that the order asks for to `reserved_count`, row by
  -- row, and changes nothing else of any row.
  pub reserve_stock-Changes :
      reserve_stock order items s ≡ ok s' → Changes hold (λ t. demand t items) s s'
  unfolding reserve_stock
  reserve_stock-Changes =
      for_each-Changes hold (λ r. ground arith) (λ m n r. ground arith) (reserve_line order)
        (reserve_line-Changes order) items s s'

  -- A release takes the units that the order asks for off `reserved_count`, stopping at zero, and leaves
  -- `stock_count` alone.
  pub release_reservation-Changes :
      release_reservation order items s ≡ ok s' → Changes free (λ t. demand t items) s s'
  unfolding release_reservation
  release_reservation-Changes =
      for_each-Changes free (λ r. ground arith) (λ m n r. ground arith) (release_line order)
        (release_line-Changes order) items s s'

  -- A sale takes the units that the order asks for off both counters, each stopping at zero.
  pub convert_reservation_to_sale-Changes :
      convert_reservation_to_sale order items s ≡ ok s' → Changes sell (λ t. demand t items) s s'
  unfolding convert_reservation_to_sale
  convert_reservation_to_sale-Changes =
      for_each-Changes sell (λ r. ground arith) (λ m n r. ground arith) (convert_line order)
        (convert_line-Changes order) items s s'

  -- A restored order adds the units that it asks for to `stock_count` and leaves `reserved_count` alone.
  pub restore_stock_for_cancellation-Changes :
      restore_stock_for_cancellation order items s ≡ ok s'
      → Changes give_back (λ t. demand t items) s s'
  unfolding restore_stock_for_cancellation
  restore_stock_for_cancellation-Changes =
      for_each-Changes give_back (λ r. ground arith) (λ m n r. ground arith) (restore_line order)
        (restore_line-Changes order) items s s'
