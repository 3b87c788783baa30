-- ===== src/Catalog/Profit/Books.antt =====
-- What the rows of the report add up to.
use shop_orbit.Base.{
  ℕ, ◌+◌, ◌*◌, ◌≡◌, refl, sym, ap, ◌∙◌, Bool, true, List, [], ◌∷◌, ◌==◌, if◌then◌else◌, sum_by, All,
  any_of, arith, Bool-cases, inl, inr,
}
use text.Mathlib.TextEquality.{eq_iff}
use shop_orbit.Cart.Pricing.{taxable_value}
use shop_orbit.Catalog.Profit.{
  Decimals, Costs, Sources, SoldItem, Key, live, deleted, key_of, same_key, Row, blank_row,
  with_item, add_item, rows_by_product, cost_price_of,
}

same_key→eq : (a b : Key) → same_key a b ≡ true → a ≡ b
same_key→eq (live p) (live q) h = ground arith
same_key→eq (live p) (deleted t) h = ground arith
same_key→eq (deleted s) (live q) h = ground arith
same_key→eq (deleted s) (deleted t) h = ap deleted ((eq_iff s t).0 h)

-- what the items of one key come to
abbrev pub units_of : Key → List SoldItem → ℕ
units_of k = sum_by (λ (i : SoldItem). if same_key (key_of i) k then i.item.quantity else 0)

abbrev pub revenue_of : Key → List SoldItem → ℕ
revenue_of k = sum_by (λ (i : SoldItem). if same_key (key_of i) k then taxable_value i.item else 0)

module _ (dec : Decimals) (costs : Costs dec) (src : Sources) where
  -- what the rows of a key show
  abbrev pub shown : (Row dec costs src → ℕ) → Key → List (Row dec costs src) → ℕ
  shown f k = sum_by (λ (r : Row dec costs src). if same_key r.key k then f r else 0)

  -- a row's goods are its units at the cost price of its key
  abbrev pub IsCosted : Row dec costs src → Type 0
  IsCosted r =
      (r.cost_price ≡ cost_price_of dec costs src r.key) × (r.cogs ≡ r.cost_price * r.units_sold)

  with_item-IsCosted :
      (i : SoldItem) (r : Row dec costs src) → IsCosted r → IsCosted (with_item dec costs src i r)
  with_item-IsCosted i r (price, cost) = (price, grind (arith, cost))

  add_item-IsCosted :
      (i : SoldItem) (rows : List (Row dec costs src))
      → All IsCosted rows
      → All IsCosted (add_item dec costs src i rows)
  add_item-IsCosted i [] each =
      (with_item-IsCosted i (blank_row dec costs src i) (refl, omega arith), tt)
  add_item-IsCosted i (r ∷ rows) (this, each) = elim (Bool-cases (same_key r.key (key_of i))) [
    | inl same ↦ simp same (with_item-IsCosted i r this, each)
    | inr apart ↦ simp apart (this, add_item-IsCosted i rows each)
  ]

  -- an amount of the row that grows by as much as each item has of it
  module _ (f : Row dec costs src → ℕ) (g : SoldItem → ℕ)
      (blank : (i : SoldItem) → f (blank_row dec costs src i) ≡ 0)
      (grows : (i : SoldItem) (r : Row dec costs src)
        → f (with_item dec costs src i r) ≡ f r + g i) where
    add_item-shown :
        (i : SoldItem) (rows : List (Row dec costs src)) (k : Key)
        → shown f k (add_item dec costs src i rows)
          ≡ shown f k rows + (if same_key (key_of i) k then g i else 0)
    add_item-shown i [] k = ground (arith, blank i, grows i (blank_row dec costs src i))
    add_item-shown i (r ∷ rows) k = elim (Bool-cases (same_key r.key (key_of i))) [
      | inl same ↦
          let alike = ap (λ x. same_key x k) (same_key→eq r.key (key_of i) same) in
          simp same (ground (arith, alike, grows i r))
      | inr apart ↦ simp apart (omega (arith, add_item-shown i rows k))
    ]

    rows-shown :
        (items : List SoldItem) (rows : List (Row dec costs src)) (k : Key)
        → shown f k (rows_by_product dec costs src items rows)
          ≡ shown f k rows
            + sum_by (λ (i : SoldItem). if same_key (key_of i) k then g i else 0) items
    unfolding rows_by_product
    rows-shown [] rows k = omega arith
    rows-shown (i ∷ items) rows k =
        omega (arith, rows-shown items (add_item dec costs src i rows) k, add_item-shown i rows k)

    pub total-shown :
        (items : List SoldItem) (k : Key)
        → shown f k (rows_by_product dec costs src items [])
          ≡ sum_by (λ (i : SoldItem). if same_key (key_of i) k then g i else 0) items
    total-shown items k = omega (arith, rows-shown items [] k)

  -- an item opens a row for its key where there is none
  abbrev opens : SoldItem → Key → List (Row dec costs src) → ℕ
  opens i k rows =
      if same_key (key_of i) k then (if shown (λ r. 1) k rows == 0 then 1 else 0) else 0

  add_item-opens :
      (i : SoldItem) (rows : List (Row dec costs src)) (k : Key)
      → shown (λ r. 1) k (add_item dec costs src i rows) ≡ shown (λ r. 1) k rows + opens i k rows
  add_item-opens i [] k = ground arith
  add_item-opens i (r ∷ rows) k = elim (Bool-cases (same_key r.key (key_of i))) [
    | inl same ↦
        let alike = ap (λ x. same_key x k) (same_key→eq r.key (key_of i) same) in
        simp same (ground (arith, alike))
    | inr apart ↦ elim (Bool-cases (same_key (key_of i) k)) [
      | inl mine ↦
          let other = ap (same_key r.key) (sym (same_key→eq (key_of i) k mine)) ∙ apart in
          simp apart (ground (arith, other, add_item-opens i rows k))
      | inr foreign ↦ simp apart (ground (arith, add_item-opens i rows k))
    ]
  ]

  -- whether an item has the key
  abbrev pub is_sold : Key → List SoldItem → Bool
  is_sold k = any_of (λ (i : SoldItem). same_key (key_of i) k)

  pub rows-opened :
      (items : List SoldItem) (rows : List (Row dec costs src)) (k : Key)
      → shown (λ r. 1) k (rows_by_product dec costs src items rows) ≡ (
          if shown (λ r. 1) k rows == 0
          then (if is_sold k items then 1 else 0)
          else shown (λ r. 1) k rows)
  unfolding rows_by_product
  rows-opened [] rows k = ground arith
  rows-opened (i ∷ items) rows k = elim (Bool-cases (same_key (key_of i) k)) [
    | inl mine ↦
        let first = add_item-opens i rows k in
        let rest = rows-opened items (add_item dec costs src i rows) k in
        ground (arith, first, rest)
    | inr foreign ↦
        let first = add_item-opens i rows k in
        let rest = rows-opened items (add_item dec costs src i rows) k in
        ground (arith, first, rest)
  ]

  pub rows-IsCosted :
      (items : List SoldItem) (rows : List (Row dec costs src))
      → All IsCosted rows
      → All IsCosted (rows_by_product dec costs src items rows)
  unfolding rows_by_product
  rows-IsCosted [] rows each = each
  rows-IsCosted (i ∷ items) rows each =
      rows-IsCosted items (add_item dec costs src i rows) (add_item-IsCosted i rows each)
