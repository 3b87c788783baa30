-- ===== src/Catalog/Profit/Ranked.antt =====
-- The lines of the report, sorted: what they show together, and their order.
use Prim.Native.String.{String}
use shop_orbit.Base.{
  Option, ℕ, ◌+◌, ◌*◌, ◌≡◌, refl, ap, ◌∙◌, true, List, [], ◌∷◌, if◌then◌else◌, sum_by, map, All,
  arith, pos, ◌-ℤ◌, Bool-cases, inl, inr,
}
use shop_orbit.Catalog.Profit.Books.{
  units_of, revenue_of, IsCosted, is_sold, total-shown, rows-opened, rows-IsCosted,
}
use shop_orbit.Cart.Pricing.{taxable_value}
use shop_orbit.Cart.Models.{Order, OrderItem}
use shop_orbit.Payments.Models.{Payment, Refund}
use shop_orbit.Catalog.Profit.{
  read_from, sold_in, paid_orders, product_profitability_report, Decimals, Costs, Sources, SoldItem,
  Key, same_key, Row, Line, rows_by_product, cost_price_of, finished, insert, sort, report,
}

module _ (dec : Decimals) (costs : Costs dec) (src : Sources) where
  -- sorting keeps every line
  sum_by-insert :
      (f : Line dec costs src → ℕ) (l : Line dec costs src) (lines : List (Line dec costs src))
      → sum_by f (insert dec costs src l lines) ≡ f l + sum_by f lines
  sum_by-insert f l [] = refl
  sum_by-insert f l (m ∷ lines) =
      elim (Bool-cases (dec.at_most m.net_contribution l.net_contribution)) [
        | inl before ↦ simp before
        | inr after ↦ simp after (omega (arith, sum_by-insert f l lines))
      ]

  sum_by-sort :
      (f : Line dec costs src → ℕ) (lines : List (Line dec costs src))
      → sum_by f (sort dec costs src lines) ≡ sum_by f lines
  sum_by-sort f [] = refl
  sum_by-sort f (l ∷ lines) =
      sum_by-insert f l (sort dec costs src lines) ∙ ap (λ n. f l + n) (sum_by-sort f lines)

  sum_by-finished :
      (f : Line dec costs src → ℕ) (rows : List (Row dec costs src))
      → sum_by f (map (finished dec costs src) rows)
        ≡ sum_by (λ (r : Row dec costs src). f (finished dec costs src r)) rows
  sum_by-finished f [] = refl
  sum_by-finished f (r ∷ rows) = ap (λ n. f (finished dec costs src r) + n) (sum_by-finished f rows)

  All-insert :
      (P : Line dec costs src → Type 0) (l : Line dec costs src) (lines : List (Line dec costs src))
      → P l
      → All P lines
      → All P (insert dec costs src l lines)
  All-insert P l [] this each = (this, tt)
  All-insert P l (m ∷ lines) this (first, each) =
      elim (Bool-cases (dec.at_most m.net_contribution l.net_contribution)) [
        | inl before ↦ simp before (this, (first, each))
        | inr after ↦ simp after (first, All-insert P l lines this each)
      ]

  All-sort :
      (P : Line dec costs src → Type 0) (lines : List (Line dec costs src))
      → All P lines
      → All P (sort dec costs src lines)
  All-sort P [] each = tt
  All-sort P (l ∷ lines) (this, each) =
      All-insert P l (sort dec costs src lines) this (All-sort P lines each)

  -- each line is followed by one that earned no more
  abbrev pub IsRanked : List (Line dec costs src) → Type 0
  IsRanked [] = Unit
  IsRanked (l ∷ []) = Unit
  IsRanked (l ∷ m ∷ lines) =
      (dec.at_most m.net_contribution l.net_contribution ≡ true) × IsRanked (m ∷ lines)

  insert-IsRanked :
      (l : Line dec costs src) (lines : List (Line dec costs src))
      → IsRanked lines
      → IsRanked (insert dec costs src l lines)
  insert-IsRanked l [] ranked = tt
  insert-IsRanked l (m ∷ []) ranked =
      elim (Bool-cases (dec.at_most m.net_contribution l.net_contribution)) [
        | inl before ↦ simp before (refl, tt)
        | inr after ↦ simp after (dec.at_most_total m.net_contribution l.net_contribution after, tt)
      ]
  insert-IsRanked l (m ∷ n ∷ lines) (over, ranked) =
      elim (Bool-cases (dec.at_most m.net_contribution l.net_contribution)) [
        | inl before ↦ simp before (refl, (over, ranked))
        | inr after ↦
            let rest = insert-IsRanked l (n ∷ lines) ranked in
            elim (Bool-cases (dec.at_most n.net_contribution l.net_contribution)) [
              | inl next ↦
                  simp (after, next)
                    (
                      dec.at_most_total m.net_contribution l.net_contribution after,
                      (simp next at rest),
                    )
              | inr later ↦ simp (after, later) (over, (simp later at rest))
            ]
      ]

  sort-IsRanked : (lines : List (Line dec costs src)) → IsRanked (sort dec costs src lines)
  sort-IsRanked [] = tt
  sort-IsRanked (l ∷ lines) = insert-IsRanked l (sort dec costs src lines) (sort-IsRanked lines)

  -- what the lines of a key show
  abbrev pub shown_in : (Line dec costs src → ℕ) → Key → List (Line dec costs src) → ℕ
  shown_in f k = sum_by (λ (l : Line dec costs src). if same_key l.row.key k then f l else 0)

  -- The report is the books of its items: it has one line for each product that was sold and none for another,
  -- with the units and the revenue net of tax of its items and a margin over its cost price, and no line
  -- is followed by one with a larger contribution.
  pub record IsBook (items : List SoldItem) (lines : List (Line dec costs src)) : Type 0 where
    lines_once :
        (k : Key) → shown_in (λ l. 1) k lines ≡ (if is_sold dec costs src k items then 1 else 0)
    pub units : (k : Key) → shown_in (λ l. l.row.units_sold) k lines ≡ units_of k items
    pub revenue : (k : Key) → shown_in (λ l. l.row.revenue) k lines ≡ revenue_of k items
    pub margins :
        All
          (λ (l : Line dec costs src).
            l.gross_margin
            ≡ pos l.row.revenue -ℤ pos (cost_price_of dec costs src l.row.key * l.row.units_sold))
          lines
    ranked : IsRanked lines

  finished-margins :
      (rows : List (Row dec costs src))
      → All (IsCosted dec costs src) rows
      → All
          (λ (l : Line dec costs src).
            l.gross_margin
            ≡ pos l.row.revenue -ℤ pos (cost_price_of dec costs src l.row.key * l.row.units_sold))
          (map (finished dec costs src) rows)
  finished-margins [] each = tt
  finished-margins (r ∷ rows) ((price, cost), each) =
      (rw (cost, price) refl, finished-margins rows each)

  -- the sum over the report is the sum over the rows
  reported :
      (f : Line dec costs src → ℕ) (items : List SoldItem)
      → sum_by f (report dec costs src items)
        ≡ sum_by
            (λ (r : Row dec costs src). f (finished dec costs src r))
            (rows_by_product dec costs src items [])
  unfolding report
  reported f items =
      let rows = rows_by_product dec costs src items [] in
      sum_by-sort f (map (finished dec costs src) rows) ∙ sum_by-finished f rows

  report-IsBook : (items : List SoldItem) → IsBook items (report dec costs src items)
  unfolding report
  report-IsBook items =
      let rows = rows_by_product dec costs src items [] in
      let costed = rows-IsCosted dec costs src items [] tt in
      record {
        lines_once = λ k.
            reported (λ l. if same_key l.row.key k then 1 else 0) items
            ∙ rows-opened dec costs src items [] k;
        units = λ k.
            reported (λ l. if same_key l.row.key k then l.row.units_sold else 0) items
            ∙ total-shown dec costs src (λ r. r.units_sold) (λ i. i.item.quantity) (λ i. refl)
                (λ i r. refl) items k;
        revenue = λ k.
            reported (λ l. if same_key l.row.key k then l.row.revenue else 0) items
            ∙ total-shown dec costs src (λ r. r.revenue) (λ i. taxable_value i.item) (λ i. refl)
                (λ i r. refl) items k;
        margins =
            All-sort
              (λ l.
                l.gross_margin
                ≡ pos l.row.revenue
                  -ℤ pos (cost_price_of dec costs src l.row.key * l.row.units_sold))
              (map (finished dec costs src) rows) (finished-margins rows costed);
        ranked = sort-IsRanked (map (finished dec costs src) rows);
      }

-- The report of a range of dates is the books of the items of the orders that were paid: those with a payment that
-- was captured (refunded since or not) and a date in the range. It has one line for each product sold and
-- none for another, with the units and the revenue net of tax of its items (whatever was taken off the
-- order as a discount), a margin over its cost price, and the lines by contribution, the largest first.
pub product_profitability_report-IsBook :
    (dec : Decimals) (costs : Costs dec) (cost_of day_of : ℕ → ℕ) (sku_of : OrderItem → String)
    (payments : List Payment) (refunds : List Refund) (date_from date_to : Option ℕ)
    (table : List Order)
    → IsBook dec costs
        (read_from cost_of (paid_orders day_of date_from date_to payments table) payments refunds)
        (sold_in sku_of (paid_orders day_of date_from date_to payments table))
        (product_profitability_report dec costs cost_of day_of sku_of payments refunds date_from
          date_to table)
unfolding product_profitability_report
product_profitability_report-IsBook dec costs cost_of day_of sku_of payments refunds date_from
      date_to table =
    let orders = paid_orders day_of date_from date_to payments table in
    report-IsBook dec costs (read_from cost_of orders payments refunds) (sold_in sku_of orders)
