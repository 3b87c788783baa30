-- ===== src/Catalog/Listing.antt =====
-- The filters of the catalog's listings (`_apply_sort_and_filters` of catalog/views.py). `Decimal` prices are in paise,
-- as in Catalog/Pricing; the ordering itself is the database's.
use Prim.Native.Nat.{◌^◌}
use shop_orbit.Base.{
  ◌||◌, ◌==◌, ◌*◌, ℕ, ◌+◌, ◌≡◌, ◌≢◌, Bool, true, false, not, ◌&&◌, List, [], ◌∷◌, Option, none,
  some, leb, ltb, if◌then◌else◌, select, All, arith,
}
use shop_orbit.Catalog.Pricing.{Product, fees, display_price}
use shop_orbit.Inventory.Models.{StockRow, stock_status, in_stock, low_stock, out_of_stock}

-- `SORT_CHOICES`
pub data SortChoice : Type 0 where
  newest price_asc price_desc rating relevance : SortChoice

-- the `sort` that was asked for, if it is one of the choices
abbrev pub chosen_sort : Option SortChoice → Bool → SortChoice
chosen_sort (some requested) has_query = requested
chosen_sort none true = relevance
chosen_sort none false = newest

-- A product with its prices and its counters
pub record Listed : Type 0 where
  pub prices : Product
  pub row : StockRow

-- `Coalesce("discount_price", "price") + F("delivery_charge") + F("other_fee")`
abbrev pub filter_price : Product → ℕ
filter_price p = elim p.discount_price [ none ↦ p.price | some d ↦ d ] + fees p

-- A bound as it was typed, in rupees: `digits / 10 ^ places`, or less than nothing
pub record Decimal : Type 0 where
  pub is_negative : Bool
  pub digits : ℕ
  pub places : ℕ

-- What the query string asks for; a price that does not parse is not asked for.
pub record FilterState : Type 0 where
  pub min_price : Option Decimal
  pub max_price : Option Decimal
  pub in_stock_only : Bool

-- whether an amount of `n` paise is at least the bound, and at most
abbrev pub above : Option Decimal → ℕ → Bool
above none n = true
above (some least) n = least.is_negative || leb (least.digits * 100) (n * 10 ^ least.places)

abbrev pub below : Option Decimal → ℕ → Bool
below none n = true
below (some most) n =
    if most.is_negative
    then (most.digits == 0) && (n == 0)
    else leb (n * 10 ^ most.places) (most.digits * 100)

-- One filter after another, each on what the one before left
abbrev pub in_stock_products : Bool → List Listed → List Listed
in_stock_products true products =
    select (λ (l : Listed). ltb l.row.reserved_count l.row.stock_count) products
in_stock_products false products = products

unfoldable pub apply_filters : FilterState → List Listed → List Listed
apply_filters f products = in_stock_products f.in_stock_only (
    select (λ (l : Listed). below f.max_price (filter_price l.prices))
      (select (λ (l : Listed). above f.min_price (filter_price l.prices)) products))

-- `is_out_of_stock`
abbrev pub is_out_of_stock : StockRow → Bool
is_out_of_stock r = elim (stock_status r) [
  | out_of_stock ↦ true
  | in_stock ↦ false
  | low_stock ↦ false
]

-- What a buyer who sees the displayed price and the stock label expects to be shown
abbrev pub expected : FilterState → Listed → Bool
expected f l =
    above f.min_price (display_price l.prices)
    && below f.max_price (display_price l.prices)
    && (if f.in_stock_only then not (is_out_of_stock l.row) else true)

filter_price-display : (p : Product) → p.discount_price ≢ some 0 → filter_price p ≡ display_price p
unfolding display_price
filter_price-display p some_price = ground arith

in_stock-label : (r : StockRow) → ltb r.reserved_count r.stock_count ≡ not (is_out_of_stock r)
unfolding stock_status
in_stock-label r = ground arith

-- Where no product is discounted to nothing, a listing shows exactly the products whose displayed price is within the
-- bounds and, if that is asked for, that are not labelled out of stock, in the order of the table.
pub apply_filters-expected :
    (f : FilterState) (products : List Listed)
    → All (λ (l : Listed). l.prices.discount_price ≢ some 0) products
    → apply_filters f products ≡ select (expected f) products
unfolding apply_filters
apply_filters-expected f [] all = ground arith
apply_filters-expected f (l ∷ products) (first, rest) =
    let shown = filter_price-display l.prices first in
    let label = in_stock-label l.row in
    let others = apply_filters-expected f products rest in ground arith

-- A product discounted to nothing shows its full price, and the filters take it for its fees alone.
free_discount-hidden :
    (p : Product)
    → p.discount_price ≡ some 0
    → (display_price p ≡ p.price + fees p) × (filter_price p ≡ fees p)
unfolding display_price
free_discount-hidden p free = ground arith
