-- ===== src/Catalog/Profit.antt =====
-- catalog/profitability.py: what each product sold, cost and earned. Revenue and cost of goods are whole
-- paise. A share of an order is a quotient of the 28 digits that `decimal` keeps, so what is computed from
-- it is left to `decimal`, a parameter.
pub mod Books
pub mod Ranked
use Prim.Native.String.{String}
use text.Mathlib.Text.{◌==◌ as str_eq}
use shop_orbit.Base.{
  ℕ, ◌+◌, ◌*◌, ◌≡◌, Bool, true, false, Option, none, some, List, [], ◌∷◌, ◌&&◌, ◌==◌, if◌then◌else◌,
  select, ◌++◌, any_of, sum_by, find, leb, map, ℤ, pos, ◌-ℤ◌,
}
use shop_orbit.Cart.Models.{Order, OrderItem, line_total, total_amount}
use shop_orbit.Cart.Pricing.{taxable_value}
use shop_orbit.Payments.Models.{
  Payment, PaymentStatus, captured, refunded, partially_refunded, Refund, same_refund_state,
  RefundState,
}

-- `Decimal` and what the report does with it; `leb` is the order of the sort, and `quantized` rounds to
-- the paisa, or to the tenth of a percent.
pub record Decimals : Type 1 where
  pub D : Type 0
  pub of_paise : ℤ → D
  pub whole : ℕ → D
  pub share : ℕ → ℕ → D
  pub zero : D
  pub add : D → D → D
  pub sub : D → D → D
  pub mul : D → D → D
  pub percent_of : ℤ → ℕ → D
  pub quantized : D → D
  pub at_most : D → D → Bool
  pub at_most_total : (a b : D) → at_most a b ≡ false → at_most b a ≡ true

-- An item with its frozen SKU
pub record SoldItem : Type 0 where
  pub item : OrderItem
  pub product_sku : String

-- The key of a row: the product, or the SKU of one that was deleted
pub data Key : Type 0 where
  live : ℕ → Key
  deleted : String → Key

abbrev pub key_of : SoldItem → Key
key_of i = elim i.item.product [ none ↦ deleted i.product_sku | some p ↦ live p ]

abbrev pub same_key : Key → Key → Bool
same_key (live p) (live q) = p == q
same_key (live p) (deleted t) = false
same_key (deleted s) (live q) = false
same_key (deleted s) (deleted t) = str_eq s t

-- `_REVENUE_RECOGNIZED_PAYMENT_STATUSES`
abbrev pub is_recognized : PaymentStatus → Bool
is_recognized captured = true
is_recognized partially_refunded = true
is_recognized refunded = true
is_recognized _ = false

abbrev from_on : Option ℕ → ℕ → Bool
from_on none day = true
from_on (some first) day = leb first day

abbrev until_on : Option ℕ → ℕ → Bool
until_on none day = true
until_on (some last) day = leb day last

-- `_paid_orders_queryset(date_from, date_to)`; `day_of` is the date of a time
unfoldable pub paid_orders : (ℕ → ℕ) → Option ℕ → Option ℕ → List Payment → List Order → List Order
paid_orders day_of date_from date_to payments = select (λ (o : Order).
    any_of (λ (p : Payment). (p.order == o.id) && is_recognized p.status) payments
    && (from_on date_from (day_of o.created_at) && until_on date_to (day_of o.created_at)))

-- `_refunded_amount_by_order_id(order_ids)[id]`
abbrev is_refund_of : List Payment → ℕ → Refund → Bool
is_refund_of payments order r =
    same_refund_state r.status RefundState.processed
    && elim (find (λ (p : Payment). p.id == r.payment) payments) [
      | none ↦ false
      | some p ↦ p.order == order
    ]

unfoldable pub refunded_amount : List Payment → List Refund → ℕ → ℕ
refunded_amount payments refunds order =
    sum_by (λ (r : Refund). if is_refund_of payments order r then r.amount else 0) refunds

-- The settings of the report
pub record Costs (dec : Decimals) : Type 0 where
  pub gateway_rate : dec.D
  pub shipping_per_order : dec.D
  pub packaging_per_unit : dec.D

-- What the report reads: the cost price of a live product, the row of an order, and its refunds
pub record Sources : Type 0 where
  pub cost_of : ℕ → ℕ
  pub order_of : ℕ → Option Order
  pub refunded_of : ℕ → ℕ

module _ (dec : Decimals) (costs : Costs dec) (src : Sources) where
  open dec use {D, add, mul, sub, share, of_paise, whole, quantized, percent_of, at_most}

  -- A row while the items are added up
  pub record Row : Type 0 where
    pub key : Key
    pub cost_price : ℕ
    pub units_sold : ℕ
    pub revenue : ℕ
    pub cogs : ℕ
    gateway_cost : D
    shipping_cost : D
    packaging_cost : D
    refund_cost : D

  -- A row of the report, rounded
  pub record Line : Type 0 where
    pub row : Row
    pub gross_margin : ℤ
    gross_margin_percent : D
    pub net_contribution : D

  abbrev pub cost_price_of : Key → ℕ
  cost_price_of (live p) = src.cost_of p
  cost_price_of (deleted s) = 0

  -- the row of a product that has none yet
  abbrev pub blank_row : SoldItem → Row
  blank_row i = record {
    key = key_of i;
    cost_price = cost_price_of (key_of i);
    units_sold = 0;
    revenue = 0;
    cogs = 0;
    gateway_cost = dec.zero;
    shipping_cost = dec.zero;
    packaging_cost = dec.zero;
    refund_cost = dec.zero;
  }

  abbrev subtotal_of : Option Order → ℕ
  subtotal_of none = 0
  subtotal_of (some o) = o.subtotal_amount

  abbrev total_of : Option Order → ℤ
  total_of none = pos 0
  total_of (some o) = total_amount o

  -- `item_share_of_order`
  abbrev item_share : SoldItem → D
  item_share i =
      if subtotal_of (src.order_of i.item.order) == 0
      then dec.zero
      else share (line_total i.item) (subtotal_of (src.order_of i.item.order))

  -- The row with an item added
  abbrev pub with_item : SoldItem → Row → Row
  with_item i r = record r {
    units_sold = r.units_sold + i.item.quantity;
    revenue = r.revenue + taxable_value i.item;
    cogs = r.cogs + r.cost_price * i.item.quantity;
    gateway_cost = add r.gateway_cost (
        mul (mul (of_paise (total_of (src.order_of i.item.order))) costs.gateway_rate)
          (item_share i));
    shipping_cost = add r.shipping_cost (mul costs.shipping_per_order (item_share i));
    packaging_cost = add r.packaging_cost (mul costs.packaging_per_unit (whole i.item.quantity));
    refund_cost =
        add r.refund_cost (mul (of_paise (pos (src.refunded_of i.item.order))) (item_share i));
  }

  -- One round of the loop over the items, on the rows in the order of their first items
  abbrev pub add_item : SoldItem → List Row → List Row
  add_item i [] = with_item i (blank_row i) ∷ []
  add_item i (r ∷ rows) =
      let rest = add_item i rows in
      if same_key r.key (key_of i) then with_item i r ∷ rows else r ∷ rest

  unfoldable pub rows_by_product : List SoldItem → List Row → List Row
  rows_by_product [] rows = rows
  rows_by_product (i ∷ items) rows = rows_by_product items (add_item i rows)

  -- The margins of a row, and its amounts rounded
  abbrev pub finished : Row → Line
  finished r =
      let margin = pos r.revenue -ℤ pos r.cogs in
      record {
        row = record r {
          gateway_cost = quantized r.gateway_cost;
          shipping_cost = quantized r.shipping_cost;
          packaging_cost = quantized r.packaging_cost;
          refund_cost = quantized r.refund_cost;
        };
        gross_margin = margin;
        gross_margin_percent = if r.revenue == 0 then dec.zero else percent_of margin r.revenue;
        net_contribution = quantized (
            sub (sub (sub (sub (of_paise margin) r.gateway_cost) r.shipping_cost) r.packaging_cost)
              r.refund_cost);
      }

  -- `rows.sort(key=..., reverse=True)`, which is stable: a row goes in front of those that are smaller
  abbrev pub insert : Line → List Line → List Line
  insert l [] = l ∷ []
  insert l (m ∷ lines) =
      let rest = insert l lines in
      if at_most m.net_contribution l.net_contribution then l ∷ m ∷ lines else m ∷ rest

  abbrev pub sort : List Line → List Line
  sort [] = []
  sort (l ∷ lines) = insert l (sort lines)

  -- `product_profitability_report` on the items of the paid orders
  unfoldable pub report : List SoldItem → List Line
  unfolding rows_by_product
  report items = sort (map finished (rows_by_product items []))

-- `OrderItem.objects.filter(order_id__in=order_ids)`, with the SKUs that they froze
abbrev pub sold_in : (OrderItem → String) → List Order → List SoldItem
sold_in sku_of [] = []
sold_in sku_of (o ∷ orders) =
    map (λ (i : OrderItem). record { item = i; product_sku = sku_of i }) o.items
    ++ sold_in sku_of orders

-- What the report reads of the orders that were paid
abbrev pub read_from : (ℕ → ℕ) → List Order → List Payment → List Refund → Sources
read_from cost_of orders payments refunds = record {
  cost_of = cost_of;
  order_of = λ id. find (λ (o : Order). o.id == id) orders;
  refunded_of = refunded_amount payments refunds;
}

module _ (dec : Decimals) (costs : Costs dec) (cost_of day_of : ℕ → ℕ) (sku_of : OrderItem → String)
    (payments : List Payment) (refunds : List Refund) where
  -- `product_profitability_report(date_from, date_to)` on the rows of the order table
  unfoldable pub product_profitability_report :
      (date_from date_to : Option ℕ) (table : List Order)
      → List (
          Line dec costs (
            read_from cost_of
              (paid_orders day_of date_from date_to payments table)
              payments
              refunds))
  product_profitability_report date_from date_to table =
      let orders = paid_orders day_of date_from date_to payments table in
      report dec costs (read_from cost_of orders payments refunds) (sold_in sku_of orders)
