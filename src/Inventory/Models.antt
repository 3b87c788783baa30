-- ===== src/Inventory/Models.antt =====
-- The stock counters of catalog/models.py and the ledger of inventory/models.py.
use shop_orbit.Base.{
  ℕ, ◌-◌, ◌≡◌, Bool, true, false, Option, none, some, List, ◌∷◌, ℤ, ◌==◌, leb, arith, if◌then◌else◌,
}
use shop_orbit.Cart.Models.{OrderItem}

-- A row that holds stock: a `Product` or a `ProductVariant`, by its primary key.
pub data Target : Type 0 where
  product : ℕ → Target
  variant : ℕ → Target

abbrev pub same_target : Target → Target → Bool
same_target (product a) (product b) = a == b
same_target (variant a) (variant b) = a == b
same_target (product a) (variant b) = false
same_target (variant a) (product b) = false

pub same_target→eq : (t u : Target) → same_target t u ≡ true → t ≡ u
same_target→eq t u same = ground arith

pub same_target_refl : (t : Target) → same_target t t ≡ true
same_target_refl (product a) = ground arith
same_target_refl (variant a) = ground arith

-- The stock fields of `Product` and `ProductVariant`. `product_id` is the product that a movement of
-- this row names: `variant.product` for a variant, the product itself for a product.
pub record StockRow : Type 0 where
  pub product_id : ℕ
  pub stock_count : ℕ
  pub reserved_count : ℕ
  pub low_stock_threshold : ℕ

-- `available_to_sell`: `max(stock_count - reserved_count, 0)`
abbrev pub available_to_sell : StockRow → ℕ
available_to_sell r = r.stock_count - r.reserved_count

-- `StockStatus`
pub data StockStatus : Type 0 where
  in_stock low_stock out_of_stock : StockStatus

-- `stock_status`
unfoldable pub stock_status : StockRow → StockStatus
stock_status r =
    if leb (available_to_sell r) 0
    then out_of_stock
    else if leb (available_to_sell r) r.low_stock_threshold
    then low_stock
    else in_stock

-- `StockMovement.MovementType`
pub data MovementType : Type 0 where
  reserved released sold restocked restored returned adjusted : MovementType

-- `StockMovement`: `target` is the row whose counters moved, and `product` its `product` column.
pub record StockMovement : Type 0 where
  pub target : Target
  pub product : ℕ
  pub movement_type : MovementType
  pub stock_delta : ℤ
  pub reserved_delta : ℤ
  pub order : Option ℕ
  pub purchase_order : Option ℕ
  pub return_request : Option ℕ
  pub created_by : Option ℕ

-- The two stock tables and the ledger, newest movement first.
pub record Inventory : Type 0 where
  pub rows : Target → Option StockRow
  pub movements : List StockMovement

-- `row.save(...)` with `StockMovement.objects.create(...)`
unfoldable pub record_row : Target → StockRow → StockMovement → Inventory → Inventory
record_row t r m s = record {
  rows = λ u. if same_target t u then some r else s.rows u;
  movements = m ∷ s.movements;
}

-- The branch that an order line takes: `if item.variant_id: ... elif item.product_id: ...`
unfoldable pub item_target : OrderItem → Option Target
item_target i = elim i.variant [
  | some v ↦ some (variant v)
  | none ↦ elim i.product [ some p ↦ some (product p) | none ↦ none ]
]
