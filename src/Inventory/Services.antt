-- ===== src/Inventory/Services.antt =====
-- The functions of inventory/services.py that move stock. `transaction.atomic` is the `Result`: on an
-- error the caller goes on with the inventory that it had. The variant and the product branch of each
-- loop differ by the table alone, which is the `Target`.
pub mod Effects
pub mod Availability
pub mod Roundtrip
pub mod Ledger
pub mod Oversell
pub mod Restock
use shop_orbit.Base.{
  ℕ, ◌+◌, ◌-◌, min, Option, none, some, List, ℤ, pos, ◌+ℤ◌, ◌-ℤ◌, pos_part, neg_part, leb_ℤ, ltb,
  ◌==◌, if◌then◌else◌, Result, ok, err, insufficient_stock, does_not_exist, bad_quantity, for_each,
  ◌>>=◌, ◌>>◌, raise_if, or_raise,
}
use shop_orbit.Cart.Models.{OrderItem}
use shop_orbit.Inventory.Models.{
  Target, StockRow, available_to_sell, StockMovement, MovementType, reserved, released, sold,
  restocked, restored, returned, adjusted, Inventory, record_row, item_target,
}

-- A movement with every optional column blank.
abbrev pub blank_movement : Target → StockRow → MovementType → StockMovement
blank_movement t r kind = record {
  target = t;
  product = r.product_id;
  movement_type = kind;
  stock_delta = pos 0;
  reserved_delta = pos 0;
  order = none;
  purchase_order = none;
  return_request = none;
  created_by = none;
}

-- `select_for_update().get(pk=...)` on the row of a line, then the body of the loop; a line whose
-- product is gone is passed over.
abbrev pub on_line :
    (Target → StockRow → Inventory → Result Inventory) → OrderItem → Inventory → Result Inventory
on_line body item s = elim (item_target item) [
  | none ↦ ok s
  | some t ↦ elim (s.rows t) [ none ↦ err does_not_exist | some r ↦ body t r s ]
]

reserve_row : ℕ → ℕ → Target → StockRow → Inventory → Result Inventory
reserve_row order quantity t r s =
    if ltb (available_to_sell r) quantity
    then err (insufficient_stock (available_to_sell r))
    else ok (
        record_row t (record r { reserved_count = r.reserved_count + quantity })
          (record (blank_movement t r reserved) {
            reserved_delta = pos quantity;
            order = some order;
          })
          s)

pub reserve_line : ℕ → OrderItem → Inventory → Result Inventory
unfolding reserve_row
reserve_line order item = on_line (reserve_row order item.quantity) item

-- `reserve_stock(order)`
unfoldable pub reserve_stock : ℕ → List OrderItem → Inventory → Result Inventory
unfolding reserve_line
reserve_stock order items = for_each (reserve_line order) items

release_row : ℕ → ℕ → Target → StockRow → Inventory → Result Inventory
release_row order quantity t r s =
    let freed = min quantity r.reserved_count in
    ok (
      record_row t (record r { reserved_count = r.reserved_count - freed })
        (record (blank_movement t r released) {
          reserved_delta = pos 0 -ℤ pos freed;
          order = some order;
        })
        s)

pub release_line : ℕ → OrderItem → Inventory → Result Inventory
unfolding release_row
release_line order item = on_line (release_row order item.quantity) item

-- `release_reservation(order)`
unfoldable pub release_reservation : ℕ → List OrderItem → Inventory → Result Inventory
unfolding release_line
release_reservation order items = for_each (release_line order) items

-- `stock_count` and `stock_delta` after the sale of `quantity`, floored at zero if oversold
sold_stock : ℕ → StockRow → ℕ × ℤ
sold_stock quantity r =
    if ltb r.stock_count quantity
    then (0, pos 0 -ℤ pos r.stock_count)
    else (r.stock_count - quantity, pos 0 -ℤ pos quantity)

convert_row : ℕ → ℕ → Target → StockRow → Inventory → Result Inventory
unfolding sold_stock
convert_row order quantity t r s =
    let freed = min quantity r.reserved_count in
    ok (
      record_row t
        (record r {
          stock_count = (sold_stock quantity r).0;
          reserved_count = r.reserved_count - freed;
        })
        (record (blank_movement t r sold) {
          stock_delta = (sold_stock quantity r).1;
          reserved_delta = pos 0 -ℤ pos freed;
          order = some order;
        })
        s)

pub convert_line : ℕ → OrderItem → Inventory → Result Inventory
unfolding convert_row
convert_line order item = on_line (convert_row order item.quantity) item

-- `convert_reservation_to_sale(order)`
unfoldable pub convert_reservation_to_sale : ℕ → List OrderItem → Inventory → Result Inventory
unfolding convert_line
convert_reservation_to_sale order items = for_each (convert_line order) items

restore_row : ℕ → ℕ → Target → StockRow → Inventory → Result Inventory
restore_row order quantity t r s = ok (
    record_row t (record r { stock_count = r.stock_count + quantity })
      (record (blank_movement t r restored) { stock_delta = pos quantity; order = some order }) s)

pub restore_line : ℕ → OrderItem → Inventory → Result Inventory
unfolding restore_row
restore_line order item = on_line (restore_row order item.quantity) item

-- `restore_stock_for_cancellation(order)`
unfoldable pub restore_stock_for_cancellation : ℕ → List OrderItem → Inventory → Result Inventory
unfolding restore_line
restore_stock_for_cancellation order items = for_each (restore_line order) items

-- `variant if variant is not None else product`: the row that a restock or an adjustment names
abbrev pub chosen_target : ℕ → Option ℕ → Target
chosen_target p none = Target.product p
chosen_target p (some v) = Target.variant v

restock_row :
    MovementType → ℕ → Option ℕ → Option ℕ → Option ℕ → Target → StockRow → Inventory → Inventory
restock_row kind quantity created_by purchase_order return_request t r s =
    record_row t (record r { stock_count = r.stock_count + quantity })
      (record (blank_movement t r kind) {
        stock_delta = pos quantity;
        created_by = created_by;
        purchase_order = purchase_order;
        return_request = return_request;
      })
      s

-- `record_restock(product, variant, quantity, created_by=..., purchase_order=...)`
unfoldable pub record_restock :
    ℕ → Option ℕ → ℤ → Option ℕ → Option ℕ → Inventory → Result Inventory
unfolding restock_row
record_restock product variant quantity created_by purchase_order s = do
  raise_if (leb_ℤ quantity (pos 0)) bad_quantity
  r ← or_raise (s.rows (chosen_target product variant)) does_not_exist
  ok (
      restock_row restocked (pos_part quantity) created_by purchase_order none
        (chosen_target product variant) r s)

-- `restock_from_return(product, variant, quantity, return_request=..., created_by=...)`
unfoldable pub restock_from_return : ℕ → Option ℕ → ℤ → ℕ → Option ℕ → Inventory → Result Inventory
unfolding restock_row
restock_from_return product variant quantity return_request created_by s = do
  raise_if (leb_ℤ quantity (pos 0)) bad_quantity
  r ← or_raise (s.rows (chosen_target product variant)) does_not_exist
  ok (
      restock_row returned (pos_part quantity) created_by none (some return_request)
        (chosen_target product variant) r s)

adjust_row : ℤ → Option ℕ → Target → StockRow → Inventory → Inventory
adjust_row delta created_by t r s =
    let new_stock_count = pos_part (pos r.stock_count +ℤ delta) in
    record_row t (record r { stock_count = new_stock_count })
      (record (blank_movement t r adjusted) {
        stock_delta = pos new_stock_count -ℤ pos r.stock_count;
        created_by = created_by;
      })
      s

-- `record_adjustment(product, variant, delta, created_by=...)`
unfoldable pub record_adjustment : ℕ → Option ℕ → ℤ → Option ℕ → Inventory → Result Inventory
unfolding adjust_row
record_adjustment product variant delta created_by s = do
  raise_if (pos_part delta + neg_part delta == 0) bad_quantity
  r ← or_raise (s.rows (chosen_target product variant)) does_not_exist
  ok (adjust_row delta created_by (chosen_target product variant) r s)
