-- ===== src/Inventory/Purchasing.antt =====
-- Purchase orders (inventory/models.py, inventory/services.py, the receiving view of inventory/admin.py):
-- lines are ordered from a supplier and received in parts, and each receipt is a restock.
pub mod Lines
pub mod Effects
pub mod Orderly
pub mod Invariant
pub mod Receiving
pub mod LowStock
use shop_orbit.Base.{
  ℕ, suc, ◌+◌, ◌*◌, Bool, true, false, not, ◌&&◌, Option, none, some, List, [], ◌∷◌, ℤ, pos, ◌-ℤ◌,
  pos_part, leb, ltb, leb_ℤ, ltb_ℤ, ◌==◌, if◌then◌else◌, Result, ok, err, bad_quantity, bad_status,
  no_lines, over_receipt, does_not_exist, ◌>>=◌, ◌>>◌, raise_if, or_raise, sum_by, all_of, any_of,
  find, select, put,
}
use shop_orbit.Inventory.Models.{Inventory}
use shop_orbit.Inventory.Services.{record_restock}

-- `PurchaseOrder.Status`
pub data PurchaseStatus : Type 0 where
  draft ordered partially_received received cancelled : PurchaseStatus

-- `PurchaseOrder`; `po_number` is the number that the text `PO-...` shows.
pub record PurchaseOrder : Type 0 where
  pub id : ℕ
  pub supplier : ℕ
  pub po_number : ℕ
  pub status : PurchaseStatus
  pub created_by : Option ℕ

-- `PurchaseOrderLine`, `unit_cost` in paise
pub record PurchaseOrderLine : Type 0 where
  pub id : ℕ
  pub purchase_order : ℕ
  pub product : ℕ
  pub variant : Option ℕ
  pub quantity_ordered : ℕ
  pub quantity_received : ℕ
  pub unit_cost : ℕ

-- The tables: lines newest first, `last_number` of the one `PurchaseOrderSequence`, and the key of the next row.
pub record Purchases : Type 0 where
  pub stock : Inventory
  pub orders : ℕ → Option PurchaseOrder
  pub lines : List PurchaseOrderLine
  pub last_number : ℕ
  pub next_id : ℕ

-- `line_total`
abbrev pub line_total : PurchaseOrderLine → ℕ
line_total l = l.unit_cost * l.quantity_ordered

-- `quantity_remaining`, below zero on a line that has more than it asked for
abbrev pub quantity_remaining : PurchaseOrderLine → ℤ
quantity_remaining l = pos l.quantity_ordered -ℤ pos l.quantity_received

-- `PurchaseOrderLine.is_fully_received`
abbrev pub is_line_received : PurchaseOrderLine → Bool
is_line_received l = leb l.quantity_ordered l.quantity_received

-- `line.quantity_received > 0`
abbrev pub has_receipt : PurchaseOrderLine → Bool
has_receipt l = ltb 0 l.quantity_received

-- `self.lines.all()`
abbrev pub lines_of : ℕ → List PurchaseOrderLine → List PurchaseOrderLine
lines_of k = select (λ l. l.purchase_order == k)

-- `total_cost`
abbrev pub total_cost : ℕ → Purchases → ℕ
total_cost k s = sum_by line_total (lines_of k s.lines)

-- `bool(lines) and all(...)`
abbrev pub all_received : List PurchaseOrderLine → Bool
all_received [] = false
all_received (l ∷ ls) = all_of is_line_received (l ∷ ls)

-- `is_fully_received`
abbrev pub is_fully_received : ℕ → List PurchaseOrderLine → Bool
is_fully_received k lines = all_received (lines_of k lines)

-- `is_partially_received`
abbrev pub is_partially_received : ℕ → List PurchaseOrderLine → Bool
is_partially_received k lines =
    any_of has_receipt (lines_of k lines) && not (is_fully_received k lines)

-- An entry of `lines_data`
pub record LineData : Type 0 where
  pub product : ℕ
  pub variant : Option ℕ
  pub quantity_ordered : ℕ
  pub unit_cost : ℕ

-- `PurchaseOrderLine.objects.create(purchase_order=po, ...)`
abbrev pub create_line : ℕ → LineData → Purchases → Purchases
create_line po d s = record s {
  lines =
      record {
        id = s.next_id;
        purchase_order = po;
        product = d.product;
        variant = d.variant;
        quantity_ordered = d.quantity_ordered;
        quantity_received = 0;
        unit_cost = d.unit_cost;
      }
      ∷ s.lines;
  next_id = suc s.next_id;
}

abbrev pub create_lines : ℕ → List LineData → Purchases → Purchases
create_lines po [] s = s
create_lines po (d ∷ ds) s = create_lines po ds (create_line po d s)

-- The order that `PurchaseOrder.objects.create` makes, with the number that `_generate_po_number` hands out
abbrev pub new_purchase_order : ℕ → Option ℕ → Purchases → PurchaseOrder
new_purchase_order supplier created_by s = record {
  id = s.next_id;
  supplier = supplier;
  po_number = suc s.last_number;
  status = draft;
  created_by = created_by;
}

abbrev pub add_order : PurchaseOrder → Purchases → Purchases
add_order po s = record s {
  orders = put po.id po s.orders;
  last_number = po.po_number;
  next_id = suc s.next_id;
}

-- `create_purchase_order`
unfoldable pub create_purchase_order : ℕ → List LineData → Option ℕ → Purchases → Result Purchases
create_purchase_order supplier [] created_by s = err no_lines
create_purchase_order supplier (d ∷ ds) created_by s =
    ok (create_lines s.next_id (d ∷ ds) (add_order (new_purchase_order supplier created_by s) s))

abbrev pub is_draft : PurchaseStatus → Bool
is_draft draft = true
is_draft _ = false

-- `po.status = new; po.save(update_fields=["status", "updated_at"])`
abbrev pub save_po_status : ℕ → PurchaseStatus → Purchases → Result Purchases
save_po_status k new s = do
  row ← or_raise (s.orders k) does_not_exist
  ok (record s { orders = put k (record row { status = new }) s.orders })

-- `mark_purchase_order_ordered`, on the caller's copy of the order
unfoldable pub mark_purchase_order_ordered : PurchaseOrder → Purchases → Result Purchases
mark_purchase_order_ordered po s = do
  raise_if (not (is_draft po.status)) bad_status
  save_po_status po.id ordered s

-- `line.save(update_fields=["quantity_received", "updated_at"])`
abbrev pub save_received : ℕ → ℕ → List PurchaseOrderLine → List PurchaseOrderLine
save_received id n [] = []
save_received id n (l ∷ ls) =
    if l.id == id then record l { quantity_received = n } ∷ ls else l ∷ save_received id n ls

abbrev pub line_at : ℕ → List PurchaseOrderLine → Option PurchaseOrderLine
line_at id = find (λ l. l.id == id)

-- The status that a receipt leaves the order in
abbrev pub status_after : PurchaseStatus → ℕ → List PurchaseOrderLine → PurchaseStatus
status_after old k lines =
    if is_fully_received k lines
    then received
    else if is_partially_received k lines
    then partially_received
    else old

-- `receive_purchase_order_line`, on the caller's copy of the line
unfoldable pub receive_purchase_order_line :
    PurchaseOrderLine → ℤ → Option ℕ → Purchases → Result Purchases
receive_purchase_order_line line quantity received_by s = do
  raise_if (leb_ℤ quantity (pos 0)) bad_quantity
  raise_if (ltb_ℤ (quantity_remaining line) quantity) over_receipt
  po ← or_raise (s.orders line.purchase_order) does_not_exist
  stock ← record_restock line.product line.variant quantity received_by (some po.id) s.stock
  row ← or_raise (line_at line.id s.lines) does_not_exist
  let lines = save_received row.id (line.quantity_received + pos_part quantity) s.lines in
      save_po_status line.purchase_order (status_after po.status line.purchase_order lines)
        (record s { stock = stock; lines = lines })

-- what is done after a receipt: a `ValueError` leaves a message and the next line is received; another
-- exception ends the request, and what was received stays
abbrev pub after_receipt :
    Result Purchases
    → (Purchases → Result (Unit {0}) × Purchases)
    → Purchases
    → Result (Unit {0}) × Purchases
after_receipt (ok s') rest s = rest s'
after_receipt (err over_receipt) rest s = rest s
after_receipt (err e) rest s = (err e, s)

-- `receive_view` on a POST, each line of the order with the `int(raw_quantity)` of its box, `none` where
-- that is blank or no number
unfoldable pub receive_view :
    List (PurchaseOrderLine × Option ℤ) → Option ℕ → Purchases → Result (Unit {0}) × Purchases
receive_view [] received_by s = (ok tt, s)
receive_view ((line, none) ∷ posted) received_by s = receive_view posted received_by s
receive_view ((line, some quantity) ∷ posted) received_by s =
    let rest = receive_view posted received_by in
    if leb_ℤ quantity (pos 0)
    then rest s
    else after_receipt (receive_purchase_order_line line quantity received_by s) rest s
