-- ===== src/Inventory/Purchasing/Effects.antt =====
-- What a receipt that returns does to the tables.
use shop_orbit.Base.{
  ℕ, ◌+◌, ◌≤◌, ◌<◌, ◌≡◌, refl, ap, ◌∙◌, false, List, [], ◌∷◌, Option, some, ok, arith, ℤ, pos,
  negsuc, pos_part, leb_ℤ, ltb_ℤ, -ℤ_parts, if◌then◌else◌, put, Option-cases, Result-cases,
  Bool-cases, inl, inr,
}
use shop_orbit.Inventory.Models.{Target, same_target}
use shop_orbit.Inventory.Services.{chosen_target, record_restock}
use shop_orbit.Inventory.Services.Restock.{stock_units, record_restock-units}
use shop_orbit.Inventory.Purchasing.{
  PurchaseOrder, PurchaseOrderLine, Purchases, receive_purchase_order_line, quantity_remaining,
  save_received, line_at, status_after,
}
use shop_orbit.Inventory.Purchasing.Lines.{received_units, received_units-save}

-- A receipt that returned, of a line that the table holds.
pub record Received (line : PurchaseOrderLine) (n : ℕ) (s s' : Purchases) : Type 0 where
  pub order : PurchaseOrder
  pub order_there : s.orders line.purchase_order ≡ some order
  pub some_units : 0 < n
  pub fits : line.quantity_received + n ≤ line.quantity_ordered
  pub lines_saved : s'.lines ≡ save_received line.id (line.quantity_received + n) s.lines
  pub order_saved :
      s'.orders
      ≡ put line.purchase_order
          (record order { status = status_after order.status line.purchase_order s'.lines })
          s.orders
  pub stocked :
      (t : Target)
      → stock_units t s'.stock
        ≡ stock_units t s.stock
          + (if same_target (chosen_target line.product line.variant) t then n else 0)
  pub same_number : s'.last_number ≡ s.last_number
  pub same_next : s'.next_id ≡ s.next_id

remains :
    (line : PurchaseOrderLine) (n : ℕ)
    → ltb_ℤ (quantity_remaining line) (pos n) ≡ false
    → leb_ℤ (pos n) (pos 0) ≡ false
    → (0 < n) × (line.quantity_received + n ≤ line.quantity_ordered)
remains line n most least =
    let parts = -ℤ_parts (pos line.quantity_ordered) (pos line.quantity_received) in ground arith

line_at-key :
    (id : ℕ) (ls : List PurchaseOrderLine) (l : PurchaseOrderLine)
    → line_at id ls ≡ some l
    → l.id ≡ id
line_at-key id [] l at = ground arith
line_at-key id (x ∷ ls) l at = ground (arith, line_at-key id ls l)

pub receive-Received :
    (line : PurchaseOrderLine) (quantity : ℤ) (by : Option ℕ) (s s' : Purchases)
    → receive_purchase_order_line line quantity by s ≡ ok s'
    → Received line (pos_part quantity) s s'
unfolding receive_purchase_order_line
receive-Received line (negsuc q) by s s' h = absurd (ground arith)
receive-Received line (pos n) by s s' h = elim (Bool-cases (leb_ℤ (pos n) (pos 0))) [
  | inl least ↦ absurd (ground arith)
  | inr more ↦ elim (Bool-cases (ltb_ℤ (quantity_remaining line) (pos n))) [
    | inl over ↦ absurd (ground arith)
    | inr within ↦ elim (Option-cases (s.orders line.purchase_order)) [
      | inl missing ↦ absurd (ground arith)
      | inr (po, there) ↦
          elim (Result-cases
            (record_restock line.product line.variant (pos n) by (some po.id) s.stock)) [
              | inr (e, failed) ↦ absurd (ground arith)
              | inl (stock, restocked) ↦ elim (Option-cases (line_at line.id s.lines)) [
                | inl gone ↦ absurd (ground arith)
                | inr (row, at) ↦
                    let lines = save_received line.id (line.quantity_received + n) s.lines in
                    let saved = record po {
                      status = status_after po.status line.purchase_order lines;
                    } in
                    let e : s' ≡ record s {
                      stock = stock;
                      lines = lines;
                      orders = put line.purchase_order saved s.orders;
                    } =
                      ground (arith, line_at-key line.id s.lines row at) in
                    record {
                      order = po;
                      order_there = there;
                      some_units = (remains line n within more).0;
                      fits = (remains line n within more).1;
                      lines_saved = ap Purchases.lines e;
                      order_saved = rw e refl;
                      stocked = λ t.
                          ap (λ s. stock_units t s.stock) e
                          ∙ record_restock-units line.product line.variant (pos n) by (some po.id)
                              s.stock stock t restocked;
                      same_number = ap Purchases.last_number e;
                      same_next = ap Purchases.next_id e;
                    }
              ]
            ]
    ]
  ]
]

-- What is received is on the shelf: where the caller's copy of the line is fresh, a receipt adds to each
-- row's `stock_count` exactly what it adds to the `quantity_received` of the lines for that row.
pub receive-stock :
    (line : PurchaseOrderLine) (quantity : ℤ) (by : Option ℕ) (s s' : Purchases) (t : Target)
    → line_at line.id s.lines ≡ some line
    → receive_purchase_order_line line quantity by s ≡ ok s'
    → stock_units t s'.stock + received_units t s.lines
      ≡ stock_units t s.stock + received_units t s'.lines
receive-stock line quantity by s s' t fresh h =
    let w = receive-Received line quantity by s s' h in
    let lines = ap (received_units t) w.lines_saved in
    let sum =
      received_units-save line (line.quantity_received + pos_part quantity) t s.lines fresh in
    ground (arith, w.stocked t)
