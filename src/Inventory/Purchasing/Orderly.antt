-- ===== src/Inventory/Purchasing/Orderly.antt =====
-- What stays true of the purchase orders, through drafts, orderings and receipts.
use shop_orbit.Base.{
  ℕ, suc, ◌≤◌, ◌<◌, ◌≡◌, refl, ◌∙◌, Bool, true, false, not, ◌&&◌, List, [], ◌∷◌, Option, some, ok,
  arith, ℤ, ◌==◌, All, any_of,
}
use shop_orbit.Inventory.Purchasing.{
  PurchaseStatus, PurchaseOrder, PurchaseOrderLine, Purchases, LineData, draft, ordered,
  partially_received, received, cancelled, create_line, create_lines, create_purchase_order,
  mark_purchase_order_ordered, receive_purchase_order_line, lines_of, line_at, has_receipt,
  is_fully_received,
}

-- Whether a status suits lines of which some, or all, have been received.
abbrev pub suits : (any full : Bool) → PurchaseStatus → Bool
suits any full draft = not any
suits any full ordered = not any
suits any full partially_received = any && not full
suits any full received = full
suits any full cancelled = true

abbrev pub any_received : ℕ → List PurchaseOrderLine → Bool
any_received k lines = any_of has_receipt (lines_of k lines)

-- No line has more than it asked for, the status of each order tells what its lines have, and each
-- order has a number of its own that the sequence has handed out.
pub record IsOrderly (s : Purchases) : Type 0 where
  pub within : All (λ l. l.quantity_received ≤ l.quantity_ordered) s.lines
  pub placed : All (λ l. l.purchase_order < s.next_id) s.lines
  pub told :
      (k : ℕ) (po : PurchaseOrder)
      → s.orders k ≡ some po
      → suits (any_received k s.lines) (is_fully_received k s.lines) po.status ≡ true
  pub issued : (k : ℕ) (po : PurchaseOrder) → s.orders k ≡ some po → po.po_number ≤ s.last_number
  pub distinct :
      (j k : ℕ) (po other : PurchaseOrder)
      → s.orders j ≡ some po
      → s.orders k ≡ some other
      → po.po_number ≡ other.po_number
      → j ≡ k

-- The calls; the caller's copies of the order and of the line are fresh.
pub data PurchaseStep (s s' : Purchases) : Type 0 where
  create :
      (supplier : ℕ) (data_lines : List LineData) (by : Option ℕ)
      → create_purchase_order supplier data_lines by s ≡ ok s'
      → PurchaseStep s s'
  mark :
      (po : PurchaseOrder)
      → s.orders po.id ≡ some po
      → mark_purchase_order_ordered po s ≡ ok s'
      → PurchaseStep s s'
  receive :
      (line : PurchaseOrderLine) (quantity : ℤ) (by : Option ℕ)
      → line_at line.id s.lines ≡ some line
      → receive_purchase_order_line line quantity by s ≡ ok s'
      → PurchaseStep s s'

-- What the creation of lines leaves as it was
module _ (po : ℕ) where
  pub create_lines-orders :
      (ds : List LineData) (s : Purchases)
      → ((create_lines po ds s).orders ≡ s.orders)
        × ((create_lines po ds s).last_number ≡ s.last_number)
  create_lines-orders [] s = (refl, refl)
  create_lines-orders (d ∷ ds) s = create_lines-orders ds (create_line po d s)

  pub create_lines-within :
      (ds : List LineData) (s : Purchases)
      → All (λ l. l.quantity_received ≤ l.quantity_ordered) s.lines
      → All (λ l. l.quantity_received ≤ l.quantity_ordered) (create_lines po ds s).lines
  create_lines-within [] s all = all
  create_lines-within (d ∷ ds) s all =
      create_lines-within ds (create_line po d s) (omega arith, all)

  pub create_lines-others :
      (j : ℕ) (ds : List LineData) (s : Purchases)
      → (po == j) ≡ false
      → lines_of j (create_lines po ds s).lines ≡ lines_of j s.lines
  create_lines-others j [] s other = refl
  create_lines-others j (d ∷ ds) s other =
      create_lines-others j ds (create_line po d s) other ∙ simp other

  pub create_lines-none :
      (ds : List LineData) (s : Purchases)
      → any_received po s.lines ≡ false
      → any_received po (create_lines po ds s).lines ≡ false
  create_lines-none [] s none_yet = none_yet
  create_lines-none (d ∷ ds) s none_yet = create_lines-none ds (create_line po d s) (ground arith)

pub below_suc :
    (n : ℕ) (ls : List PurchaseOrderLine)
    → All (λ l. l.purchase_order < n) ls
    → All (λ l. l.purchase_order < suc n) ls
below_suc n [] all = all
below_suc n (l ∷ ls) (first, rest) = (omega arith, below_suc n ls rest)

pub create_lines-placed :
    (po : ℕ) (ds : List LineData) (s : Purchases)
    → po < s.next_id
    → All (λ l. l.purchase_order < s.next_id) s.lines
    → All (λ l. l.purchase_order < (create_lines po ds s).next_id) (create_lines po ds s).lines
create_lines-placed po [] s below all = all
create_lines-placed po (d ∷ ds) s below all =
    create_lines-placed po ds (create_line po d s) (omega arith)
      (omega arith, below_suc s.next_id s.lines all)

pub none_above :
    (k : ℕ) (ls : List PurchaseOrderLine)
    → All (λ l. l.purchase_order < k) ls
    → any_received k ls ≡ false
none_above k [] all = refl
none_above k (l ∷ ls) (first, rest) = ground (arith, none_above k ls)
