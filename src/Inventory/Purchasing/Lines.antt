-- ===== src/Inventory/Purchasing/Lines.antt =====
-- What a new line and a receipt do to the table of lines.
use shop_orbit.Base.{
  ℕ, ◌+◌, ◌≤◌, ◌<◌, ◌≡◌, refl, true, false, List, [], ◌∷◌, some, arith, ◌==◌, if◌then◌else◌, All,
  any_of,
}
use shop_orbit.Inventory.Models.{Target, same_target}
use shop_orbit.Inventory.Services.{chosen_target}
use shop_orbit.Inventory.Purchasing.{
  PurchaseOrderLine, lines_of, has_receipt, save_received, line_at,
}

-- The units received so far on one line, if it is a line for `t`, and on all lines for `t`.
abbrev pub line_units : Target → PurchaseOrderLine → ℕ
line_units t l =
    if same_target (chosen_target l.product l.variant) t then l.quantity_received else 0

abbrev pub received_units : Target → List PurchaseOrderLine → ℕ
received_units t [] = 0
received_units t (l ∷ ls) = line_units t l + received_units t ls

-- Facts on a receipt of a line that the table holds
module _ (line : PurchaseOrderLine) (n : ℕ) where
  pub save_received-others :
      (j : ℕ) (ls : List PurchaseOrderLine)
      → line_at line.id ls ≡ some line
      → (line.purchase_order == j) ≡ false
      → lines_of j (save_received line.id n ls) ≡ lines_of j ls
  save_received-others j [] at other = refl
  save_received-others j (l ∷ ls) at other = ground (arith, save_received-others j ls)

  pub save_received-touched :
      (ls : List PurchaseOrderLine)
      → line_at line.id ls ≡ some line
      → 0 < n
      → any_of has_receipt (lines_of line.purchase_order (save_received line.id n ls)) ≡ true
  save_received-touched [] at more = ground arith
  save_received-touched (l ∷ ls) at more = ground (arith, save_received-touched ls)

  pub save_received-within :
      (ls : List PurchaseOrderLine)
      → line_at line.id ls ≡ some line
      → n ≤ line.quantity_ordered
      → All (λ l. l.quantity_received ≤ l.quantity_ordered) ls
      → All (λ l. l.quantity_received ≤ l.quantity_ordered) (save_received line.id n ls)
  save_received-within [] at fits all = all
  save_received-within (l ∷ ls) at fits (first, rest) = ground (arith, save_received-within ls)

  pub save_received-placed :
      (k : ℕ) (ls : List PurchaseOrderLine)
      → All (λ l. l.purchase_order < k) ls
      → All (λ l. l.purchase_order < k) (save_received line.id n ls)
  save_received-placed k [] all = all
  save_received-placed k (l ∷ ls) (first, rest) = ground (arith, save_received-placed k ls)

  pub received_units-save :
      (t : Target) (ls : List PurchaseOrderLine)
      → line_at line.id ls ≡ some line
      → received_units t (save_received line.id n ls) + line_units t line
        ≡ received_units t ls
          + (if same_target (chosen_target line.product line.variant) t then n else 0)
  received_units-save t [] at = ground arith
  received_units-save t (l ∷ ls) at = ground (arith, received_units-save t ls)
