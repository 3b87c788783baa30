-- ===== src/Inventory/Services/Oversell.antt =====
-- No row promises more than it holds: `reserved_count` stays within `stock_count`.
use shop_orbit.Base.{ℕ, ◌≡◌, ◌≤◌, Option, some, arith, inl, inr, ok, Option-cases, ℤ}
use shop_orbit.Inventory.Models.{Target, StockRow, Inventory, record_row}
use shop_orbit.Inventory.Services.{chosen_target, record_restock, restock_from_return}
use shop_orbit.Inventory.Services.Effects.{
  demand, hold, free, sell, give_back, Changes, reserve_stock-Changes, release_reservation-Changes,
  convert_reservation_to_sale-Changes, restore_stock_for_cancellation-Changes,
}
use shop_orbit.Inventory.Services.Availability.{covered_of-reserve}
use shop_orbit.Inventory.Services.Ledger.{
  StockStep, reserve, release, convert, restore, restock, return_stock, adjust,
}

-- Every row's reservations are covered by what is on hand.
abbrev pub IsCovered : Inventory → Type 0
IsCovered s = (t : Target) (r : StockRow) → s.rows t ≡ some r → r.reserved_count ≤ r.stock_count

-- A call other than a manual correction.
abbrev pub IsFlow : {s s' : Inventory} → StockStep s s' → Type 0
IsFlow (adjust p v delta by h) = ⊥
IsFlow _ = Unit

Changes-IsCovered :
    (change : ℕ → StockRow → StockRow) (asked : Target → ℕ) (s s' : Inventory)
    → ((t : Target) (r : StockRow)
        → s.rows t ≡ some r
        → r.reserved_count ≤ r.stock_count
        → (change (asked t) r).reserved_count ≤ (change (asked t) r).stock_count)
    → Changes change asked s s'
    → IsCovered s
    → IsCovered s'
Changes-IsCovered change asked s s' keep same fine t r' at = elim (Option-cases (s.rows t)) [
  | inl missing ↦ absurd (ground (arith, same t))
  | inr (r, found) ↦ ground (arith, same t, keep t r, fine t r)
]

restock_row-IsCovered :
    (p : ℕ) (v : Option ℕ) (n : ℤ) (by po : Option ℕ) (s s' : Inventory)
    → record_restock p v n by po s ≡ ok s'
    → IsCovered s
    → IsCovered s'
unfolding record_restock record_row
restock_row-IsCovered p v n by po s s' h fine t r' at =
    elim (Option-cases (s.rows (chosen_target p v))) [
      | inl missing ↦ absurd (ground arith)
      | inr (r, found) ↦ ground (arith, fine (chosen_target p v) r, fine t r')
    ]

return_row-IsCovered :
    (p : ℕ) (v : Option ℕ) (n : ℤ) (ret : ℕ) (by : Option ℕ) (s s' : Inventory)
    → restock_from_return p v n ret by s ≡ ok s'
    → IsCovered s
    → IsCovered s'
unfolding restock_from_return record_row
return_row-IsCovered p v n ret by s s' h fine t r' at =
    elim (Option-cases (s.rows (chosen_target p v))) [
      | inl missing ↦ absurd (ground arith)
      | inr (r, found) ↦ ground (arith, fine (chosen_target p v) r, fine t r')
    ]

-- Every call but a manual correction keeps each row's `reserved_count` within its `stock_count`; in
-- particular no reservation, release, sale, cancellation or restock can oversell a row.
pub StockStep-IsCovered :
    (s s' : Inventory) (step : StockStep s s') → IsFlow step → IsCovered s → IsCovered s'
StockStep-IsCovered s s' (reserve o items h) flow fine =
    Changes-IsCovered hold (λ t. demand t items) s s'
      (λ t r found _. ground (arith, covered_of-reserve o items s s' t h, fine t r))
      (reserve_stock-Changes o items s s' h) fine
StockStep-IsCovered s s' (release o items h) flow fine =
    Changes-IsCovered free (λ t. demand t items) s s' (λ t r found le. omega arith)
      (release_reservation-Changes o items s s' h) fine
StockStep-IsCovered s s' (convert o items h) flow fine =
    Changes-IsCovered sell (λ t. demand t items) s s' (λ t r found le. omega arith)
      (convert_reservation_to_sale-Changes o items s s' h) fine
StockStep-IsCovered s s' (restore o items h) flow fine =
    Changes-IsCovered give_back (λ t. demand t items) s s' (λ t r found le. omega arith)
      (restore_stock_for_cancellation-Changes o items s s' h) fine
StockStep-IsCovered s s' (restock p v n by po h) flow fine =
    restock_row-IsCovered p v n by po s s' h fine
StockStep-IsCovered s s' (return_stock p v n ret by h) flow fine =
    return_row-IsCovered p v n ret by s s' h fine
StockStep-IsCovered s s' (adjust p v delta by h) flow fine = absurd flow
