-- ===== src/Inventory/Services/Restock.antt =====
-- What a restock, or a return, does to the shelf.
use shop_orbit.Base.{
  ℕ, ◌+◌, ◌≡◌, none, some, Option, ok, arith, ℤ, pos_part, if◌then◌else◌, Option-cases, inl, inr,
}
use shop_orbit.Inventory.Models.{Target, same_target, same_target→eq, Inventory, record_row}
use shop_orbit.Inventory.Services.{chosen_target, record_restock, restock_from_return, restock_row}

-- The units on the shelf, zero for a row that is not there.
abbrev pub stock_units : Target → Inventory → ℕ
stock_units t i = elim (i.rows t) [ none ↦ 0 | some r ↦ r.stock_count ]

pub record_restock-units :
    (product : ℕ) (variant : Option ℕ) (quantity : ℤ) (by order : Option ℕ) (i i' : Inventory)
    (t : Target)
    → record_restock product variant quantity by order i ≡ ok i'
    → stock_units t i'
      ≡ stock_units t i
        + (if same_target (chosen_target product variant) t then pos_part quantity else 0)
unfolding record_restock restock_row record_row
record_restock-units product variant quantity by order i i' t h =
    elim (Option-cases (i.rows (chosen_target product variant))) [
      | inl missing ↦ absurd (ground arith)
      | inr (r, found) ↦ ground (arith, same_target→eq (chosen_target product variant) t)
    ]

pub restock_from_return-units :
    (product : ℕ) (variant : Option ℕ) (quantity : ℤ) (request : ℕ) (by : Option ℕ)
    (i i' : Inventory) (t : Target)
    → restock_from_return product variant quantity request by i ≡ ok i'
    → stock_units t i'
      ≡ stock_units t i
        + (if same_target (chosen_target product variant) t then pos_part quantity else 0)
unfolding restock_from_return restock_row record_row
restock_from_return-units product variant quantity request by i i' t h =
    elim (Option-cases (i.rows (chosen_target product variant))) [
      | inl missing ↦ absurd (ground arith)
      | inr (r, found) ↦ ground (arith, same_target→eq (chosen_target product variant) t)
    ]
