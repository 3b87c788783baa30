-- ===== src/Inventory/Services/Ledger.antt =====
-- The ledger: "signed so the ledger sums to the current counters at any point in time"
-- (inventory/models.py). What a counter is short of its ledger's sum never changes.
use shop_orbit.Base.{
  ℕ, ◌≡◌, refl, ◌∙◌, Option, none, some, List, [], ◌∷◌, arith, inl, inr, ok, Result, Option-cases,
  Bool-cases, for_each, for_each_inv, ok-injective, ltb, ltb→le, pos_part, if◌then◌else◌, ℤ, pos,
  ◌+ℤ◌, ◌-ℤ◌, int_laws,
}
use mathlib.Core.Option
use mathlib.Core.Path.{subst}
use shop_orbit.Cart.Models.{OrderItem}
use shop_orbit.Inventory.Models.{
  Target, same_target, same_target→eq, same_target_refl, StockRow, available_to_sell, StockMovement,
  MovementType, restocked, returned, Inventory, record_row, item_target,
}
use shop_orbit.Inventory.Services.{
  on_line, reserve_row, release_row, convert_row, restore_row, sold_stock, reserve_line,
  release_line, convert_line, restore_line, reserve_stock, release_reservation,
  convert_reservation_to_sale, restore_stock_for_cancellation, restock_row, adjust_row,
  record_restock, restock_from_return, record_adjustment, chosen_target,
}

-- The sum of one delta over the movements of one row.
abbrev pub ledger_sum : (StockMovement → ℤ) → Target → List StockMovement → ℤ
ledger_sum delta t [] = pos 0
ledger_sum delta t (m ∷ ms) =
    if same_target m.target t then delta m +ℤ ledger_sum delta t ms else ledger_sum delta t ms

-- What the counters stood at before the first movement, by the ledger: stock, and reserved.
abbrev pub opening : Inventory → Target → Option (ℤ × ℤ)
opening s t =
    Option.map {B = ℤ × ℤ}
      (λ r. (
        pos r.stock_count -ℤ ledger_sum (λ m. m.stock_delta) t s.movements,
        pos r.reserved_count -ℤ ledger_sum (λ m. m.reserved_delta) t s.movements,
      ))
      (s.rows t)

abbrev pub SameOpening : Inventory → Inventory → Type 0
SameOpening s s' = (t : Target) → opening s' t ≡ opening s t

shift : (a a' d l : ℤ) → a' ≡ a +ℤ d → a' -ℤ (d +ℤ l) ≡ a -ℤ l
shift a a' d l e = rw e (omega int_laws)

-- A row saved with a movement of exactly its change.
record_row-SameOpening :
    (t : Target) (r r' : StockRow) (m : StockMovement) (s : Inventory)
    → s.rows t ≡ some r
    → m.target ≡ t
    → pos r'.stock_count ≡ pos r.stock_count +ℤ m.stock_delta
    → pos r'.reserved_count ≡ pos r.reserved_count +ℤ m.reserved_delta
    → SameOpening s (record_row t r' m s)
unfolding record_row
record_row-SameOpening t r r' m s found named stock held u = elim (Bool-cases (same_target t u)) [
  | inl same ↦ ground (
    arith,
    same_target→eq t u same,
    same_target_refl t,
    shift (pos r.stock_count) (pos r'.stock_count) m.stock_delta
        (ledger_sum (λ m. m.stock_delta) u s.movements) stock,
    shift (pos r.reserved_count) (pos r'.reserved_count) m.reserved_delta
        (ledger_sum (λ m. m.reserved_delta) u s.movements) held,
  )
  | inr other ↦ ground arith
]

SameOpening-trans :
    (s s' s'' : Inventory) → SameOpening s s' → SameOpening s' s'' → SameOpening s s''
SameOpening-trans s s' s'' h k t = k t ∙ h t

-- A loop keeps the opening counters if the body does for the row that it holds.
for_each-SameOpening :
    (body : OrderItem → Target → StockRow → Inventory → Result Inventory)
    → ((item : OrderItem) (t : Target) (r : StockRow) (s s' : Inventory)
        → s.rows t ≡ some r
        → body item t r s ≡ ok s'
        → SameOpening s s')
    → (items : List OrderItem) (s s' : Inventory)
    → for_each (λ item. on_line (body item) item) items s ≡ ok s'
    → SameOpening s s'
for_each-SameOpening body keep items s s' h =
    for_each_inv _ (SameOpening s)
      (λ item s1 s2 step same. SameOpening-trans s s1 s2 same (line item s1 s2 step)) items s s' h
      (λ t. refl)
  where
    line :
        (item : OrderItem) (s1 s2 : Inventory)
        → on_line (body item) item s1 ≡ ok s2
        → SameOpening s1 s2
    line item s1 s2 step = elim (Option-cases (item_target item)) [
      | inl gone ↦ ground arith
      | inr (u, at) ↦ elim (Option-cases (s1.rows u)) [
        | inl missing ↦ cc
        | inr (r, found) ↦ keep item u r s1 s2 found (ground arith)
      ]
    ]

reserve_row-SameOpening :
    (order n : ℕ) (t : Target) (r : StockRow) (s s' : Inventory)
    → s.rows t ≡ some r
    → reserve_row order n t r s ≡ ok s'
    → SameOpening s s'
unfolding reserve_row
reserve_row-SameOpening order n t r s s' found h = elim (Bool-cases (ltb (available_to_sell r) n)) [
  | inl short ↦ absurd (ground arith)
  | inr enough ↦
      subst (SameOpening s) (ok-injective (rw enough at h))
        (record_row-SameOpening t r _ _ s found refl (omega int_laws) (omega int_laws))
]

release_row-SameOpening :
    (order n : ℕ) (t : Target) (r : StockRow) (s s' : Inventory)
    → s.rows t ≡ some r
    → release_row order n t r s ≡ ok s'
    → SameOpening s s'
unfolding release_row
release_row-SameOpening order n t r s s' found h =
    subst (SameOpening s) (ok-injective h)
      (record_row-SameOpening t r _ _ s found refl (omega int_laws) (omega int_laws))

sold_stock_lem :
    (n : ℕ) (r : StockRow) → pos (sold_stock n r).0 ≡ pos r.stock_count +ℤ (sold_stock n r).1
unfolding sold_stock
sold_stock_lem n r = elim (Bool-cases (ltb r.stock_count n)) [
  | inl oversold ↦ rw oversold (omega int_laws)
  | inr enough ↦ rw enough (omega (int_laws, ltb→le r.stock_count n enough))
]

convert_row-SameOpening :
    (order n : ℕ) (t : Target) (r : StockRow) (s s' : Inventory)
    → s.rows t ≡ some r
    → convert_row order n t r s ≡ ok s'
    → SameOpening s s'
unfolding convert_row
convert_row-SameOpening order n t r s s' found h =
    subst (SameOpening s) (ok-injective h)
      (record_row-SameOpening t r _ _ s found refl (sold_stock_lem n r) (omega int_laws))

restore_row-SameOpening :
    (order n : ℕ) (t : Target) (r : StockRow) (s s' : Inventory)
    → s.rows t ≡ some r
    → restore_row order n t r s ≡ ok s'
    → SameOpening s s'
unfolding restore_row
restore_row-SameOpening order n t r s s' found h =
    subst (SameOpening s) (ok-injective h)
      (record_row-SameOpening t r _ _ s found refl (omega int_laws) (omega int_laws))

restock_row-SameOpening :
    (kind : MovementType) (n : ℕ) (by po ret : Option ℕ) (t : Target) (r : StockRow) (s : Inventory)
    → s.rows t ≡ some r
    → SameOpening s (restock_row kind n by po ret t r s)
unfolding restock_row
restock_row-SameOpening kind n by po ret t r s found =
    record_row-SameOpening t r _ _ s found refl (omega int_laws) (omega int_laws)

adjust_row-SameOpening :
    (delta : ℤ) (by : Option ℕ) (t : Target) (r : StockRow) (s : Inventory)
    → s.rows t ≡ some r
    → SameOpening s (adjust_row delta by t r s)
unfolding adjust_row
adjust_row-SameOpening delta by t r s found =
    record_row-SameOpening t r _ _ s found refl (omega int_laws) (omega int_laws)

-- One call of a function of inventory/services.py that goes through.
pub data StockStep (s s' : Inventory) : Type 0 where
  reserve : (o : ℕ) (items : List OrderItem) → reserve_stock o items s ≡ ok s' → StockStep s s'
  release :
      (o : ℕ) (items : List OrderItem) → release_reservation o items s ≡ ok s' → StockStep s s'
  convert :
      (o : ℕ) (items : List OrderItem)
      → convert_reservation_to_sale o items s ≡ ok s'
      → StockStep s s'
  restore :
      (o : ℕ) (items : List OrderItem)
      → restore_stock_for_cancellation o items s ≡ ok s'
      → StockStep s s'
  restock :
      (p : ℕ) (v : Option ℕ) (n : ℤ) (by po : Option ℕ)
      → record_restock p v n by po s ≡ ok s'
      → StockStep s s'
  return_stock :
      (p : ℕ) (v : Option ℕ) (n : ℤ) (ret : ℕ) (by : Option ℕ)
      → restock_from_return p v n ret by s ≡ ok s'
      → StockStep s s'
  adjust :
      (p : ℕ) (v : Option ℕ) (delta : ℤ) (by : Option ℕ)
      → record_adjustment p v delta by s ≡ ok s'
      → StockStep s s'

pub data StockReach (s : Inventory) : Inventory → Type 0 where
  here : StockReach s s
  next : {t u : Inventory} → StockReach s t → StockStep t u → StockReach s u

StockStep-SameOpening : (s s' : Inventory) → StockStep s s' → SameOpening s s'
unfolding reserve_stock release_reservation convert_reservation_to_sale
    restore_stock_for_cancellation reserve_line release_line convert_line restore_line
    record_restock restock_from_return record_adjustment
StockStep-SameOpening s s' (reserve o items h) =
    for_each-SameOpening (λ i. reserve_row o i.quantity) (λ i. reserve_row-SameOpening o i.quantity)
      items s s' h
StockStep-SameOpening s s' (release o items h) =
    for_each-SameOpening (λ i. release_row o i.quantity) (λ i. release_row-SameOpening o i.quantity)
      items s s' h
StockStep-SameOpening s s' (convert o items h) =
    for_each-SameOpening (λ i. convert_row o i.quantity) (λ i. convert_row-SameOpening o i.quantity)
      items s s' h
StockStep-SameOpening s s' (restore o items h) =
    for_each-SameOpening (λ i. restore_row o i.quantity) (λ i. restore_row-SameOpening o i.quantity)
      items s s' h
StockStep-SameOpening s s' (restock p v n by po h) =
    elim (Option-cases (s.rows (chosen_target p v))) [
      | inl missing ↦ absurd (ground arith)
      | inr (r, found) ↦
          subst (SameOpening s) (ground arith) (
            restock_row-SameOpening restocked (pos_part n) by po none (chosen_target p v) r s found)
    ]
StockStep-SameOpening s s' (return_stock p v n ret by h) =
    elim (Option-cases (s.rows (chosen_target p v))) [
      | inl missing ↦ absurd (ground arith)
      | inr (r, found) ↦ subst (SameOpening s) (ground arith) (
          restock_row-SameOpening returned (pos_part n) by none (some ret) (chosen_target p v) r s
            found)
    ]
StockStep-SameOpening s s' (adjust p v delta by h) =
    elim (Option-cases (s.rows (chosen_target p v))) [
      | inl missing ↦ absurd (ground arith)
      | inr (r, found) ↦
          subst (SameOpening s) (ground arith)
            (adjust_row-SameOpening delta by (chosen_target p v) r s found)
    ]

-- However the functions of the module are called, each counter of each row stays ahead of the sum of
-- its ledger by the same amount: the ledger accounts for every change of every counter.
pub ledger_balances :
    (s s' : Inventory) → StockReach s s' → (t : Target) → opening s' t ≡ opening s t
ledger_balances s s' here t = refl
ledger_balances s s' (next {t = m} r step) t =
    StockStep-SameOpening m s' step t ∙ ledger_balances s m r t
