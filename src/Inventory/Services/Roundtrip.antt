-- ===== src/Inventory/Services/Roundtrip.antt =====
-- What a reservation followed by its release, its sale, or its sale and cancellation leaves behind.
use shop_orbit.Base.{
  ℕ, ◌-◌, ◌≡◌, ◌≢◌, ◌≤◌, refl, List, [], ◌∷◌, arith, inl, inr, ok, err, Error, Result, Result-cases,
  Option-cases, for_each, true,
}
use shop_orbit.Cart.Models.{OrderItem}
use shop_orbit.Inventory.Models.{Target, StockRow, Inventory, item_target}
use shop_orbit.Inventory.Services.{
  on_line, release_row, convert_row, restore_row, release_line, convert_line, restore_line,
  reserve_stock, release_reservation, convert_reservation_to_sale, restore_stock_for_cancellation,
}
use shop_orbit.Inventory.Services.Effects.{
  line_demand, demand, hold, free, sell, give_back, Changes, release_line-Changes,
  convert_line-Changes, restore_line-Changes, reserve_stock-Changes, release_reservation-Changes,
  convert_reservation_to_sale-Changes, restore_stock_for_cancellation-Changes,
}
use shop_orbit.Inventory.Services.Availability.{
  available, has_row, HasRows, HasRows-Changes, reserve_stock_iff,
}

-- A sale, as it shows in the counters once the reservation is gone.
abbrev pub take_off : ℕ → StockRow → StockRow
take_off n r = record r { stock_count = r.stock_count - n }

-- A loop whose body never raises goes through where every line's row is there.
module _ (change : ℕ → StockRow → StockRow)
    (body : OrderItem → Target → StockRow → Inventory → Result Inventory)
    (body-ok : (item : OrderItem) (t : Target) (r : StockRow) (s : Inventory) (e : Error)
      → body item t r s ≢ err e)
    (line-Changes : (item : OrderItem) (s s' : Inventory)
      → on_line (body item) item s ≡ ok s'
      → Changes change (λ t. line_demand t item) s s') where
  line-ne-err :
      (item : OrderItem) (s : Inventory) (e : Error)
      → has_row s item ≡ true
      → on_line (body item) item s ≢ err e
  line-ne-err item s e there h = elim (Option-cases (item_target item)) [
    | inl gone ↦ ground arith
    | inr (u, at) ↦ elim (Option-cases (s.rows u)) [
      | inl missing ↦ ground arith
      | inr (r, found) ↦ ground (arith, body-ok item u r s e)
    ]
  ]

  loop_total :
      (items : List OrderItem) (s : Inventory)
      → HasRows s items
      → (s' : Inventory) × (for_each (λ item. on_line (body item) item) items s ≡ ok s')
  loop_total [] s there = (s, refl)
  loop_total (item ∷ items) s there = elim (Result-cases (on_line (body item) item s)) [
    | inr (e, failed) ↦ absurd (line-ne-err item s e there.0 failed)
    | inl (s1, first) ↦ rw first (
        loop_total items s1 (
          HasRows-Changes change (λ t. line_demand t item) s s1 items (line-Changes item s s1 first)
            there.1))
  ]

module _ (order : ℕ) (items : List OrderItem) (s : Inventory) (there : HasRows s items) where
  pub release_total : (s' : Inventory) × (release_reservation order items s ≡ ok s')
  unfolding release_reservation release_line release_row
  release_total =
      loop_total free (λ item. release_row order item.quantity) (λ item t r s e h. ground arith)
        (release_line-Changes order) items s there

  pub convert_total : (s' : Inventory) × (convert_reservation_to_sale order items s ≡ ok s')
  unfolding convert_reservation_to_sale convert_line convert_row
  convert_total =
      loop_total sell (λ item. convert_row order item.quantity) (λ item t r s e h. ground arith)
        (convert_line-Changes order) items s there

  pub restore_total : (s' : Inventory) × (restore_stock_for_cancellation order items s ≡ ok s')
  unfolding restore_stock_for_cancellation restore_line restore_row
  restore_total =
      loop_total give_back (λ item. restore_row order item.quantity)
        (λ item t r s e h. ground arith) (restore_line-Changes order) items s there

module _ (asked : Target → ℕ) (s s1 s2 s3 : Inventory) (held : Changes hold asked s s1) where
  free-hold : Changes free asked s1 s2 → (t : Target) → s2.rows t ≡ s.rows t
  free-hold freed t = elim (Option-cases (s.rows t)) [
    | inl missing ↦ ground (arith, held t, freed t)
    | inr (r, found) ↦ ground (arith, held t, freed t)
  ]

  sell-hold : Changes sell asked s1 s2 → Changes take_off asked s s2
  sell-hold sold t = elim (Option-cases (s.rows t)) [
    | inl missing ↦ ground (arith, held t, sold t)
    | inr (r, found) ↦ ground (arith, held t, sold t)
  ]

  give_back-sell-hold :
      ((t : Target) → asked t ≤ available t s)
      → Changes sell asked s1 s2
      → Changes give_back asked s2 s3
      → (t : Target) → s3.rows t ≡ s.rows t
  give_back-sell-hold covered sold back t = elim (Option-cases (s.rows t)) [
    | inl missing ↦ ground (arith, sell-hold sold t, back t)
    | inr (r, found) ↦ ground (arith, sell-hold sold t, back t, covered t)
  ]

module _ (order : ℕ) (items : List OrderItem) (s s1 : Inventory) (there : HasRows s items)
    (reserved : reserve_stock order items s ≡ ok s1) where
  held : Changes hold (λ t. demand t items) s s1
  held = reserve_stock-Changes order items s s1 reserved

  still_there : HasRows s1 items
  still_there = HasRows-Changes hold (λ t. demand t items) s s1 items held there

  -- Releasing a reservation that has just been made goes through, and puts every row of both stock
  -- tables back as it was.
  release-reserve :
      (s2 : Inventory) × (release_reservation order items s1 ≡ ok s2)
      × ((t : Target) → s2.rows t ≡ s.rows t)
  release-reserve =
      let (s2, freed) = release_total order items s1 still_there in
      (
        s2,
        freed,
        free-hold (λ t. demand t items) s s1 s2 s2 held
            (release_reservation-Changes order items s1 s2 freed),
      )

  -- Selling a reservation that has just been made goes through: each row ends with the units that the
  -- order asks for taken off `stock_count`, and with the `reserved_count` that it had before.
  convert-reserve :
      (s2 : Inventory) × (convert_reservation_to_sale order items s1 ≡ ok s2)
      × Changes take_off (λ t. demand t items) s s2
  convert-reserve =
      let (s2, sold) = convert_total order items s1 still_there in
      (
        s2,
        sold,
        sell-hold (λ t. demand t items) s s1 s2 s2 held
            (convert_reservation_to_sale-Changes order items s1 s2 sold),
      )

  -- An order that is reserved, sold and then cancelled goes through all three, and leaves every row of
  -- both stock tables as it was before the reservation.
  pub restore-convert-reserve :
      (s2 s3 : Inventory) × (convert_reservation_to_sale order items s1 ≡ ok s2)
      × (restore_stock_for_cancellation order items s2 ≡ ok s3)
      × ((t : Target) → s3.rows t ≡ s.rows t)
  restore-convert-reserve =
      let (s2, sold, _) = convert-reserve in
      let sale = convert_reservation_to_sale-Changes order items s1 s2 sold in
      let (s3, back) =
        restore_total order items s2
          (HasRows-Changes sell (λ t. demand t items) s1 s2 items sale still_there) in
      (
        s2,
        s3,
        sold,
        back,
        give_back-sell-hold (λ t. demand t items) s s1 s2 s3 held
            ((reserve_stock_iff order items s there).0 (s1, reserved)) sale
            (restore_stock_for_cancellation-Changes order items s2 s3 back),
      )
