-- ===== src/Tests/Stock.antt =====
-- The theorems on the stock, run on an order for two of ten units.
use shop_orbit.Base.{◌≡◌, refl, ◌≤◌, ◌↔◌, arith, List, [], ◌∷◌, ok}
use shop_orbit.Cart.Models.{OrderItem}
use shop_orbit.Inventory.Models.{Target, Inventory, record_row, item_target}
use shop_orbit.Inventory.Services.{
  reserve_stock, convert_reservation_to_sale, restore_stock_for_cancellation,
}
use shop_orbit.Inventory.Services.Availability.{available, reserve_stock_iff}
use shop_orbit.Inventory.Services.Effects.{demand}
use shop_orbit.Inventory.Services.Ledger.{StockStep, reserve, here, next, opening, ledger_balances}
use shop_orbit.Inventory.Services.Oversell.{IsCovered, StockStep-IsCovered}
use shop_orbit.Inventory.Services.Roundtrip.{restore-convert-reserve}
use shop_orbit.Tests.Samples.{line, stock_with, result_of}

abbrev items : List OrderItem
items = line ∷ []

abbrev held : Inventory
unfolding reserve_stock record_row item_target
held = result_of (stock_with 0) (reserve_stock 1 items (stock_with 0))

reserves : reserve_stock 1 items (stock_with 0) ≡ ok held
unfolding reserve_stock record_row item_target
reserves = refl

abbrev covered_step : StockStep (stock_with 0) held
covered_step = reserve 1 items reserves

stock_with-IsCovered : IsCovered (stock_with 0)
stock_with-IsCovered t r at = ground arith

reserve_stock_iff_example :
    ((s' : Inventory) × (reserve_stock 1 items (stock_with 0) ≡ ok s'))
    ↔ ((t : Target) → demand t items ≤ available t (stock_with 0))
unfolding item_target
reserve_stock_iff_example = reserve_stock_iff 1 items (stock_with 0) (refl, tt)

StockStep-IsCovered_example : IsCovered held
StockStep-IsCovered_example =
    StockStep-IsCovered (stock_with 0) held covered_step tt stock_with-IsCovered

restore-convert-reserve_example :
    (s2 s3 : Inventory) × (convert_reservation_to_sale 1 items held ≡ ok s2)
    × (restore_stock_for_cancellation 1 items s2 ≡ ok s3)
    × ((t : Target) → s3.rows t ≡ (stock_with 0).rows t)
unfolding item_target
restore-convert-reserve_example =
    restore-convert-reserve 1 items (stock_with 0) held (refl, tt) reserves

ledger_balances_example :
    opening held (Target.product 1) ≡ opening (stock_with 0) (Target.product 1)
ledger_balances_example =
    ledger_balances (stock_with 0) held (next here covered_step) (Target.product 1)
