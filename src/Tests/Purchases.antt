-- ===== src/Tests/Purchases.antt =====
-- The theorems on purchase orders, run on one order for ten units of which six come in.
use shop_orbit.Base.{
  ◌+◌, ◌≡◌, refl, arith, List, [], ◌∷◌, Option, none, some, ok, pos, ◌-ℤ◌, ◌==◌, if◌then◌else◌, ℤ,
}
use shop_orbit.Inventory.Models.{Target, record_row}
use shop_orbit.Inventory.Purchasing.{
  PurchaseOrder, PurchaseOrderLine, Purchases, ordered, receive_purchase_order_line,
}
use shop_orbit.Inventory.Purchasing.Effects.{receive-stock}
use shop_orbit.Inventory.Purchasing.Invariant.{PurchaseStep-IsOrderly}
use shop_orbit.Inventory.Purchasing.Lines.{received_units}
use shop_orbit.Inventory.Purchasing.Orderly.{IsOrderly, receive}
use shop_orbit.Inventory.Services.{record_restock}
use shop_orbit.Inventory.Services.Restock.{stock_units}
use shop_orbit.Tests.Samples.{stock_with, result_of}

abbrev lamps : PurchaseOrderLine
lamps = record {
  id = 4;
  purchase_order = 3;
  product = 1;
  variant = none;
  quantity_ordered = 10;
  quantity_received = 0;
  unit_cost = 500;
}

abbrev lamp_order : PurchaseOrder
lamp_order = record { id = 3; supplier = 2; po_number = 1; status = ordered; created_by = none }

abbrev sent : Purchases
sent = record {
  stock = stock_with 0;
  orders = λ k. if k == 3 then some lamp_order else none;
  lines = lamps ∷ [];
  last_number = 1;
  next_id = 5;
}

abbrev arrived : Purchases
unfolding receive_purchase_order_line record_restock record_row ◌-ℤ◌
arrived = result_of sent (receive_purchase_order_line lamps (pos 6) none sent)

arrives : receive_purchase_order_line lamps (pos 6) none sent ≡ ok arrived
unfolding receive_purchase_order_line record_restock record_row ◌-ℤ◌
arrives = refl

sent-IsOrderly : IsOrderly sent
sent-IsOrderly = record {
  within = (omega arith, tt);
  placed = (omega arith, tt);
  told = λ k po at. ground arith;
  issued = λ k po at. ground arith;
  distinct = λ j k po other at at' same. ground arith;
}

PurchaseStep-IsOrderly_example : IsOrderly arrived
PurchaseStep-IsOrderly_example =
    PurchaseStep-IsOrderly sent arrived sent-IsOrderly (receive lamps (pos 6) none refl arrives)

receive-stock_example :
    stock_units (Target.product 1) arrived.stock + received_units (Target.product 1) sent.lines
    ≡ stock_units (Target.product 1) sent.stock + received_units (Target.product 1) arrived.lines
receive-stock_example =
    receive-stock lamps (pos 6) none sent arrived (Target.product 1) refl arrives

abbrev posted : List (PurchaseOrderLine × Option ℤ)
posted = (lamps, some (pos 6)) ∷ []
