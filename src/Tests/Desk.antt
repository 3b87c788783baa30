-- ===== src/Tests/Desk.antt =====
-- Posts on returns: a buyer asks, staff approve and receive.
use shop_orbit.Base.{
  ℕ, ◌≡◌, ◌+◌, refl, true, false, Bool, ok, some, none, [], ◌∷◌, map, pos, Option, ℤ,
}
use shop_orbit.Cart.Models.{OrderItem, OrderStatus}
use shop_orbit.Inventory.Models.{Target}
use shop_orbit.Inventory.Services.{restock_from_return}
use shop_orbit.Inventory.Services.Restock.{stock_units}
use shop_orbit.Returns.Desk.{receive_return_view, done, not_approved, approve_action}
use shop_orbit.Returns.Desk.Course.{HasKeys, ReturnCourse, standing, approving, asking}
use shop_orbit.Returns.Desk.Received.{units_back, marked, receive_return_view-once}
use shop_orbit.Returns.Desk.Runs.{start, then_post, ask, approve, DeskRun-ReturnCourse}
use shop_orbit.Returns.Models.{ReturnRequest, ReturnLine, approved, same_return_status}
use shop_orbit.Returns.Services.{
  return_at, as_received, mark_return_received, receive_line, receive_lines,
}
use shop_orbit.Returns.Views.{request_return_view}
use shop_orbit.Shop.{Shop}
use shop_orbit.Tests.Samples.{line, shop_in}

abbrev bought : Shop
bought = shop_in OrderStatus.delivered 0

abbrev all_back : OrderItem → Option ℤ
all_back i = some (pos 2)

abbrev asked : Shop
asked = (request_return_view 7 200 5 1 all_back bought).1

abbrev agreed : Shop
agreed = (approve_action 300 9 (20 ∷ []) asked).1

DeskRun-ReturnCourse_example :
    HasKeys agreed
    × ((id : ℕ)
        → ReturnCourse (standing id bought) (approving ∷ asking 5 ∷ []) (standing id agreed))
DeskRun-ReturnCourse_example =
    DeskRun-ReturnCourse bought agreed tt
      (then_post (then_post start (ask 7 200 5 1 all_back)) (approve 300 9 (20 ∷ [])))

-- one of two lamps comes back
abbrev parcel_line : ReturnLine
parcel_line = record { id = 11; order_item = line; quantity = 1; restocked = false }

abbrev due_back : ReturnRequest
due_back = record {
  id = 12;
  order = 1;
  user = 5;
  status = approved;
  reviewed_by = some 9;
  reviewed_at = some 300;
  received_at = none;
  lines = parcel_line ∷ [];
  return_shipment = none;
}

abbrev awaited : Shop
awaited = record bought { returns = due_back ∷ [] }

abbrev every_box : ℕ → Bool
every_box id = true

abbrev unpacked : Shop
unpacked = (receive_return_view 400 9 12 every_box awaited).1

unpacks : receive_return_view 400 9 12 every_box awaited ≡ (ok done, unpacked)
unfolding receive_return_view mark_return_received receive_lines receive_line restock_from_return
unpacks = refl

receive_return_view-once_example :
    (r : ReturnRequest) × (return_at 12 awaited ≡ some r)
    × (return_at 12 unpacked ≡ some (as_received 400 (map (marked every_box) r.lines) r))
    × (same_return_status r.status approved ≡ true)
    × ((t : Target)
        → stock_units t unpacked.inventory
          ≡ stock_units t awaited.inventory + units_back every_box t r.lines)
    × (receive_return_view 400 9 12 every_box unpacked ≡ (ok not_approved, unpacked))
receive_return_view-once_example =
    receive_return_view-once 400 9 12 every_box awaited unpacked unpacks
