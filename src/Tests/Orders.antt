-- ===== src/Tests/Orders.antt =====
-- The theorems on orders, run on an order for two of ten units.
use shop_orbit.Base.{◌≡◌, refl, ◌*◌, ◌-◌, true, false, [], ◌∷◌, ok, some, none, All, ◌&&◌, select}
use shop_orbit.Cart.Models.{Order, awaiting_payment, payment_failed, payment_confirmed, same_status}
use shop_orbit.Cart.Checkout.{Form, place_order, new_order, order_items, order_item}
use shop_orbit.Cart.Services.{cancel_order, give_back_stock, release_expired_reservations, is_older}
use shop_orbit.Cart.Services.Cancel.{Cancelled, cancel_order-Cancelled}
use shop_orbit.Cart.Services.Reservations.{held_units, reserved_units, cancel_order_failed}
use shop_orbit.Cart.Services.Sweeps.{not_awaiting, release_expired_reservations-done}
use shop_orbit.Inventory.Models.{Target, record_row, item_target}
use shop_orbit.Inventory.Services.{reserve_stock, release_reservation}
use shop_orbit.Inventory.Services.Effects.{demand}
use shop_orbit.Shop.{Shop, save_status}
use shop_orbit.Tests.Samples.{line, order_in, shop_in, result_of}

-- a buyer cancels the order that awaits payment, of whose row seven units are held
abbrev waiting : Shop
waiting = shop_in awaiting_payment 7

abbrev cancelled_waiting : Shop
unfolding cancel_order give_back_stock release_reservation save_status record_row item_target
cancelled_waiting = result_of waiting (cancel_order (order_in awaiting_payment) (some 5) waiting)

cancels_waiting : cancel_order (order_in awaiting_payment) (some 5) waiting ≡ ok cancelled_waiting
unfolding cancel_order give_back_stock release_reservation save_status record_row item_target
cancels_waiting = refl

cancel_order-Cancelled_example :
    Cancelled (order_in awaiting_payment) (some 5) waiting cancelled_waiting
cancel_order-Cancelled_example =
    cancel_order-Cancelled (order_in awaiting_payment) (order_in awaiting_payment) (some 5) waiting
      cancelled_waiting refl refl cancels_waiting

abbrev unpaid : Shop
unpaid = shop_in payment_failed 7

abbrev cancelled_unpaid : Shop
unfolding cancel_order give_back_stock release_reservation save_status record_row item_target
cancelled_unpaid = result_of unpaid (cancel_order (order_in payment_failed) (some 5) unpaid)

cancels_unpaid : cancel_order (order_in payment_failed) (some 5) unpaid ≡ ok cancelled_unpaid
unfolding cancel_order give_back_stock release_reservation save_status record_row item_target
cancels_unpaid = refl

cancel_order_failed_example :
    (held_units (Target.product 1) (order_in payment_failed) ≡ 0)
    × (reserved_units (Target.product 1) cancelled_unpaid.inventory
        ≡ reserved_units (Target.product 1) unpaid.inventory
          - demand (Target.product 1) (line ∷ []))
cancel_order_failed_example =
    cancel_order_failed (order_in payment_failed) (order_in payment_failed) (some 5) unpaid
      cancelled_unpaid (Target.product 1) refl refl refl cancels_unpaid

abbrev paid : Shop
paid = shop_in payment_confirmed 0

-- the order was placed at 0, and the sweep runs an hour later
release_expired_reservations-done_example :
    All
      (λ (o : Order).
        not_awaiting o.id
          (release_expired_reservations 3600 30 (order_in awaiting_payment ∷ []) waiting).0
        ≡ true)
      (select
        (λ o. same_status o.status awaiting_payment && is_older 3600 (30 * 60) o)
        (order_in awaiting_payment ∷ []))
unfolding release_expired_reservations release_reservation item_target save_status
release_expired_reservations-done_example =
    release_expired_reservations-done 3600 30 (order_in awaiting_payment ∷ []) waiting refl

abbrev form : Form
form = record {
  state = "KA";
  postal_code = "560001";
  code = "";
  coupon = none;
  has_saved_address = true;
  save_address = false;
}

abbrev placed : Shop
unfolding place_order new_order order_items order_item reserve_stock record_row item_target
placed = result_of paid (place_order 200 5 form paid)
