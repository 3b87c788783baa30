-- ===== src/Fulfillment/Tracking.antt =====
-- fulfillment/couriers/delhivery.py: how the courier's words map to our statuses.
use Prim.Native.String.{String}
use text.Mathlib.Text.{◌==◌}
use shop_orbit.Base.{Option, none, some, if◌then◌else◌}
use shop_orbit.Fulfillment.Models.{
  ShipmentStatus, pending, picked_up, in_transit, out_for_delivery, delivered, ndr, returned,
  cancelled,
}

-- `_STATUS_MAP.get(...)` on a status that is stripped and in lower case
unfoldable pub tracking_status : String → Option ShipmentStatus
tracking_status w =
    if w == "manifested"
    then some pending
    else if w == "not picked"
    then some pending
    else if w == "picked up"
    then some picked_up
    else if w == "in transit"
    then some in_transit
    else if w == "pending"
    then some in_transit
    else if w == "dispatched"
    then some out_for_delivery
    else if w == "out for delivery"
    then some out_for_delivery
    else if w == "delivered"
    then some delivered
    else if w == "rto"
    then some returned
    else if w == "return"
    then some returned
    else if w == "cancelled"
    then some cancelled
    else if w == "canceled"
    then some cancelled
    else if w == "ndr"
    then some ndr
    else if w == "undelivered"
    then some ndr
    else none

-- `map_tracking_status`: `none` for a response without a status. `fold` is `strip().lower()`.
unfoldable pub map_tracking_status : (String → String) → Option String → Option ShipmentStatus
map_tracking_status fold none = none
map_tracking_status fold (some raw) = tracking_status (fold raw)
