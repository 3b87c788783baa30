-- ===== src/Returns/Models.antt =====
-- The records of returns/models.py, without their free text.
use Prim.Native.String.{String}
use shop_orbit.Base.{ℕ, ◌*◌, Bool, true, false, Option, List, ◌==◌, sum_by}
use shop_orbit.Cart.Models.{OrderItem}
use shop_orbit.Fulfillment.Models.{Carrier}

-- `ReturnRequest.Status`
pub data ReturnStatus : Type 0 where
  requested approved rejected received refund_initiated refunded cancelled : ReturnStatus

abbrev pub return_code : ReturnStatus → ℕ
return_code requested = 0
return_code approved = 1
return_code rejected = 2
return_code received = 3
return_code refund_initiated = 4
return_code refunded = 5
return_code cancelled = 6

-- `a == b` on return statuses
abbrev pub same_return_status : ReturnStatus → ReturnStatus → Bool
same_return_status a b = return_code a == return_code b

-- `ReturnRequest.CANCELLABLE_STATUSES`
abbrev pub is_cancellable : ReturnStatus → Bool
is_cancellable requested = true
is_cancellable _ = false

-- The requests that `_already_returned_quantity` leaves out
abbrev pub is_void : ReturnStatus → Bool
is_void rejected = true
is_void cancelled = true
is_void _ = false

-- `ReturnRequestLine`
pub record ReturnLine : Type 0 where
  pub id : ℕ
  pub order_item : OrderItem
  pub quantity : ℕ
  pub restocked : Bool

-- `ReturnShipment.Status`
pub data ParcelStatus : Type 0 where
  awaiting_dispatch shipped in_transit delivered lost : ParcelStatus

-- `ReturnShipment`
pub record ReturnShipment : Type 0 where
  pub carrier : Carrier
  pub tracking_number : String
  pub tracking_url : String
  pub status : ParcelStatus
  pub shipped_at : Option ℕ
  pub delivered_at : Option ℕ

-- `ReturnRequest`, with its lines and its return shipment
pub record ReturnRequest : Type 0 where
  pub id : ℕ
  pub order : ℕ
  pub user : ℕ
  pub status : ReturnStatus
  pub reviewed_by : Option ℕ
  pub reviewed_at : Option ℕ
  pub received_at : Option ℕ
  pub lines : List ReturnLine
  pub return_shipment : Option ReturnShipment

-- `ReturnRequest.suggested_refund_amount`
unfoldable pub suggested_refund_amount : ReturnRequest → ℕ
suggested_refund_amount r =
    sum_by (λ (l : ReturnLine). l.order_item.unit_price * l.quantity) r.lines
