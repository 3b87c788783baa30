-- ===== src/Fulfillment/Models.antt =====
-- The records of fulfillment/models.py. The PDF files are left out: `pdf.py` draws them.
use Prim.Native.String.{String}
use shop_orbit.Base.{ℕ, Bool, Option, ◌==◌, ltb, ℤ}

-- `Shipment.Status`
pub data ShipmentStatus : Type 0 where
  pending picked_up in_transit out_for_delivery delivered ndr returned cancelled : ShipmentStatus

abbrev pub shipment_code : ShipmentStatus → ℕ
shipment_code pending = 0
shipment_code picked_up = 1
shipment_code in_transit = 2
shipment_code out_for_delivery = 3
shipment_code delivered = 4
shipment_code ndr = 5
shipment_code returned = 6
shipment_code cancelled = 7

-- `a == b` on shipment statuses
abbrev pub same_shipment_status : ShipmentStatus → ShipmentStatus → Bool
same_shipment_status a b = shipment_code a == shipment_code b

-- `Shipment.Carrier`
pub data Carrier : Type 0 where
  delhivery bluedart dtdc india_post ekart self_shipped other : Carrier

-- `Shipment`: one to an order, so the order's key is its key. A blank tracking number is `none`.
pub record Shipment : Type 0 where
  pub order : ℕ
  pub carrier : Carrier
  pub tracking_number : Option String
  pub status : ShipmentStatus
  pub shipped_at : Option ℕ
  pub delivered_at : Option ℕ

-- `ShipmentStatusHistory`
pub record ShipmentChange : Type 0 where
  pub shipment : ℕ
  pub previous_status : ShipmentStatus
  pub new_status : ShipmentStatus
  pub changed_by : Option ℕ

-- `Invoice`: the number is the financial year and the sequence number within it.
pub record Invoice : Type 0 where
  pub order : ℕ
  pub financial_year : ℕ
  pub number : ℕ
  pub taxable_amount : ℕ
  pub cgst_amount : ℕ
  pub sgst_amount : ℕ
  pub igst_amount : ℕ
  pub total_tax : ℕ
  pub total_amount : ℤ
  pub buyer_state : String
  pub seller_state : String

-- `Invoice.is_interstate`
abbrev pub is_interstate : Invoice → Bool
is_interstate i = ltb 0 i.igst_amount
