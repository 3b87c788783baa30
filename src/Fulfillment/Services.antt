-- ===== src/Fulfillment/Services.antt =====
-- fulfillment/services.py. The PDF files are not drawn here, and a response of the courier's API is an
-- argument.
pub mod Tax
use Prim.Native.String.{String}
use text.Mathlib.Text.{◌==◌ as str_eq}
use shop_orbit.Base.{
  ℕ, ◌+◌, ◌-◌, Bool, true, false, Option, none, some, List, Result, ok, ◌>>=◌, sum_by, leb, not,
  any_of, find, ◌&&◌, ◌||◌, if◌then◌else◌, round_half_even, put, ◌==◌,
}
use shop_orbit.Cart.Models.{Order, total_amount}
use shop_orbit.Cart.Pricing.{tax_amount, taxable_value}
use shop_orbit.Fulfillment.Models.{
  Invoice, Shipment, ShipmentStatus, Carrier, other, delhivery, pending, picked_up, delivered,
  same_shipment_status,
}
use shop_orbit.Fulfillment.Tracking.{map_tracking_status}
use shop_orbit.Shop.{Shop, save_shipment}

-- What a call reads from its surroundings: the time, the date, `COMPANY_STATE`, `strip()`, and
-- `strip().lower()`.
pub record Env : Type 0 where
  pub now : ℕ
  pub year : ℕ
  pub month : ℕ
  pub company_state : String
  pub strip : String → String
  pub fold : String → String

-- `_current_financial_year`, by the year it starts in
unfoldable pub current_financial_year : Env → ℕ
current_financial_year env = if leb 4 env.month then env.year else env.year - 1

-- The parts of an invoice's tax, and the test that chooses between them
pub record TaxSplit : Type 0 where
  pub cgst : ℕ
  pub sgst : ℕ
  pub igst : ℕ

unfoldable pub is_interstate_sale : Env → Order → Bool
is_interstate_sale env order =
    not (str_eq (env.fold env.company_state) "")
    && not (str_eq (env.fold order.shipping_state) (env.fold env.company_state))

unfoldable pub split_tax : Bool → ℕ → TaxSplit
split_tax true total_tax = record { cgst = 0; sgst = 0; igst = total_tax }
split_tax false total_tax =
    let half = round_half_even total_tax 2 in record { cgst = half; sgst = half; igst = 0 }

abbrev pub total_tax : Order → ℕ
total_tax order = sum_by tax_amount order.items

abbrev pub total_taxable : Order → ℕ
total_taxable order = sum_by taxable_value order.items

-- `_next_invoice_number`, as it leaves the sequences
abbrev advance_sequence : ℕ → (ℕ → ℕ) → ℕ → ℕ
advance_sequence fy numbers j = if fy == j then numbers j + 1 else numbers j

unfoldable pub new_invoice : Env → Order → Shop → Invoice
unfolding split_tax is_interstate_sale current_financial_year
new_invoice env order s =
    let split = split_tax (is_interstate_sale env order) (total_tax order) in
    record {
      order = order.id;
      financial_year = current_financial_year env;
      number = s.invoice_numbers (current_financial_year env) + 1;
      taxable_amount = total_taxable order;
      cgst_amount = split.cgst;
      sgst_amount = split.sgst;
      igst_amount = split.igst;
      total_tax = total_tax order;
      total_amount = total_amount order;
      buyer_state = env.strip order.shipping_state;
      seller_state = env.strip env.company_state;
    }

-- `generate_invoice(order)`
unfoldable pub generate_invoice : Env → Order → Shop → Shop
unfolding new_invoice
generate_invoice env order s = elim (s.invoices order.id) [
  | some existing ↦ s
  | none ↦ record s {
    invoices = put order.id (new_invoice env order s) s.invoices;
    invoice_numbers = advance_sequence (current_financial_year env) s.invoice_numbers;
  }
]

-- `generate_packing_slip(order)`
unfoldable pub generate_packing_slip : Order → Shop → Shop
generate_packing_slip order s = record s { packing_slips = λ j. order.id == j || s.packing_slips j }

-- `create_shipment(order)`: `get_or_create`
unfoldable pub create_shipment : Order → Shop → Shop
create_shipment order s = elim (s.shipments order.id) [
  | some existing ↦ s
  | none ↦ record s {
    shipments =
        put order.id
          (record {
            order = order.id;
            carrier = other;
            tracking_number = none;
            status = pending;
            shipped_at = none;
            delivered_at = none;
          })
          s.shipments;
  }
]

-- `assign_delhivery_waybill(shipment, actor=...)`; `waybill` is what the courier answered
unfoldable pub assign_delhivery_waybill : Result String → Shipment → Option ℕ → Shop → Result Shop
unfolding save_shipment
assign_delhivery_waybill waybill shipment actor s = do
  number ← waybill
  save_shipment (record shipment { carrier = delhivery; tracking_number = some number }) actor s

abbrev pub is_delhivery : Carrier → Bool
is_delhivery delhivery = true
is_delhivery _ = false

-- `x if x else now`: a time that is set once
abbrev pub or_now : Option ℕ → ℕ → Option ℕ
or_now none now = some now
or_now (some t) now = some t

-- the new status with its time stamps
restamp : ℕ → ShipmentStatus → Shipment → Shipment
restamp now new sh = record sh {
  status = new;
  shipped_at =
      if same_shipment_status new picked_up then or_now sh.shipped_at now else sh.shipped_at;
  delivered_at =
      if same_shipment_status new delivered then or_now sh.delivered_at now else sh.delivered_at;
}

-- `sync_shipment_tracking(shipment, actor=...)`; `response` is what the courier answered for its
-- tracking number
unfoldable pub sync_shipment_tracking :
    Env → Result (Option String) → Shipment → Option ℕ → Shop → Result (Shop × Bool)
unfolding save_shipment map_tracking_status restamp
sync_shipment_tracking env response sh actor s =
    if not (is_delhivery sh.carrier && elim sh.tracking_number [ none ↦ false | some w ↦ true ])
    then ok (s, false)
    else do
      raw ← response
      elim (map_tracking_status env.fold raw) [
        | none ↦ ok (s, false)
        | some new ↦
            if same_shipment_status new sh.status
            then ok (s, false)
            else do saved ← save_shipment (restamp env.now new sh) actor s; ok (saved, true)
      ]

-- `PincodeServiceability`
pub record Pincode : Type 0 where
  pub postal_code : String
  pub is_serviceable : Bool
  pub note : String

abbrev pub blocks : String → Pincode → Bool
blocks code row = str_eq row.postal_code code && not row.is_serviceable

-- `is_pincode_serviceable(postal_code)`
unfoldable pub is_pincode_serviceable : String → List Pincode → Bool
is_pincode_serviceable code rows = not (any_of (blocks code) rows)

-- `pincode_block_reason(postal_code)`
unfoldable pub pincode_block_reason : String → List Pincode → String
pincode_block_reason code rows = elim (find (blocks code) rows) [
  | none ↦ "We currently don't deliver to this pincode."
  | some row ↦
      if str_eq row.note "" then "We currently don't deliver to this pincode." else row.note
]
