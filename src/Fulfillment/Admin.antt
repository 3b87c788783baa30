-- ===== src/Fulfillment/Admin.antt =====
-- fulfillment/admin.py: the bulk actions on shipments, and the list of pincodes that are blocked at once.
pub mod Blocked
pub mod Marked
use Prim.Native.String.{String}
use text.Mathlib.Text.{◌==◌ as str_eq}
use shop_orbit.Base.{
  ℕ, ◌+◌, Bool, true, false, Option, none, some, List, [], ◌∷◌, Result, ok, err, Error, api_error,
  any_of, not, if◌then◌else◌,
}
use shop_orbit.Fulfillment.Models.{Shipment, picked_up, delivered}
use shop_orbit.Fulfillment.Services.{
  Env, Pincode, or_now, assign_delhivery_waybill, sync_shipment_tracking,
}
use shop_orbit.Shop.{Shop, save_shipment}
use shop_orbit.Shop.Action.{Action}
use shop_orbit.Staff.Bulk.{Tally, bulk}

abbrev pub nothing_yet : Tally
nothing_yet = record { done = 0; failed = 0 }

abbrev pub caught_by_none : Error → Bool
caught_by_none e = false

-- `DelhiveryAPIError`
abbrev pub is_api_error : Error → Bool
is_api_error api_error = true
is_api_error _ = false

-- the shipment as `mark_picked_up` saves it
abbrev pub as_picked_up : ℕ → Shipment → Shipment
as_picked_up now sh = record sh { status = picked_up; shipped_at = or_now sh.shipped_at now }

-- the shipment as `mark_delivered` saves it
abbrev pub as_delivered : ℕ → Shipment → Shipment
as_delivered now sh = record sh { status = delivered; delivered_at = some now }

-- `ShipmentAdmin.mark_picked_up`
unfoldable pub mark_picked_up : ℕ → ℕ → List Shipment → Action Tally
mark_picked_up now staff shipments =
    bulk caught_by_none (λ sh. save_shipment (as_picked_up now sh) (some staff)) shipments
      nothing_yet

-- `ShipmentAdmin.mark_delivered`
unfoldable pub mark_delivered : ℕ → ℕ → List Shipment → Action Tally
mark_delivered now staff shipments =
    bulk caught_by_none (λ sh. save_shipment (as_delivered now sh) (some staff)) shipments
      nothing_yet

-- `ShipmentAdmin.assign_delhivery_waybill_action`; `ask` is what the courier answers for a shipment
unfoldable pub assign_delhivery_waybill_action :
    (Shipment → Result String) → ℕ → List Shipment → Action Tally
assign_delhivery_waybill_action ask staff shipments =
    bulk is_api_error (λ sh. assign_delhivery_waybill (ask sh) sh (some staff)) shipments
      nothing_yet

-- a round of `sync_delhivery_tracking_action`: only a shipment that moved is counted as updated
abbrev synced : Result (Shop × Bool) → (Tally → Action Tally) → Tally → Action Tally
synced (ok (s', true)) rest t s = rest (record t { done = t.done + 1 }) s'
synced (ok (s', false)) rest t s = rest t s'
synced (err e) rest t s =
    if is_api_error e then rest (record t { failed = t.failed + 1 }) s else (err e, s)

-- `ShipmentAdmin.sync_delhivery_tracking_action`
unfoldable pub sync_delhivery_tracking_action :
    (Shipment → Result (Option String)) → Env → ℕ → List Shipment → Tally → Action Tally
sync_delhivery_tracking_action respond env staff [] t s = (ok t, s)
sync_delhivery_tracking_action respond env staff (sh ∷ shipments) t s =
    synced (sync_shipment_tracking env (respond sh) sh (some staff) s)
      (sync_delhivery_tracking_action respond env staff shipments) t s

abbrev pub has_code : String → List Pincode → Bool
has_code code = any_of (λ (p : Pincode). str_eq p.postal_code code)

-- the rows of the code, blocked with the note
abbrev pub set_blocked : String → String → List Pincode → List Pincode
set_blocked note code [] = []
set_blocked note code (p ∷ rows) =
    (if str_eq p.postal_code code then record p { is_serviceable = false; note = note } else p)
    ∷ set_blocked note code rows

-- `PincodeServiceability.objects.update_or_create(...)`
abbrev pub block_code : String → String → List Pincode → List Pincode
block_code note code rows =
    if has_code code rows
    then set_blocked note code rows
    else record { postal_code = code; is_serviceable = false; note = note } ∷ rows

-- `{code.strip() for code in ... if code.strip()}`: each stripped code that is not blank, once
abbrev pub distinct_codes : (String → String) → List String → List String
distinct_codes strip [] = []
distinct_codes strip (c ∷ codes) =
    let rest = distinct_codes strip codes in
    if str_eq (strip c) ""
    then rest
    else if any_of (λ d. str_eq d (strip c)) rest
    then rest
    else strip c ∷ rest

-- The loop of `bulk_block_view`, with its count of new rows
unfoldable pub block_each : String → List String → List Pincode → List Pincode × ℕ
block_each note [] rows = (rows, 0)
block_each note (c ∷ codes) rows =
    let rest = block_each note codes (block_code note c rows) in
    (rest.0, rest.1 + (if has_code c rows then 0 else 1))

-- `PincodeServiceabilityAdmin.bulk_block_view` on a POST: `none` where the user may not add rows. `lines` are
-- the pieces of the text between commas and line ends.
unfoldable pub bulk_block_view :
    (String → String) → Bool → List String → String → List Pincode → Option ℕ × List Pincode
unfolding block_each
bulk_block_view strip allowed lines note rows = if not allowed then (none, rows) else (
  some (block_each (strip note) (distinct_codes strip lines) rows).1,
  (block_each (strip note) (distinct_codes strip lines) rows).0,
)
