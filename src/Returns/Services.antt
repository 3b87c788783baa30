-- ===== src/Returns/Services.antt =====
-- returns/services.py, but for `initiate_return_refund`, which is in Returns/Refunds.antt. A
-- `ReturnRequest` argument is the object that the caller has loaded; a save writes the fields that
-- `update_fields` names to the row with its key.
pub mod Quantities
use Prim.Native.String.{String}
use shop_orbit.Base.{
  ℕ, ◌+◌, ◌*◌, Bool, true, false, Option, none, some, List, [], ◌∷◌, Result, ok, bad_status,
  no_lines, no_delivery_date, window_passed, foreign_item, not_returnable, no_shipment, ◌>>=◌, ◌>>◌,
  raise_if, or_raise, sum_by, any_of, map, length, find, ltb, not, ◌||◌, ◌==◌, if◌then◌else◌, ℤ,
  pos, ◌-ℤ◌, leb_ℤ, ltb_ℤ, pos_part,
}
use shop_orbit.Cart.Models.{Order, OrderItem, same_status, OrderStatus}
use shop_orbit.Fulfillment.Models.{Carrier, self_shipped}
use shop_orbit.Inventory.Services.{restock_from_return}
use shop_orbit.Returns.Models.{
  ReturnRequest, ReturnLine, ReturnShipment, ParcelStatus, same_return_status, is_void,
  is_cancellable, requested, approved, rejected, received, refunded, cancelled, awaiting_dispatch,
  shipped, delivered, lost,
}
use shop_orbit.Shop.{Shop, send, on_stock, return_requested, return_approved, return_rejected}

-- The units of an order item within one request
abbrev pub units_in : ℕ → List ReturnLine → ℕ
units_in item = sum_by (λ (l : ReturnLine). if l.order_item.id == item then l.quantity else 0)

-- `_already_returned_quantity(order_item)`
unfoldable pub already_returned_quantity : ℕ → List ReturnRequest → ℕ
already_returned_quantity item =
    sum_by (λ (r : ReturnRequest). if is_void r.status then 0 else units_in item r.lines)

-- `remaining_returnable_quantity(order_item)`
unfoldable pub remaining_returnable_quantity : OrderItem → List ReturnRequest → ℤ
remaining_returnable_quantity item table =
    pos item.quantity -ℤ pos (already_returned_quantity item.id table)

-- `_return_window_end(order)`, with the window in days
abbrev pub return_window_end : ℕ → Order → Shop → Option ℕ
return_window_end days order s = elim (s.shipments order.id) [
  | none ↦ none
  | some sh ↦ elim sh.delivered_at [ none ↦ none | some t ↦ some (t + days * 86400) ]
]

-- `is_order_returnable(order)`
unfoldable pub is_order_returnable : ℕ → ℕ → Order → Shop → Bool
is_order_returnable days now order s =
    if not (same_status order.status OrderStatus.delivered)
    then false
    else elim (return_window_end days order s) [
      | none ↦ false
      | some end ↦
          if ltb end now
          then false
          else any_of (λ i. ltb_ℤ (pos 0) (remaining_returnable_quantity i s.returns)) order.items
    ]

-- One entry of `lines_data`
pub record LineData : Type 0 where
  pub order_item : OrderItem
  pub quantity : ℤ

-- The tests of `request_return` on one line
unfoldable pub check_line : Order → List ReturnRequest → LineData → Result (Unit {0})
check_line order table l = do
  raise_if (not (l.order_item.order == order.id)) foreign_item
  raise_if
      (leb_ℤ l.quantity (pos 0)
        || ltb_ℤ (remaining_returnable_quantity l.order_item table) l.quantity)
      not_returnable

unfoldable pub check_lines : Order → List ReturnRequest → List LineData → Result (Unit {0})
unfolding check_line
check_lines order table [] = ok tt
check_lines order table (l ∷ ls) = check_line order table l >> check_lines order table ls

abbrev is_empty {ℓ} : {A : Type ℓ} → List A → Bool
is_empty [] = true
is_empty (x ∷ xs) = false

-- The lines that are created for the entries, each under the next key
abbrev pub new_line : ℕ → LineData → ReturnLine
new_line id l = record {
  id = id;
  order_item = l.order_item;
  quantity = pos_part l.quantity;
  restocked = false;
}

abbrev pub new_lines : ℕ → List LineData → List ReturnLine
new_lines id [] = []
new_lines id (l ∷ lines) = new_line id l ∷ new_lines (id + 1) lines

abbrev pub new_request : ℕ → ℕ → ℕ → List LineData → ReturnRequest
new_request id order user lines = record {
  id = id;
  order = order;
  user = user;
  status = requested;
  reviewed_by = none;
  reviewed_at = none;
  received_at = none;
  lines = new_lines (id + 1) lines;
  return_shipment = none;
}

-- `request_return(order, lines_data, requested_by=...)`
unfoldable pub request_return : ℕ → ℕ → Order → List LineData → ℕ → Shop → Result Shop
unfolding check_lines
request_return days now order lines user s = do
  raise_if (not (same_status order.status OrderStatus.delivered)) bad_status
  end ← or_raise (return_window_end days order s) no_delivery_date
  raise_if (ltb end now) window_passed
  raise_if (is_empty lines) no_lines
  check_lines order s.returns lines
  ok (
      send (return_requested s.next_id) (record s {
        returns = new_request s.next_id order.id user lines ∷ s.returns;
        next_id = s.next_id + 1 + length lines;
      }))

-- The request with this key
abbrev pub return_at : ℕ → Shop → Option ReturnRequest
return_at id s = find (λ (r : ReturnRequest). r.id == id) s.returns

-- A save of some fields of the row with this key
abbrev pub update_return : ℕ → (ReturnRequest → ReturnRequest) → Shop → Shop
update_return id f s = record s {
  returns = map (λ (r : ReturnRequest). if r.id == id then f r else r) s.returns;
}

-- `ReturnShipment.objects.get_or_create(return_request=...)`
abbrev with_shipment : Option ReturnShipment → Option ReturnShipment
with_shipment none = some (record {
  carrier = self_shipped;
  tracking_number = "";
  tracking_url = "";
  status = awaiting_dispatch;
  shipped_at = none;
  delivered_at = none;
})
with_shipment (some p) = some p

-- the row as each service saves it
abbrev pub as_approved : (now reviewer : ℕ) → ReturnRequest → ReturnRequest
as_approved now reviewer row = record row {
  status = approved;
  reviewed_by = some reviewer;
  reviewed_at = some now;
  return_shipment = with_shipment row.return_shipment;
}

abbrev pub as_rejected : (now reviewer : ℕ) → ReturnRequest → ReturnRequest
as_rejected now reviewer row = record row {
  status = rejected;
  reviewed_by = some reviewer;
  reviewed_at = some now;
}

abbrev pub as_cancelled : ReturnRequest → ReturnRequest
as_cancelled row = record row { status = cancelled }

-- `approve_return(return_request, reviewed_by=...)`
unfoldable pub approve_return : ℕ → ReturnRequest → ℕ → Shop → Result Shop
approve_return now r reviewer s = do
  raise_if (not (same_return_status r.status requested)) bad_status
  ok (send (return_approved r.id) (update_return r.id (as_approved now reviewer) s))

-- `reject_return(return_request, reviewed_by=...)`
unfoldable pub reject_return : ℕ → ReturnRequest → ℕ → Shop → Result Shop
reject_return now r reviewer s = do
  raise_if (not (same_return_status r.status requested)) bad_status
  ok (send (return_rejected r.id) (update_return r.id (as_rejected now reviewer) s))

-- One line of `mark_return_received`: the line as it is saved, and the shop with its units restocked.
-- `decisions` gives the `restock` of a line's entry, false where it has none.
unfoldable pub receive_line :
    ℕ → Option ℕ → (ℕ → Bool) → ReturnLine → Shop → Result (ReturnLine × Shop)
receive_line request by decisions l s = elim l.order_item.product [
  | none ↦ ok (record l { restocked = false }, s)
  | some p ↦
      if decisions l.id
      then (do
        s' ← on_stock (restock_from_return p l.order_item.variant (pos l.quantity) request by) s
        ok (record l { restocked = true }, s'))
      else ok (record l { restocked = false }, s)
]

unfoldable pub receive_lines :
    ℕ → Option ℕ → (ℕ → Bool) → List ReturnLine → Shop → Result (List ReturnLine × Shop)
unfolding receive_line
receive_lines request by decisions [] s = ok ([], s)
receive_lines request by decisions (l ∷ ls) s =
    receive_line request by decisions l s >>= λ (l', s1).
    receive_lines request by decisions ls s1 >>= λ (ls', s2). ok (l' ∷ ls', s2)

abbrev parcel_delivered : ℕ → Option ReturnShipment → Option ReturnShipment
parcel_delivered now none = none
parcel_delivered now (some p) = elim p.status [
  | delivered ↦ some p
  | other ↦ some (record p { status = delivered; delivered_at = some now })
]

abbrev pub as_received : ℕ → List ReturnLine → ReturnRequest → ReturnRequest
as_received now lines row = record row {
  status = received;
  received_at = some now;
  lines = lines;
  return_shipment = parcel_delivered now row.return_shipment;
}

-- `mark_return_received(return_request, line_decisions=..., received_by=...)`
unfoldable pub mark_return_received : ℕ → ReturnRequest → (ℕ → Bool) → Option ℕ → Shop → Result Shop
unfolding receive_lines
mark_return_received now r decisions by s = do
  raise_if (not (same_return_status r.status approved)) bad_status
  (lines, s') ← receive_lines r.id by decisions r.lines s
  ok (update_return r.id (as_received now lines) s')

-- the statuses in which a parcel's numbers are no longer changed
abbrev pub is_over : ParcelStatus → Bool
is_over delivered = true
is_over lost = true
is_over _ = false

-- the parcel as it is saved with its carrier and numbers; the first time, it is on its way
abbrev pub as_tracked :
    (now : ℕ) → Carrier → (number url : String) → ReturnShipment → ReturnShipment
as_tracked now carrier number url p = elim p.status [
  | awaiting_dispatch ↦ record p {
    carrier = carrier;
    tracking_number = number;
    tracking_url = url;
    status = shipped;
    shipped_at = some now;
  }
  | _ ↦ record p { carrier = carrier; tracking_number = number; tracking_url = url }
]

abbrev pub with_parcel : ReturnShipment → ReturnRequest → ReturnRequest
with_parcel p row = record row { return_shipment = some p }

-- `update_return_shipment_tracking(return_request, carrier=..., ...)`, on the parcel that is attached
unfoldable pub update_return_shipment_tracking :
    ℕ → ReturnRequest → Carrier → String → String → Shop → Result Shop
update_return_shipment_tracking now r carrier number url s = do
  p ← or_raise r.return_shipment no_shipment
  raise_if (is_over p.status) bad_status
  ok (update_return r.id (with_parcel (as_tracked now carrier number url p)) s)

-- `cancel_return_request(return_request)`
unfoldable pub cancel_return_request : ReturnRequest → Shop → Result Shop
cancel_return_request r s = do
  raise_if (not (is_cancellable r.status)) bad_status
  ok (update_return r.id as_cancelled s)

-- `mark_return_refunded(return_request)`
unfoldable pub mark_return_refunded : ℕ → Shop → Shop
mark_return_refunded id = update_return id (λ row. record row { status = refunded })

-- `mark_return_refund_failed(return_request)`
unfoldable pub mark_return_refund_failed : ℕ → Shop → Shop
mark_return_refund_failed id = update_return id (λ row. record row { status = received })
