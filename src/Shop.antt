-- ===== src/Shop.antt =====
-- The database that the services share, and the saves that fire signals (cart/signals.py,
-- fulfillment/signals.py). Each table is a field; an e-mail that is handed to the mail task is an
-- entry of `outbox`.
pub mod Saves
pub mod Courier
pub mod Action
use shop_orbit.Base.{
  ℕ, Bool, false, Option, none, some, List, ◌∷◌, Result, ok, does_not_exist, ◌>>=◌, or_raise, put,
  if◌then◌else◌,
}
use shop_orbit.Cart.Models.{OrderStatus, Order, StatusChange, same_status}
use shop_orbit.Cart.Pricing.{CartItem, Redemption}
use shop_orbit.Accounts.Services.{Address}
use shop_orbit.Inventory.Models.{Inventory}
use shop_orbit.Fulfillment.Models.{
  Shipment, ShipmentStatus, ShipmentChange, Invoice, same_shipment_status, picked_up, in_transit,
  out_for_delivery, delivered, ndr,
}
use shop_orbit.Payments.Models.{Payment, Refund, PaymentEvent, WebhookEvent}
use shop_orbit.Returns.Models.{ReturnRequest}

-- An e-mail, by its template and the row that it is about
pub data Email : Type 0 where
  order_status_changed : ℕ → OrderStatus → Email
  refund_needed payment_succeeded new_order payment_failed : ℕ → Email
  refund_processed refund_failed shipment_ndr : ℕ → Email
  return_requested return_approved return_rejected : ℕ → Email

-- `next_id` is the key of the next row to be created, of whatever table.
pub record Shop : Type 0 where
  pub inventory : Inventory
  pub orders : ℕ → Option Order
  pub order_history : List StatusChange
  pub shipments : ℕ → Option Shipment
  pub shipment_history : List ShipmentChange
  pub invoices : ℕ → Option Invoice
  pub invoice_numbers : ℕ → ℕ
  pub packing_slips : ℕ → Bool
  pub payments : List Payment
  pub payment_events : List PaymentEvent
  pub refunds : List Refund
  pub webhooks : List WebhookEvent
  pub returns : List ReturnRequest
  pub carts : ℕ → List CartItem
  pub redemptions : List Redemption
  pub addresses : List Address
  pub next_id : ℕ
  pub outbox : List Email

abbrev pub send : Email → Shop → Shop
send e s = record s { outbox = e ∷ s.outbox }

-- A function of inventory/services.py, called within the caller's transaction
abbrev pub on_stock : (Inventory → Result Inventory) → Shop → Result Shop
on_stock f s = do i ← f s.inventory; ok (record s { inventory = i })

-- `_record_status_history` and `_send_status_change_email`, on a status that has changed
abbrev status_signals : ℕ → OrderStatus → OrderStatus → Option ℕ → Bool → Shop → Shop
status_signals id previous new actor skip_email s =
    let logged = record s {
      order_history =
          record { order = id; previous_status = previous; new_status = new; changed_by = actor }
          ∷ s.order_history;
    } in
    if skip_email then logged else send (order_status_changed id previous) logged

-- `order.status = new; order.save(update_fields=["status", "updated_at"])`, with `actor` in
-- `_status_change_actor` and `skip_email` in `_skip_status_email`
unfoldable pub save_status : ℕ → OrderStatus → Option ℕ → Bool → Shop → Result Shop
save_status id new actor skip_email s = do
  o ← or_raise (s.orders id) does_not_exist
  ok (
      let saved = record s { orders = put id (record o { status = new }) s.orders } in
      if same_status o.status new
      then saved
      else status_signals id o.status new actor skip_email saved)

-- `_ORDER_STATUS_BY_SHIPMENT_STATUS`
abbrev pub order_status_by_shipment : ShipmentStatus → Option OrderStatus
order_status_by_shipment picked_up = some OrderStatus.shipped
order_status_by_shipment in_transit = some OrderStatus.shipped
order_status_by_shipment out_for_delivery = some OrderStatus.shipped
order_status_by_shipment delivered = some OrderStatus.delivered
order_status_by_shipment _ = none

-- `_sync_order_status`
unfoldable pub sync_order_status : Shipment → Shop → Result Shop
unfolding save_status
sync_order_status sh s = elim (order_status_by_shipment sh.status) [
  | none ↦ ok s
  | some new ↦ do
    o ← or_raise (s.orders sh.order) does_not_exist
    if same_status o.status new then ok s else save_status sh.order new none false s
]

-- `_record_status_history` and `_notify_buyer_on_ndr` of fulfillment/signals.py
abbrev pub shipment_signals : Shipment → ShipmentStatus → Option ℕ → Shop → Shop
shipment_signals sh previous actor s =
    if same_shipment_status previous sh.status
    then s
    else let logged = record s {
      shipment_history =
          record {
            shipment = sh.order;
            previous_status = previous;
            new_status = sh.status;
            changed_by = actor;
          }
          ∷ s.shipment_history;
    } in
      if same_shipment_status sh.status ndr then send (shipment_ndr sh.order) logged else logged

-- `shipment.save()` on a shipment that is in the table
unfoldable pub save_shipment : Shipment → Option ℕ → Shop → Result Shop
unfolding sync_order_status
save_shipment sh actor s = do
  row ← or_raise (s.shipments sh.order) does_not_exist
  synced ← sync_order_status sh (record s { shipments = put sh.order sh s.shipments })
  ok (shipment_signals sh row.status actor synced)
