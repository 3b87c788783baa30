-- ===== src/Payments/Pipeline.antt =====
-- payments/pipeline.py: what follows a payment that succeeded or failed, and a refund that was
-- confirmed. The PDF files and the mail itself are not modelled; a mail is an entry of the outbox.
pub mod Idempotent
pub mod Keeps
use shop_orbit.Base.{ℕ, true, Option, none, some, Result, does_not_exist, not, if◌then◌else◌}
use shop_orbit.Cart.Models.{
  Order, OrderStatus, same_status, awaiting_payment, payment_confirmed, payment_failed, refunded,
  partially_refunded,
}
use shop_orbit.Fulfillment.Services.{Env, generate_invoice, generate_packing_slip, create_shipment}
use shop_orbit.Inventory.Services.{convert_reservation_to_sale, release_reservation}
use shop_orbit.Payments.Models.{Payment, Refund, RefundStatus, full}
use shop_orbit.Returns.Services.{mark_return_refunded, mark_return_refund_failed}
use shop_orbit.Shop.{
  Shop, on_stock, save_status, send, payment_succeeded, new_order,
  payment_failed as payment_failed_email, refund_processed, refund_failed,
}
use shop_orbit.Shop.Action.{Action, pure, gets, modify, atomic, get_or_raise, and_then, ◌>>=◌, ◌>>◌}

-- The transaction of `on_payment_captured`, on the locked row
pub confirm : Order → Shop → Result Shop
confirm o s =
    and_then (on_stock (convert_reservation_to_sale o.id o.items) s)
      (save_status o.id payment_confirmed none true)

-- The transaction of `on_payment_failed`, on the locked row
pub release : Order → Shop → Result Shop
release o s =
    and_then (on_stock (release_reservation o.id o.items) s)
      (save_status o.id payment_failed none true)

-- What follows the transaction that confirmed `o`, outside of it
pub fulfil : Env → Order → Shop → Shop
unfolding generate_invoice generate_packing_slip create_shipment
fulfil env o s = send (new_order o.id) (
    send (payment_succeeded o.id)
      (create_shipment o (generate_packing_slip o (generate_invoice env o s))))

-- `on_payment_captured(payment)`
unfoldable pub on_payment_captured : Env → Payment → Action (Unit {0})
unfolding confirm fulfil
on_payment_captured env p = do
  found ← gets (λ s. s.orders p.order)
  o ← get_or_raise found does_not_exist
  if not (same_status o.status awaiting_payment)
      then pure tt
      else do atomic (confirm o); modify (fulfil env o)

-- `on_payment_failed(payment)`
unfoldable pub on_payment_failed : Payment → Action (Unit {0})
unfolding release
on_payment_failed p = do
  found ← gets (λ s. s.orders p.order)
  o ← get_or_raise found does_not_exist
  if not (same_status o.status awaiting_payment)
      then pure tt
      else do atomic (release o); modify (send (payment_failed_email o.id))

abbrev pub refunded_status : RefundStatus → OrderStatus
refunded_status full = refunded
refunded_status _ = partially_refunded

-- `if refund.return_request_id:`
abbrev for_return : Option ℕ → (ℕ → Shop → Shop) → Shop → Shop
for_return none f s = s
for_return (some id) f s = f id s

-- `on_refund_processed(refund)`, with `refund.payment`
unfoldable pub on_refund_processed : Refund → Payment → Action (Unit {0})
on_refund_processed r p = do
  atomic (save_status p.order (refunded_status p.refund_status) none true)
  modify (for_return r.return_request mark_return_refunded)
  modify (send (refund_processed r.id))

-- `on_refund_failed(refund)`
unfoldable pub on_refund_failed : Refund → Action (Unit {0})
on_refund_failed r = do
  modify (for_return r.return_request mark_return_refund_failed)
  modify (send (refund_failed r.id))
