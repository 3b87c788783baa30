-- ===== src/Cart/Services.antt =====
-- The order lifecycle of cart/services.py, and the two sweeps of cart/tasks.py and inventory/tasks.py.
-- An `Order` argument is the object that the caller has loaded, which the row may have moved on from.
pub mod Cancel
pub mod Reservations
pub mod Advance
pub mod Sweeps
use shop_orbit.Base.{
  ℕ, ◌+◌, ◌*◌, Bool, true, false, Option, none, some, List, [], ◌∷◌, Result, Error, ok, err,
  does_not_exist, select, bad_status, ◌>>=◌, ◌>>◌, raise_if, or_raise, not, ◌&&◌, ◌||◌, ltb,
  if◌then◌else◌,
}
use shop_orbit.Cart.Models.{
  OrderStatus, Order, same_status, is_cancellable, is_paid, awaiting_payment, payment_confirmed,
  payment_failed, expired, accepted, packed, cancelled,
}
use shop_orbit.Inventory.Services.{release_reservation, restore_stock_for_cancellation}
use shop_orbit.Shop.{Shop, refund_needed, send, on_stock, save_status}

-- What cancelling gives back: real stock for a paid order, the reservation for an unpaid one
unfoldable pub give_back_stock : Order → Shop → Result Shop
give_back_stock row =
    if is_paid row.status
    then on_stock (restore_stock_for_cancellation row.id row.items)
    else on_stock (release_reservation row.id row.items)

-- `cancel_order(order, cancelled_by=...)`
unfoldable pub cancel_order : Order → Option ℕ → Shop → Result Shop
cancel_order order cancelled_by s = do
  raise_if (not (is_cancellable order.status)) bad_status
  row ← or_raise (s.orders order.id) does_not_exist
  raise_if (not (is_cancellable row.status)) bad_status
  given_back ← give_back_stock row s
  saved ← save_status order.id cancelled cancelled_by false given_back
  ok (if is_paid row.status then send (refund_needed order.id) saved else saved)

-- `_advance_order_status(order, from_status=..., to_status=..., actor=...)`
unfoldable pub advance_order_status :
    OrderStatus → OrderStatus → Order → Option ℕ → Shop → Result Shop
advance_order_status from to order actor s = do
  raise_if (not (same_status order.status from)) bad_status
  row ← or_raise (s.orders order.id) does_not_exist
  raise_if (not (same_status row.status from)) bad_status
  save_status order.id to actor true s

-- `accept_order`
unfoldable pub accept_order : Order → Option ℕ → Shop → Result Shop
unfolding advance_order_status
accept_order = advance_order_status payment_confirmed accepted

-- `mark_order_packed`
unfoldable pub mark_order_packed : Order → Option ℕ → Shop → Result Shop
unfolding advance_order_status
mark_order_packed = advance_order_status accepted packed

-- A sweep over the orders that its query has loaded, each in its own transaction. The body gives
-- `none` for an order that it passes over; the sweep counts the others, and stops at an exception.
pub sweep : (Order → Shop → Result (Option Shop)) → List Order → Shop × ℕ → Shop × ℕ × Option Error
sweep body [] (s, count) = (s, count, none)
sweep body (o ∷ orders) (s, count) = elim (body o s) [
  | ok (some s') ↦ sweep body orders (s', count + 1)
  | ok none ↦ sweep body orders (s, count)
  | err e ↦ (s, count, some e)
]

-- `except ValueError: continue`; the status is the only `ValueError` that `cancel_order` raises
cancel_stale : Order → Shop → Result (Option Shop)
unfolding cancel_order
cancel_stale order s = elim (cancel_order order none s) [
  | ok s' ↦ ok (some s')
  | err e ↦ elim e [ bad_status ↦ ok none | other ↦ err other ]
]

-- `created_at < now - timeout`, in seconds
abbrev pub is_older : ℕ → ℕ → Order → Bool
is_older now timeout o = ltb (o.created_at + timeout) now

-- `cancel_stale_unpaid_orders` over the rows of the order table, with the timeout in hours
unfoldable pub cancel_stale_unpaid_orders : ℕ → ℕ → List Order → Shop → Shop × ℕ × Option Error
unfolding cancel_stale sweep
cancel_stale_unpaid_orders now hours table s =
    sweep cancel_stale
      (select
        (λ o.
          (same_status o.status awaiting_payment || same_status o.status payment_failed)
          && is_older now (hours * 3600) o)
        table)
      (s, 0)

-- The body of the loop of `release_expired_reservations`
unfoldable pub expire_order : Order → Shop → Result (Option Shop)
expire_order order s = do
  row ← or_raise (s.orders order.id) does_not_exist
  if not (same_status row.status awaiting_payment) then ok none else do
    freed ← on_stock (release_reservation row.id row.items) s
    saved ← save_status order.id expired none false freed
    ok (some saved)

-- `release_expired_reservations` over the rows of the order table, with the timeout in minutes
unfoldable pub release_expired_reservations : ℕ → ℕ → List Order → Shop → Shop × ℕ × Option Error
unfolding expire_order sweep
release_expired_reservations now minutes table s =
    sweep expire_order
      (select (λ o. same_status o.status awaiting_payment && is_older now (minutes * 60) o) table)
      (s, 0)
