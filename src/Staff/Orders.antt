-- ===== src/Staff/Orders.antt =====
-- The actions on orders of cart/admin.py, of the store dashboard (accounts/views.py), and the buyer's own
-- cancellation (cart/views.py).
pub mod Outcome
pub mod Course
pub mod Presses
use shop_orbit.Base.{ℕ, Bool, Option, none, some, List, Result, ok, err, if◌then◌else◌, ◌==◌, not}
use shop_orbit.Cart.Models.{Order}
use shop_orbit.Cart.Services.{cancel_order, accept_order, mark_order_packed}
use shop_orbit.Shop.{Shop}
use shop_orbit.Shop.Action.{Action}
use shop_orbit.Staff.Bulk.{Tally, bulk, is_value_error}

abbrev pub nothing_yet : Tally
nothing_yet = record { done = 0; failed = 0 }

-- `OrderAdmin.cancel_selected_orders`
unfoldable pub cancel_selected_orders : ℕ → List Order → Action Tally
cancel_selected_orders staff orders =
    bulk is_value_error (λ (o : Order). cancel_order o (some staff)) orders nothing_yet

-- `OrderAdmin._run_fulfillment_transition`
unfoldable pub run_fulfillment_transition :
    (Order → Option ℕ → Shop → Result Shop) → ℕ → List Order → Action Tally
run_fulfillment_transition transition staff orders =
    bulk is_value_error (λ (o : Order). transition o (some staff)) orders nothing_yet

-- `OrderAdmin.accept_order_action` and `mark_packed_action`
unfoldable pub accept_order_action : ℕ → List Order → Action Tally
unfolding run_fulfillment_transition
accept_order_action = run_fulfillment_transition accept_order

unfoldable pub mark_packed_action : ℕ → List Order → Action Tally
unfolding run_fulfillment_transition
mark_packed_action = run_fulfillment_transition mark_order_packed

-- What the page says after a button of an order was pressed
pub data Notice : Type 0 where
  not_found succeeded refused reason_required : Notice

-- `try: f() except ValueError: messages.error(...) else: messages.success(...)`
abbrev pub noticed : Result Shop → Action Notice
noticed (ok s') s = (ok succeeded, s')
noticed (err e) s = if is_value_error e then (ok refused, s) else (err e, s)

-- `get_object_or_404(Order, ...)`
abbrev pub on_order : Option Order → (Order → Action Notice) → Action Notice
on_order none f s = (ok not_found, s)
on_order (some o) f s = f o s

-- `store_dashboard_order_accept`, `store_dashboard_order_mark_packed`
unfoldable pub store_dashboard_order_accept : ℕ → ℕ → Action Notice
store_dashboard_order_accept staff id s =
    on_order (s.orders id) (λ o s. noticed (accept_order o (some staff) s) s) s

unfoldable pub store_dashboard_order_mark_packed : ℕ → ℕ → Action Notice
store_dashboard_order_mark_packed staff id s =
    on_order (s.orders id) (λ o s. noticed (mark_order_packed o (some staff) s) s) s

-- `store_dashboard_order_cancel`; `reason` is whether the stripped reason holds any text
unfoldable pub store_dashboard_order_cancel : ℕ → Bool → ℕ → Action Notice
store_dashboard_order_cancel staff reason id s =
    on_order (s.orders id)
      (λ o s.
        if not reason then (ok reason_required, s) else noticed (cancel_order o (some staff) s) s)
      s

-- `get_object_or_404(Order, ..., user=request.user)`
abbrev own : ℕ → Option Order → Option Order
own user none = none
own user (some o) = if o.user == user then some o else none

-- `cancel_order` of cart/views.py
unfoldable pub cancel_own_order : ℕ → ℕ → Action Notice
cancel_own_order user id s =
    on_order (own user (s.orders id)) (λ o s. noticed (cancel_order o (some user) s) s) s
