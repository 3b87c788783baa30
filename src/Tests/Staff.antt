-- ===== src/Tests/Staff.antt =====
-- A bulk action of the admin on one paid order, and the buttons on it.
use shop_orbit.Base.{ℕ, ◌≡◌, refl, ok, arith, [], ◌∷◌, if◌then◌else◌}
use shop_orbit.Cart.Models.{OrderStatus, payment_confirmed, accepted}
use shop_orbit.Inventory.Models.{item_target}
use shop_orbit.Orders.Steps.Runs.{IsExact}
use shop_orbit.Shop.{Shop}
use shop_orbit.Shop.Courier.{restate}
use shop_orbit.Staff.Orders.{accept_order_action}
use shop_orbit.Staff.Orders.Course.{Press, press, asks, is_asked, IsMoved, cancel_rows}
use shop_orbit.Staff.Orders.Presses.{press-IsExact}
use shop_orbit.Staff.Orders.Outcome.{
  count_in, count_out, is_among, entries, accept_order_action-Outcome,
}
use shop_orbit.Tests.Samples.{shop_in, order_in}

abbrev waiting : Shop
waiting = shop_in OrderStatus.awaiting_payment 2

waiting-IsExact : IsExact 2 waiting
unfolding item_target
waiting-IsExact = record { counted = λ t. ground arith; keyed = λ j below o at. ground arith }

-- the same order is selected twice
abbrev twice : Press
twice =
    cancel_rows 9
      (order_in OrderStatus.awaiting_payment ∷ order_in OrderStatus.awaiting_payment ∷ [])

press-IsExact_example :
    IsExact 2 (press twice waiting)
    × ((j : ℕ) → IsMoved (asks twice) (is_asked twice waiting) waiting (press twice waiting) j)
press-IsExact_example =
    press-IsExact 2 waiting waiting-IsExact twice
      ((omega arith, λ e. ground arith), ((omega arith, λ e. ground arith), tt))

abbrev paid : Shop
paid = shop_in payment_confirmed 0

accept_order_action-Outcome_example :
    ((accept_order_action 9 (order_in payment_confirmed ∷ []) paid).0
      ≡ ok (record {
        done = count_in payment_confirmed (order_in payment_confirmed ∷ []);
        failed = count_out payment_confirmed (order_in payment_confirmed ∷ []);
      }))
    × ((j : ℕ)
        → (accept_order_action 9 (order_in payment_confirmed ∷ []) paid).1.orders j ≡ (
            if is_among payment_confirmed j (order_in payment_confirmed ∷ [])
            then restate accepted (paid.orders j)
            else paid.orders j))
    × ((accept_order_action 9 (order_in payment_confirmed ∷ []) paid).1.inventory ≡ paid.inventory)
    × ((accept_order_action 9 (order_in payment_confirmed ∷ []) paid).1.order_history
        ≡ entries payment_confirmed accepted 9 (order_in payment_confirmed ∷ []) paid.order_history)
accept_order_action-Outcome_example =
    accept_order_action-Outcome 9 (order_in payment_confirmed ∷ []) paid (refl, tt, tt)
