-- ===== src/Tests/Runs.antt =====
-- A run of one step: the failure of the payment that an order awaits.
use shop_orbit.Base.{refl, arith, [], ◌∷◌}
use shop_orbit.Cart.Models.{OrderStatus}
use shop_orbit.Inventory.Models.{item_target}
use shop_orbit.Orders.Lifecycle.{Course, failure_report}
use shop_orbit.Orders.Steps.{Run, here, next, fail}
use shop_orbit.Orders.Steps.Balance.{status_at}
use shop_orbit.Orders.Steps.Runs.{IsExact, Run-IsExact, Run-Course}
use shop_orbit.Payments.Models.{PaymentStatus}
use shop_orbit.Payments.Pipeline.{on_payment_failed}
use shop_orbit.Shop.{Shop}
use shop_orbit.Tests.Samples.{payment_in, shop_in}

abbrev waiting : Shop
waiting = shop_in OrderStatus.awaiting_payment 2

abbrev failed : Shop
failed = (on_payment_failed (payment_in PaymentStatus.failed) waiting).1

waiting-IsExact : IsExact 2 waiting
unfolding item_target
waiting-IsExact = record { counted = λ t. ground arith; keyed = λ j below o at. ground arith }

abbrev one_failure : Run 2 waiting failed
one_failure = next here 1 (omega arith) (fail (payment_in PaymentStatus.failed) refl refl)

Run-IsExact_example : IsExact 2 failed
Run-IsExact_example = Run-IsExact 2 waiting failed waiting-IsExact one_failure

Run-Course_example : Course (status_at 1 waiting) (failure_report ∷ []) (status_at 1 failed)
Run-Course_example = Run-Course 2 waiting failed waiting-IsExact one_failure 1
