-- ===== src/Tests/Money.antt =====
-- The theorems on payments and refunds, run on a payment of Rs 19.98.
use shop_orbit.Base.{◌≡◌, refl, ◌≤◌, ◌<◌, ◌+◌, true, [], ◌∷◌, Result, ok, some, none, pos, ◌+ℤ◌}
use shop_orbit.Cart.Models.{awaiting_payment, payment_confirmed}
use shop_orbit.Fulfillment.Services.{Env}
use shop_orbit.Inventory.Models.{item_target}
use shop_orbit.Inventory.Services.Effects.{demand, sell, Changes}
use shop_orbit.Payments.Models.{Payment, Refund, PaymentStatus}
use shop_orbit.Payments.Pipeline.{on_payment_captured, on_payment_failed}
use shop_orbit.Payments.Pipeline.Idempotent.{captured_once, HasDocuments}
use shop_orbit.Payments.Refunding.{initiate_refund, open_refund, apply_refund_result, new_refund}
use shop_orbit.Payments.Refunding.Balance.{initiate_refund_within}
use shop_orbit.Payments.Services.{apply_gateway_payment_state}
use shop_orbit.Payments.Webhooks.{
  process_event, take_in, dispatch_webhook_event, handle_payment_state_webhook, find_payment,
}
use shop_orbit.Payments.Webhooks.Delivery.{delivered_once}
use shop_orbit.Shop.{Shop}
use shop_orbit.Tests.Samples.{
  line, order_in, payment_in, shop_in, today, slow_gateway, event, result_of,
}

abbrev waiting : Shop
waiting = shop_in awaiting_payment 7

abbrev pending_payment : Payment
pending_payment = payment_in PaymentStatus.captured

captured_once_example :
    (s' : Shop) × (on_payment_captured today pending_payment waiting ≡ (ok tt, s'))
    × (s'.orders 1 ≡ some (order_in payment_confirmed))
    × Changes sell (λ t. demand t (line ∷ [])) waiting.inventory s'.inventory
    × HasDocuments 1 s'
    × ((env' : Env) (p' : Payment)
        → p'.order ≡ 1
        → (on_payment_captured env' p' s' ≡ (ok tt, s')) × (on_payment_failed p' s' ≡ (ok tt, s')))
unfolding item_target
captured_once_example =
    captured_once pending_payment (order_in awaiting_payment) waiting refl refl refl (refl, tt)
      today

-- the event of the payment that the shop has, in a transaction
abbrev delivered : Shop
unfolding process_event take_in dispatch_webhook_event handle_payment_state_webhook find_payment
    apply_gateway_payment_state
delivered = (process_event slow_gateway true today event waiting).1

delivers : process_event slow_gateway true today event waiting ≡ (ok true, delivered)
unfolding process_event take_in dispatch_webhook_event handle_payment_state_webhook find_payment
    apply_gateway_payment_state
delivers = refl

delivered_once_example :
    process_event slow_gateway true today event delivered ≡ (ok true, delivered)
delivered_once_example =
    delivered_once slow_gateway true today today event waiting delivered delivers

abbrev refunding : Result Refund × Shop
unfolding initiate_refund open_refund apply_refund_result ◌+ℤ◌
refunding = initiate_refund slow_gateway today pending_payment (pos 1998) none none waiting

abbrev no_answer : Refund
no_answer = new_refund 0 0 none 0 none none

refunds :
    initiate_refund slow_gateway today pending_payment (pos 1998) none none waiting
    ≡ (ok (result_of no_answer refunding.0), refunding.1)
unfolding initiate_refund open_refund apply_refund_result ◌+ℤ◌ refunding
refunds = refl

initiate_refund_within_example :
    (true ≡ true)
    × (pos (result_of no_answer refunding.0).amount ≡ pos 1998)
    × (0 < (result_of no_answer refunding.0).amount)
    × (0 + (result_of no_answer refunding.0).amount ≤ 1998)
initiate_refund_within_example =
    initiate_refund_within slow_gateway today pending_payment (pos 1998) none none waiting
      refunding.1 (result_of no_answer refunding.0) refunds
