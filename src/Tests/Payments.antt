-- ===== src/Tests/Payments.antt =====
-- The theorems on the pages that payments come and go by, run on the order that awaits Rs 19.98.
use shop_orbit.Base.{◌≡◌, refl, ◌≤◌, arith, Option, some, true, false, [], ok, ◌-ℤ◌, pos, ℤ}
use mathlib.Core.List.{Memᴰ}
use shop_orbit.Cart.Models.{Order, OrderItem, OrderStatus, awaiting_payment, total_amount}
use shop_orbit.Payments.Models.{Payment}
use shop_orbit.Payments.PayPage.{checkout_payment, checkout_payment-reload, live_payment, pay}
use shop_orbit.Payments.Services.{create_payment_for_order, new_payment}
use shop_orbit.Payments.Views.{razorpay_webhook, http_400}
use shop_orbit.Payments.Views.Answers.{Promise, razorpay_webhook-Promise}
use shop_orbit.Returns.Services.{already_returned_quantity}
use shop_orbit.Returns.Views.{request_return_view}
use shop_orbit.Returns.Views.Bought.{request_return_view-within}
use shop_orbit.Shop.{Shop}
use shop_orbit.Tests.Samples.{line, order_in, shop_in, today, slow_gateway, event}

abbrev unpaid : Shop
unpaid = record (shop_in awaiting_payment 2) { payments = [] }

abbrev attempt : Payment
attempt = new_payment 20 (order_in awaiting_payment) 5 1998 "order_2"

abbrev paying : Shop
unfolding checkout_payment create_payment_for_order
paying = (checkout_payment slow_gateway 5 1 unpaid).1

pays : checkout_payment slow_gateway 5 1 unpaid ≡ (ok (pay attempt), paying)
unfolding checkout_payment create_payment_for_order ◌-ℤ◌ total_amount
pays = refl

checkout_payment-reload_example :
    (o : Order) × (unpaid.orders 1 ≡ some o)
    × (o.user ≡ 5)
    × (live_payment o paying ≡ some attempt)
    × (checkout_payment slow_gateway 5 1 paying ≡ (ok (pay attempt), paying))
checkout_payment-reload_example =
    checkout_payment-reload slow_gateway 5 1 unpaid paying attempt pays

razorpay_webhook-Promise_example :
    let (status, s') = razorpay_webhook slow_gateway true today tt (shop_in awaiting_payment 2) in
    (slow_gateway.verify_webhook_signature tt ≡ true → Promise slow_gateway true event status s')
    × (slow_gateway.verify_webhook_signature tt ≡ false
        → (status ≡ http_400) × (s' ≡ shop_in awaiting_payment 2))
razorpay_webhook-Promise_example =
    razorpay_webhook-Promise slow_gateway true today tt event (shop_in awaiting_payment 2) refl

abbrev delivered_shop : Shop
delivered_shop = shop_in OrderStatus.delivered 0

abbrev both_back : OrderItem → Option ℤ
both_back i = some (pos 2)

already_none : already_returned_quantity 11 delivered_shop.returns ≤ 2
unfolding already_returned_quantity
already_none = omega arith

request_return_view-within_example :
    already_returned_quantity 11 (request_return_view 7 200 5 1 both_back delivered_shop).1.returns
    ≤ 2
request_return_view-within_example =
    request_return_view-within 7 200 5 1 both_back (order_in OrderStatus.delivered) line
      delivered_shop refl (Memᴰ.head refl) (omega arith) already_none
