-- ===== src/Tests/Callback.antt =====
-- A browser's callback on the order that awaits Rs 19.98, which Razorpay answers is captured.
use shop_orbit.Base.{◌≡◌, refl, true, some, ok, err, does_not_exist, arith}
use shop_orbit.Cart.Models.{awaiting_payment}
use shop_orbit.Inventory.Models.{item_target}
use shop_orbit.Inventory.Services.{convert_reservation_to_sale}
use shop_orbit.Payments.Pipeline.{on_payment_captured}
use shop_orbit.Payments.Models.{Payment, PaymentStatus}
use shop_orbit.Payments.Razorpay.{
  Client, RawPayment, razorpay_gateway, fetch_payment, normalize_payment,
}
use shop_orbit.Payments.Razorpay.Reported.{is_confirmed, callback_confirms_captured}
use shop_orbit.Payments.Services.{verify_client_callback, apply_gateway_payment_state}
use shop_orbit.Shop.{Shop, save_status}
use shop_orbit.Tests.Samples.{payment_in, shop_in, today}

abbrev client : Client
client = record {
  order_create = λ n. ok "order_1";
  verify_payment_signature = λ a b c. true;
  payment_fetch = λ id. ok (record { id = id; status = some "captured"; method = some "upi" });
  payment_refund = λ id n. err does_not_exist;
  verify_webhook_signature = λ d. true;
  loads = λ w. err does_not_exist;
  digest = λ w. w;
}

abbrev attempt : Payment
attempt = payment_in PaymentStatus.created

abbrev waiting : Shop
waiting = shop_in awaiting_payment 2

confirmed :
    is_confirmed 1
      (verify_client_callback
        (razorpay_gateway client)
        today
        attempt
        "pay_1"
        "order_1"
        "sig"
        waiting).1
    ≡ true
unfolding verify_client_callback apply_gateway_payment_state fetch_payment normalize_payment
    on_payment_captured convert_reservation_to_sale item_target save_status
confirmed = refl

callback_confirms_captured_example :
    (client.verify_payment_signature "order_1" "pay_1" "sig" ≡ true)
    × (raw : RawPayment) × (client.payment_fetch "pay_1" ≡ ok raw)
    × (raw.status ≡ some "captured")
callback_confirms_captured_example =
    callback_confirms_captured client 1 today attempt "pay_1" "order_1" "sig" waiting
      (λ o at. ground arith) refl confirmed
