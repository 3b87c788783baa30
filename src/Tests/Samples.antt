-- ===== src/Tests/Samples.antt =====
-- One product with ten units, one order for two of them, and the shop around them.
use shop_orbit.Base.{
  ℕ, true, false, Option, none, some, [], ◌∷◌, Result, ok, err, ◌==◌, if◌then◌else◌,
}
use shop_orbit.Cart.Models.{Order, OrderItem, OrderStatus}
use shop_orbit.Cart.Pricing.{CartItem, Coupon, percent}
use shop_orbit.Fulfillment.Models.{Shipment, other, picked_up}
use shop_orbit.Fulfillment.Services.{Env}
use shop_orbit.Inventory.Models.{Target, StockRow, Inventory, same_target}
use shop_orbit.Payments.Models.{Payment, PaymentStatus, upi, no_refund}
use shop_orbit.Payments.Gateway.{Gateway, GatewayRefundStatus, WebhookEventData}
use shop_orbit.Shop.{Shop}

-- what a call that returned has returned, and `a` otherwise
abbrev pub result_of : {A : Type 0} → A → Result A → A
result_of a (ok b) = b
result_of a (err e) = a

abbrev pub lamp : ℕ → StockRow
lamp held = record {
  product_id = 1;
  stock_count = 10;
  reserved_count = held;
  low_stock_threshold = 2;
}

abbrev pub stock_with : ℕ → Inventory
stock_with held = record {
  rows = λ t. if same_target (Target.product 1) t then some (lamp held) else none;
  movements = [];
}

abbrev pub line : OrderItem
line = record {
  id = 11;
  order = 1;
  product = some 1;
  variant = none;
  unit_price = 999;
  quantity = 2;
  gst_rate = 1800;
}

abbrev pub order_in : OrderStatus → Order
order_in status = record {
  id = 1;
  user = 5;
  status = status;
  created_at = 0;
  shipping_state = "KA";
  shipping_postal_code = "560001";
  subtotal_amount = 1998;
  discount_amount = 0;
  coupon_code = "";
  items = line ∷ [];
}

abbrev pub payment_in : PaymentStatus → Payment
payment_in status = record {
  id = 7;
  order = 1;
  user = 5;
  gateway_order_id = some "order_1";
  gateway_payment_id = some "pay_1";
  signature = none;
  amount = 1998;
  method = some upi;
  status = status;
  refunded_amount = 0;
  refund_status = no_refund;
  captured_at = none;
}

abbrev pub cart_line : CartItem
cart_line = record {
  product_id = 1;
  product = record {
    price = 999;
    discount_price = none;
    delivery_charge = 0;
    other_fee = 0;
    gst_rate = 1800;
  };
  variant = none;
  quantity = 2;
}

abbrev pub parcel : Option ℕ → Shipment
parcel delivered_at = record {
  order = 1;
  carrier = other;
  tracking_number = none;
  status = picked_up;
  shipped_at = none;
  delivered_at = delivered_at;
}

-- The shop with the order in a status, and that many units held.
abbrev pub shop_in : OrderStatus → ℕ → Shop
shop_in status held = record {
  inventory = stock_with held;
  orders = λ k. if k == 1 then some (order_in status) else none;
  order_history = [];
  shipments = λ k. if k == 1 then some (parcel (some 100)) else none;
  shipment_history = [];
  invoices = λ k. none;
  invoice_numbers = λ y. 0;
  packing_slips = λ k. false;
  payments = payment_in PaymentStatus.captured ∷ [];
  payment_events = [];
  refunds = [];
  webhooks = [];
  returns = [];
  carts = λ u. cart_line ∷ [];
  redemptions = [];
  addresses = [];
  next_id = 20;
  outbox = [];
}

abbrev pub today : Env
today = record {
  now = 200;
  year = 2026;
  month = 6;
  company_state = "KA";
  strip = λ w. w;
  fold = λ w. w;
}

abbrev pub event : WebhookEventData
event = record {
  dedupe_key = "k";
  event_type = "payment.captured";
  gateway_payment_id = some "pay_1";
  gateway_order_id = some "order_1";
  refund_id = none;
}

-- A gateway that accepts refunds and settles them later.
abbrev pub slow_gateway : Gateway (Unit {0})
slow_gateway = record {
  create_order = λ n. ok "order_2";
  verify_payment_signature = λ a b c. false;
  fetch_payment = λ id.
      ok (record { gateway_payment_id = some id; status = PaymentStatus.captured; method = upi });
  initiate_refund = λ id n.
      ok (record { gateway_refund_id = some "rfnd_1"; status = GatewayRefundStatus.pending });
  verify_webhook_signature = λ b. true;
  parse_webhook_event = λ b. ok event;
}

-- ten percent off, at most Rs 3
abbrev pub coupon : Coupon
coupon = record {
  id = 3;
  discount_type = percent;
  discount_value = 1000;
  max_discount_amount = some 300;
  minimum_order_amount = 0;
  valid_from = none;
  valid_until = none;
  usage_limit = some 2;
  per_user_limit = 1;
  is_active = true;
}
