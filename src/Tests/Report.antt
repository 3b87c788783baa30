-- ===== src/Tests/Report.antt =====
-- A report on one paid order.
use shop_orbit.Base.{true, false, none, [], ◌∷◌, ℤ, leb_ℤ, ◌-ℤ◌, ◌+ℤ◌, ◌≡◌, pos, arith}
use shop_orbit.Cart.Models.{Order, OrderStatus}
use shop_orbit.Catalog.Profit.{
  Decimals, Costs, paid_orders, product_profitability_report, read_from, sold_in,
}
use shop_orbit.Catalog.Profit.Ranked.{IsBook, product_profitability_report-IsBook}
use shop_orbit.Payments.Models.{PaymentStatus}
use shop_orbit.Tests.Samples.{order_in, payment_in}

at_most_total : (a b : ℤ) → leb_ℤ a b ≡ false → leb_ℤ b a ≡ true
at_most_total a b h = ground arith

-- whole paise, with nothing for what is shared
abbrev paise : Decimals
paise = record {
  D = ℤ;
  of_paise = λ n. n;
  whole = pos;
  share = λ a b. pos 0;
  zero = pos 0;
  add = ◌+ℤ◌;
  sub = ◌-ℤ◌;
  mul = λ a b. pos 0;
  percent_of = λ a b. pos 0;
  quantized = λ a. a;
  at_most = leb_ℤ;
  at_most_total = at_most_total;
}

abbrev free : Costs paise
free = record { gateway_rate = pos 0; shipping_per_order = pos 0; packaging_per_unit = pos 0 }

abbrev table : Order
table = order_in OrderStatus.payment_confirmed

product_profitability_report-IsBook_example :
    IsBook paise free
      (read_from
        (λ p. 400)
        (paid_orders (λ t. t) none none (payment_in PaymentStatus.captured ∷ []) (table ∷ []))
        (payment_in PaymentStatus.captured ∷ [])
        [])
      (sold_in
        (λ i. "LAMP")
        (paid_orders (λ t. t) none none (payment_in PaymentStatus.captured ∷ []) (table ∷ [])))
      (product_profitability_report paise free
        (λ p. 400)
        (λ t. t)
        (λ i. "LAMP")
        (payment_in PaymentStatus.captured ∷ [])
        []
        none
        none
        (table ∷ []))
product_profitability_report-IsBook_example =
    product_profitability_report-IsBook paise free (λ p. 400) (λ t. t) (λ i. "LAMP")
      (payment_in PaymentStatus.captured ∷ []) [] none none (table ∷ [])
