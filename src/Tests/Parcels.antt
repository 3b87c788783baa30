-- ===== src/Tests/Parcels.antt =====
-- The theorems on discounts, invoices, parcels, returns and addresses, run on small data.
use shop_orbit.Base.{◌≡◌, ◌+◌, arith, [], ◌∷◌, Result, some, none, pos, ◌+ℤ◌}
use shop_orbit.Cart.Models.{Order, delivered}
use shop_orbit.Fulfillment.Models.{Invoice}
use shop_orbit.Fulfillment.Services.{generate_invoice}
use shop_orbit.Fulfillment.Services.Tax.{IsNumbered, generate_invoice-IsNumbered}
use shop_orbit.Payments.Models.{Refund}
use shop_orbit.Payments.Refunding.{initiate_refund, open_refund, apply_refund_result}
use shop_orbit.Returns.Models.{ReturnRequest, received}
use shop_orbit.Returns.Refunds.{initiate_return_refund, refundable_payment}
use shop_orbit.Shop.{Shop}
use shop_orbit.Tests.Samples.{order_in, shop_in, today, slow_gateway}

abbrev shop : Shop
shop = shop_in delivered 0

abbrev order : Order
order = order_in delivered

no_invoices : IsNumbered shop
no_invoices = record {
  counted = λ a i at. absurd (ground arith);
  apart = λ a b i j ai bj y n. absurd (ground arith);
  gapless = λ year k positive le. absurd (ground arith);
}

generate_invoice-IsNumbered_example :
    IsNumbered (generate_invoice today order shop)
    × (shop.invoices order.id ≡ none
        → (i : Invoice) × ((generate_invoice today order shop).invoices order.id ≡ some i)
          × (i.number ≡ shop.invoice_numbers i.financial_year + 1))
generate_invoice-IsNumbered_example = generate_invoice-IsNumbered today order shop no_invoices

abbrev returning : ReturnRequest
returning = record {
  id = 9;
  order = 1;
  user = 5;
  status = received;
  reviewed_by = some 2;
  reviewed_at = some 110;
  received_at = some 120;
  lines = [];
  return_shipment = none;
}

abbrev returning_shop : Shop
returning_shop = record shop { returns = returning ∷ [] }

abbrev refunding : Result Refund × Shop
unfolding initiate_return_refund refundable_payment initiate_refund open_refund apply_refund_result
    ◌+ℤ◌
refunding = initiate_return_refund slow_gateway today returning (pos 999) (some 2) returning_shop
