-- ===== src/Tests/Checkout.antt =====
-- A post of the checkout page with a saved address and no coupon.
use Prim.Native.String.{String}
use shop_orbit.Base.{
  ◌≡◌, round_half_even, ◌∷◌, sym, arith, false, true, none, some, [], ◌⊎◌, ok, refl,
}
use shop_orbit.Cart.CheckoutForm.{
  Field, saved_address, coupon_code, full_clean, Post, Django, Lookups,
}
use shop_orbit.Cart.CheckoutPage.{checkout_post, to_payment}
use shop_orbit.Cart.CheckoutPage.Answered.{Ordered, checkout_post-Ordered}
use shop_orbit.Cart.CheckoutPage.Limits.{IsWithin, checkout_post-IsWithin}
use shop_orbit.Cart.Pricing.{validate_for, unit_price, auto_promo_discount, calculate_discount}
use shop_orbit.Catalog.Pricing.{display_price}
use shop_orbit.Cart.Checkout.{place_order, out_of_stock_items}
use shop_orbit.Fulfillment.Services.{is_pincode_serviceable}
use shop_orbit.Inventory.Models.{item_target, record_row}
use shop_orbit.Inventory.Services.{reserve_stock}
use shop_orbit.Cart.Models.{OrderStatus}
use shop_orbit.Shop.{Shop}
use shop_orbit.Tests.Samples.{shop_in, coupon}

abbrev shop : Shop
shop = shop_in OrderStatus.payment_confirmed 0

abbrev plain : Django
plain = record {
  clean = λ f t. some t;
  strip = λ t. t;
  upper = λ t. t;
  instance_is_valid = λ c. true;
}

abbrev lookups : Lookups
lookups = record {
  pincodes = [];
  coupon_of = λ code. none;
  address_of = λ key. some (record { column = λ f. "home" });
  redemptions = [];
  now = 0;
}

abbrev posted : Field → String
posted saved_address = "3"
posted _ = ""

abbrev post : Post
post = record { text = posted; save_address = true }

-- the post goes through
goes_through : (checkout_post plain lookups 200 5 post shop).0 ≡ ok (to_payment 20)
unfolding checkout_post full_clean out_of_stock_items place_order reserve_stock record_row
    item_target is_pincode_serviceable
goes_through = refl

checkout_post-Ordered_example :
    ((checkout_post plain lookups 200 5 post shop).1 ≡ shop)
    ⊎ (((checkout_post plain lookups 200 5 post shop).0 ≡ ok (to_payment 20))
        × Ordered plain lookups 200 5 post shop (checkout_post plain lookups 200 5 post shop).1)
checkout_post-Ordered_example = checkout_post-Ordered plain lookups 200 5 post shop

-- a post with the only coupon
abbrev with_coupon : Lookups
with_coupon = record lookups { coupon_of = λ code. some coupon }

abbrev coded : Field → String
coded saved_address = "3"
coded coupon_code = "TEN"
coded _ = ""

abbrev coded_post : Post
coded_post = record { text = coded; save_address = false }

-- the post redeems it
redeems :
    (checkout_post plain with_coupon 200 5 coded_post shop).1.redemptions
    ≡ record { coupon = 3; user = 5; order = 20; discount_amount = 200 } ∷ []
unfolding checkout_post full_clean out_of_stock_items place_order reserve_stock record_row
    item_target is_pincode_serviceable validate_for unit_price display_price auto_promo_discount
    round_half_even calculate_discount
redeems = refl

unused-IsWithin : IsWithin coupon shop.redemptions
unused-IsWithin = record {
  overall = λ limit limited. omega arith;
  each = λ some_limit u. omega arith;
}

checkout_post-IsWithin_example :
    IsWithin coupon (checkout_post plain with_coupon 200 5 coded_post shop).1.redemptions
checkout_post-IsWithin_example =
    checkout_post-IsWithin plain with_coupon 200 5 coded_post coupon shop
      (λ code d found same. sym (ground (arith, found))) unused-IsWithin
