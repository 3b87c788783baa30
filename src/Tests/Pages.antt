-- ===== src/Tests/Pages.antt =====
-- The theorems on carts, slugs, alerts, listings, reviews and addresses, run on one shopper.
use shop_orbit.Base.{
  ℕ, ◌+◌, ◌≡◌, refl, arith, true, false, List, [], ◌∷◌, Option, none, some, ok, pos, ◌==◌,
  if◌then◌else◌, select, Text,
}
use shop_orbit.Accounts.Services.{Address, delete_address}
use shop_orbit.Accounts.Services.Book.{IsBook, delete, AddressStep-IsBook}
use shop_orbit.Cart.Baskets.{Baskets, CartLine, Offer, add_to_cart}
use shop_orbit.Cart.Baskets.Adding.{same_slot, units_in, add_to_cart-units, IsChoice, IsAsked}
use shop_orbit.Cart.Baskets.Owners.{cart_of, BasketStep-others}
use shop_orbit.Cart.Baskets.Tidy.{IsTidy, BasketStep, add, BasketStep-IsTidy}
use shop_orbit.Cart.Models.{Order, OrderStatus}
use shop_orbit.Catalog.Alerts.{Alerts, notify_restocked, request_stock_alert}
use shop_orbit.Catalog.Alerts.Sent.{mails_to, answered_alert_silent}
use shop_orbit.Catalog.Listing.{
  Listed, FilterState, apply_filters, expected, apply_filters-expected,
}
use shop_orbit.Catalog.Slugs.{SlugRow, exists, other_rows, unique_slugify}
use shop_orbit.Catalog.Slugs.Free.{unique_slugify-ends}
use shop_orbit.Tests.Samples.{lamp, order_in, cart_line, result_of}

abbrev offers : ℕ → Option Offer
offers k = if k == 1 then some (record { is_active = true; active_variants = [] }) else none

abbrev two_lamps : CartLine
two_lamps = record { id = 8; user = 6; product = 1; variant = none; quantity = 2 }

abbrev before : Baskets
before = record { lines = two_lamps ∷ []; wishes = []; next_id = 9 }

abbrev after : Baskets
unfolding add_to_cart
after = result_of before (add_to_cart offers 5 1 (some (pos 3)) none before)

added : add_to_cart offers 5 1 (some (pos 3)) none before ≡ ok after
unfolding add_to_cart
added = refl

before-IsTidy : IsTidy 9 (two_lamps ∷ [])
before-IsTidy = (omega arith, omega arith, tt, tt)

abbrev adding : BasketStep offers 5 before after
adding = add 1 (some (pos 3)) none added

BasketStep-IsTidy_example : IsTidy after.next_id after.lines
BasketStep-IsTidy_example = BasketStep-IsTidy offers 5 before after before-IsTidy adding

BasketStep-others_example : cart_of 6 after.lines ≡ cart_of 6 before.lines
BasketStep-others_example = BasketStep-others offers 5 6 before after before-IsTidy refl adding

add_to_cart-units_example :
    (offer : Offer) × (variant : Option ℕ) × (n : ℕ) × (offers 1 ≡ some offer)
    × (offer.is_active ≡ true)
    × IsChoice offer none variant
    × IsAsked (some (pos 3)) n
    × ((u p : ℕ) (v : Option ℕ)
        → units_in u p v after.lines
          ≡ units_in u p v before.lines + (if same_slot 5 1 variant u p v then n else 0))
add_to_cart-units_example =
    add_to_cart-units offers 5 1 (some (pos 3)) none before after before-IsTidy added

abbrev shirt : Text
shirt = 115 ∷ 104 ∷ []

abbrev slugs : List SlugRow
slugs = record { pk = 1; slug = shirt } ∷ []

unique_slugify-ends_example :
    (t : Text) × (unique_slugify (λ t. t) none shirt slugs ≡ some t)
    × (exists t (other_rows none slugs) ≡ false)
unique_slugify-ends_example = unique_slugify-ends (λ t. t) none shirt slugs

abbrev answered : Alerts
answered = record {
  alerts =
      record { product = 1; variant = none; user = some 5; email = 50; notified_at = some 100 }
      ∷ [];
  sent = [];
}

answered_alert_silent_example :
    mails_to 1 none 50
      (notify_restocked 200 false
        (some 0)
        4
        1
        none
        (request_stock_alert 1 none 50 (some 5) answered)).sent
    ≡ mails_to 1 none 50 answered.sent
answered_alert_silent_example =
    answered_alert_silent 200 1 none 50 (some 5) (some 0) 4 answered refl refl

abbrev shown : List Listed
shown = record { prices = cart_line.product; row = lamp 2 } ∷ []

abbrev cheap : FilterState
cheap = record {
  min_price = none;
  max_price = some (record { is_negative = false; digits = 10; places = 0 });
  in_stock_only = true;
}

apply_filters-expected_example : apply_filters cheap shown ≡ select (expected cheap) shown
apply_filters-expected_example =
    apply_filters-expected cheap shown ((λ h. absurd (ground arith)), tt)

abbrev bought : List Order
bought = order_in OrderStatus.delivered ∷ []

abbrev home : Address
home = record { id = 1; user = 5; is_default = true }

abbrev work : Address
work = record { id = 2; user = 5; is_default = false }

abbrev book : List Address
book = work ∷ home ∷ []

book-IsBook : IsBook book
book-IsBook = record { keyed = λ k. ground arith; one = λ v. ground arith }

AddressStep-IsBook_example : IsBook (delete_address home book)
AddressStep-IsBook_example =
    AddressStep-IsBook book (delete_address home book) book-IsBook (delete home refl refl)
