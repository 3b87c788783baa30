-- ===== src/Tests/Actions.antt =====
-- Actions of staff: a refund posted twice, parcels marked in bulk, and pincodes blocked in bulk.
use Prim.Native.String.{String}
use shop_orbit.Base.{
  ap, sym, is_ok, ok-injective, ℕ, ◌≡◌, ◌-ℤ◌, ◌+ℤ◌, refl, true, false, not, ◌&&◌, ok, some, none,
  [], ◌∷◌,
}
use shop_orbit.Cart.Models.{OrderStatus, packed}
use shop_orbit.Fulfillment.Admin.{mark_picked_up, mark_delivered, bulk_block_view}
use shop_orbit.Fulfillment.Admin.Blocked.{bulk_block_view-blocks, is_asked}
use shop_orbit.Fulfillment.Admin.Marked.{MarkOutcome, mark_picked_up-MarkOutcome}
use shop_orbit.Fulfillment.Models.{ShipmentStatus, picked_up}
use shop_orbit.Fulfillment.Services.{or_now, Pincode, is_pincode_serviceable}
use shop_orbit.Payments.Admin.{redirected, refund_view, offered_refund, payment_at}
use shop_orbit.Payments.Admin.Twice.{SettlesLater, refund_view_twice}
use shop_orbit.Payments.Gateway.{GatewayRefund}
use shop_orbit.Payments.Models.{Payment}
use shop_orbit.Payments.Refunding.{initiate_refund, open_refund, apply_refund_result}
use shop_orbit.Returns.Models.{ReturnRequest}
use shop_orbit.Shop.{Shop}
use shop_orbit.Tests.Samples.{shop_in, parcel, today, slow_gateway}

abbrev home : Shop
home = shop_in OrderStatus.delivered 0

-- half of the payment
posted : (refund_view slow_gateway today 9 true 7 none (some 999) home).0 ≡ ok (redirected true)
unfolding refund_view initiate_refund open_refund apply_refund_result ◌-ℤ◌ ◌+ℤ◌
posted = refl

slow-SettlesLater : SettlesLater slow_gateway
slow-SettlesLater id n a h = ap (λ (x : GatewayRefund). x.status) (ok-injective (sym h))

refund_view_twice_example :
    let s' = (refund_view slow_gateway today 9 true 7 none (some 999) home).1 in
    (s'.payments ≡ home.payments)
    × (s'.returns ≡ home.returns)
    × ((r : ReturnRequest) → offered_refund r s' ≡ offered_refund r home)
    × (p : Payment) × (amount : ℕ) × (payment_at 7 home ≡ some p)
    × (some 999 ≡ some amount)
    × ((refund_view slow_gateway today 9 true 7 none (some 999) s').0
        ≡ ok (redirected (is_ok (slow_gateway.initiate_refund p.gateway_payment_id amount))))
refund_view_twice_example =
    refund_view_twice slow_gateway today 9 7 none (some 999) slow_gateway today home
      slow-SettlesLater slow-SettlesLater posted

abbrev counter : Shop
counter = shop_in packed 0

-- the same parcel is selected twice
mark_picked_up-MarkOutcome_example :
    ((mark_picked_up 300 9 (parcel none ∷ parcel none ∷ []) counter).0
      ≡ ok (record { done = 2; failed = 0 }))
    × MarkOutcome
        (λ sh. record sh { status = picked_up; shipped_at = or_now sh.shipped_at 300 })
        OrderStatus.shipped
        (parcel none ∷ parcel none ∷ [])
        counter
        (mark_picked_up 300 9 (parcel none ∷ parcel none ∷ []) counter).1
    × ((mark_delivered 300 9 (parcel none ∷ parcel none ∷ []) counter).0
        ≡ ok (record { done = 2; failed = 0 }))
    × MarkOutcome
        (λ sh. record sh { status = ShipmentStatus.delivered; delivered_at = some 300 })
        OrderStatus.delivered
        (parcel none ∷ parcel none ∷ [])
        counter
        (mark_delivered 300 9 (parcel none ∷ parcel none ∷ []) counter).1
mark_picked_up-MarkOutcome_example =
    mark_picked_up-MarkOutcome 300 9 (parcel none ∷ parcel none ∷ []) counter
      ((refl, refl), ((refl, refl), tt))

abbrev as_typed : String → String
as_typed w = w

abbrev open_before : Pincode
open_before = record { postal_code = "560002"; is_serviceable = true; note = "" }

bulk_block_view-blocks_example :
    ((bulk_block_view as_typed false ("560001" ∷ "" ∷ "560001" ∷ []) "flood" (open_before ∷ [])).1
      ≡ open_before ∷ [])
    × (is_pincode_serviceable "560001"
          (bulk_block_view as_typed true
            ("560001" ∷ "" ∷ "560001" ∷ [])
            "flood"
            (open_before ∷ [])).1
        ≡ (not (is_asked as_typed "560001" ("560001" ∷ "" ∷ "560001" ∷ []))
            && is_pincode_serviceable "560001" (open_before ∷ [])))
bulk_block_view-blocks_example =
    bulk_block_view-blocks as_typed ("560001" ∷ "" ∷ "560001" ∷ []) "flood" "560001"
      (open_before ∷ [])
