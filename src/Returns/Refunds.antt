-- ===== src/Returns/Refunds.antt =====
-- The refund of a return: `initiate_return_refund` of returns/services.py, over the gateway that the payment
-- service was made with. It runs outside of a transaction, so the callbacks of the refund come first.
pub mod Settled
use shop_orbit.Base.{ℕ, Option, some, bad_status, no_payment, ◌&&◌, ◌==◌, find, ℤ}
use shop_orbit.Fulfillment.Services.{Env}
use shop_orbit.Payments.Gateway.{Gateway}
use shop_orbit.Payments.Models.{Payment, Refund, holds_money}
use shop_orbit.Payments.Refunding.{initiate_refund}
use shop_orbit.Returns.Models.{ReturnRequest, same_return_status, received, refund_initiated}
use shop_orbit.Returns.Services.{update_return}
use shop_orbit.Shop.{Shop}
use shop_orbit.Shop.Action.{Action, pure, gets, modify, guard, get_or_raise, ◌>>=◌, ◌>>◌}

-- `ReturnRequest.refundable_payment`
unfoldable pub refundable_payment : ReturnRequest → Shop → Option Payment
refundable_payment r s =
    find (λ (p : Payment). p.order == r.order && holds_money p.status) s.payments

-- `return_request.status = REFUND_INITIATED`, saved
abbrev pub mark_initiated : ℕ → Shop → Shop
mark_initiated id = update_return id (λ row. record row { status = refund_initiated })

-- the save after the refund was started
abbrev pub close_request : ℕ → Refund → Action Refund
close_request id refund = do modify (mark_initiated id); pure refund

module _ {Body : Type 0} (gateway : Gateway Body) where
  -- `initiate_return_refund(return_request, amount, initiated_by=...)`
  unfoldable pub initiate_return_refund : Env → ReturnRequest → ℤ → Option ℕ → Action Refund
  unfolding initiate_refund refundable_payment
  initiate_return_refund env r amount by = do
    guard (same_return_status r.status received) bad_status
    found ← gets (refundable_payment r)
    p ← get_or_raise found no_payment
    refund ← initiate_refund gateway env p amount by (some r.id)
    close_request r.id refund
