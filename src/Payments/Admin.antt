-- ===== src/Payments/Admin.antt =====
-- payments/admin.py, and the refund button of the store dashboard (accounts/views.py): what staff do with a
-- payment. `form` is the cleaned amount of `RefundForm`, in paise, and `none` where it is not valid.
pub mod Twice
use shop_orbit.Base.{
  ℕ, ◌+◌, Bool, true, false, Option, none, some, List, [], ◌∷◌, Result, ok, err, not, ◌==◌, find,
  ltb_ℤ, if◌then◌else◌, ℤ, pos, ◌-ℤ◌,
}
use shop_orbit.Fulfillment.Services.{Env}
use shop_orbit.Payments.Gateway.{Gateway}
use shop_orbit.Payments.Models.{Payment, Refund}
use shop_orbit.Payments.Refunding.{initiate_refund}
use shop_orbit.Payments.Services.{reconcile_payment}
use shop_orbit.Returns.Models.{ReturnRequest, same_return_status, received}
use shop_orbit.Returns.Refunds.{refundable_payment}
use shop_orbit.Returns.Services.{return_at}
use shop_orbit.Shop.{Shop}
use shop_orbit.Shop.Action.{Action}
use shop_orbit.Staff.Bulk.{Tally}

-- What a post of a refund comes to: refused for its user or its keys, the page again (or an error
-- message), or a redirect with whether the refund was started
pub data RefundAnswer : Type 0 where
  forbidden not_found not_valid over_remaining : RefundAnswer
  redirected : Bool → RefundAnswer

-- `Payment.remaining_refundable`
abbrev pub remaining_refundable : Payment → ℤ
remaining_refundable p = pos p.amount -ℤ pos p.refunded_amount

abbrev pub payment_at : ℕ → Shop → Option Payment
payment_at id s = find (λ (p : Payment). p.id == id) s.payments

-- `try: ... except Exception: ... else: ...`; what was committed stays
abbrev pub reported : Result Refund × Shop → Result RefundAnswer × Shop
reported (ok r, s) = (ok (redirected true), s)
reported (err e, s) = (ok (redirected false), s)

-- `get_object_or_404(ReturnRequest, pk=...)`, where a return is named
abbrev named_return : Option ℕ → Shop → Bool
named_return none s = true
named_return (some id) s = elim (return_at id s) [ none ↦ false | some r ↦ true ]

module _ {Body : Type 0} (gateway : Gateway Body) (env : Env) (staff : ℕ) where
  -- the form, the limit and the refund
  abbrev pub submit_refund : Payment → Option ℕ → Option ℕ → Action RefundAnswer
  submit_refund p request none s = (ok not_valid, s)
  submit_refund p request (some amount) s =
      if ltb_ℤ (remaining_refundable p) (pos amount)
      then (ok over_remaining, s)
      else reported (initiate_refund gateway env p (pos amount) (some staff) request s)

  -- `PaymentAdmin.refund_view` on a POST; `allowed` is `has_perm("payments.change_payment")`
  unfoldable pub refund_view : Bool → ℕ → Option ℕ → Option ℕ → Action RefundAnswer
  refund_view allowed payment_id request form s =
      if not allowed then (ok forbidden, s) else elim (payment_at payment_id s) [
        | none ↦ (ok not_found, s)
        | some p ↦
            if named_return request s then submit_refund p request form s else (ok not_found, s)
      ]

  -- `store_dashboard_refund_payment`
  unfoldable pub store_dashboard_refund_payment : Bool → ℕ → Option ℕ → Action RefundAnswer
  store_dashboard_refund_payment allowed payment_id form s = elim (payment_at payment_id s) [
    | none ↦ (ok not_found, s)
    | some p ↦ if not allowed then (ok forbidden, s) else submit_refund p none form s
  ]

  -- `PaymentAdmin.reconcile_with_gateway`, from the counters that it has reached: any exception is
  -- counted, and what was committed before it stays
  abbrev counted : Result (Unit {0}) → Tally → Tally
  counted (ok u) t = record t { done = t.done + 1 }
  counted (err e) t = record t { failed = t.failed + 1 }

  unfoldable pub reconcile_with_gateway : List Payment → Tally → Action Tally
  reconcile_with_gateway [] t s = (ok t, s)
  reconcile_with_gateway (p ∷ payments) t s =
      reconcile_with_gateway payments (counted (reconcile_payment gateway env p s).0 t)
        (reconcile_payment gateway env p s).1

-- `ReturnRequestAdmin.refund_action`: whether the page of a return offers its refund, and for which payment
unfoldable pub offered_refund : ReturnRequest → Shop → Option Payment
offered_refund r s = if same_return_status r.status received then refundable_payment r s else none
