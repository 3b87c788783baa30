-- ===== src/Returns/Refunds/Settled.antt =====
-- The status of a return once its refund was started.
use mathlib.Core.Path.{subst}
use shop_orbit.Base.{
  Bool-cases, Option-cases, inl, inr, ℕ, ◌≡◌, sym, ap, ◌∙◌, true, Option, some, List, [], ◌∷◌,
  Result, ok, arith, ◌==◌, map, All, ℤ, if◌then◌else◌,
}
use shop_orbit.Fulfillment.Services.{Env}
use shop_orbit.Payments.Gateway.{Gateway}
use shop_orbit.Payments.Models.{Refund}
use shop_orbit.Payments.Refunding.{initiate_refund}
use shop_orbit.Returns.Models.{
  ReturnRequest, ReturnStatus, refund_initiated, same_return_status, received,
}
use shop_orbit.Returns.Refunds.{initiate_return_refund, refundable_payment, close_request}
use shop_orbit.Shop.{Shop}
use shop_orbit.Shop.Action.{>>=-returned, ◌>>=◌}

-- Every row of the return `id` has this status.
abbrev pub HasStatus : ℕ → ReturnStatus → List ReturnRequest → Type 0
HasStatus id status = All (λ (r : ReturnRequest). (r.id == id) ≡ true → r.status ≡ status)

marked :
    (id : ℕ) (rs : List ReturnRequest)
    → HasStatus id refund_initiated (
        map
          (λ (r : ReturnRequest). if r.id == id then record r { status = refund_initiated } else r)
          rs)
marked id [] = tt
marked id (r ∷ rs) = (λ own. ground arith, marked id rs)

module _ {Body : Type 0} (gateway : Gateway Body) where
  -- When a return's refund has been started the return reads "refund initiated", whatever the
  -- gateway answered, also where it settled the refund at once.
  initiate_return_refund-HasStatus :
      (env : Env) (r : ReturnRequest) (amount : ℤ) (by : Option ℕ) (s s' : Shop) (refund : Refund)
      → initiate_return_refund gateway env r amount by s ≡ (ok refund, s')
      → HasStatus r.id refund_initiated s'.returns
  unfolding initiate_return_refund
  initiate_return_refund-HasStatus env r amount by s s' refund h =
      elim (Bool-cases (same_return_status r.status received)) [
        | inr early ↦ absurd (ground arith)
        | inl ready ↦ elim (Option-cases (refundable_payment r s)) [
          | inl missing ↦ absurd (ground arith)
          | inr (p, found) ↦
              let runs : initiate_return_refund gateway env r amount by s
                  ≡ (initiate_refund gateway env p amount by (some r.id) >>= close_request r.id) s =
                simp (ready, found) in
              let (started, s1, _, saved) =
                >>=-returned (initiate_refund gateway env p amount by (some r.id))
                  (close_request r.id) s s' refund (sym runs ∙ h) in
              subst (HasStatus r.id refund_initiated)
                (ap (λ (w : Result Refund × Shop). w.1.returns) saved) (marked r.id s1.returns)
        ]
      ]
