-- ===== src/Payments/Refunding/Balance.antt =====
-- What limits the refunds of a payment, and what does not.
use shop_orbit.Base.{
  ℕ, ◌≡◌, ◌+◌, ◌≤◌, ◌<◌, true, false, Option, Result, ok, is_ok, refl, ℤ, pos, negsuc, pos_part,
  ◌+ℤ◌, arith, Bool-cases, Result-cases, inl, inr, ap, sym, ◌∙◌,
}
use shop_orbit.Fulfillment.Services.{Env}
use shop_orbit.Payments.Models.{Payment, Refund, holds_money}
use shop_orbit.Payments.Gateway.{Gateway, GatewayRefund, GatewayRefundStatus}
use shop_orbit.Payments.Refunding.{
  initiate_refund, open_refund, apply_refund_result, is_bad_refund, new_refund,
}
use shop_orbit.Shop.{Shop}
use shop_orbit.Shop.Action.{>>=-returned}

good_amount :
    (p : Payment) (amount : ℤ)
    → is_bad_refund p amount ≡ false
    → (0 < pos_part amount)
      × (pos (pos_part amount) ≡ amount)
      × (p.refunded_amount + pos_part amount ≤ p.amount)
unfolding ◌+ℤ◌
good_amount p (pos n) h = ground arith
good_amount p (negsuc n) h = absurd (ground arith)

open_refund-amount :
    (env : Env) (p : Payment) (amount : ℤ) (by request : Option ℕ) (answer : GatewayRefund)
    (r : Refund) (s s' : Shop)
    → open_refund env p amount by request answer s ≡ (ok r, s')
    → r.amount ≡ pos_part amount
unfolding open_refund
open_refund-amount env p amount by request answer r s s' h =
    let opened = new_refund s.next_id p.id answer.gateway_refund_id (pos_part amount) by request in
    let (_, s1, _, e) =
      >>=-returned (apply_refund_result env.now opened p answer.status) (λ _ w. (ok opened, w)) _ s'
        r h in
    cc

open_refund-pending :
    (env : Env) (p : Payment) (amount : ℤ) (by request : Option ℕ) (answer : GatewayRefund)
    (s : Shop)
    → answer.status ≡ GatewayRefundStatus.pending
    → ((open_refund env p amount by request answer s).1.payments ≡ s.payments)
      × (s' : Shop) × (open_refund env p amount by request answer s ≡ (
        ok (new_refund s.next_id p.id answer.gateway_refund_id (pos_part amount) by request),
        s',
      ))
unfolding open_refund apply_refund_result
open_refund-pending env p amount by request answer s still =
    (simp still, (open_refund env p amount by request answer s).1, simp still)

open_refund-returns :
    (env : Env) (p : Payment) (amount : ℤ) (by request : Option ℕ) (answer : GatewayRefund)
    (s : Shop)
    → answer.status ≡ GatewayRefundStatus.pending
    → (open_refund env p amount by request answer s).1.returns ≡ s.returns
unfolding open_refund apply_refund_result
open_refund-returns env p amount by request answer s still = simp still

module _ {Body : Type 0} (gateway : Gateway Body) (env : Env) (p : Payment) (amount : ℤ) where
  -- what a call that returned has passed
  pub initiate_refund-returned :
      (by request : Option ℕ) (s s' : Shop) (r : Refund)
      → initiate_refund gateway env p amount by request s ≡ (ok r, s')
      → (holds_money p.status ≡ true)
        × (is_bad_refund p amount ≡ false)
        × (answer : GatewayRefund) × (gateway.initiate_refund p.gateway_payment_id (pos_part amount)
            ≡ ok answer)
        × (open_refund env p amount by request answer s ≡ (ok r, s'))
  unfolding initiate_refund
  initiate_refund-returned by request s s' r h = elim (Bool-cases (holds_money p.status)) [
    | inr closed ↦ absurd (ground arith)
    | inl good ↦ elim (Bool-cases (is_bad_refund p amount)) [
      | inl bad ↦ absurd (ground arith)
      | inr fine ↦
          elim (Result-cases (gateway.initiate_refund p.gateway_payment_id (pos_part amount))) [
            | inr (e, failed) ↦ absurd (ground arith)
            | inl (answer, sent) ↦ (good, fine, answer, sent, ground arith)
          ]
    ]
  ]

  -- A refund that is started is of a payment that holds money, for the amount that was asked for,
  -- which is positive and within what the payment has left to refund.
  pub initiate_refund_within :
      (by request : Option ℕ) (s s' : Shop) (r : Refund)
      → initiate_refund gateway env p amount by request s ≡ (ok r, s')
      → (holds_money p.status ≡ true)
        × (pos r.amount ≡ amount)
        × (0 < r.amount)
        × (p.refunded_amount + r.amount ≤ p.amount)
  unfolding initiate_refund
  initiate_refund_within by request s s' r h =
      let (good, fine, answer, _, opened) = initiate_refund-returned by request s s' r h in
      let (positive, same, within) = good_amount p amount fine in
      let e = open_refund-amount env p amount by request answer r s s' opened in
      (good, rw e same, rw e positive, rw e within)

  initiate_refund-opens :
      (by request : Option ℕ) (answer : GatewayRefund) (s : Shop)
      → holds_money p.status ≡ true
      → is_bad_refund p amount ≡ false
      → gateway.initiate_refund p.gateway_payment_id (pos_part amount) ≡ ok answer
      → initiate_refund gateway env p amount by request s
        ≡ open_refund env p amount by request answer s
  unfolding initiate_refund
  initiate_refund-opens by request answer s good fine answers = simp (good, fine, answers)

  -- A refund that the gateway took without settling it leaves every payment and every return as it was.
  pub pending-unchanged :
      (by request : Option ℕ) (s s' : Shop) (r : Refund)
      → ((a : GatewayRefund)
          → gateway.initiate_refund p.gateway_payment_id (pos_part amount) ≡ ok a
          → a.status ≡ GatewayRefundStatus.pending)
      → initiate_refund gateway env p amount by request s ≡ (ok r, s')
      → (s'.payments ≡ s.payments) × (s'.returns ≡ s.returns)
  pending-unchanged by request s s' r slow h =
      let (_, _, answer, sent, opened) = initiate_refund-returned by request s s' r h in
      let still = slow answer sent in
      (
        sym (ap (λ (w : Result Refund × Shop). w.1.payments) opened)
            ∙ (open_refund-pending env p amount by request answer s still).0,
        sym (ap (λ (w : Result Refund × Shop). w.1.returns) opened)
            ∙ open_refund-returns env p amount by request answer s still,
      )

  -- A refund that passes the shop's own tests goes through just if a gateway that settles later takes it.
  pub passed-decided :
      (by request : Option ℕ) (s : Shop)
      → holds_money p.status ≡ true
      → is_bad_refund p amount ≡ false
      → ((a : GatewayRefund)
          → gateway.initiate_refund p.gateway_payment_id (pos_part amount) ≡ ok a
          → a.status ≡ GatewayRefundStatus.pending)
      → is_ok (initiate_refund gateway env p amount by request s).0
        ≡ is_ok (gateway.initiate_refund p.gateway_payment_id (pos_part amount))
  unfolding initiate_refund
  passed-decided by request s good fine slow =
      elim (Result-cases (gateway.initiate_refund p.gateway_payment_id (pos_part amount))) [
        | inr (e, refused) ↦ simp (good, fine, refused) refl
        | inl (a, taken) ↦
            let (_, s', opened) = open_refund-pending env p amount by request a s (slow a taken) in
            ap (λ (w : Result Refund × Shop). is_ok w.0)
              (initiate_refund-opens by request a s good fine taken ∙ opened)
            ∙ sym (ap is_ok taken)
      ]
