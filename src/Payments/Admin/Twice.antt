-- ===== src/Payments/Admin/Twice.antt =====
-- A refund for a return, started from the admin's page while the gateway has not settled it.
use Prim.Native.String.{String}
use shop_orbit.Base.{
  ℕ, ◌≡◌, refl, ap, ◌∙◌, true, false, Option, none, some, Result, ok, err, is_ok, arith, pos, ltb_ℤ,
  Bool-cases, Option-cases, Result-cases, inl, inr, find, ◌==◌,
}
use shop_orbit.Fulfillment.Services.{Env}
use shop_orbit.Payments.Admin.{
  redirected, refund_view, offered_refund, payment_at, named_return, remaining_refundable, reported,
}
use shop_orbit.Payments.Gateway.{Gateway, GatewayRefund, GatewayRefundStatus}
use shop_orbit.Payments.Models.{Payment, Refund}
use shop_orbit.Payments.Refunding.{initiate_refund}
use shop_orbit.Payments.Refunding.Balance.{
  initiate_refund-returned, pending-unchanged, passed-decided,
}
use shop_orbit.Returns.Models.{ReturnRequest}
use shop_orbit.Returns.Refunds.{refundable_payment}
use shop_orbit.Shop.{Shop}
use shop_orbit.Shop.Action.{Action}

named-same :
    (request : Option ℕ) (s s' : Shop)
    → s'.returns ≡ s.returns
    → named_return request s' ≡ named_return request s
named-same none s s' same = refl
named-same (some id) s s' same = rw same refl

-- What the gateway takes, it has not settled when it answers.
abbrev pub SettlesLater : {Body : Type 0} → Gateway Body → Type 0
SettlesLater gateway =
    (id : Option String) (n : ℕ) (a : GatewayRefund)
    → gateway.initiate_refund id n ≡ ok a
    → a.status ≡ GatewayRefundStatus.pending

reported-decided : (r : Result Refund × Shop) → (reported r).0 ≡ ok (redirected (is_ok r.0))
reported-decided (ok a, s) = refl
reported-decided (err e, s) = refl

module _ {Body : Type 0} (gateway : Gateway Body) (env : Env) (staff payment_id : ℕ)
    (request form : Option ℕ) where
  abbrev start : Payment → ℕ → Action Refund
  start p amount = initiate_refund gateway env p (pos amount) (some staff) request

  -- What a post that started a refund has passed
  record Started (s : Shop) : Type 0 where
    payment : Payment
    amount : ℕ
    refund : Refund
    after : Shop
    found : payment_at payment_id s ≡ some payment
    named : named_return request s ≡ true
    typed : form ≡ some amount
    covered : ltb_ℤ (remaining_refundable payment) (pos amount) ≡ false
    started :
        initiate_refund gateway env payment (pos amount) (some staff) request s ≡ (ok refund, after)
    left : (refund_view gateway env staff true payment_id request form s).1 ≡ after

  passed :
      (s : Shop)
      → (refund_view gateway env staff true payment_id request form s).0 ≡ ok (redirected true)
      → Started s
  unfolding refund_view
  passed s h = elim (Option-cases (payment_at payment_id s)) [
    | inl missing ↦ absurd (ground arith)
    | inr (p, found) ↦ elim (Bool-cases (named_return request s)) [
      | inr unknown ↦ absurd (ground arith)
      | inl named ↦ elim (Option-cases form) [
        | inl blank ↦ absurd (ground arith)
        | inr (amount, typed) ↦ elim (Bool-cases (ltb_ℤ (remaining_refundable p) (pos amount))) [
          | inl over ↦ absurd (ground arith)
          | inr covered ↦ elim (Result-cases (start p amount s).0) [
            | inr (e, failed) ↦ absurd (ground arith)
            | inl (r, went) ↦ record {
              payment = p;
              amount = amount;
              refund = r;
              after = (start p amount s).1;
              found = found;
              named = named;
              typed = typed;
              covered = covered;
              started = ap (λ a. (a, (start p amount s).1)) went;
              left =
                  simp (found, named, typed, covered)
                    (ap (λ a. (reported (a, (start p amount s).1)).1) went);
            }
          ]
        ]
      ]
    ]
  ]

  -- a later post, which passes the tests of the page
  again :
      (later : Gateway Body) (env' : Env) (p : Payment) (amount : ℕ) (s' : Shop)
      → payment_at payment_id s' ≡ some p
      → named_return request s' ≡ true
      → form ≡ some amount
      → ltb_ℤ (remaining_refundable p) (pos amount) ≡ false
      → (refund_view later env' staff true payment_id request form s').0
        ≡ (reported (initiate_refund later env' p (pos amount) (some staff) request s')).0
  unfolding refund_view
  again later env' p amount s' found named typed covered = simp (found, named, typed, covered) refl

  -- Let the gateway settle what it takes later, then and when the post is sent again; whether it takes the
  -- second refund is its own matter. A refund that was started from the admin's page leaves every payment and
  -- every return as it was, so the return's page still offers the same refund; and the shop does not
  -- stop the same post from being sent again: it starts a second refund just if the gateway takes it.
  pub refund_view_twice :
      (later : Gateway Body) (env' : Env) (s : Shop)
      → SettlesLater gateway
      → SettlesLater later
      → (refund_view gateway env staff true payment_id request form s).0 ≡ ok (redirected true)
      → let s' = (refund_view gateway env staff true payment_id request form s).1 in
        (s'.payments ≡ s.payments)
        × (s'.returns ≡ s.returns)
        × ((r : ReturnRequest) → offered_refund r s' ≡ offered_refund r s)
        × (p : Payment) × (amount : ℕ) × (payment_at payment_id s ≡ some p)
        × (form ≡ some amount)
        × ((refund_view later env' staff true payment_id request form s').0
            ≡ ok (redirected (is_ok (later.initiate_refund p.gateway_payment_id amount))))
  unfolding offered_refund refundable_payment
  refund_view_twice later env' s slow slow_later h =
      let w = passed s h in
      let p = w.payment in
      let by = some staff in
      let (good, fine, _, _, _) =
        initiate_refund-returned gateway env p (pos w.amount) by request s w.after w.refund
          w.started in
      let (payments, returns) =
        pending-unchanged gateway env p (pos w.amount) by request s w.after w.refund
          (λ a. slow p.gateway_payment_id w.amount a) w.started in
      let found = ap (λ rows. find (λ (q : Payment). q.id == payment_id) rows) payments ∙ w.found in
      let decided =
        passed-decided later env' p (pos w.amount) by request w.after good fine
          (λ a. slow_later p.gateway_payment_id w.amount a) in
      rw w.left (
        payments,
        returns,
        λ r. rw payments refl,
        p,
        w.amount,
        w.found,
        w.typed,
        again later env' p w.amount w.after found (named-same request s w.after returns ∙ w.named)
              w.typed w.covered
            ∙ reported-decided (initiate_refund later env' p (pos w.amount) by request w.after)
            ∙ ap (λ b. ok (redirected b)) decided,
      )
