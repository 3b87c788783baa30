-- ===== src/Payments/PayPage.antt =====
-- The page that a buyer pays on (`checkout_payment` of cart/views.py): the live attempt of an order, or a new one.
use shop_orbit.Base.{
  ℕ, ◌+◌, ◌≡◌, refl, ap, ◌∙◌, Bool, not, ◌&&◌, ◌||◌, Option, none, some, ◌∷◌, Result, ok, err,
  does_not_exist, ◌==◌, if◌then◌else◌, find, pos_part, arith, Bool-cases, Option-cases,
  Result-cases, inl, inr,
}
use shop_orbit.Cart.Models.{
  Order, same_status, payment_confirmed, awaiting_payment, payment_failed, total_amount,
}
use shop_orbit.Payments.Gateway.{Gateway}
use shop_orbit.Payments.Models.{Payment, is_terminal, created, created_event}
use shop_orbit.Payments.Services.{create_payment_for_order, new_payment, log_event}
use shop_orbit.Shop.{Shop}
use shop_orbit.Shop.Action.{Action}

-- What the page answers
pub data Page : Type 0 where
  to_confirmation to_profile unavailable : Page
  pay : Payment → Page

-- `get_object_or_404(Order, order_number=..., user=request.user)`
abbrev pub own_order : ℕ → ℕ → Shop → Option Order
own_order user id s = elim (s.orders id) [
  | none ↦ none
  | some o ↦ if o.user == user then some o else none
]

-- `order.payments.exclude(status__in=Payment.TERMINAL_STATUSES)`, newest first
abbrev pub is_live_for : ℕ → Payment → Bool
is_live_for order p = (p.order == order) && not (is_terminal p.status)

abbrev pub live_payment : Order → Shop → Option Payment
live_payment o s = find (is_live_for o.id) s.payments

-- `try: ... except Exception: ...` around the new attempt
abbrev pub page_of : Result Payment × Shop → Result Page × Shop
page_of (ok p, s) = (ok (pay p), s)
page_of (err e, s) = (ok unavailable, s)

module _ {Body : Type 0} (gateway : Gateway Body) where
  abbrev pub page_for : ℕ → Order → Action Page
  page_for user o s =
      if same_status o.status payment_confirmed
      then (ok to_confirmation, s)
      else if not (same_status o.status awaiting_payment || same_status o.status payment_failed)
      then (ok to_profile, s)
      else elim (live_payment o s) [
        | some p ↦ (ok (pay p), s)
        | none ↦ page_of (create_payment_for_order gateway o user s)
      ]

  -- `checkout_payment`
  unfoldable pub checkout_payment : ℕ → ℕ → Action Page
  checkout_payment user id s = elim (own_order user id s) [
    | none ↦ (err does_not_exist, s)
    | some o ↦ page_for user o s
  ]

  -- a new attempt is the live one of its order, and the orders are as they were
  created_live :
      (user : ℕ) (o : Order) (s s1 : Shop) (p : Payment)
      → create_payment_for_order gateway o user s ≡ (ok p, s1)
      → (live_payment o s1 ≡ some p) × (s1.orders ≡ s.orders)
  unfolding create_payment_for_order
  created_live user o s s1 p h =
      elim (Result-cases (gateway.create_order (pos_part (total_amount o)))) [
        | inr (e, failed) ↦ absurd (ground arith)
        | inl (key, made) ↦
            let fresh = new_payment s.next_id o user (pos_part (total_amount o)) key in
            let after =
              log_event fresh.id created_event none created
                (record s { payments = fresh ∷ s.payments; next_id = s.next_id + 1 }) in
            let e : (p ≡ fresh) × (s1 ≡ after) = ground arith in rw (e.0, e.1) (ground arith, refl)
      ]

  page_for-live :
      (user : ℕ) (o : Order) (s s1 : Shop) (p : Payment)
      → page_for user o s ≡ (ok (pay p), s1)
      → (live_payment o s1 ≡ some p)
        × (s1.orders ≡ s.orders)
        × (page_for user o s1 ≡ (ok (pay p), s1))
  page_for-live user o s s1 p h = elim (Option-cases (live_payment o s)) [
    | inr (q, live) ↦ (ground arith, ground arith, ground arith)
    | inl none_live ↦ elim (Result-cases (create_payment_for_order gateway o user s).0) [
      | inr (e, failed) ↦ absurd (ground arith)
      | inl (q, made) ↦
          let e : create_payment_for_order gateway o user s ≡ (ok p, s1) = ground arith in
          let (live, orders) = created_live user o s s1 p e in (live, orders, ground arith)
    ]
  ]

  -- Where the page shows an attempt, the order is the buyer's own and the attempt is its newest
  -- live one; and when the page is loaded again it shows that same attempt and changes nothing, so
  -- that a reload makes no second order at the gateway.
  pub checkout_payment-reload :
      (user id : ℕ) (s s1 : Shop) (p : Payment)
      → checkout_payment user id s ≡ (ok (pay p), s1)
      → (o : Order) × (s.orders id ≡ some o)
        × (o.user ≡ user)
        × (live_payment o s1 ≡ some p)
        × (checkout_payment user id s1 ≡ (ok (pay p), s1))
  unfolding checkout_payment
  checkout_payment-reload user id s s1 p h = elim (Option-cases (s.orders id)) [
    | inl missing ↦ absurd (ground arith)
    | inr (o, found) ↦ elim (Bool-cases (o.user == user)) [
      | inr foreign ↦ absurd (ground arith)
      | inl own ↦
          let shown : page_for user o s ≡ (ok (pay p), s1) = ground arith in
          let (live, orders, again) = page_for-live user o s s1 p shown in
          let row : s1.orders id ≡ some o = ap (λ f. f id) orders ∙ found in
          (o, found, ground arith, live, ground arith)
    ]
  ]
