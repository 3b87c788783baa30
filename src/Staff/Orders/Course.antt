-- ===== src/Staff/Orders/Course.antt =====
-- Whatever is pressed, an order moves only by the transition that was pressed, only if it was pressed for, and
-- the stock that is reserved stays just what the orders hold.
use shop_orbit.Base.{
  ℕ, ◌≡◌, ◌≢◌, refl, sym, ap, ◌∙◌, ◌<◌, ◌⊎◌, Bool, true, false, Option, none, some, List, [], ◌∷◌,
  Result, ok, err, All, any_of, ◌==◌, ==_refl, ◌&&◌, arith, Option-cases, Bool-cases, inl, inr, not,
}
use mathlib.Core.Path.{subst}
use shop_orbit.Cart.Models.{Order, OrderStatus, payment_failed}
use shop_orbit.Cart.Services.{cancel_order}
use shop_orbit.Orders.Lifecycle.{Event, transition, cancellation, acceptance, packing}
use shop_orbit.Orders.Steps.{OrderStep, Run, here, next}
use shop_orbit.Orders.Steps.Balance.{status_at, status_of}
use shop_orbit.Orders.Steps.Later.{event_of}
use shop_orbit.Orders.Steps.Runs.{IsExact, Run-IsExact, balanced}
use shop_orbit.Shop.{Shop}
use shop_orbit.Staff.Bulk.{is_value_error}
use shop_orbit.Staff.Orders.{
  cancel_selected_orders, accept_order_action, mark_packed_action, store_dashboard_order_accept,
  store_dashboard_order_mark_packed, store_dashboard_order_cancel, cancel_own_order, noticed,
}

-- What may be pressed: an action of the admin on the rows that its query loaded, a button of the dashboard,
-- or the buyer's.
pub data Press : Type 0 where
  cancel_rows accept_rows pack_rows : ℕ → List Order → Press
  accept_one pack_one : ℕ → ℕ → Press
  cancel_one : ℕ → Bool → ℕ → Press
  buyer_cancels : ℕ → ℕ → Press

-- The shop after it
abbrev pub press : Press → Shop → Shop
press (cancel_rows staff orders) s = (cancel_selected_orders staff orders s).1
press (accept_rows staff orders) s = (accept_order_action staff orders s).1
press (pack_rows staff orders) s = (mark_packed_action staff orders s).1
press (accept_one staff id) s = (store_dashboard_order_accept staff id s).1
press (pack_one staff id) s = (store_dashboard_order_mark_packed staff id s).1
press (cancel_one staff reason id) s = (store_dashboard_order_cancel staff reason id s).1
press (buyer_cancels user id) s = (cancel_own_order user id s).1

-- The order's key is below `n`, and its payment did not fail.
abbrev pub IsUnfailed : ℕ → Shop → ℕ → Type 0
IsUnfailed n s id = (id < n) × (status_at id s ≢ some payment_failed)

-- What it is pressed on has keys below `n`; where it cancels, no payment failed.
abbrev pub IsPressable : ℕ → Shop → Press → Type 0
IsPressable n s (cancel_rows staff orders) = All (λ (o : Order). IsUnfailed n s o.id) orders
IsPressable n s (accept_rows staff orders) = All (λ (o : Order). o.id < n) orders
IsPressable n s (pack_rows staff orders) = All (λ (o : Order). o.id < n) orders
IsPressable n s (accept_one staff id) = id < n
IsPressable n s (pack_one staff id) = id < n
IsPressable n s (cancel_one staff reason id) = IsUnfailed n s id
IsPressable n s (buyer_cancels user id) = IsUnfailed n s id

-- What it asks for
abbrev pub asks : Press → Event
asks (cancel_rows staff orders) = cancellation
asks (accept_rows staff orders) = acceptance
asks (pack_rows staff orders) = packing
asks (accept_one staff id) = acceptance
asks (pack_one staff id) = packing
asks (cancel_one staff reason id) = cancellation
asks (buyer_cancels user id) = cancellation

abbrev pub is_of : ℕ → Option Order → Bool
is_of user none = false
is_of user (some o) = o.user == user

abbrev pub is_row : ℕ → List Order → Bool
is_row j = any_of (λ (o : Order). o.id == j)

-- Whether it may touch the order `j`: staff's rows and buttons those that they name, a cancellation with its
-- reason; a buyer's only an order of the buyer's own
abbrev pub is_asked : Press → Shop → ℕ → Bool
is_asked (cancel_rows staff orders) s j = is_row j orders
is_asked (accept_rows staff orders) s j = is_row j orders
is_asked (pack_rows staff orders) s j = is_row j orders
is_asked (accept_one staff id) s j = id == j
is_asked (pack_one staff id) s j = id == j
is_asked (cancel_one staff reason id) s j = reason && (id == j)
is_asked (buyer_cancels user id) s j = is_of user (s.orders j) && (id == j)

-- The order `j` stayed in its status, or it was asked for and made the one move of the event.
abbrev pub IsMoved : Event → (ℕ → Bool) → Shop → Shop → ℕ → Type 0
IsMoved e asked s m j =
    (status_at j m ≡ status_at j s)
    ⊎ ((asked j ≡ true) × (transition e (status_at j s) (status_at j m) ≡ true))

-- An event that does not happen twice in a row, and is no failure of a payment.
pub record IsFinal (e : Event) : Type 0 where
  once : (a b c : Option OrderStatus) → transition e a b ≡ true → transition e b c ≡ true → ⊥
  no_failure : (a : Option OrderStatus) → transition e a (some payment_failed) ≡ true → ⊥

cancelled_once :
    (a b c : Option OrderStatus)
    → transition cancellation a b ≡ true
    → transition cancellation b c ≡ true
    → ⊥
cancelled_once a none c h k = ground arith
cancelled_once a (some b) c h k = ground arith

accepted_once :
    (a b c : Option OrderStatus)
    → transition acceptance a b ≡ true
    → transition acceptance b c ≡ true
    → ⊥
accepted_once a none c h k = ground arith
accepted_once a (some b) c h k = ground arith

packed_once :
    (a b c : Option OrderStatus) → transition packing a b ≡ true → transition packing b c ≡ true → ⊥
packed_once a none c h k = ground arith
packed_once a (some b) c h k = ground arith

pub cancellation-IsFinal : IsFinal cancellation
cancellation-IsFinal = record { once = cancelled_once; no_failure = λ a h. ground arith }

pub acceptance-IsFinal : IsFinal acceptance
acceptance-IsFinal = record { once = accepted_once; no_failure = λ a h. ground arith }

pub packing-IsFinal : IsFinal packing
packing-IsFinal = record { once = packed_once; no_failure = λ a h. ground arith }

-- each row of a list is one that the list names
pub named_rows :
    (Q : Order → Type 0) (all rows : List Order)
    → ((j : ℕ) → is_row j rows ≡ true → is_row j all ≡ true)
    → All Q rows
    → All (λ (o : Order). Q o × (is_row o.id all ≡ true)) rows
named_rows Q all [] into each = tt
named_rows Q all (o ∷ rows) into (this, each) = (
  (this, into o.id (ground (arith, ==_refl o.id))),
  named_rows Q all rows (λ j h. into j (ground arith)) each,
)

pub cancel-found :
    (obj : Order) (actor : Option ℕ) (s s' : Shop)
    → cancel_order obj actor s ≡ ok s'
    → (o : Order) × (s.orders obj.id ≡ some o)
unfolding cancel_order
cancel-found obj actor s s' h = elim (Option-cases (s.orders obj.id)) [
  | inl missing ↦ absurd (ground (arith, Bool-cases (not true)))
  | inr (o, found) ↦ (o, found)
]

module _ (n : ℕ) (s : Shop) (exact : IsExact n s) (e : Event) (final : IsFinal e)
    (asked : ℕ → Bool) where
  -- what has been done for the event so far
  pub record Reached (m : Shop) : Type 0 where
    pub run : Run n s m
    pub moved : (j : ℕ) → IsMoved e asked s m j

  pub at_start : Reached s
  at_start = record { run = here; moved = λ j. inl refl }

  pub Reached-IsExact : (m : Shop) → Reached m → IsExact n m
  Reached-IsExact m before = Run-IsExact n s m exact before.run

  pub still_unfailed :
      (m : Shop) (j : ℕ)
      → Reached m
      → status_at j s ≢ some payment_failed
      → status_at j m ≢ some payment_failed
  still_unfailed m j before fine failed = elim (before.moved j) [
    | inl same ↦ fine (sym same ∙ failed)
    | inr (_, by) ↦
        final.no_failure (status_at j s) (ap (transition e (status_at j s)) (sym failed) ∙ by)
  ]

  -- a step of the event, of an order that is asked for
  pub stepped :
      (m m' : Shop) (id : ℕ) (step : OrderStep id m m')
      → Reached m
      → id < n
      → event_of step ≡ e
      → asked id ≡ true
      → Reached m'
  stepped m m' id step before below same_event wanted =
      let b = balanced n id m m' below (Reached-IsExact m before) step in
      let by : transition e (status_at id m) (status_at id m') ≡ true =
        ap (λ x. transition x (status_at id m) (status_at id m')) (sym same_event) ∙ b.moved in
      let here_moved : IsMoved e asked s m' id = elim (before.moved id) [
        | inl same ↦ inr (wanted, ap (λ x. transition e x (status_at id m')) (sym same) ∙ by)
        | inr (_, already) ↦
            absurd (final.once (status_at id s) (status_at id m) (status_at id m') already by)
      ] in
      record {
        run = next before.run id below step;
        moved = λ j. elim (Bool-cases (id == j)) [
          | inl same ↦ let at : id ≡ j = ground arith in subst (IsMoved e asked s m') at here_moved
          | inr apart ↦
              let kept : status_at j m' ≡ status_at j m = ap status_of (b.others j apart) in
              elim (before.moved j) [
                | inl same ↦ inl (kept ∙ same)
                | inr (wanted, once) ↦ inr (wanted, ap (transition e (status_at j s)) kept ∙ once)
              ]
        ];
      }

  -- a button either ran its call, or left the shop as it was
  pub noticed-Reached :
      (r : Result Shop) → ((s' : Shop) → r ≡ ok s' → Reached s') → Reached (noticed r s).1
  noticed-Reached (ok s') ran = ran s' refl
  noticed-Reached (err x) ran = elim (Bool-cases (is_value_error x)) [
    | inl caught ↦ simp caught at_start
    | inr raised ↦ simp raised at_start
  ]
