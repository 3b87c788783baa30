-- ===== src/Staff/Orders/Outcome.antt =====
-- What the bulk actions that accept or pack come to, on rows as the query loaded them.
use shop_orbit.Base.{
  ℕ, ◌+◌, ◌≡◌, refl, ap, ◌∙◌, Bool, true, false, Option, some, List, [], ◌∷◌, Result, ok, err,
  bad_status, All, any_of, sum_by, ◌==◌, ◌&&◌, if◌then◌else◌, arith, Result-cases, Bool-cases, inl,
  inr, is_ok, put,
}
use shop_orbit.Cart.Models.{
  Order, OrderStatus, StatusChange, same_status, payment_confirmed, accepted,
}
use shop_orbit.Cart.Services.{advance_order_status, accept_order}
use shop_orbit.Cart.Services.Advance.{advance_decided, advance-Saved}
use shop_orbit.Shop.{Shop}
use shop_orbit.Shop.Courier.{restate}
use shop_orbit.Shop.Saves.{logged}
use shop_orbit.Staff.Bulk.{Tally, bulk, is_value_error}
use shop_orbit.Staff.Orders.{accept_order_action, nothing_yet}

-- The orders are rows of the table as they stand, each listed once.
abbrev pub IsListed : (ℕ → Option Order) → List Order → Type 0
IsListed rows [] = Unit
IsListed rows (o ∷ orders) =
    (rows o.id ≡ some o) × All (λ (p : Order). (p.id == o.id) ≡ false) orders × IsListed rows orders

-- How many of the orders are in a status, and how many are not
abbrev pub count_in : OrderStatus → List Order → ℕ
count_in status = sum_by (λ (o : Order). if same_status o.status status then 1 else 0)

abbrev pub count_out : OrderStatus → List Order → ℕ
count_out status = sum_by (λ (o : Order). if same_status o.status status then 0 else 1)

-- Whether the order `j` is among those in the status
abbrev pub is_among : OrderStatus → ℕ → List Order → Bool
is_among status j = any_of (λ (o : Order). (o.id == j) && same_status o.status status)

-- the entries that the action writes, newest first
abbrev pub entries :
    OrderStatus → OrderStatus → ℕ → List Order → List StatusChange → List StatusChange
entries from to staff [] h = h
entries from to staff (o ∷ orders) h =
    entries from to staff orders
      (if same_status o.status from then logged o.id from to (some staff) h else h)

still-IsListed :
    (o' : Order) (rows : ℕ → Option Order) (orders : List Order)
    → All (λ (p : Order). (p.id == o'.id) ≡ false) orders
    → IsListed rows orders
    → IsListed (put o'.id o' rows) orders
still-IsListed o' rows [] apart listed = listed
still-IsListed o' rows (p ∷ orders) (other, apart) (here, once, rest) =
    (ground (arith, here), once, still-IsListed o' rows orders apart rest)

not_among :
    (status : OrderStatus) (j : ℕ) (orders : List Order)
    → All (λ (p : Order). (p.id == j) ≡ false) orders
    → is_among status j orders ≡ false
not_among status j [] apart = refl
not_among status j (p ∷ orders) (other, apart) = ground (arith, not_among status j orders apart)

module _ (from to : OrderStatus) (staff : ℕ) where
  abbrev advance_each : List Order → Tally → Shop → Result Tally × Shop
  advance_each = bulk is_value_error (λ (o : Order). advance_order_status from to o (some staff))

  -- All that the loop does, from the counters `t`
  pub record Outcome (orders : List Order) (t : Tally) (s : Shop) : Type 0 where
    pub counted :
        (advance_each orders t s).0
        ≡ ok (record {
          done = t.done + count_in from orders;
          failed = t.failed + count_out from orders;
        })
    pub moved :
        (j : ℕ)
        → (advance_each orders t s).1.orders j
          ≡ (if is_among from j orders then restate to (s.orders j) else s.orders j)
    pub stock_same : (advance_each orders t s).1.inventory ≡ s.inventory
    pub history :
        (advance_each orders t s).1.order_history ≡ entries from to staff orders s.order_history

  advance_each-Outcome :
      (orders : List Order) (t : Tally) (s : Shop) → IsListed s.orders orders → Outcome orders t s
  unfolding bulk
  advance_each-Outcome [] t s listed = record {
    counted = ground arith;
    moved = λ j. refl;
    stock_same = refl;
    history = refl;
  }
  advance_each-Outcome (o ∷ orders) t s (here, apart, listed) =
      let (decided, why) = advance_decided from to o o (some staff) s here in
      elim (Result-cases (advance_order_status from to o (some staff) s)) [
        | inl (s', run) ↦
            let (was, w) = advance-Saved from to o o (some staff) s s' here run in
            let fits : same_status o.status from ≡ true = ground (arith, decided, ap is_ok run) in
            let row = record o { status = to } in
            let put_row : s'.orders ≡ put o.id row s.orders = w.orders_put in
            let fresh : IsListed s'.orders orders =
              rw put_row (still-IsListed row s.orders orders apart listed) in
            let rest = advance_each-Outcome orders (record t { done = t.done + 1 }) s' fresh in
            record {
              counted = simp run (ground (arith, rest.counted, fits));
              moved = λ j. simp run (elim (Bool-cases (o.id == j)) [
                | inl this ↦
                    let e : j ≡ o.id = ground arith in
                    let others = not_among from o.id orders apart in
                    rw e (rest.moved o.id ∙ ground (arith, others, put_row, here, fits))
                | inr other ↦ ground (arith, rest.moved j, put_row)
              ]);
              stock_same = simp run (rest.stock_same ∙ w.stock_same);
              history =
                  simp (run, fits)
                    (rest.history
                      ∙ ap (entries from to staff orders) (
                          w.history_logged
                          ∙ ap (λ st. logged o.id st to (some staff) s.order_history) was));
            }
        | inr (e, refused) ↦
            let fails : same_status o.status from ≡ false =
              ground (arith, decided, ap is_ok refused) in
            let bad : advance_order_status from to o (some staff) s ≡ err bad_status =
              why (ap is_ok refused) in
            let rest = advance_each-Outcome orders (record t { failed = t.failed + 1 }) s listed in
            record {
              counted = simp bad (ground (arith, rest.counted, fails));
              moved = λ j. simp bad (ground (arith, rest.moved j, fails));
              stock_same = simp bad rest.stock_same;
              history = simp (bad, fails) rest.history;
            }
      ]

-- Accept a selection of orders whose rows stand as the query loaded them, each selected once. The action
-- runs to its end, and what it reports is right: those that were paid are accepted, one audit entry each in
-- the staff member's name, the others are counted as failed, and nothing else of the orders, the stock
-- or the audit trail has changed.
pub accept_order_action-Outcome :
    (staff : ℕ) (orders : List Order) (s : Shop)
    → IsListed s.orders orders
    → ((accept_order_action staff orders s).0
        ≡ ok (record {
          done = count_in payment_confirmed orders;
          failed = count_out payment_confirmed orders;
        }))
      × ((j : ℕ)
          → (accept_order_action staff orders s).1.orders j ≡ (
              if is_among payment_confirmed j orders
              then restate accepted (s.orders j)
              else s.orders j))
      × ((accept_order_action staff orders s).1.inventory ≡ s.inventory)
      × ((accept_order_action staff orders s).1.order_history
          ≡ entries payment_confirmed accepted staff orders s.order_history)
unfolding accept_order_action accept_order
accept_order_action-Outcome staff orders s listed =
    let o = advance_each-Outcome payment_confirmed accepted staff orders nothing_yet s listed in
    (o.counted ∙ ap ok (ground arith), o.moved, o.stock_same, o.history)
