-- ===== src/Staff/Orders/Presses.antt =====
-- Each action and each button on orders, pressed on a shop whose orders hold just what is reserved.
use shop_orbit.Base.{
  ℕ, ◌≡◌, refl, ap, ◌∙◌, ◌<◌, ◌≢◌, Bool, true, false, Option, some, List, All, ◌==◌, ◌&&◌, ==_refl,
  arith, ok, Option-cases, Bool-cases, inl, inr,
}
use shop_orbit.Cart.Models.{Order, payment_failed}
use shop_orbit.Cart.Services.{cancel_order, accept_order, mark_order_packed}
use shop_orbit.Orders.Lifecycle.{cancellation, acceptance, packing}
use shop_orbit.Orders.Steps.{cancel, accept, pack}
use shop_orbit.Orders.Steps.Balance.{status_of}
use shop_orbit.Orders.Steps.Runs.{IsExact}
use shop_orbit.Shop.{Shop}
use shop_orbit.Staff.Bulk.{bulk_inv, is_value_error}
use shop_orbit.Staff.Orders.{
  cancel_selected_orders, accept_order_action, mark_packed_action, store_dashboard_order_accept,
  store_dashboard_order_mark_packed, store_dashboard_order_cancel, cancel_own_order, nothing_yet,
  noticed,
}
use shop_orbit.Staff.Orders.Course.{
  Press, press, asks, is_asked, is_row, is_of, IsPressable, IsUnfailed, IsMoved, Reached, at_start,
  stepped, still_unfailed, Reached-IsExact, noticed-Reached, named_rows, cancel-found,
  cancellation-IsFinal, acceptance-IsFinal, packing-IsFinal, cancel_rows, accept_rows, pack_rows,
  accept_one, pack_one, cancel_one, buyer_cancels,
}

module _ (n : ℕ) (s : Shop) (exact : IsExact n s) where
  abbrev Cancels : (ℕ → Bool) → Shop → Type 0
  Cancels asked = Reached n s exact cancellation cancellation-IsFinal asked

  -- a cancellation, of a row as the caller holds it
  cancelled-Reached :
      (asked : ℕ → Bool) (obj : Order) (actor : Option ℕ) (m m' : Shop)
      → Cancels asked m
      → IsUnfailed n s obj.id
      → asked obj.id ≡ true
      → cancel_order obj actor m ≡ ok m'
      → Cancels asked m'
  cancelled-Reached asked obj actor m m' before (below, fine) wanted h =
      let (o, found) = cancel-found obj actor m m' h in
      let key =
        (Reached-IsExact n s exact cancellation cancellation-IsFinal asked m before).keyed obj.id
          below o found in
      let sound : o.status ≢ payment_failed = λ e.
        still_unfailed n s exact cancellation cancellation-IsFinal asked m obj.id before fine
          (ap status_of found ∙ ap some e) in
      stepped n s exact cancellation cancellation-IsFinal asked m m' obj.id
        (cancel obj o actor refl (found, key) sound h) before below refl wanted

  cancel_rows-Reached :
      (staff : ℕ) (orders : List Order)
      → All (λ (o : Order). IsUnfailed n s o.id) orders
      → Cancels (λ j. is_row j orders) (cancel_selected_orders staff orders s).1
  unfolding cancel_selected_orders
  cancel_rows-Reached staff orders each =
      bulk_inv is_value_error (λ (o : Order). cancel_order o (some staff))
        (Cancels (λ j. is_row j orders)) (λ o. IsUnfailed n s o.id × (is_row o.id orders ≡ true))
        (λ o m m' (fine, wanted) h before.
          cancelled-Reached (λ j. is_row j orders) o (some staff) m m' before fine wanted h)
        orders nothing_yet s (named_rows (λ o. IsUnfailed n s o.id) orders orders (λ j h. h) each)
        (at_start n s exact cancellation cancellation-IsFinal (λ j. is_row j orders))

  accept_rows-Reached :
      (staff : ℕ) (orders : List Order)
      → All (λ (o : Order). o.id < n) orders
      → Reached n s exact acceptance acceptance-IsFinal
          (λ j. is_row j orders)
          (accept_order_action staff orders s).1
  unfolding accept_order_action
  accept_rows-Reached staff orders each =
      bulk_inv is_value_error (λ (o : Order). accept_order o (some staff))
        (Reached n s exact acceptance acceptance-IsFinal (λ j. is_row j orders))
        (λ o. (o.id < n) × (is_row o.id orders ≡ true))
        (λ o m m' (below, wanted) h before.
          stepped n s exact acceptance acceptance-IsFinal (λ j. is_row j orders) m m' o.id
            (accept o (some staff) refl h) before below refl wanted)
        orders nothing_yet s (named_rows (λ o. o.id < n) orders orders (λ j h. h) each)
        (at_start n s exact acceptance acceptance-IsFinal (λ j. is_row j orders))

  pack_rows-Reached :
      (staff : ℕ) (orders : List Order)
      → All (λ (o : Order). o.id < n) orders
      → Reached n s exact packing packing-IsFinal
          (λ j. is_row j orders)
          (mark_packed_action staff orders s).1
  unfolding mark_packed_action
  pack_rows-Reached staff orders each =
      bulk_inv is_value_error (λ (o : Order). mark_order_packed o (some staff))
        (Reached n s exact packing packing-IsFinal (λ j. is_row j orders))
        (λ o. (o.id < n) × (is_row o.id orders ≡ true))
        (λ o m m' (below, wanted) h before.
          stepped n s exact packing packing-IsFinal (λ j. is_row j orders) m m' o.id
            (pack o (some staff) refl h) before below refl wanted)
        orders nothing_yet s (named_rows (λ o. o.id < n) orders orders (λ j h. h) each)
        (at_start n s exact packing packing-IsFinal (λ j. is_row j orders))

  accept_one-Reached :
      (staff id : ℕ)
      → id < n
      → Reached n s exact acceptance acceptance-IsFinal
          (λ j. id == j)
          (store_dashboard_order_accept staff id s).1
  unfolding store_dashboard_order_accept
  accept_one-Reached staff id below =
      let start = at_start n s exact acceptance acceptance-IsFinal (λ j. id == j) in
      elim (Option-cases (s.orders id)) [
        | inl missing ↦ simp missing start
        | inr (o, found) ↦ simp found (
            noticed-Reached n s exact acceptance acceptance-IsFinal (λ j. id == j)
              (accept_order o (some staff) s)
              (λ s' h.
                stepped n s exact acceptance acceptance-IsFinal (λ j. id == j) s s' id
                  (accept o (some staff) (exact.keyed id below o found) h) start below refl
                  (==_refl id)))
      ]

  pack_one-Reached :
      (staff id : ℕ)
      → id < n
      → Reached n s exact packing packing-IsFinal
          (λ j. id == j)
          (store_dashboard_order_mark_packed staff id s).1
  unfolding store_dashboard_order_mark_packed
  pack_one-Reached staff id below =
      let start = at_start n s exact packing packing-IsFinal (λ j. id == j) in
      elim (Option-cases (s.orders id)) [
        | inl missing ↦ simp missing start
        | inr (o, found) ↦ simp found (
            noticed-Reached n s exact packing packing-IsFinal (λ j. id == j)
              (mark_order_packed o (some staff) s)
              (λ s' h.
                stepped n s exact packing packing-IsFinal (λ j. id == j) s s' id
                  (pack o (some staff) (exact.keyed id below o found) h) start below refl
                  (==_refl id)))
      ]

  -- a cancellation of the row that was loaded
  loaded-Reached :
      (asked : ℕ → Bool) (id : ℕ) (o : Order) (actor : Option ℕ)
      → IsUnfailed n s id
      → s.orders id ≡ some o
      → asked id ≡ true
      → Cancels asked (noticed (cancel_order o actor s) s).1
  loaded-Reached asked id o actor (below, fine) found wanted =
      let key = exact.keyed id below o found in
      let start = at_start n s exact cancellation cancellation-IsFinal asked in
      noticed-Reached n s exact cancellation cancellation-IsFinal asked (cancel_order o actor s)
        (λ s' h.
          stepped n s exact cancellation cancellation-IsFinal asked s s' id
            (cancel o o actor key (found, key) (λ e. fine (ap status_of found ∙ ap some e)) h) start
            below refl wanted)

  cancel_one-Reached :
      (staff : ℕ) (reason : Bool) (id : ℕ)
      → IsUnfailed n s id
      → Cancels (λ j. reason && (id == j)) (store_dashboard_order_cancel staff reason id s).1
  unfolding store_dashboard_order_cancel
  cancel_one-Reached staff false id fine = elim (Option-cases (s.orders id)) [
    | inl missing ↦
        simp missing
          (at_start n s exact cancellation cancellation-IsFinal (λ j. false && (id == j)))
    | inr (o, found) ↦
        simp found (at_start n s exact cancellation cancellation-IsFinal (λ j. false && (id == j)))
  ]
  cancel_one-Reached staff true id fine = elim (Option-cases (s.orders id)) [
    | inl missing ↦
        simp missing (at_start n s exact cancellation cancellation-IsFinal (λ j. true && (id == j)))
    | inr (o, found) ↦
        simp found
          (loaded-Reached (λ j. true && (id == j)) id o (some staff) fine found (==_refl id))
  ]

  cancel_own_order-Reached :
      (user id : ℕ)
      → IsUnfailed n s id
      → Cancels (λ j. is_of user (s.orders j) && (id == j)) (cancel_own_order user id s).1
  unfolding cancel_own_order
  cancel_own_order-Reached user id fine =
      let asked : ℕ → Bool = λ j. is_of user (s.orders j) && (id == j) in
      let start = at_start n s exact cancellation cancellation-IsFinal asked in
      elim (Option-cases (s.orders id)) [
        | inl missing ↦ simp missing start
        | inr (o, found) ↦ elim (Bool-cases (o.user == user)) [
          | inl mine ↦
              simp (found, mine)
                (loaded-Reached asked id o (some user) fine found (ground (arith, ==_refl id)))
          | inr other ↦ simp (found, other) start
        ]
      ]

  -- Start from a shop whose orders have keys below `n` and hold just what is reserved. Whatever is pressed
  -- on such orders (the admin's bulk actions, stale rows and repeated ones included, the dashboard's
  -- buttons, the buyer's cancellation), and wherever it stops, the reservations still are just what the
  -- orders hold. An order either stays in its status, or it was asked for and makes the one transition that
  -- was pressed: a confirmed order is accepted, an accepted one is packed, a cancellable one is
  -- cancelled. The dashboard cancels only with a reason, and a buyer only an own order. Cancellations
  -- leave out orders whose payment failed.
  pub press-IsExact :
      (p : Press)
      → IsPressable n s p
      → IsExact n (press p s) × ((j : ℕ) → IsMoved (asks p) (is_asked p s) s (press p s) j)
  press-IsExact (cancel_rows staff orders) fits =
      let r = cancel_rows-Reached staff orders fits in
      (
        Reached-IsExact n s exact cancellation cancellation-IsFinal (λ j. is_row j orders) _ r,
        r.moved,
      )
  press-IsExact (accept_rows staff orders) fits =
      let r = accept_rows-Reached staff orders fits in
      (Reached-IsExact n s exact acceptance acceptance-IsFinal (λ j. is_row j orders) _ r, r.moved)
  press-IsExact (pack_rows staff orders) fits =
      let r = pack_rows-Reached staff orders fits in
      (Reached-IsExact n s exact packing packing-IsFinal (λ j. is_row j orders) _ r, r.moved)
  press-IsExact (accept_one staff id) fits =
      let r = accept_one-Reached staff id fits in
      (Reached-IsExact n s exact acceptance acceptance-IsFinal (λ j. id == j) _ r, r.moved)
  press-IsExact (pack_one staff id) fits =
      let r = pack_one-Reached staff id fits in
      (Reached-IsExact n s exact packing packing-IsFinal (λ j. id == j) _ r, r.moved)
  press-IsExact (cancel_one staff reason id) fits =
      let r = cancel_one-Reached staff reason id fits in
      (
        Reached-IsExact n s exact cancellation cancellation-IsFinal (λ j. reason && (id == j)) _ r,
        r.moved,
      )
  press-IsExact (buyer_cancels user id) fits =
      let r = cancel_own_order-Reached user id fits in
      (
        Reached-IsExact n s exact cancellation cancellation-IsFinal
            (λ j. is_of user (s.orders j) && (id == j)) _ r,
        r.moved,
      )
