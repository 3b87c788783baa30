-- ===== src/Returns/Services/Quantities.antt =====
-- How many units of an order item its return requests ask for.
use shop_orbit.Base.{
  length, ℕ, ◌≡◌, refl, sym, ap, ◌+◌, ◌*◌, ◌≤◌, Bool, true, false, Option, none, some, List, [],
  ◌∷◌, ok, arith, ltb, ◌==◌, ==_refl, not, ◌||◌, sum_by, if◌then◌else◌, Bool-cases, inl, inr,
  >>=-eq-ok, ok-injective, ℤ, pos, negsuc, pos_part, leb_ℤ, ltb_ℤ, ◌-ℤ◌, raise_if, or_raise, All,
  no_delivery_date, window_passed, no_lines, bad_status, Error, ◌<◌, foreign_item, not_returnable,
}
use shop_orbit.Cart.Models.{Order, OrderItem, OrderStatus, same_status}
use shop_orbit.Returns.Models.{ReturnRequest}
use shop_orbit.Returns.Services.{
  LineData, check_line, check_lines, new_lines, new_request, request_return, units_in,
  already_returned_quantity, remaining_returnable_quantity, return_window_end, is_empty,
}
use shop_orbit.Shop.{Shop, send, return_requested}

-- The entries that name an order item.
abbrev pub entries_of : ℕ → List LineData → ℕ
entries_of item = sum_by (λ (l : LineData). if l.order_item.id == item then 1 else 0)

in_range :
    (quantity : ℤ) (already bought : ℕ)
    → (leb_ℤ quantity (pos 0) || ltb_ℤ (pos bought -ℤ pos already) quantity) ≡ false
    → (0 < pos_part quantity) × (already + pos_part quantity ≤ bought)
unfolding ◌-ℤ◌
in_range (pos n) already bought h = ground arith
in_range (negsuc n) already bought h = absurd (ground arith)

raise_if-ok : (b : Bool) (e : Error) (u : Unit {0}) → raise_if b e ≡ ok u → b ≡ false
raise_if-ok true e u h = absurd (cc)
raise_if-ok false e u h = refl

check_line-within :
    (order : Order) (table : List ReturnRequest) (l : LineData)
    → check_line order table l ≡ ok tt
    → already_returned_quantity l.order_item.id table + pos_part l.quantity ≤ l.order_item.quantity
unfolding check_line remaining_returnable_quantity
check_line-within order table l h =
    let (_, own, fits) =
      >>=-eq-ok (raise_if (not (l.order_item.order == order.id)) foreign_item) _ h in
    (in_range l.quantity (already_returned_quantity l.order_item.id table) l.order_item.quantity
      (raise_if-ok _ not_returnable tt fits)).1

no_entries :
    (item id : ℕ) (ls : List LineData)
    → entries_of item ls ≤ 0
    → units_in item (new_lines id ls) ≡ 0
no_entries item id [] none_there = refl
no_entries item id (l ∷ ls) none_there = ground (arith, no_entries item (id + 1) ls)

-- an item whose entries all carry it, and that has at most one of them, stays within what was bought
check_lines-within :
    (order : Order) (table : List ReturnRequest) (item : OrderItem) (id : ℕ) (lines : List LineData)
    → check_lines order table lines ≡ ok tt
    → All
        (λ (l : LineData). l.order_item.id ≡ item.id → l.order_item.quantity ≡ item.quantity)
        lines
    → entries_of item.id lines ≤ 1
    → already_returned_quantity item.id table ≤ item.quantity
    → already_returned_quantity item.id table + units_in item.id (new_lines id lines)
      ≤ item.quantity
unfolding check_lines
check_lines-within order table item id [] h carried once before = omega (arith, before)
check_lines-within order table item id (l ∷ ls) h (own, carried) once before =
    let (_, first, rest) = >>=-eq-ok (check_line order table l) _ h in
    elim (Bool-cases (l.order_item.id == item.id)) [
      | inr other ↦ ground (arith, check_lines-within order table item (id + 1) ls rest carried)
      | inl same ↦
          let e : l.order_item.id ≡ item.id = ground arith in
          let fits = check_line-within order table l first in
          let rest_none = no_entries item.id (id + 1) ls in
          let key = ap (λ k. already_returned_quantity k table) e in
          ground (arith, fits, key, own e, rest_none)
    ]

or_raise-ok : {A : Type 0} (o : Option A) (e : Error) (a : A) → or_raise o e ≡ ok a → o ≡ some a
or_raise-ok none e a h = absurd (cc)
or_raise-ok (some b) e a h = cc

-- what a request that went through has passed and written
pub request_return-returned :
    (days now : ℕ) (order : Order) (lines : List LineData) (user : ℕ) (s s' : Shop)
    → request_return days now order lines user s ≡ ok s'
    → (not (same_status order.status OrderStatus.delivered) ≡ false)
      × (end : ℕ) × (return_window_end days order s ≡ some end)
      × (ltb end now ≡ false)
      × (check_lines order s.returns lines ≡ ok tt)
      × (s'.returns ≡ new_request s.next_id order.id user lines ∷ s.returns)
      × (s'.next_id ≡ s.next_id + 1 + length lines)
unfolding request_return
request_return-returned days now order lines user s s' h =
    let (_, a, h1) =
      >>=-eq-ok (raise_if (not (same_status order.status OrderStatus.delivered)) bad_status) _ h in
    let (end, b, h2) =
      >>=-eq-ok (or_raise (return_window_end days order s) no_delivery_date) _ h1 in
    let (_, c, h3) = >>=-eq-ok (raise_if (ltb end now) window_passed) _ h2 in
    let (_, _, h4) = >>=-eq-ok (raise_if (is_empty lines) no_lines) _ h3 in
    let (_, checked, h5) = >>=-eq-ok (check_lines order s.returns lines) _ h4 in
    (
      raise_if-ok _ bad_status tt a,
      end,
      or_raise-ok _ no_delivery_date end b,
      raise_if-ok _ window_passed tt c,
      checked,
      ap Shop.returns (sym (ok-injective h5)),
      ap Shop.next_id (sym (ok-injective h5)),
    )

-- A return request that goes through and names an order item at most once, by its row, leaves the
-- units of the item that are asked back within the units that were bought, if they were so before.
-- Rejected and cancelled requests do not count.
pub request_return_within :
    (days now : ℕ) (order : Order) (lines : List LineData) (user : ℕ) (item : OrderItem)
    (s s' : Shop)
    → All
        (λ (l : LineData). l.order_item.id ≡ item.id → l.order_item.quantity ≡ item.quantity)
        lines
    → entries_of item.id lines ≤ 1
    → already_returned_quantity item.id s.returns ≤ item.quantity
    → request_return days now order lines user s ≡ ok s'
    → already_returned_quantity item.id s'.returns ≤ item.quantity
unfolding already_returned_quantity
request_return_within days now order lines user item s s' carried once before h =
    let (_, _, _, _, checked, written, _) =
      request_return-returned days now order lines user s s' h in
    let within =
      check_lines-within order s.returns item (s.next_id + 1) lines checked carried once before in
    rw written (omega (arith, within))

-- An entry that goes through as the only one of a request also goes through twice in one request,
-- whose units then count twice.
repeated_entry_counted :
    (days now : ℕ) (order : Order) (l : LineData) (user : ℕ) (s s' : Shop)
    → request_return days now order (l ∷ []) user s ≡ ok s'
    → (s'' : Shop) × (request_return days now order (l ∷ l ∷ []) user s ≡ ok s'')
      × (already_returned_quantity l.order_item.id s''.returns
          ≡ already_returned_quantity l.order_item.id s.returns + 2 * pos_part l.quantity)
unfolding request_return already_returned_quantity check_lines
repeated_entry_counted days now order l user s s' h =
    let (a, end, b, c, checked, _, _) =
      request_return-returned days now order (l ∷ []) user s s' h in
    let (_, first, _) = >>=-eq-ok (check_line order s.returns l) (λ _. ok tt) checked in
    let first : check_line order s.returns l ≡ ok tt = first in
    (
      send (return_requested s.next_id) (record s {
        returns = new_request s.next_id order.id user (l ∷ l ∷ []) ∷ s.returns;
        next_id = s.next_id + 1 + 2;
      }),
      simp (a, b, c, first),
      simp (==_refl l.order_item.id) (omega arith),
    )
