-- ===== src/Returns/Desk/Received.antt =====
-- What the receipt of a parcel does to its return and to the shelf.
use mathlib.Core.Path.{subst}
use shop_orbit.Base.{
  ℕ, ◌+◌, ◌≡◌, refl, sym, ap, ◌∙◌, Bool, true, false, Option, none, some, List, [], ◌∷◌, ok, pos,
  arith, ◌==◌, ◌&&◌, map, find, find-fits, sum_by, if◌then◌else◌, Bool-cases, Option-cases,
  Result-cases, inl, inr,
}
use shop_orbit.Inventory.Models.{Target, same_target}
use shop_orbit.Inventory.Services.{chosen_target, restock_from_return}
use shop_orbit.Inventory.Services.Restock.{stock_units, restock_from_return-units}
use shop_orbit.Returns.Desk.{receive_return_view, done, not_approved}
use shop_orbit.Returns.Desk.Course.{change}
use shop_orbit.Returns.Desk.Posts.{receive_lines-same}
use shop_orbit.Returns.Models.{ReturnRequest, ReturnLine, same_return_status, approved}
use shop_orbit.Returns.Services.{
  return_at, receive_line, receive_lines, mark_return_received, as_received, update_return,
}
use shop_orbit.Shop.{Shop}
use shop_orbit.Staff.Bulk.{is_value_error}

-- Whether a line goes back on the shelf: its box was ticked, and its product is still there
abbrev pub goes_back : (ℕ → Bool) → ReturnLine → Bool
goes_back decisions l = elim l.order_item.product [ none ↦ false | some p ↦ decisions l.id ]

-- the stock row that a line counts for
abbrev pub counts_for : Target → ReturnLine → Bool
counts_for t l = elim l.order_item.product [
  | none ↦ false
  | some p ↦ same_target (chosen_target p l.order_item.variant) t
]

abbrev pub units_back : (ℕ → Bool) → Target → List ReturnLine → ℕ
units_back decisions t =
    sum_by (λ (l : ReturnLine). if goes_back decisions l && counts_for t l then l.quantity else 0)

abbrev pub marked : (ℕ → Bool) → ReturnLine → ReturnLine
marked decisions l = record l { restocked = goes_back decisions l }

module _ (request : ℕ) (by : Option ℕ) (decisions : ℕ → Bool) (t : Target) where
  receive_line-units :
      (l l' : ReturnLine) (s s' : Shop)
      → receive_line request by decisions l s ≡ ok (l', s')
      → (l' ≡ marked decisions l)
        × (stock_units t s'.inventory
            ≡ stock_units t s.inventory
              + (if goes_back decisions l && counts_for t l then l.quantity else 0))
  unfolding receive_line
  receive_line-units l l' s s' h = elim (Option-cases l.order_item.product) [
    | inl gone ↦ (ground arith, ground arith)
    | inr (p, sold) ↦ elim (Bool-cases (decisions l.id)) [
      | inr kept ↦ (ground arith, ground arith)
      | inl back ↦
          elim (Result-cases
            (restock_from_return p l.order_item.variant (pos l.quantity) request by s.inventory)) [
              | inr (e, failed) ↦ absurd (ground arith)
              | inl (i, went) ↦
                  let units =
                    restock_from_return-units p l.order_item.variant (pos l.quantity) request by
                      s.inventory i t went in
                  (ground arith, ground arith)
            ]
    ]
  ]

  receive_lines-units :
      (lines lines' : List ReturnLine) (s s' : Shop)
      → receive_lines request by decisions lines s ≡ ok (lines', s')
      → (lines' ≡ map (marked decisions) lines)
        × (stock_units t s'.inventory ≡ stock_units t s.inventory + units_back decisions t lines)
  unfolding receive_lines
  receive_lines-units [] lines' s s' h = (ground arith, ground arith)
  receive_lines-units (l ∷ lines) lines' s s' h =
      elim (Result-cases (receive_line request by decisions l s)) [
        | inr (e, failed) ↦ absurd (ground arith)
        | inl ((l1, s1), first) ↦
            elim (Result-cases (receive_lines request by decisions lines s1)) [
              | inr (e, failed) ↦ absurd (ground arith)
              | inl ((rest, s2), second) ↦
                  let (a, b) = receive_line-units l l1 s s1 first in
                  let (c, d) = receive_lines-units lines rest s1 s2 second in
                  (ground arith, ground arith)
            ]
      ]

find-changed :
    (id : ℕ) (f : ReturnRequest → ReturnRequest) (r : ReturnRequest) (rows : List ReturnRequest)
    → ((q : ReturnRequest) → (f q).id ≡ q.id)
    → find (λ (q : ReturnRequest). q.id == id) rows ≡ some r
    → find (λ (q : ReturnRequest). q.id == id) (map (change id f) rows) ≡ some (f r)
find-changed id f r [] keeps h = absurd (ground arith)
find-changed id f r (x ∷ rows) keeps h = ground (arith, keeps x, find-changed id f r rows keeps)

-- What a receipt that went through has done
record Receipt (now staff id : ℕ) (decisions : ℕ → Bool) (s s' : Shop) : Type 0 where
  request : ReturnRequest
  lines : List ReturnLine
  between : Shop
  found : return_at id s ≡ some request
  due : same_return_status request.status approved ≡ true
  went : receive_lines request.id (some staff) decisions request.lines s ≡ ok (lines, between)
  left : update_return request.id (as_received now lines) between ≡ s'

module _ (now staff id : ℕ) (decisions : ℕ → Bool) (s s' : Shop) where
  receipt :
      receive_return_view now staff id decisions s ≡ (ok done, s')
      → Receipt now staff id decisions s s'
  unfolding receive_return_view mark_return_received
  receipt h = elim (Option-cases (return_at id s)) [
    | inl gone ↦ absurd (ground arith)
    | inr (r, found) ↦ elim (Bool-cases (same_return_status r.status approved)) [
      | inr other ↦ absurd (ground arith)
      | inl due ↦ elim (Result-cases (receive_lines r.id (some staff) decisions r.lines s)) [
        | inr (e, failed) ↦ elim (Bool-cases (is_value_error e)) [
          | inl caught ↦ absurd (ground arith)
          | inr thrown ↦ absurd (ground arith)
        ]
        | inl ((lines, s1), went) ↦ record {
          request = r;
          lines = lines;
          between = s1;
          found = found;
          due = due;
          went = went;
          left = ground arith;
        }
      ]
    ]
  ]

  -- A parcel that the page received belongs to a return that was approved and is received now, each line marked
  -- as restocked just if its box was ticked and its product is still there. Every stock row has gained the
  -- units of its lines that are so marked, and the same post sent again is turned down and changes nothing.
  pub receive_return_view-once :
      receive_return_view now staff id decisions s ≡ (ok done, s')
      → (r : ReturnRequest) × (return_at id s ≡ some r)
        × (return_at id s' ≡ some (as_received now (map (marked decisions) r.lines) r))
        × (same_return_status r.status approved ≡ true)
        × ((t : Target)
            → stock_units t s'.inventory
              ≡ stock_units t s.inventory + units_back decisions t r.lines)
        × (receive_return_view now staff id decisions s' ≡ (ok not_approved, s'))
  unfolding receive_return_view
  receive_return_view-once h =
      let w = receipt h in
      let r = w.request in
      let fits = find-fits (λ (q : ReturnRequest). q.id == id) r s.returns w.found in
      let key : r.id ≡ id = ground arith in
      let lines = λ (t : Target).
        receive_lines-units r.id (some staff) decisions t r.lines w.lines s w.between w.went in
      let (same, _) =
        receive_lines-same r.id (some staff) decisions r.lines w.lines s w.between w.went in
      let found : return_at r.id w.between ≡ some r =
        ap (find (λ (q : ReturnRequest). q.id == r.id)) same
        ∙ subst (λ k. return_at k s ≡ some r) (sym key) w.found in
      let saved : return_at r.id s' ≡ some (as_received now w.lines r) =
        ap (return_at r.id) (sym w.left)
        ∙ find-changed r.id (as_received now w.lines) r w.between.returns (λ q. refl) found in
      let row : return_at id s' ≡ some (as_received now (map (marked decisions) r.lines) r) =
        subst (λ k. return_at k s' ≡ some (as_received now w.lines r)) key saved
        ∙ ap (λ ls. some (as_received now ls r)) (lines (Target.product 0)).0 in
      (
        r,
        w.found,
        row,
        w.due,
        λ t. sym (ap (λ (x : Shop). stock_units t x.inventory) w.left) ∙ (lines t).1,
        simp row refl,
      )
