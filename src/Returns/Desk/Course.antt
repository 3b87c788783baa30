-- ===== src/Returns/Desk/Course.antt =====
-- The life of a return as an abstract machine, and the posts that move it.
use mathlib.Core.Path.{subst}
use shop_orbit.Base.{
  ==_refl, ◌&&◌, ◌||◌, ℕ, ◌≡◌, refl, sym, ap, ◌∙◌, ◌<◌, ◌≤◌, Bool, true, false, Option, none, some,
  List, [], ◌∷◌, arith, ◌==◌, ◌||◌, map, find, select, if◌then◌else◌, Bool-cases, inl, inr,
}
use shop_orbit.Returns.Desk.{only_one}
use shop_orbit.Returns.Models.{
  ReturnRequest, ReturnStatus, same_return_status, return_code, requested, approved, rejected,
  received, cancelled,
}
use shop_orbit.Returns.Services.{return_at}
use shop_orbit.Shop.{Shop}

-- What the machine sees of a return
pub record Standing : Type 0 where
  pub status : ReturnStatus
  pub user : ℕ

-- What is posted about it; a buyer's post with its sender
pub data DeskEvent : Type 0 where
  asking cancelling : ℕ → DeskEvent
  tracking approving rejecting receiving : DeskEvent

abbrev pub is_same : Option Standing → Option Standing → Bool
is_same none none = true
is_same (some a) (some b) = same_return_status a.status b.status && (a.user == b.user)
is_same _ _ = false

-- the one move from a status to another, of a return that stays its buyer's
abbrev pub moves : ReturnStatus → ReturnStatus → Option Standing → Option Standing → Bool
moves from to (some a) (some b) =
    same_return_status a.status from && same_return_status b.status to && (a.user == b.user)
moves from to _ _ = false

abbrev pub is_owned : ℕ → Option Standing → Bool
is_owned user none = false
is_owned user (some a) = a.user == user

-- The machine. Each event leaves a return as it is, or makes its own move: a request is its sender's; it is
-- approved or rejected, or cancelled by its sender; and what was approved is received.
abbrev pub return_may : DeskEvent → Option Standing → Option Standing → Bool
return_may (asking user) none (some b) = same_return_status b.status requested && (b.user == user)
return_may (asking user) none none = true
return_may (asking user) (some a) b = is_same (some a) b
return_may (cancelling user) a b = is_same a b || (is_owned user a && moves requested cancelled a b)
return_may tracking a b = is_same a b
return_may approving a b = is_same a b || moves requested approved a b
return_may rejecting a b = is_same a b || moves requested rejected a b
return_may receiving a b = is_same a b || moves approved received a b

is_same_refl : (a : Option Standing) → is_same a a ≡ true
is_same_refl none = refl
is_same_refl (some a) = ground (arith, ==_refl (return_code a.status), ==_refl a.user)

pub return_may_refl : (e : DeskEvent) (a : Option Standing) → return_may e a a ≡ true
return_may_refl (asking user) none = refl
return_may_refl (asking user) (some a) = is_same_refl (some a)
return_may_refl (cancelling user) a = ground (arith, is_same_refl a)
return_may_refl tracking a = is_same_refl a
return_may_refl approving a = ground (arith, is_same_refl a)
return_may_refl rejecting a = ground (arith, is_same_refl a)
return_may_refl receiving a = ground (arith, is_same_refl a)

-- A course through the events, newest first, each of them a move that the machine has for it
pub data ReturnCourse (a : Option Standing) : List DeskEvent → Option Standing → Type 0 where
  here : ReturnCourse a [] a
  next :
      {es : List DeskEvent} {b c : Option Standing}
      → (e : DeskEvent) → ReturnCourse a es b
      → return_may e b c ≡ true
      → ReturnCourse a (e ∷ es) c

abbrev pub standing_of : Option ReturnRequest → Option Standing
standing_of none = none
standing_of (some r) = some (record { status = r.status; user = r.user })

abbrev pub standing : ℕ → Shop → Option Standing
standing id s = standing_of (return_at id s)

-- Keys fall from `n` on, as they do in a table that lists the newest first.
abbrev pub Falls : ℕ → List ReturnRequest → Type 0
Falls n [] = Unit
Falls n (r ∷ rows) = (r.id < n) × Falls r.id rows

-- Each of a shop's returns has a key of its own.
abbrev pub HasKeys : Shop → Type 0
HasKeys s = Falls s.next_id s.returns

pub Falls-found :
    (p : ReturnRequest → Bool) (n : ℕ) (rows : List ReturnRequest) (r : ReturnRequest)
    → Falls n rows
    → find p rows ≡ some r
    → (r.id < n) × (find (λ (q : ReturnRequest). q.id == r.id) rows ≡ some r)
Falls-found p n [] r all h = absurd (ground arith)
Falls-found p n (x ∷ rows) r (below, rest) h = elim (Bool-cases (p x)) [
  | inl fits ↦ (ground arith, ground arith)
  | inr other ↦
      let (less, found) = Falls-found p x.id rows r rest (ground arith) in
      (omega arith, ground arith)
]

pub Falls-fresh :
    (n j : ℕ) (rows : List ReturnRequest)
    → Falls n rows
    → n ≤ j
    → find (λ (q : ReturnRequest). q.id == j) rows ≡ none
Falls-fresh n j [] all at = refl
Falls-fresh n j (x ∷ rows) (below, rest) at =
    let others = Falls-fresh x.id j rows rest (omega arith) in ground arith

only_one-cons :
    (x : ReturnRequest) (rows : List ReturnRequest) (r : ReturnRequest)
    → only_one (x ∷ rows) ≡ some r
    → x ≡ r
only_one-cons x [] r h = ground arith
only_one-cons x (y ∷ rows) r h = absurd (ground arith)

pub only_one-first :
    (p : ReturnRequest → Bool) (rows : List ReturnRequest) (r : ReturnRequest)
    → only_one (select p rows) ≡ some r
    → find p rows ≡ some r
only_one-first p [] r h = absurd (ground arith)
only_one-first p (x ∷ rows) r h =
    let rest = only_one-first p rows r in
    elim (Bool-cases (p x)) [
      | inl fits ↦ let first = only_one-cons x (select p rows) r (ground arith) in ground arith
      | inr other ↦ ground (arith, rest)
    ]

abbrev pub change : ℕ → (ReturnRequest → ReturnRequest) → ReturnRequest → ReturnRequest
change id f r = if r.id == id then f r else r

module _ (id : ℕ) (f : ReturnRequest → ReturnRequest)
    (keeps : (r : ReturnRequest) → (f r).id ≡ r.id) where
  change-id : (r : ReturnRequest) → (change id f r).id ≡ r.id
  change-id r = ground (arith, keeps r)

  map-Falls : (n : ℕ) (rows : List ReturnRequest) → Falls n rows → Falls n (map (change id f) rows)
  map-Falls n [] all = tt
  map-Falls n (x ∷ rows) (below, rest) =
      let rest' = map-Falls x.id rows rest in
      subst (λ k. (k < n) × Falls k (map (change id f) rows)) (sym (change-id x)) (below, rest')

  find-change :
      (j : ℕ) (rows : List ReturnRequest)
      → standing_of (find (λ (q : ReturnRequest). q.id == j) (map (change id f) rows)) ≡ (
          if id == j
          then elim (find (λ (q : ReturnRequest). q.id == j) rows) [
            | none ↦ none
            | some r ↦ standing_of (some (f r))
          ]
          else standing_of (find (λ (q : ReturnRequest). q.id == j) rows))
  find-change j [] = ground arith
  find-change j (x ∷ rows) = ground (arith, find-change j rows, keeps x)

-- The post left each return a key of its own, and moved each of them along the machine or not at all.
pub record Moves (e : DeskEvent) (s s' : Shop) : Type 0 where
  pub keys : HasKeys s'
  pub moved : (j : ℕ) → return_may e (standing j s) (standing j s') ≡ true

pub still-Moves :
    (e : DeskEvent) (s s' : Shop)
    → HasKeys s
    → s'.returns ≡ s.returns
    → s'.next_id ≡ s.next_id
    → Moves e s s'
still-Moves e s s' keys same next_same = record {
  keys = rw (same, next_same) keys;
  moved = λ j. rw same (return_may_refl e (standing j s));
}

module _ (e : DeskEvent) (s s' : Shop) (r : ReturnRequest) (f : ReturnRequest → ReturnRequest)
    (keys : HasKeys s) (found : return_at r.id s ≡ some r) where
  pub updated-Moves :
      ((q : ReturnRequest) → (f q).id ≡ q.id)
      → s'.returns ≡ map (change r.id f) s.returns
      → s'.next_id ≡ s.next_id
      → return_may e (standing_of (some r)) (standing_of (some (f r))) ≡ true
      → Moves e s s'
  updated-Moves keeps rows next_same fits = record {
    keys = rw (rows, next_same) (map-Falls r.id f keeps s.next_id s.returns keys);
    moved = λ j.
        let now : standing j s'
            ≡ standing_of
                (find (λ (q : ReturnRequest). q.id == j) (map (change r.id f) s.returns)) =
          ap (λ t. standing_of (find (λ (q : ReturnRequest). q.id == j) t)) rows in
        let all = find-change r.id f keeps j s.returns in
        elim (Bool-cases (r.id == j)) [
          | inl same ↦
              let at : return_at j s ≡ some r =
                subst (λ k. return_at k s ≡ some r) (ground arith) found in
              let old : standing j s ≡ standing_of (some r) = ap standing_of at in
              let new : standing j s' ≡ standing_of (some (f r)) =
                now ∙ all ∙ simp (same, at) refl in
              ap (λ a. return_may e a (standing j s')) old
              ∙ ap (return_may e (standing_of (some r))) new
              ∙ fits
          | inr apart ↦
              let new : standing j s' ≡ standing j s = now ∙ all ∙ simp apart refl in
              ap (return_may e (standing j s)) new ∙ return_may_refl e (standing j s)
        ];
  }
