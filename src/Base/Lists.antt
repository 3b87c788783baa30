-- ===== src/Base/Lists.antt =====
-- Sums, tests and lengths of lists over the native numbers.
use Prim.Native.Nat.{ℕ, suc, ◌+◌}
use mathlib.Core.Bool.{Bool, true, false, ◌&&◌, ◌||◌}
use mathlib.Core.Option.{Option, none, some}
use shop_orbit.Base.Tests.{◌==◌, if◌then◌else◌}
use mathlib.Core.List.{List, [], ◌∷◌}
use mathlib.Core.Path.{◌≡◌}
use native.Mathlib.Omega.{arith}

module _ {ℓ} {A : Type ℓ} where
  abbrev pub length : List A → ℕ
  length [] = 0
  length (x ∷ xs) = suc (length xs)

  -- `sum(f(x) for x in xs)`
  abbrev pub sum_by : (A → ℕ) → List A → ℕ
  sum_by f [] = 0
  sum_by f (x ∷ xs) = f x + sum_by f xs

  -- `all(p(x) for x in xs)`
  abbrev pub all_of : (A → Bool) → List A → Bool
  all_of p [] = true
  all_of p (x ∷ xs) = p x && all_of p xs

  -- `any(p(x) for x in xs)`
  abbrev pub any_of : (A → Bool) → List A → Bool
  any_of p [] = false
  any_of p (x ∷ xs) = p x || any_of p xs

  -- a predicate of every element
  abbrev pub All {κ} : (A → Type κ) → List A → Type κ
  All P [] = Unit
  All P (x ∷ xs) = P x × All P xs

  -- `objects.filter(p).first()` on a table kept newest first
  abbrev pub find : (A → Bool) → List A → Option A
  find p [] = none
  find p (x ∷ xs) = if p x then some x else find p xs

  -- `row.save()` on a table whose primary key is `key`
  abbrev pub save_by : (A → ℕ) → A → List A → List A
  save_by key a [] = []
  save_by key a (x ∷ xs) = if key x == key a then a ∷ save_by key a xs else x ∷ save_by key a xs

  -- `row.save()` on a table that is only looked up by its key
  abbrev pub put : ℕ → A → (ℕ → Option A) → ℕ → Option A
  put k a rows j = if k == j then some a else rows j

  -- `objects.filter(p)`
  abbrev pub select : (A → Bool) → List A → List A
  select p [] = []
  select p (x ∷ xs) = let rest = select p xs in if p x then x ∷ rest else rest

-- A search that found `x` finds the row that was saved in its place, if it still fits the search.
pub find-save_by {ℓ} :
    {A : Type ℓ} (p : A → Bool) (key : A → ℕ) (x y : A) (xs : List A)
    → find p xs ≡ some x
    → key y ≡ key x
    → p y ≡ true
    → find p (save_by key y xs) ≡ some y
find-save_by p key x y [] found same fits = ground arith
find-save_by p key x y (z ∷ zs) found same fits = ground (arith, find-save_by p key x y zs)

pub find-fits {ℓ} :
    {A : Type ℓ} (p : A → Bool) (x : A) (xs : List A) → find p xs ≡ some x → p x ≡ true
find-fits p x [] found = ground arith
find-fits p x (z ∷ zs) found = ground (arith, find-fits p x zs)
