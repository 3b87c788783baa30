-- ===== src/Accounts/Services/Rows.antt =====
-- The rows of the address table: their keys, their users, and how many of them are defaults.
use shop_orbit.Base.{
  ℕ, ◌+◌, ◌≤◌, ◌≡◌, refl, ap, Bool, true, false, Option, some, List, [], ◌∷◌, arith, ◌==◌, All,
  find, Bool-cases, inl, inr,
}
use shop_orbit.Accounts.Services.{Address, demote, set_default, remove}
use shop_orbit.Accounts.Services.OneDefault.{defaults, rows_at}

-- `Address.objects.get(pk=...)`
abbrev pub address_at : ℕ → List Address → Option Address
address_at id = find (λ a. a.id == id)

-- Keys
pub rows_at-demote :
    (k user : ℕ) (keep : Option ℕ) (table : List Address)
    → rows_at k (demote user keep table) ≡ rows_at k table
rows_at-demote k user keep [] = refl
rows_at-demote k user keep (a ∷ table) = ground (arith, rows_at-demote k user keep table)

pub rows_at-set :
    (k id : ℕ) (d : Bool) (table : List Address)
    → rows_at k (set_default id d table) ≡ rows_at k table
rows_at-set k id d [] = refl
rows_at-set k id d (a ∷ table) = ground (arith, rows_at-set k id d table)

pub rows_at-remove :
    (k id : ℕ) (table : List Address) → rows_at k (remove id table) ≤ rows_at k table
rows_at-remove k id [] = omega arith
rows_at-remove k id (a ∷ table) = ground (arith, rows_at-remove k id table)

-- Defaults
pub unset-defaults :
    (v id : ℕ) (table : List Address) → defaults v (set_default id false table) ≤ defaults v table
unset-defaults v id [] = omega arith
unset-defaults v id (a ∷ table) = ground (arith, unset-defaults v id table)

pub remove-defaults :
    (v id : ℕ) (table : List Address) → defaults v (remove id table) ≤ defaults v table
remove-defaults v id [] = omega arith
remove-defaults v id (a ∷ table) = ground (arith, remove-defaults v id table)

pub set-defaults :
    (v id : ℕ) (table : List Address)
    → defaults v (set_default id true table) ≤ defaults v table + rows_at id table
set-defaults v id [] = omega arith
set-defaults v id (a ∷ table) = ground (arith, set-defaults v id table)

-- the default that is removed was one of its user's
pub removed-default :
    (a : Address) (table : List Address)
    → address_at a.id table ≡ some a
    → a.is_default ≡ true
    → defaults a.user (remove a.id table) + 1 ≤ defaults a.user table
removed-default a [] at chosen = ground arith
removed-default a (x ∷ table) at chosen =
    ground (arith, removed-default a table, remove-defaults a.user a.id table)

-- A row whose key is `id` belongs to `user`.
abbrev pub Owned : ℕ → ℕ → List Address → Type 0
Owned id user = All (λ (a : Address). (a.id == id) ≡ true → a.user ≡ user)

none_at : (id user : ℕ) (table : List Address) → rows_at id table ≡ 0 → Owned id user table
none_at id user [] absent = tt
none_at id user (x ∷ table) absent =
    (λ same. absurd (ground arith), none_at id user table (ground arith))

found-row :
    (fits : Address → Bool) (a : Address) (table : List Address)
    → find fits table ≡ some a
    → 1 ≤ rows_at a.id table
found-row fits a [] at = ground arith
found-row fits a (x ∷ table) at = elim (Bool-cases (fits x)) [
  | inl here ↦ let same_key : x.id ≡ a.id = ground arith in ground arith
  | inr later ↦ let there = found-row fits a table (ground arith) in ground arith
]

pub found-Owned :
    (fits : Address → Bool) (a : Address) (table : List Address)
    → find fits table ≡ some a
    → rows_at a.id table ≤ 1
    → Owned a.id a.user table
found-Owned fits a [] at keyed = tt
found-Owned fits a (x ∷ table) at keyed = elim (Bool-cases (fits x)) [
  | inl here ↦
      let is_a : x ≡ a = ground arith in
      let same_key = ap Address.id is_a in
      (λ same. ap Address.user is_a, none_at a.id a.user table (ground arith))
  | inr later ↦
      let at_rest : find fits table ≡ some a = ground arith in
      let there = found-row fits a table at_rest in
      (λ same. absurd (ground arith), found-Owned fits a table at_rest (ground arith))
]

pub set-others :
    (v user id : ℕ) (d : Bool) (table : List Address)
    → (user == v) ≡ false
    → Owned id user table
    → defaults v (set_default id d table) ≡ defaults v table
set-others v user id d [] apart own = refl
set-others v user id d (x ∷ table) apart (first, rest) =
    ground (arith, set-others v user id d table apart rest)
