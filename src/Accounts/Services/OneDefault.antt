-- ===== src/Accounts/Services/OneDefault.antt =====
-- How many addresses of a user are the default.
use shop_orbit.Base.{
  ℕ, ◌≡◌, refl, ◌≤◌, Bool, true, false, Option, none, some, List, [], ◌∷◌, arith, ◌==◌,
  if◌then◌else◌, ◌&&◌, sum_by, Bool-cases, inl, inr,
}
use shop_orbit.Accounts.Services.{Address, demote, set_default, create_address, set_default_address}

-- The default addresses of a user.
abbrev pub defaults : ℕ → List Address → ℕ
defaults user = sum_by (λ (a : Address). if a.user == user && a.is_default then 1 else 0)

demote-defaults : (user : ℕ) (table : List Address) → defaults user (demote user none table) ≡ 0
demote-defaults user [] = refl
demote-defaults user (a ∷ table) = ground (arith, demote-defaults user table)

pub demote-others :
    (user other : ℕ) (keep : Option ℕ) (table : List Address)
    → (user == other) ≡ false
    → defaults other (demote user keep table) ≡ defaults other table
demote-others user other keep [] apart = refl
demote-others user other keep (a ∷ table) apart =
    ground (arith, demote-others user other keep table)

-- Adding an address leaves every user with at most one default address.
pub create_address-defaults :
    (user id other : ℕ) (is_default : Bool) (table : List Address)
    → defaults other table ≤ 1
    → defaults other (create_address user id is_default table) ≤ 1
unfolding create_address
create_address-defaults user id other is_default table one = elim (Bool-cases (user == other)) [
  | inr apart ↦ ground (arith, demote-others user other none table)
  | inl same ↦ ground (arith, demote-defaults user table)
]

-- The rows with this key.
abbrev pub rows_at : ℕ → List Address → ℕ
rows_at id = sum_by (λ (a : Address). if a.id == id then 1 else 0)

pub demote_but-defaults :
    (user k : ℕ) (table : List Address)
    → defaults user (demote user (some k) table) ≤ rows_at k table
demote_but-defaults user k [] = omega arith
demote_but-defaults user k (a ∷ table) = ground (arith, demote_but-defaults user k table)

pub promoted-defaults :
    (user k : ℕ) (table : List Address)
    → defaults user (set_default k true (demote user (some k) table)) ≤ rows_at k table
promoted-defaults user k [] = omega arith
promoted-defaults user k (a ∷ table) = ground (arith, promoted-defaults user k table)

-- Making an address the default leaves its user with at most one default address, where no two rows have
-- its key.
set_default_address-defaults :
    (address : Address) (table : List Address)
    → rows_at address.id table ≤ 1
    → defaults address.user (set_default_address address table) ≤ 1
unfolding set_default_address
set_default_address-defaults address table keyed = ground (
  arith,
  demote_but-defaults address.user address.id table,
  promoted-defaults address.user address.id table,
)
