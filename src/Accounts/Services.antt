-- ===== src/Accounts/Services.antt =====
-- accounts/services.py, over the address table: newest first, each address by its key, its user and
-- whether it is the default. The lines of an address are left out: nothing here reads them.
pub mod OneDefault
pub mod Rows
pub mod Book
use shop_orbit.Base.{
  ℕ, Bool, true, false, Option, none, some, List, [], ◌∷◌, ◌==◌, if◌then◌else◌, not, ◌&&◌, ◌||◌,
  any_of, find,
}

-- `Address`
pub record Address : Type 0 where
  pub id : ℕ
  pub user : ℕ
  pub is_default : Bool

abbrev pub of_user : ℕ → Address → Bool
of_user user a = a.user == user

-- `filter(user=user, is_default=True).exclude(pk=keep).update(is_default=False)`; `none` excludes none
abbrev pub demote : ℕ → Option ℕ → List Address → List Address
demote user keep [] = []
demote user keep (a ∷ rest) =
    (if a.user == user && not (elim keep [ none ↦ false | some k ↦ a.id == k ])
      then record a { is_default = false }
      else a)
    ∷ demote user keep rest

-- `save()` of the address `id` with this `is_default`
abbrev pub set_default : ℕ → Bool → List Address → List Address
set_default id d [] = []
set_default id d (a ∷ rest) =
    (if a.id == id then record a { is_default = d } else a) ∷ set_default id d rest

-- `create_address(user, address, is_default=...)`; the new row has the fresh key `id`
unfoldable pub create_address : ℕ → ℕ → Bool → List Address → List Address
create_address user id is_default table =
    let default = is_default || not (any_of (of_user user) table) in
    record { id = id; user = user; is_default = default }
    ∷ (if default then demote user none table else table)

-- `update_address(address, is_default=...)`
unfoldable pub update_address : Address → Bool → List Address → List Address
update_address address is_default table =
    set_default address.id is_default
      (if is_default then demote address.user (some address.id) table else table)

-- `set_default_address(address)`: the write is skipped if the caller's copy already has the flag
unfoldable pub set_default_address : Address → List Address → List Address
set_default_address address table =
    let demoted = demote address.user (some address.id) table in
    if not address.is_default then set_default address.id true demoted else demoted

-- `address.delete()`
abbrev pub remove : ℕ → List Address → List Address
remove id [] = []
remove id (a ∷ others) = let rest = remove id others in if a.id == id then rest else a ∷ rest

-- `filter(user_id=user_id).order_by("-created_at").first()`, made the default
abbrev promote_first : ℕ → List Address → List Address
promote_first user table = elim (find (of_user user) table) [
  | none ↦ table
  | some a ↦ set_default a.id true table
]

-- `delete_address(address)`
unfoldable pub delete_address : Address → List Address → List Address
delete_address address table =
    let rest = remove address.id table in
    if address.is_default then promote_first address.user rest else rest
