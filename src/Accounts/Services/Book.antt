-- ===== src/Accounts/Services/Book.antt =====
-- The address book through every call: one key for each row, and one default at most for each user.
use mathlib.Core.Path.{subst}
use shop_orbit.Base.{
  ℕ, ◌≤◌, ◌≡◌, sym, Bool, true, false, Option, none, some, List, [], ◌∷◌, arith, ◌==◌, find,
  find-fits, Bool-cases, Option-cases, inl, inr,
}
use shop_orbit.Accounts.Services.{
  Address, of_user, demote, set_default, create_address, update_address, set_default_address,
  delete_address, remove,
}
use shop_orbit.Accounts.Services.OneDefault.{
  defaults, rows_at, create_address-defaults, demote-others, promoted-defaults, demote_but-defaults,
}
use shop_orbit.Accounts.Services.Rows.{
  address_at, Owned, rows_at-demote, rows_at-set, rows_at-remove, unset-defaults, remove-defaults,
  set-defaults, removed-default, found-Owned, set-others,
}

-- No two rows share a key, and no user has two default addresses.
pub record IsBook (table : List Address) : Type 0 where
  pub keyed : (k : ℕ) → rows_at k table ≤ 1
  pub one : (v : ℕ) → defaults v table ≤ 1

-- The calls, on a copy of the address that is as its row is; a new row has a new key.
pub data AddressStep (s s' : List Address) : Type 0 where
  create :
      (user id : ℕ) (is_default : Bool)
      → rows_at id s ≡ 0
      → create_address user id is_default s ≡ s'
      → AddressStep s s'
  update :
      (a : Address) (is_default : Bool)
      → address_at a.id s ≡ some a
      → update_address a is_default s ≡ s'
      → AddressStep s s'
  choose :
      (a : Address) → address_at a.id s ≡ some a → set_default_address a s ≡ s' → AddressStep s s'
  delete : (a : Address) → address_at a.id s ≡ some a → delete_address a s ≡ s' → AddressStep s s'

own_copy :
    (a : Address) (table : List Address)
    → IsBook table
    → address_at a.id table ≡ some a
    → Owned a.id a.user table
own_copy a table w at = found-Owned (λ b. b.id == a.id) a table at (w.keyed a.id)

Owned-demote :
    (id user u : ℕ) (keep : Option ℕ) (table : List Address)
    → Owned id user table
    → Owned id user (demote u keep table)
Owned-demote id user u keep [] own = own
Owned-demote id user u keep (x ∷ table) (first, rest) =
    (ground arith, Owned-demote id user u keep table rest)

-- a default for the row `k` of `user`, who has none: `user` has one, and the others have what they had
given-one :
    (user id v : ℕ) (table : List Address)
    → rows_at id table ≤ 1
    → defaults user table ≡ 0
    → defaults v table ≤ 1
    → Owned id user table
    → defaults v (set_default id true table) ≤ 1
given-one user id v table keyed none_yet one own = elim (Bool-cases (user == v)) [
  | inl same ↦
      let e : user ≡ v = ground arith in
      let zero = subst (λ u. defaults u table ≡ 0) e none_yet in
      omega (arith, zero, set-defaults v id table)
  | inr apart ↦ omega (arith, set-others v user id true table apart own)
]

-- the default moved to the row `k` of `user`
moved-one :
    (a : Address) (v : ℕ) (table : List Address)
    → IsBook table
    → Owned a.id a.user table
    → defaults v (set_default a.id true (demote a.user (some a.id) table)) ≤ 1
moved-one a v table w own = elim (Bool-cases (a.user == v)) [
  | inl same ↦
      let e : a.user ≡ v = ground arith in
      subst (λ u. defaults u (set_default a.id true (demote a.user (some a.id) table)) ≤ 1) e
        (omega (arith, promoted-defaults a.user a.id table, w.keyed a.id))
  | inr apart ↦
      let kept = Owned-demote a.id a.user a.user (some a.id) table own in
      omega (
        arith,
        set-others v a.user a.id true (demote a.user (some a.id) table) apart kept,
        demote-others a.user v (some a.id) table apart,
        w.one v,
      )
]

demoted-one :
    (a : Address) (v : ℕ) (table : List Address)
    → IsBook table
    → defaults v (demote a.user (some a.id) table) ≤ 1
demoted-one a v table w = elim (Bool-cases (a.user == v)) [
  | inl same ↦
      let e : a.user ≡ v = ground arith in
      subst (λ u. defaults u (demote a.user (some a.id) table) ≤ 1) e
        (omega (arith, demote_but-defaults a.user a.id table, w.keyed a.id))
  | inr apart ↦ omega (arith, demote-others a.user v (some a.id) table apart, w.one v)
]

create-IsBook :
    (user id : ℕ) (d : Bool) (s : List Address)
    → IsBook s
    → rows_at id s ≡ 0
    → IsBook (create_address user id d s)
unfolding create_address
create-IsBook user id d s w new = record {
  keyed = λ k.
      let known = rows_at-demote k user none s in
      let before = w.keyed k in
      elim (Bool-cases (id == k)) [
        | inl same ↦
            let e : id ≡ k = ground arith in
            let absent = subst (λ j. rows_at j s ≡ 0) e new in ground arith
        | inr apart ↦ ground arith
      ];
  one = λ v. create_address-defaults user id v d s (w.one v);
}

update-IsBook :
    (a : Address) (d : Bool) (s : List Address)
    → IsBook s
    → address_at a.id s ≡ some a
    → IsBook (update_address a d s)
unfolding update_address
update-IsBook a true s w at = record {
  keyed = λ k. omega (
    arith,
    rows_at-set k a.id true (demote a.user (some a.id) s),
    rows_at-demote k a.user (some a.id) s,
    w.keyed k,
  );
  one = λ v. moved-one a v s w (own_copy a s w at);
}
update-IsBook a false s w at = record {
  keyed = λ k. omega (arith, rows_at-set k a.id false s, w.keyed k);
  one = λ v. omega (arith, unset-defaults v a.id s, w.one v);
}

choose-IsBook :
    (a : Address) (s : List Address)
    → IsBook s
    → address_at a.id s ≡ some a
    → IsBook (set_default_address a s)
unfolding set_default_address
choose-IsBook a s w at = record {
  keyed = λ k.
      let set = rows_at-set k a.id true (demote a.user (some a.id) s) in
      let demoted = rows_at-demote k a.user (some a.id) s in let before = w.keyed k in ground arith;
  one = λ v.
      let moved = moved-one a v s w (own_copy a s w at) in
      let demoted = demoted-one a v s w in ground arith;
}

delete-IsBook :
    (a : Address) (s : List Address)
    → IsBook s
    → address_at a.id s ≡ some a
    → IsBook (delete_address a s)
unfolding delete_address
delete-IsBook a s w at =
    let rest = remove a.id s in
    let keys : (k : ℕ) → rows_at k rest ≤ 1 =
      λ k. omega (arith, rows_at-remove k a.id s, w.keyed k) in
    let ones : (v : ℕ) → defaults v rest ≤ 1 =
      λ v. omega (arith, remove-defaults v a.id s, w.one v) in
    let plain : IsBook rest = record { keyed = keys; one = ones } in
    elim (Bool-cases a.is_default) [
      | inr other ↦ simp other plain
      | inl chosen ↦ elim (Option-cases (find (of_user a.user) rest)) [
        | inl alone ↦ let e : delete_address a s ≡ rest = ground arith in subst IsBook (sym e) plain
        | inr (b, found) ↦
            let gone = removed-default a s at chosen in
            let limit = w.one a.user in
            let own = found-Owned (of_user a.user) b rest found (keys b.id) in
            let of = find-fits (of_user a.user) b rest found in
            let e : b.user ≡ a.user = ground arith in
            let none_left : defaults b.user rest ≡ 0 = rw e (omega (arith, gone, limit)) in
            let result : delete_address a s ≡ set_default b.id true rest = ground arith in
            subst IsBook (sym result) (record {
              keyed = λ k. omega (arith, rows_at-set k b.id true rest, keys k);
              one = λ v. given-one b.user b.id v rest (keys b.id) none_left (ones v) own;
            })
      ]
    ]

-- Adding, changing, choosing and deleting addresses, each on a copy that is as its row is, keep at
-- most one default address for every user and one row for every key; so does a deletion of the
-- default that makes another address the default.
pub AddressStep-IsBook : (s s' : List Address) → IsBook s → AddressStep s s' → IsBook s'
AddressStep-IsBook s s' w (create user id d new e) =
    subst IsBook e (create-IsBook user id d s w new)
AddressStep-IsBook s s' w (update a d at e) = subst IsBook e (update-IsBook a d s w at)
AddressStep-IsBook s s' w (choose a at e) = subst IsBook e (choose-IsBook a s w at)
AddressStep-IsBook s s' w (delete a at e) = subst IsBook e (delete-IsBook a s w at)
