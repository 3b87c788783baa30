-- ===== src/Accounts/Users/Superuser.antt =====
-- `create_superuser` and its keyword arguments.
use Prim.Native.String.{String}
use text.Mathlib.Text.{◌==◌ as str_eq}
use text.Mathlib.TextEquality.{eq_iff}
use shop_orbit.Base.{
  ℕ, ◌≡◌, refl, ◌∙◌, true, false, none, some, List, [], ◌∷◌, ◌++◌, if◌then◌else◌, arith, Bool-cases,
  Option-cases, inl, inr,
}
use shop_orbit.Accounts.Users.{
  User, Django, Value, Fields, UserError, raised, unexpected_argument, get, setdefault, is_true,
  is_column, known_columns, is_blank, create_row, create_checked, no_email, not_staff,
  not_superuser, flag, words, create_superuser,
}

-- a keyword that is no column is not lost by what is added behind it
unknown_stays :
    (k : String) (v : Value) (fields : Fields)
    → is_column k ≡ false
    → known_columns (fields ++ (k, v) ∷ []) ≡ false
unknown_stays k v [] odd = ground arith
unknown_stays k v ((j, w) ∷ fields) odd = ground (arith, unknown_stays k v fields odd)

unknown_found :
    (k : String) (v : Value) (fields : Fields)
    → is_column k ≡ false
    → get k fields ≡ some v
    → known_columns fields ≡ false
unknown_found k v [] odd found = ground arith
unknown_found k v ((j, w) ∷ fields) odd found = elim (Bool-cases (str_eq j k)) [
  | inl same ↦
      let e : j ≡ k = (eq_iff j k).0 same in
      let none_such : is_column j ≡ false = rw e odd in simp none_such
  | inr apart ↦
      let rest = unknown_found k v fields odd (simp apart at found) in
      elim (Bool-cases (is_column j)) [ inl fine ↦ simp (fine, rest) | inr bad ↦ simp bad ]
]

default_unknown :
    (k : String) (v : Value) (fields : Fields)
    → is_column k ≡ false
    → known_columns (setdefault k v fields) ≡ false
default_unknown k v fields odd = elim (Option-cases (get k fields)) [
  | inl missing ↦ rw (missing, setdefault) (unknown_stays k v fields odd)
  | inr (w, there) ↦ rw (there, setdefault) (unknown_found k w fields odd there)
]

role_unknown : is_column "role" ≡ false
unfolding is_column
role_unknown = refl

get_last :
    (j k : String) (v : Value) (m : Fields)
    → get j (m ++ (k, v) ∷ [])
      ≡ elim (get j m) [ none ↦ (if str_eq k j then some v else none) | some w ↦ some w ]
get_last j k v [] = refl
get_last j k v ((i, w) ∷ m) = elim (Bool-cases (str_eq i j)) [
  | inl same ↦ simp same
  | inr apart ↦ simp apart (get_last j k v m)
]

get-setdefault_self :
    (k : String) (v : Value) (m : Fields) → get k m ≡ none → get k (setdefault k v m) ≡ some v
get-setdefault_self k v m missing =
    let here : str_eq k k ≡ true = (eq_iff k k).1 refl in
    rw (missing, setdefault) (get_last k k v m ∙ rw (missing, here) refl)

get-setdefault_other :
    (j k : String) (v : Value) (m : Fields)
    → str_eq k j ≡ false
    → get j (setdefault k v m) ≡ get j m
get-setdefault_other j k v m apart = elim (Option-cases (get k m)) [
  | inr (w, there) ↦ rw (there, setdefault) refl
  | inl missing ↦
      rw (missing, setdefault)
        (get_last j k v m ∙ elim (Option-cases (get j m)) [
          | inl none_such ↦ rw (none_such, apart) refl
          | inr (u, found) ↦ rw found refl
        ])
]

module _ (v : Value) (a b : Value) (extra : Fields) where
  abbrev filled : Fields
  filled = setdefault "role" v (setdefault "is_superuser" b (setdefault "is_staff" a extra))

  staff_default : get "is_staff" extra ≡ none → get "is_staff" filled ≡ some a
  staff_default missing =
      get-setdefault_other "is_staff" "role" v
        (setdefault "is_superuser" b (setdefault "is_staff" a extra)) refl
      ∙ get-setdefault_other "is_staff" "is_superuser" b (setdefault "is_staff" a extra) refl
      ∙ get-setdefault_self "is_staff" a extra missing

  superuser_default : get "is_superuser" extra ≡ none → get "is_superuser" filled ≡ some b
  superuser_default missing =
      let base = setdefault "is_staff" a extra in
      get-setdefault_other "is_superuser" "role" v (setdefault "is_superuser" b base) refl
      ∙ get-setdefault_self "is_superuser" b base
          (get-setdefault_other "is_superuser" "is_staff" a extra refl ∙ missing)

module _ (django : Django) (id : ℕ) where
  unknown_raises :
      (email password : String) (fields : Fields) (users : List User)
      → known_columns fields ≡ false
      → is_blank email ≡ false
      → create_row django id email password fields users ≡ raised unexpected_argument
  unfolding create_row
  unknown_raises email password fields users odd given = simp (given, odd)

  row_raises :
      (email password : String) (fields : Fields) (users : List User)
      → known_columns fields ≡ false
      → (why : UserError) × (create_row django id email password fields users ≡ raised why)
  row_raises email password fields users odd = elim (Bool-cases (is_blank email)) [
    | inl blank ↦ (no_email, unfold create_row in simp blank)
    | inr given ↦ (unexpected_argument, unknown_raises email password fields users odd given)
  ]

  checked_raises :
      (email password : String) (fields : Fields) (users : List User)
      → known_columns fields ≡ false
      → (why : UserError) × (create_checked django id email password fields users ≡ raised why)
  unfolding create_checked
  checked_raises email password fields users odd =
      elim (Bool-cases (is_true (get "is_staff" fields))) [
        | inr plain ↦ (not_staff, simp plain)
        | inl staff ↦ elim (Bool-cases (is_true (get "is_superuser" fields))) [
          | inr plain ↦ (not_superuser, simp (staff, plain))
          | inl super ↦
              let (why, e) = row_raises email password fields users odd in
              (why, simp (staff, super) e)
        ]
      ]

  checked_unknown :
      (email password : String) (fields : Fields) (users : List User)
      → known_columns fields ≡ false
      → is_blank email ≡ false
      → get "is_staff" fields ≡ some (flag true)
      → get "is_superuser" fields ≡ some (flag true)
      → create_checked django id email password fields users ≡ raised unexpected_argument
  unfolding create_checked
  checked_unknown email password fields users odd given staff super =
      simp (staff, super, given, odd)

  -- `create_superuser` makes no account: whatever its arguments are, it raises; with an e-mail and no
  -- flags of the caller's own, as the management command calls it, it raises since `User` has no
  -- `role`.
  pub create_superuser-raises :
      (email password : String) (extra : Fields) (users : List User)
      → ((why : UserError) × (create_superuser django id email password extra users ≡ raised why))
        × (is_blank email ≡ false
            → get "is_staff" extra ≡ none
            → get "is_superuser" extra ≡ none
            → create_superuser django id email password extra users ≡ raised unexpected_argument)
  unfolding create_superuser
  create_superuser-raises email password extra users =
      let base = setdefault "is_superuser" (flag true) (setdefault "is_staff" (flag true) extra) in
      let fields = setdefault "role" (words "admin") base in
      let odd = default_unknown "role" (words "admin") base role_unknown in
      (
        checked_raises email password fields users odd,
        λ given no_staff no_super.
            checked_unknown email password fields users odd given
              (staff_default (words "admin") (flag true) (flag true) extra no_staff)
              (superuser_default (words "admin") (flag true) (flag true) extra no_super),
      )
