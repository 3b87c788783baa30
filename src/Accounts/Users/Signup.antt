-- ===== src/Accounts/Users/Signup.antt =====
-- Which accounts a registration makes.
use Prim.Native.String.{String}
use text.Mathlib.Text.{◌==◌ as str_eq}
use text.Mathlib.TextEquality.{eq_iff}
use shop_orbit.Base.{
  ℕ, ◌≡◌, refl, ap, Bool, true, false, Option, none, some, List, [], ◌∷◌, not, ◌&&◌, ◌||◌, any_of,
  if◌then◌else◌, arith, Bool-cases, Option-cases, inl, inr, ◌⊎◌,
}
use shop_orbit.Accounts.Users.{
  User, Django, Registration, is_blank, registration_form, register, clean_email, valid_account,
  account, both_given, differ, welcome,
}

none-ne-some {ℓ} : {A : Type ℓ} {a : A} → none ≡ some a → ⊥
none-ne-some h = cc

if-eq-some {ℓ} : {A : Type ℓ} (b : Bool) {x y : A} → (if b then none else some x) ≡ some y → y ≡ x
if-eq-some true h = absurd (none-ne-some h)
if-eq-some false h = cc

-- No two accounts have e-mails that are the same but for case.
abbrev pub IsDistinct : Django → List User → Type 0
IsDistinct django [] = Unit
IsDistinct django (u ∷ users) =
    (any_of (λ (w : User). str_eq (django.fold w.email) (django.fold u.email)) users ≡ false)
    × IsDistinct django users

module _ (django : Django) where
  -- What a posted form that made an account has passed
  record Accepted (id : ℕ) (post : Registration) (users : List User) (user : User) : Type 0 where
    fresh :
        any_of (λ (w : User). str_eq (django.fold w.email) (django.fold user.email)) users ≡ false
    plain : (user.is_staff ≡ false) × (user.is_superuser ≡ false) × (user.is_active ≡ true)
    keyed : user.id ≡ id
    confirmed :
        (p q : String) × (django.clean "password1" post.password1 ≡ some p)
        × (django.clean "password2" post.password2 ≡ some q)
        × (user.password ≡ p)
        × (is_blank p ≡ false → is_blank q ≡ false → p ≡ q)

  unused :
      (users : List User) (t : Option String) (email : String)
      → clean_email django users t ≡ some email
      → any_of (λ (w : User). str_eq (django.fold w.email) (django.fold email)) users ≡ false
  unused users none email h = absurd (ground arith)
  unused users (some t) email h =
      elim (Bool-cases (
        any_of (λ (w : User). str_eq (django.fold w.email) (django.fold (django.lowered t)))
          users)) [
            | inl used ↦ absurd (ground arith)
            | inr free ↦ let e : email ≡ django.lowered t = ground arith in rw e free
          ]

  passwords :
      (p q : String)
      → (both_given (some p) (some q) && differ (some p) (some q)) ≡ false
      → is_blank p ≡ false
      → is_blank q ≡ false
      → p ≡ q
  passwords p q h given given' = (eq_iff p q).0 (ground arith)

  accepted_fields :
      (id : ℕ) (users : List User) (name email phone p q : Option String) (user : User)
      → valid_account django id users name email phone p q ≡ some user
      → (n e f a b : String) × (email ≡ some e)
        × (p ≡ some a)
        × (q ≡ some b)
        × (user ≡ account id n e f a)
        × (is_blank a ≡ false → is_blank b ≡ false → a ≡ b)
  accepted_fields id users none email phone p q user h = absurd (ground arith)
  accepted_fields id users (some n) none phone p q user h = absurd (ground arith)
  accepted_fields id users (some n) (some e) none p q user h = absurd (ground arith)
  accepted_fields id users (some n) (some e) (some f) none q user h = absurd (ground arith)
  accepted_fields id users (some n) (some e) (some f) (some a) none user h = absurd (ground arith)
  accepted_fields id users (some n) (some e) (some f) (some a) (some b) user h =
      elim (Bool-cases (both_given (some a) (some b) && differ (some a) (some b))) [
        | inl unequal ↦ absurd (none-ne-some (simp unequal at h))
        | inr fine ↦ (
          n,
          e,
          f,
          a,
          b,
          refl,
          refl,
          refl,
          if-eq-some
              (not (django.is_valid (account id n e f a))
                || any_of (λ (u : User). str_eq u.email e) users)
              (simp fine at h),
          passwords a b fine,
        )
      ]

  accepted :
      (id : ℕ) (post : Registration) (users : List User) (user : User)
      → registration_form django id post users ≡ some user
      → Accepted id post users user
  unfolding registration_form
  accepted id post users user h =
      let (n, e, f, a, b, mail, first, second, same, agree) =
        accepted_fields id users (django.clean "full_name" post.full_name)
          (clean_email django users (django.clean "email" post.email))
          (django.clean "phone_number" post.phone_number) (django.clean "password1" post.password1)
          (django.clean "password2" post.password2) user h in
      rw same (record {
        fresh = unused users (django.clean "email" post.email) e mail;
        plain = (refl, refl, refl);
        keyed = refl;
        confirmed = (a, b, first, second, refl, agree);
      })

  -- Signing up keeps every two accounts' e-mails different, case aside. The account that it makes is an active
  -- customer's, neither staff nor superuser, with the password that was typed both times.
  pub register-IsDistinct :
      (logged_in : Bool) (id : ℕ) (post : Registration) (users : List User)
      → IsDistinct django users
      → IsDistinct django (register django logged_in id post users).1
        × (((register django logged_in id post users).1 ≡ users)
            ⊎ ((user : User) × ((register django logged_in id post users)
                  ≡ (welcome id, user ∷ users))
                × (user.is_staff ≡ false)
                × (user.is_superuser ≡ false)
                × (user.is_active ≡ true)
                × (p q : String) × (django.clean "password1" post.password1 ≡ some p)
                × (django.clean "password2" post.password2 ≡ some q)
                × (user.password ≡ p)
                × (is_blank p ≡ false → is_blank q ≡ false → p ≡ q)))
  unfolding register
  register-IsDistinct true id post users distinct = (distinct, inl refl)
  register-IsDistinct false id post users distinct =
      elim (Option-cases (registration_form django id post users)) [
        | inl refused ↦ rw (refused, register) (distinct, inl refl)
        | inr (user, made) ↦
            let w = accepted id post users user made in
            let (p, q, first, second, kept, agree) = w.confirmed in
            rw (made, register)
              (
                (w.fresh, distinct),
                inr (
                  user,
                  ap (λ k. (welcome k, user ∷ users)) w.keyed,
                  w.plain.0,
                  w.plain.1,
                  w.plain.2,
                  p,
                  q,
                  first,
                  second,
                  kept,
                  agree,
                ),
              )
      ]
