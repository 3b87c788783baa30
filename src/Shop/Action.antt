-- ===== src/Shop/Action.antt =====
-- A call that commits as it goes: it returns or raises, and leaves the shop in the state that it had
-- committed by then. A `transaction.atomic` block commits all of its writes or none.
use shop_orbit.Base.{
  ◌≡◌, refl, Bool, true, false, Option, none, some, Result, ok, err, Error, Result-cases,
  if◌then◌else◌, inl, inr, ap, ◌∙◌, arith,
}
use shop_orbit.Shop.{Shop}

abbrev pub Action : Type 0 → Type 0
Action A = Shop → Result A × Shop

module _ {A : Type 0} where
  abbrev pub pure : A → Action A
  pure a s = (ok a, s)

  abbrev pub raise : Error → Action A
  raise e s = (err e, s)

  abbrev pub gets : (Shop → A) → Action A
  gets f s = (ok (f s), s)

  abbrev pub lift : Result A → Action A
  lift r s = (r, s)

  abbrev pub get_or_raise : Option A → Error → Action A
  get_or_raise none e = raise e
  get_or_raise (some a) e = pure a

abbrev pub continue : {A B : Type 0} → Result A → (A → Action B) → Action B
continue (ok a) f s = f a s
continue (err e) f s = (err e, s)

infixl 5 ◌>>=◌
abbrev pub ◌>>=◌ : {A B : Type 0} (call : Action A) (next : A → Action B) → Action B
call >>= next = λ s. continue (call s).0 next (call s).1

infixl 5 ◌>>◌
abbrev pub ◌>>◌ : {A B : Type 0} (call : Action A) (next : Action B) → Action B
call >> next = call >>= λ value. next

abbrev pub modify : (Shop → Shop) → Action (Unit {0})
modify f s = (ok tt, f s)

abbrev pub guard : Bool → Error → Action (Unit {0})
guard true e s = (ok tt, s)
guard false e s = (err e, s)

-- `with transaction.atomic():` around writes that may raise
abbrev pub atomic : (Shop → Result Shop) → Action (Unit {0})
atomic f s = elim (f s) [ ok s' ↦ (ok tt, s') | err e ↦ (err e, s) ]

-- One write after another within a transaction
abbrev pub and_then : Result Shop → (Shop → Result Shop) → Result Shop
and_then (ok s) f = f s
and_then (err e) f = err e

-- A call whose first part raises, raises; one that returned has both parts returned.
pub >>=-returned :
    {A B : Type 0} (m : Action A) (f : A → Action B) (s s' : Shop) (b : B)
    → (m >>= f) s ≡ (ok b, s')
    → (a : A) × (s1 : Shop) × (m s ≡ (ok a, s1)) × (f a s1 ≡ (ok b, s'))
>>=-returned m f s s' b h = elim (Result-cases (m s).0) [
  | inl (a, e) ↦ (a, (m s).1, ground arith, ground arith)
  | inr (e, failed) ↦ absurd (ground arith)
]

-- A call that leaves one part of the shop as it was.
pub record Keeps {ℓ} {X : Type ℓ} {A : Type 0} (look : Shop → X) (m : Action A) : Type ℓ where
  pub kept : (s : Shop) → look (m s).1 ≡ look s

module _ {ℓ} {X : Type ℓ} (look : Shop → X) where
  pub >>=-Keeps :
      {A B : Type 0} {m : Action A} {f : A → Action B}
      → Keeps look m
      → ((a : A) → Keeps look (f a))
      → Keeps look (m >>= f)
  >>=-Keeps {m = m} {f = f} first second = record {
    kept = λ s. elim (Result-cases (m s).0) [
      | inl (a, e) ↦
          ap (λ r. look (continue r f (m s).1).1) e ∙ (second a).kept (m s).1 ∙ first.kept s
      | inr (x, e) ↦ ap (λ r. look (continue r f (m s).1).1) e ∙ first.kept s
    ];
  }

  pub modify-Keeps : (f : Shop → Shop) → ((s : Shop) → look (f s) ≡ look s) → Keeps look (modify f)
  modify-Keeps f keep = record { kept = keep }

  pub gets-Keeps : {A : Type 0} (f : Shop → A) → Keeps look (gets f)
  gets-Keeps f = record { kept = λ s. refl }

  pub pure-Keeps : {A : Type 0} (r : Result A) → Keeps look (lift r)
  pure-Keeps r = record { kept = λ s. refl }

  pub guard-Keeps : (b : Bool) (e : Error) → Keeps look (guard b e)
  guard-Keeps true e = record { kept = λ s. refl }
  guard-Keeps false e = record { kept = λ s. refl }

  pub get_or_raise-Keeps : {A : Type 0} (o : Option A) (e : Error) → Keeps look (get_or_raise o e)
  get_or_raise-Keeps none e = record { kept = λ s. refl }
  get_or_raise-Keeps (some a) e = record { kept = λ s. refl }

  pub if-Keeps :
      {A : Type 0} (b : Bool) {m k : Action A}
      → Keeps look m
      → Keeps look k
      → Keeps look (if b then m else k)
  if-Keeps true first second = first
  if-Keeps false first second = second
