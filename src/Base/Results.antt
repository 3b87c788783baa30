-- ===== src/Base/Results.antt =====
-- Results of functions that may raise. Each exception of the program is a constructor; those that
-- carry the same Python class and differ by their message are told apart by name.
use mathlib.Core.Path.{◌≡◌, refl}
use mathlib.Core.Logic.{◌⊎◌, inl, inr}
use mathlib.Core.Bool.{Bool, true, false}
use mathlib.Core.Option.{Option, none, some}
use mathlib.Core.List.{List, [], ◌∷◌}
use Prim.Native.Nat.{ℕ}

pub data Error : Type 0 where
  -- `InsufficientStockError`, with the number left that its message shows
  insufficient_stock : ℕ → Error
  -- `Model.DoesNotExist`
  does_not_exist : Error
  -- `ValueError`, by what its message complains of
  bad_quantity bad_status no_lines over_receipt no_low_stock : Error
  no_delivery_date window_passed foreign_item not_returnable no_shipment no_payment : Error
  never_reached_gateway bad_refund_amount : Error
  -- an exception raised by the payment gateway or the courier's API
  gateway_error api_error : Error
  -- `TransactionManagementError`
  not_in_transaction : Error

-- what a call that may raise comes to: the value that it returns, or the exception
pub data Result {ℓ} (T : Type ℓ) : Type ℓ where
  ok : T → Result T
  err : Error → Result T

-- The next call is made with the value of the first; an exception passes it by.
infixl 5 ◌>>=◌
abbrev pub ◌>>=◌ {ℓ κ} :
    {T : Type ℓ} {U : Type κ} (call : Result T) (next : T → Result U) → Result U
err raised >>= next = err raised
ok value >>= next = next value

infixl 5 ◌>>◌
abbrev pub ◌>>◌ {κ} : {U : Type κ} (call : Result (Unit {0})) (next : Result U) → Result U
call >> next = call >>= λ done. next

-- `if c: raise e`
abbrev pub raise_if : Bool → Error → Result (Unit {0})
raise_if true e = err e
raise_if false e = ok tt

-- `.get(pk=...)`
abbrev pub or_raise {ℓ} : {A : Type ℓ} → Option A → Error → Result A
or_raise none e = err e
or_raise (some a) e = ok a

-- a `for` loop whose body may raise, over the state that the body changes
abbrev pub for_each {ℓ κ} : {A : Type ℓ} {S : Type κ} → (A → S → Result S) → List A → S → Result S
for_each f [] s = ok s
for_each f (x ∷ xs) s = f x s >>= for_each f xs

-- whether the call returned
abbrev pub is_ok {ℓ} : {A : Type ℓ} → Result A → Bool
is_ok (ok a) = true
is_ok (err e) = false

pub Result-cases {ℓ} :
    {T : Type ℓ} (call : Result T)
    → ((value : T) × (call ≡ ok value)) ⊎ ((raised : Error) × (call ≡ err raised))
Result-cases (err raised) = inr (raised, refl)
Result-cases (ok value) = inl (value, refl)

-- Where two calls returned, the first returned and the second returned on its value.
pub >>=-eq-ok {ℓ κ} :
    {T : Type ℓ} {U : Type κ} (call : Result T) (next : T → Result U) {result : U}
    → (call >>= next) ≡ ok result
    → (value : T) × (call ≡ ok value) × (next value ≡ ok result)
>>=-eq-ok (err raised) next returned = cc
>>=-eq-ok (ok value) next returned = (value, refl, returned)

pub ok-injective {ℓ} : {A : Type ℓ} {a b : A} → ok a ≡ ok b → a ≡ b
ok-injective h = cc

module _ {ℓ κ} {A : Type ℓ} {S : Type κ} (f : A → S → Result S) where
  pub for_each-cons :
      (x : A) (xs : List A) (s : S) → for_each f (x ∷ xs) s ≡ (f x s >>= for_each f xs)
  for_each-cons x xs s = refl

  -- A relation between states that every round respects holds of the whole loop.
  pub for_each_inv {μ} :
      (P : S → Type μ)
      → ((x : A) (s s' : S) → f x s ≡ ok s' → P s → P s')
      → (xs : List A) (s s' : S) → for_each f xs s ≡ ok s'
      → P s
      → P s'
  for_each_inv P keep [] s s' h p = rw (← ok-injective h) p
  for_each_inv P keep (x ∷ xs) s s' h p =
      let (s1, first, rest) = >>=-eq-ok (f x s) (for_each f xs) h in
      for_each_inv P keep xs s1 s' rest (keep x s s1 first p)
