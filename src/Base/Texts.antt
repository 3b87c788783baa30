-- ===== src/Base/Texts.antt =====
-- Texts as lists of character codes, and how Python prints a whole number.
use Prim.Native.Nat.{ℕ, zero, suc, ◌+◌, ◌-◌, ◌*◌, ◌/◌, ◌%◌, ◌≤◌}
use mathlib.Core.Path.{◌≡◌, refl, sym, ap, ◌∙◌}
use mathlib.Core.Bool.{Bool, true, false, ◌&&◌}
use mathlib.Core.List.{List, [], ◌∷◌}
use native.Mathlib.Omega.{arith}
use shop_orbit.Base.Tests.{◌==◌, ltb, if◌then◌else◌, Bool-cases}
use mathlib.Core.Logic.{inl, inr}

abbrev pub Text : Type 0
Text = List ℕ

-- `a == b` on texts
abbrev pub same_text : Text → Text → Bool
same_text [] [] = true
same_text [] (y ∷ ys) = false
same_text (x ∷ xs) [] = false
same_text (x ∷ xs) (y ∷ ys) = (x == y) && same_text xs ys

pub same_text→eq : (a b : Text) → same_text a b ≡ true → a ≡ b
same_text→eq [] [] same = refl
same_text→eq [] (y ∷ ys) same = ground arith
same_text→eq (x ∷ xs) [] same = ground arith
same_text→eq (x ∷ xs) (y ∷ ys) same = ground (arith, same_text→eq xs ys)

pub same_text_refl : (a : Text) → same_text a a ≡ true
same_text_refl [] = refl
same_text_refl (x ∷ xs) = ground (arith, same_text_refl xs)

-- The digits of `n` before those in `rest`; `n` steps are enough, since each divides by ten.
abbrev pub digits_before : ℕ → ℕ → Text → Text
digits_before zero n rest = (n + 48) ∷ rest
digits_before (suc fuel) n rest =
    let more = digits_before fuel (n / 10) ((n % 10 + 48) ∷ rest) in
    if ltb n 10 then (n + 48) ∷ rest else more

-- `f"{n}"`
abbrev pub decimal : ℕ → Text
decimal n = digits_before n n []

-- What a text of digits stands for, after the number `acc` that has been read.
abbrev pub read_digits : ℕ → Text → ℕ
read_digits acc [] = acc
read_digits acc (c ∷ cs) = read_digits (acc * 10 + (c - 48)) cs

read_digits_before :
    (fuel n : ℕ) (rest : Text)
    → n ≤ fuel
    → read_digits 0 (digits_before fuel n rest) ≡ read_digits n rest
read_digits_before zero n rest enough = let none_left : n ≡ 0 = omega arith in rw none_left refl
read_digits_before (suc fuel) n rest enough = elim (Bool-cases (ltb n 10)) [
  | inl small ↦
      let same : 0 + (n + 48 - 48) ≡ n = omega arith in
      simp small (ap (λ m. read_digits m rest) same)
  | inr large ↦
      let split : n / 10 * 10 + (n % 10 + 48 - 48) ≡ n = ground arith in
      let fewer : n / 10 ≤ fuel = ground arith in
      simp large (
        read_digits_before fuel (n / 10) ((n % 10 + 48) ∷ rest) fewer
        ∙ ap (λ m. read_digits m rest) split)
]

pub read_decimal : (n : ℕ) → read_digits 0 (decimal n) ≡ n
read_decimal n = read_digits_before n n [] (omega arith)

pub decimal-injective : (m n : ℕ) → decimal m ≡ decimal n → m ≡ n
decimal-injective m n same = sym (read_decimal m) ∙ ap (read_digits 0) same ∙ read_decimal n
