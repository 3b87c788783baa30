-- ===== src/Base/Money.antt =====
-- `Decimal` amounts. A stored amount is a number of paise. An unrounded amount is a fraction of a
-- paisa, `n / d`, and `quantize(Decimal("0.01"))` rounds it to the nearest paisa, ties to the even one
-- (the default rounding of `decimal`). The amounts stay far below the 28 digits of its context.
use Prim.Native.Nat.{ℕ, ◌+◌, ◌*◌, ◌/◌, ◌%◌, ◌≤◌, ◌<◌}
use mathlib.Core.Path.{◌≡◌}
use native.Mathlib.Omega.{arith}
use native.Mathlib.Nat.{mod-lt, div-add-mod, le_refl}
use mathlib.Core.Logic.{◌⊎◌, inl, inr}
use shop_orbit.Base.Tests.{ltb, ◌==◌, if◌then◌else◌}

-- The nearest whole number to `n / d`
unfoldable pub round_half_even : ℕ → ℕ → ℕ
round_half_even n d =
    if ltb (2 * (n % d)) d
    then n / d
    else if ltb d (2 * (n % d))
    then n / d + 1
    else if (n / d) % 2 == 0
    then n / d
    else n / d + 1

-- It is the quotient, rounded down where the rest is at most half and up where it is at least half.
round_cases :
    (n d : ℕ)
    → 0 < d
    → ((round_half_even n d ≡ n / d) × (2 * (n % d) ≤ d))
      ⊎ ((round_half_even n d ≡ n / d + 1) × (d ≤ 2 * (n % d)))
unfolding round_half_even
round_cases n d h = ground arith

lt_of_mul-lt : (a b d : ℕ) → a * d < b * d → a < b
lt_of_mul-lt a b d h = grind arith

-- It is within half a paisa of the exact amount.
pub round_half_even_near :
    (n d : ℕ)
    → 0 < d
    → (2 * (round_half_even n d * d) ≤ 2 * n + d) × (2 * n ≤ 2 * (round_half_even n d * d) + d)
round_half_even_near n d h = elim (round_cases n d h) [
  | inl (e, small) ↦ rw e (omega (arith, div-add-mod n d), omega (arith, div-add-mod n d))
  | inr (e, large) ↦
      rw e (omega (arith, div-add-mod n d), omega (arith, div-add-mod n d, mod-lt n h))
]

-- It does not pass a whole number of paise that the exact amount does not pass.
pub round_half_even-le : (n d m : ℕ) → 0 < d → n ≤ m * d → round_half_even n d ≤ m
round_half_even-le n d m h le = elim (round_cases n d h) [
  | inl (e, small) ↦
      rw e (omega (arith, lt_of_mul-lt (n / d) (m + 1) d (omega (arith, div-add-mod n d))))
  | inr (e, large) ↦ rw e (omega (arith, lt_of_mul-lt (n / d) m d (omega (arith, div-add-mod n d))))
]

-- A whole number of paise is left as it is.
pub round_half_even_exact : (m d : ℕ) → 0 < d → round_half_even (m * d) d ≡ m
round_half_even_exact m d h = omega (
  arith,
  round_half_even-le (m * d) d m h (le_refl (m * d)),
  lt_of_mul-lt m (round_half_even (m * d) d + 1) d
      (omega (arith, (round_half_even_near (m * d) d h).1)),
)
