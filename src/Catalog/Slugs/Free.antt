-- ===== src/Catalog/Slugs/Free.antt =====
-- The search for a free slug ends, and what it finds is free.
use shop_orbit.Base.{
  ℕ, zero, suc, ◌≤◌, ◌<◌, ◌≡◌, ◌≢◌, refl, sym, ◌∙◌, Bool, true, false, not, List, [], ◌∷◌, ◌++◌,
  Option, some, Text, same_text, same_text→eq, decimal, decimal-injective, length, select, arith,
  Bool-cases, inl, inr,
}
use shop_orbit.Catalog.Slugs.{SlugRow, exists, other_rows, suffixed, first_free, unique_slugify}

-- the rows whose slug is not `t`
abbrev without : Text → List SlugRow → List SlugRow
without t rows = select (λ r. not (same_text r.slug t)) rows

without-shorter : (t : Text) (rows : List SlugRow) → length (without t rows) ≤ length rows
without-shorter t [] = omega arith
without-shorter t (r ∷ rows) = ground (arith, without-shorter t rows)

without-fewer :
    (t : Text) (rows : List SlugRow) → exists t rows ≡ true → length (without t rows) < length rows
without-fewer t [] there = ground arith
without-fewer t (r ∷ rows) there = ground (arith, without-fewer t rows, without-shorter t rows)

without-others :
    (t u : Text) (rows : List SlugRow) → t ≢ u → exists u (without t rows) ≡ exists u rows
without-others t u [] apart = refl
without-others t u (r ∷ rows) apart = elim (Bool-cases (same_text r.slug t)) [
  | inr kept ↦ ground (arith, without-others t u rows apart)
  | inl dropped ↦
      let e = same_text→eq r.slug t dropped in
      let not_u : same_text r.slug u ≡ false = elim (Bool-cases (same_text r.slug u)) [
        | inl same ↦ absurd (apart (sym e ∙ same_text→eq r.slug u same))
        | inr other ↦ other
      ] in
      ground (arith, without-others t u rows apart)
]

append_cancel : (a b c : Text) → a ++ b ≡ a ++ c → b ≡ c
append_cancel [] b c same = same
append_cancel (x ∷ a) b c same = append_cancel a b c (cc)

longer : (a b : Text) (x : ℕ) → a ≢ a ++ x ∷ b
longer [] b x same = cc
longer (y ∷ a) b x same = longer a b x (cc)

suffixed-apart : (slug : Text) (j k : ℕ) → j < k → suffixed slug j ≢ suffixed slug k
suffixed-apart slug j k less same =
    let digits = append_cancel slug (45 ∷ decimal j) (45 ∷ decimal k) same in
    let number = decimal-injective j k (cc) in absurd (omega arith)

-- Enough rounds, where what is in use is told by a list of rows that the candidates met so far are not in.
module _ (slug : Text) (is_taken : Text → Bool) where
  first_free-ends :
      (fuel : ℕ) (rows : List SlugRow) (candidate : Text) (counter : ℕ)
      → length rows < fuel
      → is_taken candidate ≡ exists candidate rows
      → ((k : ℕ) → counter ≤ k → is_taken (suffixed slug k) ≡ exists (suffixed slug k) rows)
      → ((k : ℕ) → counter ≤ k → candidate ≢ suffixed slug k)
      → (t : Text) × (first_free fuel slug is_taken candidate counter ≡ some t)
        × (is_taken t ≡ false)
  first_free-ends zero rows candidate counter enough this later apart = absurd (omega arith)
  first_free-ends (suc fuel) rows candidate counter enough this later apart =
      elim (Bool-cases (is_taken candidate)) [
        | inr free ↦ (candidate, simp free, free)
        | inl used ↦
            let next = suffixed slug counter in
            let rest = without candidate rows in
            let fewer = without-fewer candidate rows (sym this ∙ used) in
            let told = λ (k : ℕ) (above : counter ≤ k).
              later k above
              ∙ sym (without-others candidate (suffixed slug k) rows (apart k above)) in
            let (t, e, free) =
              first_free-ends fuel rest next (suc counter) (omega (arith, fewer))
                (told counter (omega arith)) (λ k above. told k (omega arith))
                (λ k above. suffixed-apart slug counter k (omega arith)) in
            (t, simp (used, e), free)
      ]

module _ (slugify : Text → Text) where
  -- The loop of `unique_slugify` ends: whatever slugs are in use, it returns within one round more than there are
  -- rows, with a slug that no other row of the table has.
  pub unique_slugify-ends :
      (pk : Option ℕ) (base_value : Text) (queryset : List SlugRow)
      → (t : Text) × (unique_slugify slugify pk base_value queryset ≡ some t)
        × (exists t (other_rows pk queryset) ≡ false)
  unfolding unique_slugify
  unique_slugify-ends pk base_value queryset =
      let slug = slugify base_value in
      let rows = other_rows pk queryset in
      first_free-ends slug (λ t. exists t rows) (suc (length rows)) rows slug 2 (omega arith) refl
        (λ k above. refl) (λ k above. longer slug (decimal k) 45)
