-- ===== src/Staff/Bulk.antt =====
-- The loop of the admin's bulk actions: each selected row in its own transaction, the exceptions of
-- one class counted and reported, and any other ending the action.
use shop_orbit.Base.{
  ℕ, ◌+◌, ◌≡◌, Bool, true, false, List, [], ◌∷◌, Result, ok, err, Error, insufficient_stock,
  does_not_exist, gateway_error, api_error, not_in_transaction, if◌then◌else◌, All, Result-cases,
  Bool-cases, inl, inr,
}
use shop_orbit.Shop.{Shop}
use shop_orbit.Shop.Action.{Action}

-- Whether the exception is a `ValueError`
abbrev pub is_value_error : Error → Bool
is_value_error (insufficient_stock n) = false
is_value_error does_not_exist = false
is_value_error gateway_error = false
is_value_error api_error = false
is_value_error not_in_transaction = false
is_value_error _ = true

-- The two counters of an action
pub record Tally : Type 0 where
  pub done : ℕ
  pub failed : ℕ

-- `try: f(x) except ...: failed += 1 else: done += 1`, and the rest of the loop
abbrev pub settle : (Error → Bool) → Result Shop → (Tally → Action Tally) → Tally → Action Tally
settle caught (ok s') rest t s = rest (record t { done = t.done + 1 }) s'
settle caught (err e) rest t s =
    if caught e then rest (record t { failed = t.failed + 1 }) s else (err e, s)

module _ {A : Type 0} (caught : Error → Bool) (f : A → Shop → Result Shop) where
  -- The loop, from the counters that it has reached
  unfoldable pub bulk : List A → Tally → Action Tally
  bulk [] t s = (ok t, s)
  bulk (x ∷ xs) t s = settle caught (f x s) (bulk xs) t s

  -- What a round that went through keeps, the whole loop keeps, however it ends.
  pub bulk_inv :
      (P : Shop → Type 0) (Q : A → Type 0)
      → ((x : A) (s s' : Shop) → Q x → f x s ≡ ok s' → P s → P s')
      → (xs : List A) (t : Tally) (s : Shop) → All Q xs
      → P s
      → P (bulk xs t s).1
  unfolding bulk
  bulk_inv P Q keep [] t s each p = p
  bulk_inv P Q keep (x ∷ xs) t s (this, each) p = elim (Result-cases (f x s)) [
    | inl (s', run) ↦
        simp run
          (bulk_inv P Q keep xs (record t { done = t.done + 1 }) s' each (keep x s s' this run p))
    | inr (e, raised) ↦ elim (Bool-cases (caught e)) [
      | inl counted ↦
          simp (raised, counted)
            (bulk_inv P Q keep xs (record t { failed = t.failed + 1 }) s each p)
      | inr ends ↦ simp (raised, ends) p
    ]
  ]
