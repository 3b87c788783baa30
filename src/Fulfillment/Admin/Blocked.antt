-- ===== src/Fulfillment/Admin/Blocked.antt =====
-- The page that blocks a list of pincodes, and what the shop then answers for a pincode.
use Prim.Native.String.{String}
use text.Mathlib.Text.{◌==◌ as str_eq}
use text.Mathlib.TextEquality.{eq_iff}
use shop_orbit.Base.{
  ◌≡◌, refl, ap, ◌∙◌, Bool, true, false, List, [], ◌∷◌, any_of, not, ◌&&◌, ◌||◌, arith, Bool-cases,
  inl, inr,
}
use shop_orbit.Fulfillment.Admin.{
  has_code, set_blocked, block_code, distinct_codes, block_each, bulk_block_view,
}
use shop_orbit.Fulfillment.Services.{Pincode, is_pincode_serviceable, blocks}

-- whether a row blocks the code
abbrev is_blocked : String → List Pincode → Bool
is_blocked c rows = any_of (blocks c) rows

abbrev is_named : String → List String → Bool
is_named c codes = any_of (λ d. str_eq d c) codes

module _ (note code c : String) where
  set_blocked-blocked :
      (rows : List Pincode)
      → is_blocked c (set_blocked note code rows)
        ≡ ((str_eq code c && has_code code rows) || is_blocked c rows)
  set_blocked-blocked [] = ground arith
  set_blocked-blocked (p ∷ rows) =
      let ih = set_blocked-blocked rows in
      elim (Bool-cases (str_eq p.postal_code code)) [
        | inl same ↦
            let e : str_eq p.postal_code c ≡ str_eq code c =
              ap (λ x. str_eq x c) ((eq_iff p.postal_code code).0 same) in
            ground arith
        | inr apart ↦ ground arith
      ]

  block_code-blocked :
      (rows : List Pincode)
      → is_blocked c (block_code note code rows) ≡ (str_eq code c || is_blocked c rows)
  block_code-blocked rows =
      let rewritten = set_blocked-blocked rows in
      elim (Bool-cases (has_code code rows)) [ inl known ↦ ground arith | inr fresh ↦ ground arith ]

block_each-blocked :
    (note c : String) (codes : List String) (rows : List Pincode)
    → is_blocked c (block_each note codes rows).0 ≡ (is_named c codes || is_blocked c rows)
unfolding block_each
block_each-blocked note c [] rows = refl
block_each-blocked note c (code ∷ codes) rows =
    let ih = block_each-blocked note c codes (block_code note code rows) in
    let step = block_code-blocked note code c rows in ground arith

-- whether a line that is not blank gives the code
abbrev pub is_asked : (String → String) → String → List String → Bool
is_asked strip c lines = any_of (λ l. not (str_eq (strip l) "") && str_eq (strip l) c) lines

distinct_codes-named :
    (strip : String → String) (c : String) (lines : List String)
    → is_named c (distinct_codes strip lines) ≡ is_asked strip c lines
distinct_codes-named strip c [] = refl
distinct_codes-named strip c (l ∷ lines) =
    let ih = distinct_codes-named strip c lines in
    elim (Bool-cases (str_eq (strip l) c)) [
      | inl same ↦
          let e : is_named (strip l) (distinct_codes strip lines) ≡ is_asked strip c lines =
            ap (λ x. is_named x (distinct_codes strip lines)) ((eq_iff (strip l) c).0 same) ∙ ih in
          ground arith
      | inr apart ↦ ground arith
    ]

-- Blocking pincodes in bulk. A user who may not add rows changes nothing. For any other, a code is serviceable
-- afterwards exactly if it was before and no line of the text, stripped, gives it, whichever rows the table
-- holds and however often a code is repeated.
pub bulk_block_view-blocks :
    (strip : String → String) (lines : List String) (note c : String) (rows : List Pincode)
    → ((bulk_block_view strip false lines note rows).1 ≡ rows)
      × (is_pincode_serviceable c (bulk_block_view strip true lines note rows).1
          ≡ (not (is_asked strip c lines) && is_pincode_serviceable c rows))
unfolding bulk_block_view is_pincode_serviceable
bulk_block_view-blocks strip lines note c rows =
    let blocked = block_each-blocked (strip note) c (distinct_codes strip lines) rows in
    let named = distinct_codes-named strip c lines in (refl, ground arith)
