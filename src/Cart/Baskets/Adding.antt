-- ===== src/Cart/Baskets/Adding.antt =====
-- What is added to a cart: the units of one slot, and nothing else.
use mathlib.Core.List.{Memᴰ}
use mathlib.Core.Path.{subst}
use shop_orbit.Base.{
  zero, suc, pos, negsuc, any_of, ◌⊎◌, ◌≢◌, ℕ, ◌+◌, ◌≡◌, refl, sym, ap, ◌∙◌, Bool, true, false,
  ◌&&◌, List, [], ◌∷◌, Option, none, some, ℤ, ◌==◌, if◌then◌else◌, ok, find, find-fits, All, arith,
  Option-cases, Bool-cases, Result-cases, inl, inr,
}
use shop_orbit.Cart.Baskets.{
  CartLine, Baskets, Offer, same_variant, in_slot, set_quantity, form_quantity, put_in_cart,
  chosen_variant, active_offer, add_to_cart,
}
use shop_orbit.Cart.Baskets.Tidy.{clear_of, IsTidy}

-- The units of a product and variant in a user's cart.
abbrev pub line_units : ℕ → ℕ → Option ℕ → CartLine → ℕ
line_units user product variant l = if in_slot user product variant l then l.quantity else 0

abbrev pub units_in : ℕ → ℕ → Option ℕ → List CartLine → ℕ
units_in user product variant [] = 0
units_in user product variant (l ∷ ls) =
    line_units user product variant l + units_in user product variant ls

found-clear :
    (x item : CartLine) (user product : ℕ) (variant : Option ℕ) (ls : List CartLine)
    → find (in_slot user product variant) ls ≡ some item
    → All (λ y. clear_of x y ≡ true) ls
    → (item.id == x.id) ≡ false
found-clear x item user product variant [] found all = ground arith
found-clear x item user product variant (l ∷ ls) found (first, rest) =
    elim (Bool-cases (in_slot user product variant l)) [
      | inl here ↦ ground arith
      | inr later ↦ found-clear x item user product variant ls (ground arith) rest
    ]

set_quantity-units :
    (next user product : ℕ) (variant : Option ℕ) (item : CartLine) (n u p : ℕ) (v : Option ℕ)
    (ls : List CartLine)
    → IsTidy next ls
    → find (in_slot user product variant) ls ≡ some item
    → units_in u p v (set_quantity item.id (item.quantity + n) ls)
      ≡ units_in u p v ls + (if in_slot u p v item then n else 0)
set_quantity-units next user product variant item n u p v [] tidy found = ground arith
set_quantity-units next user product variant item n u p v (l ∷ ls) (key, units, clear, rest) found =
    elim (Bool-cases (in_slot user product variant l)) [
      | inl here ↦ let same : l ≡ item = ground arith in rw (← same) (ground arith)
      | inr later ↦
          let at : find (in_slot user product variant) ls ≡ some item = ground arith in
          let apart = found-clear l item user product variant ls at clear in
          let others = set_quantity-units next user product variant item n u p v ls rest at in
          ground arith
    ]

-- the slot of a user, a product and a variant
abbrev pub same_slot : ℕ → ℕ → Option ℕ → ℕ → ℕ → Option ℕ → Bool
same_slot user product variant u p v = (user == u) && (product == p) && same_variant variant v

same_variant→eq : (v w : Option ℕ) → same_variant v w ≡ true → v ≡ w
same_variant→eq none none same = refl
same_variant→eq none (some b) same = ground arith
same_variant→eq (some a) none same = ground arith
same_variant→eq (some a) (some b) same = ground arith

slot_of_found :
    (user product : ℕ) (variant : Option ℕ) (item : CartLine) (u p : ℕ) (v : Option ℕ)
    → in_slot user product variant item ≡ true
    → in_slot u p v item ≡ same_slot user product variant u p v
slot_of_found user product variant item u p v fits =
    let of_user : item.user ≡ user = ground arith in
    let of_product : item.product ≡ product = ground arith in
    let of_variant : item.variant ≡ variant = same_variant→eq item.variant variant (ground arith) in
    rw (of_user, of_product, of_variant) refl

put_in_cart-units :
    (user product : ℕ) (variant : Option ℕ) (n u p : ℕ) (v : Option ℕ) (s : Baskets)
    → IsTidy s.next_id s.lines
    → units_in u p v (put_in_cart user product variant n s).lines
      ≡ units_in u p v s.lines + (if same_slot user product variant u p v then n else 0)
put_in_cart-units user product variant n u p v s tidy =
    elim (Option-cases (find (in_slot user product variant) s.lines)) [
      | inr (item, found) ↦
          let e : put_in_cart user product variant n s
              ≡ record s { lines = set_quantity item.id (item.quantity + n) s.lines } =
            ground arith in
          let slot =
            slot_of_found user product variant item u p v
              (find-fits (in_slot user product variant) item s.lines found) in
          rw (e, ← slot)
            (set_quantity-units s.next_id user product variant item n u p v s.lines tidy found)
      | inl free ↦ ground arith
    ]

-- Which variant may be added of an offer, by what was posted: none of an offer without active variants, and
-- otherwise the one that was posted, if it is among them
abbrev pub IsChoice : Offer → Option ℕ → Option ℕ → Type 0
IsChoice offer posted variant =
    ((offer.active_variants ≡ []) × (variant ≡ none))
    ⊎ ((v : ℕ) × (variant ≡ some v) × (posted ≡ some v) × Memᴰ v offer.active_variants)

-- The units that a form asks for: a positive number as it is, and one for anything else
abbrev pub IsAsked : Option ℤ → ℕ → Type 0
IsAsked quantity n =
    ((k : ℕ) × (quantity ≡ some (pos (suc k))) × (n ≡ suc k))
    ⊎ (((k : ℕ) → quantity ≢ some (pos (suc k))) × (n ≡ 1))

listed : (w : ℕ) (vs : List ℕ) → any_of (λ x. x == w) vs ≡ true → Memᴰ w vs
listed w [] h = absurd (ground arith)
listed w (v ∷ vs) h = elim (Bool-cases (v == w)) [
  | inl same ↦ Memᴰ.head (ground arith)
  | inr other ↦ Memᴰ.tail (listed w vs (ground arith))
]

chosen_variant-IsChoice :
    (offer : Offer) (vs : List ℕ) (posted variant : Option ℕ)
    → offer.active_variants ≡ vs
    → chosen_variant vs posted ≡ ok variant
    → IsChoice offer posted variant
chosen_variant-IsChoice offer [] posted variant all h = inl (all, ground arith)
chosen_variant-IsChoice offer (v ∷ vs) none variant all h = absurd (ground arith)
chosen_variant-IsChoice offer (v ∷ vs) (some w) variant all h =
    elim (Bool-cases (any_of (λ x. x == w) (v ∷ vs))) [
      | inl there ↦ inr (w, ground arith, refl, subst (Memᴰ w) (sym all) (listed w (v ∷ vs) there))
      | inr missing ↦ absurd (ground arith)
    ]

form_quantity-IsAsked : (quantity : Option ℤ) → IsAsked quantity (form_quantity quantity)
form_quantity-IsAsked none = inr (λ k e. ground arith, refl)
form_quantity-IsAsked (some (pos zero)) = inr (λ k e. ground arith, refl)
form_quantity-IsAsked (some (pos (suc k))) = inl (k, refl, ground arith)
form_quantity-IsAsked (some (negsuc n)) = inr (λ k e. ground arith, ground arith)

active_offer-sold :
    (offers : ℕ → Option Offer) (product : ℕ) (offer : Offer)
    → active_offer offers product ≡ ok offer
    → (offers product ≡ some offer) × (offer.is_active ≡ true)
active_offer-sold offers product offer h = elim (Option-cases (offers product)) [
  | inl missing ↦ absurd (ground arith)
  | inr (o, found) ↦ elim (Bool-cases o.is_active) [
    | inl active ↦ (ground arith, ground arith)
    | inr hidden ↦ absurd (ground arith)
  ]
]

-- Where no two lines share a key or a slot, a product that is added to a cart is on sale; its variant is none
-- where it has no active one, and otherwise the posted one, which is active; that product and variant
-- gains the units of the form, one where the form is not a positive number; and no other product, variant
-- or user gains or loses any.
pub add_to_cart-units :
    (offers : ℕ → Option Offer) (user product : ℕ) (quantity : Option ℤ) (posted : Option ℕ)
    (s s' : Baskets)
    → IsTidy s.next_id s.lines
    → add_to_cart offers user product quantity posted s ≡ ok s'
    → (offer : Offer) × (variant : Option ℕ) × (n : ℕ) × (offers product ≡ some offer)
      × (offer.is_active ≡ true)
      × IsChoice offer posted variant
      × IsAsked quantity n
      × ((u p : ℕ) (v : Option ℕ)
          → units_in u p v s'.lines
            ≡ units_in u p v s.lines + (if same_slot user product variant u p v then n else 0))
unfolding add_to_cart
add_to_cart-units offers user product quantity posted s s' tidy h =
    elim (Result-cases (active_offer offers product)) [
      | inr (e, failed) ↦ absurd (ground arith)
      | inl (offer, there) ↦ elim (Result-cases (chosen_variant offer.active_variants posted)) [
        | inr (e, failed) ↦ absurd (ground arith)
        | inl (variant, chosen) ↦
            let n = form_quantity quantity in
            let e : put_in_cart user product variant n s ≡ s' = ground arith in
            let (found, active) = active_offer-sold offers product offer there in
            (
              offer,
              variant,
              n,
              found,
              active,
              chosen_variant-IsChoice offer offer.active_variants posted variant refl chosen,
              form_quantity-IsAsked quantity,
              λ u p v.
                  ap (λ (x : Baskets). units_in u p v x.lines) (sym e)
                  ∙ put_in_cart-units user product variant n u p v s tidy,
            )
      ]
    ]
