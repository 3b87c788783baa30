-- ===== src/Cart/Baskets/Tidy.antt =====
-- One line for each product and variant in a cart, and at least one unit on each.
use mathlib.Core.Path.{subst}
use shop_orbit.Base.{
  ℕ, suc, ◌+◌, ◌≤◌, ◌<◌, ◌≡◌, Bool, true, not, ◌&&◌, List, [], ◌∷◌, Option, none, ℤ, pos, pos_part,
  leb_ℤ, ◌==◌, ok, find, All, arith, Option-cases, Bool-cases, Result-cases, inl, inr,
}
use shop_orbit.Cart.Baskets.{
  CartLine, Baskets, Offer, in_slot, set_quantity, delete_line, form_quantity, put_in_cart,
  chosen_variant, active_offer, own_line, posted_quantity, add_to_cart, update_cart_item,
  remove_cart_item, toggle_wishlist,
}

-- Another key, and another slot
abbrev pub clear_of : CartLine → CartLine → Bool
clear_of x y = not (y.id == x.id) && not (in_slot x.user x.product x.variant y)

-- No two lines share a key or a slot, each line has a unit, and its key has been handed out.
abbrev pub IsTidy : ℕ → List CartLine → Type 0
IsTidy next [] = Unit
IsTidy next (x ∷ xs) =
    (x.id < next) × (1 ≤ x.quantity) × All (λ y. clear_of x y ≡ true) xs × IsTidy next xs

set_quantity-clear :
    (x : CartLine) (id n : ℕ) (ls : List CartLine)
    → All (λ y. clear_of x y ≡ true) ls
    → All (λ y. clear_of x y ≡ true) (set_quantity id n ls)
set_quantity-clear x id n [] all = all
set_quantity-clear x id n (l ∷ ls) (first, rest) = elim (Bool-cases (l.id == id)) [
  | inl same ↦ simp same (first, rest)
  | inr apart ↦ simp apart (first, set_quantity-clear x id n ls rest)
]

delete_line-clear :
    (x : CartLine) (id : ℕ) (ls : List CartLine)
    → All (λ y. clear_of x y ≡ true) ls
    → All (λ y. clear_of x y ≡ true) (delete_line id ls)
delete_line-clear x id [] all = all
delete_line-clear x id (l ∷ ls) (first, rest) = elim (Bool-cases (l.id == id)) [
  | inl same ↦ simp same rest
  | inr apart ↦ simp apart (first, delete_line-clear x id ls rest)
]

set_quantity-IsTidy :
    (next id n : ℕ) (ls : List CartLine)
    → 1 ≤ n
    → IsTidy next ls
    → IsTidy next (set_quantity id n ls)
set_quantity-IsTidy next id n [] some_units tidy = tidy
set_quantity-IsTidy next id n (l ∷ ls) some_units (key, units, clear, rest) =
    elim (Bool-cases (l.id == id)) [
      | inl same ↦ simp same (key, some_units, clear, rest)
      | inr apart ↦ simp apart (
        key,
        units,
        set_quantity-clear l id n ls clear,
        set_quantity-IsTidy next id n ls some_units rest,
      )
    ]

delete_line-IsTidy :
    (next id : ℕ) (ls : List CartLine) → IsTidy next ls → IsTidy next (delete_line id ls)
delete_line-IsTidy next id [] tidy = tidy
delete_line-IsTidy next id (l ∷ ls) (key, units, clear, rest) = elim (Bool-cases (l.id == id)) [
  | inl same ↦ simp same rest
  | inr apart ↦
      simp apart (key, units, delete_line-clear l id ls clear, delete_line-IsTidy next id ls rest)
]

-- a line with a new key, for a slot that has none yet
new_line-clear :
    (x : CartLine) (next : ℕ) (ls : List CartLine)
    → next ≤ x.id
    → find (in_slot x.user x.product x.variant) ls ≡ none
    → IsTidy next ls
    → All (λ y. clear_of x y ≡ true) ls
new_line-clear x next [] new free tidy = tt
new_line-clear x next (l ∷ ls) new free (key, units, clear, rest) =
    elim (Bool-cases (in_slot x.user x.product x.variant l)) [
      | inl same ↦ absurd (ground arith)
      | inr apart ↦ (ground arith, new_line-clear x next ls new (ground arith) rest)
    ]

next-IsTidy : (next : ℕ) (ls : List CartLine) → IsTidy next ls → IsTidy (suc next) ls
next-IsTidy next [] tidy = tidy
next-IsTidy next (l ∷ ls) (key, units, clear, rest) =
    (omega arith, units, clear, next-IsTidy next ls rest)

put_in_cart-IsTidy :
    (user product : ℕ) (variant : Option ℕ) (n : ℕ) (s : Baskets)
    → 1 ≤ n
    → IsTidy s.next_id s.lines
    → let s' = put_in_cart user product variant n s in IsTidy s'.next_id s'.lines
put_in_cart-IsTidy user product variant n s some_units tidy =
    elim (Option-cases (find (in_slot user product variant) s.lines)) [
      | inr (item, found) ↦
          let e : put_in_cart user product variant n s
              ≡ record s { lines = set_quantity item.id (item.quantity + n) s.lines } =
            ground arith in
          rw e
            (set_quantity-IsTidy s.next_id item.id (item.quantity + n) s.lines (omega arith) tidy)
      | inl free ↦
          let l : CartLine = record {
            id = s.next_id;
            user = user;
            product = product;
            variant = variant;
            quantity = n;
          } in
          let e : put_in_cart user product variant n s
              ≡ record s { lines = l ∷ s.lines; next_id = suc s.next_id } =
            ground arith in
          rw e (
            omega arith,
            some_units,
            new_line-clear l s.next_id s.lines (omega arith) free tidy,
            next-IsTidy s.next_id s.lines tidy,
          )
    ]

module _ (offers : ℕ → Option Offer) where
  -- The calls that a user makes of the cart's pages, with what is posted
  pub data BasketStep (user : ℕ) (s s' : Baskets) : Type 0 where
    add :
        (product : ℕ) (quantity : Option ℤ) (variant_id : Option ℕ)
        → add_to_cart offers user product quantity variant_id s ≡ ok s'
        → BasketStep user s s'
    update :
        (item_id : ℕ) (quantity : Option ℤ)
        → update_cart_item user item_id quantity s ≡ ok s'
        → BasketStep user s s'
    remove : (item_id : ℕ) → remove_cart_item user item_id s ≡ ok s' → BasketStep user s s'
    toggle : (product : ℕ) → toggle_wishlist offers user product s ≡ ok s' → BasketStep user s s'

  form_quantity-some : (q : Option ℤ) → 1 ≤ form_quantity q
  form_quantity-some q = ground arith

  -- Every call of the cart's pages keeps this: a cart has one line at most for each product and
  -- variant, each line has one unit at least, and no two lines share a key.
  pub BasketStep-IsTidy :
      (user : ℕ) (s s' : Baskets)
      → IsTidy s.next_id s.lines
      → BasketStep user s s'
      → IsTidy s'.next_id s'.lines
  unfolding add_to_cart update_cart_item remove_cart_item toggle_wishlist
  BasketStep-IsTidy user s s' tidy (add product quantity posted h) =
      elim (Result-cases (active_offer offers product)) [
        | inr (e, failed) ↦ absurd (ground arith)
        | inl (offer, there) ↦ elim (Result-cases (chosen_variant offer.active_variants posted)) [
          | inr (e, failed) ↦ absurd (ground arith)
          | inl (variant, chosen) ↦
              let e : put_in_cart user product variant (form_quantity quantity) s ≡ s' =
                ground arith in
              subst (λ (x : Baskets). IsTidy x.next_id x.lines) e
                (put_in_cart-IsTidy user product variant (form_quantity quantity) s
                  (form_quantity-some quantity) tidy)
        ]
      ]
  BasketStep-IsTidy user s s' tidy (update item_id quantity h) =
      elim (Result-cases (own_line user item_id s)) [
        | inr (e, failed) ↦ absurd (ground arith)
        | inl (item, own) ↦ elim (Bool-cases (leb_ℤ (posted_quantity quantity) (pos 0))) [
          | inl gone ↦
              let e : s' ≡ record s { lines = delete_line item.id s.lines } = ground arith in
              rw e (delete_line-IsTidy s.next_id item.id s.lines tidy)
          | inr kept ↦
              let n = pos_part (posted_quantity quantity) in
              let e : s' ≡ record s { lines = set_quantity item.id n s.lines } = ground arith in
              rw e (set_quantity-IsTidy s.next_id item.id n s.lines (ground arith) tidy)
        ]
      ]
  BasketStep-IsTidy user s s' tidy (remove item_id h) =
      elim (Result-cases (own_line user item_id s)) [
        | inr (e, failed) ↦ absurd (ground arith)
        | inl (item, own) ↦
            let e : s' ≡ record s { lines = delete_line item.id s.lines } = ground arith in
            rw e (delete_line-IsTidy s.next_id item.id s.lines tidy)
      ]
  BasketStep-IsTidy user s s' tidy (toggle product h) =
      elim (Result-cases (active_offer offers product)) [
        | inr (e, failed) ↦ absurd (ground arith)
        | inl (offer, there) ↦
            let same_lines : s'.lines ≡ s.lines = ground arith in
            let same_next : s'.next_id ≡ s.next_id = ground arith in rw (same_lines, same_next) tidy
      ]
