-- ===== src/Cart/Baskets/Owners.antt =====
-- Whose lines a call may touch.
use shop_orbit.Base.{
  ℕ, ◌+◌, ◌≡◌, refl, sym, ap, ◌∙◌, Bool, true, false, ◌&&◌, List, [], ◌∷◌, Option, some, pos_part,
  ◌==◌, ok, find, find-fits, All, select, arith, Option-cases, Bool-cases, Result-cases, inl, inr,
}
use shop_orbit.Cart.Baskets.{
  CartLine, Baskets, Offer, in_slot, set_quantity, delete_line, form_quantity, put_in_cart,
  chosen_variant, active_offer, own_line, posted_quantity, add_to_cart, update_cart_item,
  remove_cart_item, toggle_wishlist,
}
use shop_orbit.Cart.Baskets.Tidy.{clear_of, IsTidy, BasketStep, add, update, remove, toggle}

-- The lines of one user's cart.
abbrev pub cart_of : ℕ → List CartLine → List CartLine
cart_of user = select (λ l. l.user == user)

-- a line of the table is the one that its key is found at
kept_apart :
    (x item : CartLine) (ls : List CartLine) (fits : CartLine → Bool)
    → find fits ls ≡ some item
    → All (λ y. clear_of x y ≡ true) ls
    → (x.id == item.id) ≡ false
kept_apart x item [] fits found all = ground arith
kept_apart x item (l ∷ ls) fits found (first, rest) = elim (Bool-cases (fits l)) [
  | inl here ↦ ground arith
  | inr later ↦ kept_apart x item ls fits (ground arith) rest
]

module _ (next : ℕ) (item : CartLine) (fits : CartLine → Bool) (v : ℕ)
    (other : (item.user == v) ≡ false) where
  set_quantity-others :
      (n : ℕ) (ls : List CartLine)
      → IsTidy next ls
      → find fits ls ≡ some item
      → cart_of v (set_quantity item.id n ls) ≡ cart_of v ls
  set_quantity-others n [] tidy found = refl
  set_quantity-others n (l ∷ ls) (key, units, clear, rest) found = elim (Bool-cases (fits l)) [
    | inl here ↦ ground arith
    | inr later ↦
        let at : find fits ls ≡ some item = ground arith in
        let apart = kept_apart l item ls fits at clear in
        let others = set_quantity-others n ls rest at in ground arith
  ]

  delete_line-others :
      (ls : List CartLine)
      → IsTidy next ls
      → find fits ls ≡ some item
      → cart_of v (delete_line item.id ls) ≡ cart_of v ls
  delete_line-others [] tidy found = refl
  delete_line-others (l ∷ ls) (key, units, clear, rest) found = elim (Bool-cases (fits l)) [
    | inl here ↦ ground arith
    | inr later ↦
        let at : find fits ls ≡ some item = ground arith in
        let apart = kept_apart l item ls fits at clear in
        let others = delete_line-others ls rest at in ground arith
  ]

own_line-user :
    (user id : ℕ) (s : Baskets) (item : CartLine)
    → own_line user id s ≡ ok item
    → (find (λ l. (l.id == id) && (l.user == user)) s.lines ≡ some item) × (item.user ≡ user)
own_line-user user id s item own =
    let found : find (λ l. (l.id == id) && (l.user == user)) s.lines ≡ some item = ground arith in
    let fits = find-fits (λ l. (l.id == id) && (l.user == user)) item s.lines found in
    (found, ground arith)

put_in_cart-others :
    (user product : ℕ) (variant : Option ℕ) (n v : ℕ) (s : Baskets)
    → IsTidy s.next_id s.lines
    → (user == v) ≡ false
    → cart_of v (put_in_cart user product variant n s).lines ≡ cart_of v s.lines
put_in_cart-others user product variant n v s tidy other =
    elim (Option-cases (find (in_slot user product variant) s.lines)) [
      | inr (item, found) ↦
          let fits = find-fits (in_slot user product variant) item s.lines found in
          let e : put_in_cart user product variant n s
              ≡ record s { lines = set_quantity item.id (item.quantity + n) s.lines } =
            ground arith in
          rw e (
            set_quantity-others s.next_id item (in_slot user product variant) v (ground arith)
              (item.quantity + n) s.lines tidy found)
      | inl free ↦ ground arith
    ]

-- Whatever a user adds, changes, removes or wishes for, and whatever key is posted, the cart of
-- every other user keeps its lines, where no two lines share a key or a slot.
pub BasketStep-others :
    (offers : ℕ → Option Offer) (user v : ℕ) (s s' : Baskets)
    → IsTidy s.next_id s.lines
    → (user == v) ≡ false
    → BasketStep offers user s s'
    → cart_of v s'.lines ≡ cart_of v s.lines
unfolding add_to_cart update_cart_item remove_cart_item toggle_wishlist
BasketStep-others offers user v s s' tidy other (add product quantity posted h) =
    elim (Result-cases (active_offer offers product)) [
      | inr (e, failed) ↦ absurd (ground arith)
      | inl (offer, there) ↦ elim (Result-cases (chosen_variant offer.active_variants posted)) [
        | inr (e, failed) ↦ absurd (ground arith)
        | inl (variant, chosen) ↦
            let e : put_in_cart user product variant (form_quantity quantity) s ≡ s' =
              ground arith in
            ap (λ (x : Baskets). cart_of v x.lines) (sym e)
            ∙ put_in_cart-others user product variant (form_quantity quantity) v s tidy other
      ]
    ]
BasketStep-others offers user v s s' tidy other (update item_id quantity h) =
    elim (Result-cases (own_line user item_id s)) [
      | inr (e, failed) ↦ absurd (ground arith)
      | inl (item, own) ↦
          let (found, owner) = own_line-user user item_id s item own in
          let changed =
            set_quantity-others s.next_id item _ v (ground arith)
              (pos_part (posted_quantity quantity)) s.lines tidy found in
          let gone = delete_line-others s.next_id item _ v (ground arith) s.lines tidy found in
          ground arith
    ]
BasketStep-others offers user v s s' tidy other (remove item_id h) =
    elim (Result-cases (own_line user item_id s)) [
      | inr (e, failed) ↦ absurd (ground arith)
      | inl (item, own) ↦
          let (found, owner) = own_line-user user item_id s item own in
          let gone = delete_line-others s.next_id item _ v (ground arith) s.lines tidy found in
          ground arith
    ]
BasketStep-others offers user v s s' tidy other (toggle product h) =
    elim (Result-cases (active_offer offers product)) [
      | inr (e, failed) ↦ absurd (ground arith)
      | inl (offer, there) ↦ ground arith
    ]
