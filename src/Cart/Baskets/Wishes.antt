-- ===== src/Cart/Baskets/Wishes.antt =====
-- The wishlist: what a second press undoes.
use shop_orbit.Base.{
  ℕ, ◌≡◌, refl, ap, ◌∙◌, Bool, not, ◌&&◌, List, [], ◌∷◌, Option, ◌==◌, if◌then◌else◌, ok, any_of,
  select, arith, Bool-cases, Result-cases, inl, inr,
}
use shop_orbit.Cart.Baskets.{Baskets, Wish, Offer, active_offer, is_wish, toggled, toggle_wishlist}

-- whether a product is on a user's wishlist
abbrev pub wished : ℕ → ℕ → Baskets → Bool
wished user product s = any_of (is_wish user product) s.wishes

dropped :
    (user product u p : ℕ) (ws : List Wish)
    → any_of (is_wish u p) (select (λ w. not (is_wish user product w)) ws)
      ≡ (any_of (is_wish u p) ws && not ((user == u) && (product == p)))
dropped user product u p [] = refl
dropped user product u p (w ∷ ws) = ground (arith, dropped user product u p ws)

toggled-wished :
    (user product u p : ℕ) (s : Baskets)
    → wished u p (toggled user product s)
      ≡ (if (user == u) && (product == p) then not (wished u p s) else wished u p s)
toggled-wished user product u p s = elim (Bool-cases ((user == u) && (product == p))) [
  | inl same ↦
      let of_user : user ≡ u = ground arith in
      let of_product : product ≡ p = ground arith in
      rw (of_user, of_product) (ground (arith, dropped u p u p s.wishes))
  | inr apart ↦ ground (arith, dropped user product u p s.wishes)
]

-- Two presses of the wishlist button leave every wishlist with the products that it had, and where the first press
-- is accepted, so is the second.
toggle_wishlist-twice :
    (offers : ℕ → Option Offer) (user product : ℕ) (s s1 : Baskets)
    → toggle_wishlist offers user product s ≡ ok s1
    → (s2 : Baskets) × (toggle_wishlist offers user product s1 ≡ ok s2)
      × ((u p : ℕ) → wished u p s2 ≡ wished u p s)
unfolding toggle_wishlist
toggle_wishlist-twice offers user product s s1 h =
    elim (Result-cases (active_offer offers product)) [
      | inr (e, failed) ↦ absurd (ground arith)
      | inl (offer, there) ↦
          let e : s1 ≡ toggled user product s = ground arith in
          (
            toggled user product s1,
            ground arith,
            λ u p.
                let first = ap (wished u p) e ∙ toggled-wished user product u p s in
                let second = toggled-wished user product u p s1 in ground arith,
          )
    ]
