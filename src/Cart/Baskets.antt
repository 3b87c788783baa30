-- ===== src/Cart/Baskets.antt =====
-- What a shopper does to a cart and a wishlist (cart/views.py). `get_object_or_404` that finds nothing raises
-- `does_not_exist`; the one cart and the one wishlist of a user are told by the user.
pub mod Tidy
pub mod Adding
pub mod Owners
pub mod Wishes
use shop_orbit.Base.{
  ℕ, suc, ◌+◌, Bool, true, false, not, ◌&&◌, List, [], ◌∷◌, Option, none, some, ℤ, pos, pos_part,
  leb_ℤ, ◌==◌, if◌then◌else◌, Result, ok, err, does_not_exist, ◌>>=◌, ◌>>◌, raise_if, or_raise,
  find, any_of, select,
}

-- `CartItem`
pub record CartLine : Type 0 where
  pub id : ℕ
  pub user : ℕ
  pub product : ℕ
  pub variant : Option ℕ
  pub quantity : ℕ

-- `WishlistItem`
pub record Wish : Type 0 where
  pub user : ℕ
  pub product : ℕ

-- What a page asks of a product: whether it is on sale, and the keys of its active variants
pub record Offer : Type 0 where
  pub is_active : Bool
  pub active_variants : List ℕ

-- The tables, newest row first, and the key of the next row
pub record Baskets : Type 0 where
  pub lines : List CartLine
  pub wishes : List Wish
  pub next_id : ℕ

abbrev pub same_variant : Option ℕ → Option ℕ → Bool
same_variant none none = true
same_variant (some a) (some b) = a == b
same_variant _ _ = false

-- `cart=..., product=..., variant=...`
abbrev pub in_slot : ℕ → ℕ → Option ℕ → CartLine → Bool
in_slot user product variant l =
    (l.user == user) && (l.product == product) && same_variant l.variant variant

-- `item.quantity = ...; item.save()`, where at most one row has the key
abbrev pub set_quantity : ℕ → ℕ → List CartLine → List CartLine
set_quantity id n [] = []
set_quantity id n (l ∷ ls) =
    if l.id == id then record l { quantity = n } ∷ ls else l ∷ set_quantity id n ls

-- `item.delete()`
abbrev pub delete_line : ℕ → List CartLine → List CartLine
delete_line id [] = []
delete_line id (l ∷ ls) = if l.id == id then ls else l ∷ delete_line id ls

-- The quantity of an `AddToCartForm`, which a number below 1 or no number does not pass
abbrev pub form_quantity : Option ℤ → ℕ
form_quantity none = 1
form_quantity (some q) = if leb_ℤ q (pos 0) then 1 else pos_part q

-- `get_object_or_404(active_variants, pk=...)`, if there are any
abbrev pub chosen_variant : List ℕ → Option ℕ → Result (Option ℕ)
chosen_variant [] posted = ok none
chosen_variant (v ∷ vs) none = err does_not_exist
chosen_variant (v ∷ vs) (some w) =
    if any_of (λ x. x == w) (v ∷ vs) then ok (some w) else err does_not_exist

-- `CartItem.objects.get_or_create(...)`, and the quantity added to a line that was there
abbrev pub put_in_cart : ℕ → ℕ → Option ℕ → ℕ → Baskets → Baskets
put_in_cart user product variant n s = elim (find (in_slot user product variant) s.lines) [
  | some item ↦ record s { lines = set_quantity item.id (item.quantity + n) s.lines }
  | none ↦ record s {
    lines =
        record { id = s.next_id; user = user; product = product; variant = variant; quantity = n }
        ∷ s.lines;
    next_id = suc s.next_id;
  }
]

abbrev pub is_wish : ℕ → ℕ → Wish → Bool
is_wish user product w = (w.user == user) && (w.product == product)

-- `WishlistItem.objects.get_or_create(...)`, and the item deleted if it was there
abbrev pub toggled : ℕ → ℕ → Baskets → Baskets
toggled user product s = record s {
  wishes =
      if any_of (is_wish user product) s.wishes
      then select (λ w. not (is_wish user product w)) s.wishes
      else record { user = user; product = product } ∷ s.wishes;
}

module _ (offers : ℕ → Option Offer) where
  -- `get_object_or_404(Product, pk=product_id, is_active=True)`
  abbrev pub active_offer : ℕ → Result Offer
  active_offer product = do
    offer ← or_raise (offers product) does_not_exist
    raise_if (not offer.is_active) does_not_exist
    ok offer

  -- `add_to_cart`
  unfoldable pub add_to_cart : ℕ → ℕ → Option ℤ → Option ℕ → Baskets → Result Baskets
  add_to_cart user product quantity variant_id s = do
    offer ← active_offer product
    variant ← chosen_variant offer.active_variants variant_id
    ok (put_in_cart user product variant (form_quantity quantity) s)

  -- `toggle_wishlist`
  unfoldable pub toggle_wishlist : ℕ → ℕ → Baskets → Result Baskets
  toggle_wishlist user product s = do offer ← active_offer product; ok (toggled user product s)

-- `get_object_or_404(CartItem, pk=item_id, cart__user=request.user)`
abbrev pub own_line : ℕ → ℕ → Baskets → Result CartLine
own_line user item_id s =
    or_raise (find (λ l. (l.id == item_id) && (l.user == user)) s.lines) does_not_exist

-- `int(request.POST.get("quantity", 1))`, on what was posted, `none` where that is no number
abbrev pub posted_quantity : Option ℤ → ℤ
posted_quantity none = pos 1
posted_quantity (some q) = q

-- `update_cart_item`
unfoldable pub update_cart_item : ℕ → ℕ → Option ℤ → Baskets → Result Baskets
update_cart_item user item_id quantity s = do
  item ← own_line user item_id s
  ok (record s {
    lines =
        if leb_ℤ (posted_quantity quantity) (pos 0)
        then delete_line item.id s.lines
        else set_quantity item.id (pos_part (posted_quantity quantity)) s.lines;
  })

-- `remove_cart_item`
unfoldable pub remove_cart_item : ℕ → ℕ → Baskets → Result Baskets
remove_cart_item user item_id s = do
  item ← own_line user item_id s
  ok (record s { lines = delete_line item.id s.lines })
