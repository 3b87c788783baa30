-- ===== src/Catalog/Reviews.antt =====
-- Reviews (`submit_review` and `_has_purchased` of catalog/views.py).
use shop_orbit.Base.{
  ℕ, ◌≤◌, ◌≡◌, Bool, true, false, ◌&&◌, List, [], ◌∷◌, Option, none, some, leb, ◌==◌, if◌then◌else◌,
  any_of, arith,
}
use shop_orbit.Cart.Models.{Order, OrderItem, is_paid}

-- `Review`
pub record Review : Type 0 where
  pub product : ℕ
  pub user : ℕ
  pub rating : ℕ
  pub is_verified_purchase : Bool

abbrev pub is_item_of : ℕ → OrderItem → Bool
is_item_of product i = elim i.product [ none ↦ false | some p ↦ p == product ]

-- `_has_purchased`, on the table of orders
abbrev pub has_purchased : ℕ → ℕ → List Order → Bool
has_purchased user product orders =
    any_of (λ o. (o.user == user) && any_of (is_item_of product) o.items && is_paid o.status) orders

-- `Review.objects.filter(product=..., user=...).exists()`
abbrev pub is_review_of : ℕ → ℕ → Review → Bool
is_review_of user product r = (r.product == product) && (r.user == user)

-- What the page answers
pub data Answer : Type 0 where
  already_reviewed not_purchased invalid_rating thanks : Answer

-- `submit_review` on an active product, with the rating of the form, if it has one
unfoldable pub submit_review : ℕ → ℕ → Option ℕ → List Order → List Review → Answer × List Review
submit_review user product rating orders reviews =
    if any_of (is_review_of user product) reviews
    then (already_reviewed, reviews)
    else if has_purchased user product orders
    then elim rating [
      | none ↦ (invalid_rating, reviews)
      | some n ↦
          if leb 1 n && leb n 5
          then (
            thanks,
            record { product = product; user = user; rating = n; is_verified_purchase = true }
                ∷ reviews,
          )
          else (invalid_rating, reviews)
    ]
    else (not_purchased, reviews)

-- No buyer has two reviews of a product, and every rating is from one to five.
abbrev pub IsFair : List Review → Type 0
IsFair [] = Unit
IsFair (r ∷ rs) =
    (any_of (is_review_of r.user r.product) rs ≡ false)
    × (1 ≤ r.rating)
    × (r.rating ≤ 5)
    × (r.is_verified_purchase ≡ true)
    × IsFair rs

-- Whatever is submitted, no buyer comes to two reviews of a product or to a rating out of range, if
-- there were none before, and a review that is accepted is by someone with a paid order of the
-- product.
submit_review-IsFair :
    (user product : ℕ) (rating : Option ℕ) (orders : List Order) (reviews : List Review)
    → IsFair reviews
    → let (answer, after) = submit_review user product rating orders reviews in
      IsFair after × ((answer ≡ thanks) → has_purchased user product orders ≡ true)
unfolding submit_review
submit_review-IsFair user product rating orders reviews fair =
    (ground arith, λ thanked. ground arith)
