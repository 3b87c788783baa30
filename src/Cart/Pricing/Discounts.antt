-- ===== src/Cart/Pricing/Discounts.antt =====
-- What the discounts of a cart can come to, and how often a coupon is redeemed.
use shop_orbit.Base.{
  ℕ, ◌≡◌, ◌+◌, ◌*◌, ◌≤◌, min, some, List, arith, ltb, round_half_even-le, round_half_even_near,
  Bool-cases, inl, inr,
}
use shop_orbit.Cart.Pricing.{
  CartItem, Coupon, percent, auto_promo_discount, calculate_discount, raw_discount, subtotal,
  total_items,
}

-- A coupon takes off at most the subtotal.
calculate_discount-le : (c : Coupon) (total : ℕ) → calculate_discount c total ≤ total
unfolding calculate_discount
calculate_discount-le c total =
    round_half_even-le (min (raw_discount c total) (total * 10000)) 10000 total (omega arith)
      (omega arith)

capped-le :
    (c : Coupon) (total most : ℕ)
    → c.discount_type ≡ percent
    → c.max_discount_amount ≡ some most
    → raw_discount c total ≤ most * 10000
unfolding raw_discount
capped-le c total most is_percent capped = ground arith

-- A percentage coupon with a cap takes off at most the cap.
calculate_discount_capped :
    (c : Coupon) (total most : ℕ)
    → c.discount_type ≡ percent
    → c.max_discount_amount ≡ some most
    → calculate_discount c total ≤ most
unfolding calculate_discount
calculate_discount_capped c total most is_percent capped =
    round_half_even-le (min (raw_discount c total) (total * 10000)) 10000 most (omega arith)
      (omega (arith, capped-le c total most is_percent capped))

-- The automatic discount is at most Rs 50 and at most a tenth of the subtotal, rounded up.
auto_promo_discount-le :
    (items : List CartItem)
    → (auto_promo_discount items ≤ 5000) × (10 * auto_promo_discount items ≤ subtotal items + 9)
unfolding auto_promo_discount
auto_promo_discount-le items = elim (Bool-cases (ltb (total_items items) 2)) [
  | inl few ↦ simp few (omega arith, omega arith)
  | inr many ↦ simp many (
    round_half_even-le _ 10000 5000 (omega arith) (omega arith),
    omega (
      arith,
      (round_half_even_near (min (subtotal items * 1000) (5000 * 10000)) 10000 (omega arith)).0,
    ),
  )
]
