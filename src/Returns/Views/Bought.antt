-- ===== src/Returns/Views/Bought.antt =====
-- However the page is filled in, no more comes back than was bought.
use mathlib.Core.List.{Memᴰ}
use mathlib.Core.Path.{subst}
use mathlib.Core.List.Memᴰ
use shop_orbit.Base.{
  ℕ, ◌≤◌, ◌≡◌, ap, sym, Option, some, List, [], ◌∷◌, ℤ, pos, leb_ℤ, ltb_ℤ, if◌then◌else◌, ◌==◌,
  sum_by, All, arith, Bool-cases, Option-cases, Result-cases, inl, inr,
}
use shop_orbit.Cart.Models.{Order, OrderItem}
use shop_orbit.Returns.Models.{ReturnRequest}
use shop_orbit.Returns.Services.{
  LineData, already_returned_quantity, remaining_returnable_quantity, request_return,
}
use shop_orbit.Returns.Services.Quantities.{entries_of, request_return_within}
use shop_orbit.Returns.Views.{returnable_items, lines_data, request_return_view}
use shop_orbit.Shop.{Shop}

-- The rows of an order's items with this key.
abbrev pub items_at : ℕ → List OrderItem → ℕ
items_at id = sum_by (λ (i : OrderItem). if i.id == id then 1 else 0)

-- Rows with the key of `item` have its quantity.
abbrev Carries : OrderItem → List OrderItem → Type 0
Carries item = All (λ (i : OrderItem). i.id ≡ item.id → i.quantity ≡ item.quantity)

none-Carries :
    (item : OrderItem) (items : List OrderItem) → items_at item.id items ≡ 0 → Carries item items
none-Carries item [] absent = tt
none-Carries item (i ∷ items) absent =
    (λ same. absurd (ground arith), none-Carries item items (ground arith))

there : (item : OrderItem) (items : List OrderItem) → Memᴰ item items → 1 ≤ items_at item.id items
there item [] at = absurd (Memᴰ.not-nil at)
there item (i ∷ items) (Memᴰ.head e) = let same = ap OrderItem.id e in ground arith
there item (i ∷ items) (Memᴰ.tail at) = let rest = there item items at in ground arith

one-Carries :
    (item : OrderItem) (items : List OrderItem)
    → Memᴰ item items
    → items_at item.id items ≤ 1
    → Carries item items
one-Carries item [] at one = tt
one-Carries item (i ∷ items) (Memᴰ.head e) one =
    let same = ap OrderItem.id e in
    (λ key. ap OrderItem.quantity (sym e), none-Carries item items (ground arith))
one-Carries item (i ∷ items) (Memᴰ.tail at) one =
    let rest = there item items at in
    (λ key. absurd (ground arith), one-Carries item items at (ground arith))

-- What the page sends names only items of the order, each of them once at most.
module _ (item : OrderItem) where
  returnable-Carries :
      (table : List ReturnRequest) (items : List OrderItem)
      → Carries item items
      → Carries item (returnable_items table items)
  unfolding returnable_items
  returnable-Carries table [] all = all
  returnable-Carries table (i ∷ items) (first, rest) =
      let others = returnable-Carries table items rest in
      elim (Bool-cases (ltb_ℤ (pos 0) (remaining_returnable_quantity i table))) [
        | inl left ↦ simp left (first, others)
        | inr used ↦ simp used others
      ]

  returnable-fewer :
      (table : List ReturnRequest) (items : List OrderItem)
      → items_at item.id (returnable_items table items) ≤ items_at item.id items
  unfolding returnable_items
  returnable-fewer table [] = omega arith
  returnable-fewer table (i ∷ items) = ground (arith, returnable-fewer table items)

  lines_data-Carries :
      (posted : OrderItem → Option ℤ) (items : List OrderItem)
      → Carries item items
      → All
          (λ (l : LineData). l.order_item.id ≡ item.id → l.order_item.quantity ≡ item.quantity)
          (lines_data posted items)
  lines_data-Carries posted [] all = all
  lines_data-Carries posted (i ∷ items) (first, rest) =
      let others = lines_data-Carries posted items rest in
      let sent = lines_data posted items in
      elim (Option-cases (posted i)) [
        | inl blank ↦
            let e : lines_data posted (i ∷ items) ≡ sent = ground arith in
            subst (All _) (sym e) others
        | inr (n, typed) ↦ elim (Bool-cases (leb_ℤ n (pos 0))) [
          | inl nothing ↦
              let e : lines_data posted (i ∷ items) ≡ sent = ground arith in
              subst (All _) (sym e) others
          | inr some_units ↦
              let e : lines_data posted (i ∷ items)
                  ≡ record { order_item = i; quantity = n } ∷ sent =
                ground arith in
              subst (All _) (sym e) (first, others)
        ]
      ]

  lines_data-fewer :
      (posted : OrderItem → Option ℤ) (items : List OrderItem)
      → entries_of item.id (lines_data posted items) ≤ items_at item.id items
  lines_data-fewer posted [] = omega arith
  lines_data-fewer posted (i ∷ items) =
      let others = lines_data-fewer posted items in
      elim (Option-cases (posted i)) [ inl blank ↦ ground arith | inr (n, typed) ↦ ground arith ]

-- However the page is filled in, and whatever it answers, the units of an order's item that are
-- asked back stay within the units that were bought, if they were so before and no other item of
-- the order has its key: the page names each item once at most.
pub request_return_view-within :
    (days now user id : ℕ) (posted : OrderItem → Option ℤ) (order : Order) (item : OrderItem)
    (s : Shop)
    → s.orders id ≡ some order
    → Memᴰ item order.items
    → items_at item.id order.items ≤ 1
    → already_returned_quantity item.id s.returns ≤ item.quantity
    → already_returned_quantity item.id (request_return_view days now user id posted s).1.returns
      ≤ item.quantity
unfolding request_return_view
request_return_view-within days now user id posted order item s found at one before =
    let shown = returnable_items s.returns order.items in
    let sent = lines_data posted shown in
    elim (Bool-cases (order.user == user)) [
      | inr foreign ↦
          let e : (request_return_view days now user id posted s).1 ≡ s = ground arith in
          rw e before
      | inl own ↦ elim (Result-cases (request_return days now order sent user s)) [
        | inr (x, failed) ↦
            let e : (request_return_view days now user id posted s).1 ≡ s = ground arith in
            rw e before
        | inl (s', done) ↦
            let e : (request_return_view days now user id posted s).1 ≡ s' = ground arith in
            rw e (
              request_return_within days now order sent user item s s'
                (lines_data-Carries item posted shown (
                  returnable-Carries item s.returns order.items
                    (one-Carries item order.items at one)))
                (omega (
                  arith,
                  lines_data-fewer item posted shown,
                  returnable-fewer item s.returns order.items,
                ))
                before done)
      ]
    ]
