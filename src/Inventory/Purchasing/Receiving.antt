-- ===== src/Inventory/Purchasing/Receiving.antt =====
-- The receiving page: the lines are read once, and every box that was filled in is received.
use mathlib.Core.Path.{subst}
use shop_orbit.Base.{
  ℕ, ◌+◌, ◌≡◌, refl, sym, ◌∙◌, false, List, [], ◌∷◌, Option, none, some, arith, ℤ, pos, pos_part,
  leb_ℤ, ◌==◌, All, Bool-cases, Result-cases, inl, inr, ◌⊎◌, Error, Result, err, over_receipt,
}
use shop_orbit.Inventory.Purchasing.{
  PurchaseOrderLine, Purchases, line_at, save_received, receive_purchase_order_line, receive_view,
  after_receipt,
}
use shop_orbit.Inventory.Purchasing.Effects.{receive-Received}
use shop_orbit.Inventory.Purchasing.Invariant.{receive-IsOrderly}
use shop_orbit.Inventory.Purchasing.Orderly.{IsOrderly}

-- The posted lines are rows of the table as they stand, each with a key of its own.
abbrev pub IsListing : List PurchaseOrderLine → List (PurchaseOrderLine × Option ℤ) → Type 0
IsListing rows [] = Unit
IsListing rows (x ∷ posted) =
    (line_at x.0.id rows ≡ some x.0)
    × All (λ y. (y.0.id == x.0.id) ≡ false) posted
    × IsListing rows posted

line_at-save_received :
    (id k n : ℕ) (ls : List PurchaseOrderLine)
    → (k == id) ≡ false
    → line_at k (save_received id n ls) ≡ line_at k ls
line_at-save_received id k n [] apart = refl
line_at-save_received id k n (l ∷ ls) apart = ground (arith, line_at-save_received id k n ls apart)

-- a receipt leaves the copies of the other lines fresh
still_fresh :
    (id n : ℕ) (rows : List PurchaseOrderLine) (posted : List (PurchaseOrderLine × Option ℤ))
    → All (λ y. (y.0.id == id) ≡ false) posted
    → IsListing rows posted
    → IsListing (save_received id n rows) posted
still_fresh id n rows [] apart listing = listing
still_fresh id n rows (x ∷ posted) (other, apart) (here, own, rest) = (
  line_at-save_received id x.0.id n rows other ∙ here,
  own,
  still_fresh id n rows posted apart rest,
)

-- where a receipt raised, the shop is as it was, and the next line may follow
after_receipt-err :
    (e : Error) (rest : Purchases → Result (Unit {0}) × Purchases) (s : Purchases)
    → (after_receipt (err e) rest s ≡ rest s) ⊎ (after_receipt (err e) rest s ≡ (err e, s))
after_receipt-err over_receipt rest s = inl refl
after_receipt-err _ rest s = inr refl

-- A post of the receiving page keeps the purchase orders orderly, whatever was typed into its boxes and
-- however it ends, where the lines that it lists are rows of the table as they stand, each listed
-- once.
receive_view-IsOrderly :
    (posted : List (PurchaseOrderLine × Option ℤ)) (by : Option ℕ) (s : Purchases)
    → IsOrderly s
    → IsListing s.lines posted
    → IsOrderly (receive_view posted by s).1
unfolding receive_view
receive_view-IsOrderly [] by s w listing = w
receive_view-IsOrderly ((line, none) ∷ posted) by s w (here, own, rest) =
    receive_view-IsOrderly posted by s w rest
receive_view-IsOrderly ((line, some q) ∷ posted) by s w (here, own, rest) =
    let next = receive_view posted by in
    let skipped = receive_view-IsOrderly posted by s w rest in
    elim (Bool-cases (leb_ℤ q (pos 0))) [
      | inl nothing ↦ simp nothing skipped
      | inr more ↦ elim (Result-cases (receive_purchase_order_line line q by s)) [
        | inl (m, run) ↦
            let lines = (receive-Received line q by s m run).lines_saved in
            let listing =
              still_fresh line.id (line.quantity_received + pos_part q) s.lines posted own rest in
            simp (more, run)
              (receive_view-IsOrderly posted by m (receive-IsOrderly line q by s m w here run)
                (subst (λ ls. IsListing ls posted) (sym lines) listing))
        | inr (e, failed) ↦ elim (after_receipt-err e next s) [
          | inl goes_on ↦ simp (more, failed, goes_on) skipped
          | inr ends ↦ simp (more, failed, ends) w
        ]
      ]
    ]
