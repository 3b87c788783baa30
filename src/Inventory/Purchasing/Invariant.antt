-- ===== src/Inventory/Purchasing/Invariant.antt =====
-- Each call keeps the purchase orders orderly.
use mathlib.Core.Path.{subst}
use shop_orbit.Base.{
  ℕ, suc, ◌+◌, ◌≤◌, ◌<◌, ◌≡◌, refl, sym, ap, ◌∙◌, true, false, List, [], ◌∷◌, Option, some, ok,
  arith, ℤ, ◌⊎◌, pos_part, ◌==◌, put, All, any_of, Bool-cases, inl, inr, ok-injective,
}
use shop_orbit.Inventory.Purchasing.{
  PurchaseOrder, PurchaseOrderLine, Purchases, LineData, draft, ordered, create_lines,
  new_purchase_order, add_order, create_purchase_order, mark_purchase_order_ordered,
  receive_purchase_order_line, lines_of, line_at, has_receipt, is_fully_received, all_received,
}
use shop_orbit.Inventory.Purchasing.Effects.{receive-Received}
use shop_orbit.Inventory.Purchasing.Lines.{
  save_received-others, save_received-touched, save_received-within, save_received-placed,
}
use shop_orbit.Inventory.Purchasing.Orderly.{
  suits, any_received, IsOrderly, PurchaseStep, create, mark, receive, create_lines-orders,
  create_lines-within, create_lines-others, create_lines-none, create_lines-placed, below_suc,
  none_above,
}

-- an order saved under the key `k`, where the other rows, their lines and the numbers handed out stay
module _ (s s' : Purchases) (k : ℕ) (w : IsOrderly s) where
  numbered_before :
      (old new : PurchaseOrder)
      → s.orders k ≡ some old
      → new.po_number ≡ old.po_number
      → s'.orders ≡ put k new s.orders
      → (j : ℕ) (po : PurchaseOrder) → s'.orders j ≡ some po
      → (o : PurchaseOrder) × (s.orders j ≡ some o) × (po.po_number ≡ o.po_number)
  numbered_before old new there same_number orders j po at = elim (Bool-cases (k == j)) [
    | inl same ↦
        let row = ap (λ f. f j) orders in
        let e : k ≡ j = ground arith in
        let is_new : new ≡ po = ground arith in
        (old, ap s.orders (sym e) ∙ there, ap PurchaseOrder.po_number (sym is_new) ∙ same_number)
    | inr apart ↦ let row = ap (λ f. f j) orders in (po, ground arith, refl)
  ]

  resaved-IsOrderly :
      (old new : PurchaseOrder)
      → s.orders k ≡ some old
      → new.po_number ≡ old.po_number
      → s'.orders ≡ put k new s.orders
      → s'.last_number ≡ s.last_number
      → All (λ l. l.quantity_received ≤ l.quantity_ordered) s'.lines
      → All (λ l. l.purchase_order < s'.next_id) s'.lines
      → ((j : ℕ) → (k == j) ≡ false → lines_of j s'.lines ≡ lines_of j s.lines)
      → suits (any_received k s'.lines) (is_fully_received k s'.lines) new.status ≡ true
      → IsOrderly s'
  resaved-IsOrderly old new there same_number orders last within placed others told =
      let was : (j : ℕ) (po : PurchaseOrder)
          → s'.orders j ≡ some po
          → (o : PurchaseOrder) × (s.orders j ≡ some o) × (po.po_number ≡ o.po_number) =
        λ j po at. numbered_before old new there same_number orders j po at in
      let row : (j : ℕ) → s'.orders j ≡ put k new s.orders j = λ j. ap (λ f. f j) orders in
      record {
        within = within;
        placed = placed;
        told = λ j po at. elim (Bool-cases (k == j)) [
          | inl same ↦
              let e : k ≡ j = ground arith in
              let is_new : new ≡ po = ground (arith, row j) in
              subst
                (λ i.
                  suits (any_received i s'.lines) (is_fully_received i s'.lines) po.status ≡ true)
                e
                (subst
                  (λ (o : PurchaseOrder).
                    suits (any_received k s'.lines) (is_fully_received k s'.lines) o.status ≡ true)
                  is_new told)
          | inr apart ↦
              let old_row : s.orders j ≡ some po = ground (arith, row j) in
              subst (λ ls. suits (any_of has_receipt ls) (all_received ls) po.status ≡ true)
                (sym (others j apart)) (w.told j po old_row)
        ];
        issued = λ j po at.
            let (o, before, same) = was j po at in omega (arith, w.issued j o before, last, same);
        distinct = λ i j po other at at' same.
            let (o, before, eq) = was i po at in
            let (o', before', eq') = was j other at' in
            w.distinct i j o o' before before' (sym eq ∙ same ∙ eq');
      }

-- the rows beside a new one, whose number is the next
new_or_old :
    (s : Purchases)
    → IsOrderly s
    → (po : PurchaseOrder) → po.po_number ≡ suc s.last_number
    → (j : ℕ) (o : PurchaseOrder) → put s.next_id po s.orders j ≡ some o
    → ((s.next_id ≡ j) × (o.po_number ≡ suc s.last_number))
      ⊎ ((s.orders j ≡ some o) × (o.po_number ≤ s.last_number))
new_or_old s w po next j o at = elim (Bool-cases (s.next_id == j)) [
  | inl same ↦
      let is_new : po ≡ o = ground arith in
      inl (ground arith, ap PurchaseOrder.po_number (sym is_new) ∙ next)
  | inr apart ↦ let old : s.orders j ≡ some o = ground arith in inr (old, w.issued j o old)
]

create-IsOrderly :
    (supplier : ℕ) (ds : List LineData) (by : Option ℕ) (s s' : Purchases)
    → IsOrderly s
    → create_purchase_order supplier ds by s ≡ ok s'
    → IsOrderly s'
unfolding create_purchase_order
create-IsOrderly supplier [] by s s' w h = absurd (ground arith)
create-IsOrderly supplier (d ∷ ds) by s s' w h =
    let po = new_purchase_order supplier by s in
    let start = add_order po s in
    let k = s.next_id in
    let e : create_lines k (d ∷ ds) start ≡ s' = ok-injective h in
    let (orders, last) = create_lines-orders k (d ∷ ds) start in
    let row : (j : ℕ) → (create_lines k (d ∷ ds) start).orders j ≡ put k po s.orders j =
      λ j. ap (λ f. f j) orders in
    let from =
      λ (j : ℕ) (o : PurchaseOrder) (at : (create_lines k (d ∷ ds) start).orders j ≡ some o).
        new_or_old s w po refl j o (sym (row j) ∙ at) in
    subst IsOrderly e (record {
      within = create_lines-within k (d ∷ ds) start w.within;
      placed = create_lines-placed k (d ∷ ds) start (omega arith) (below_suc k s.lines w.placed);
      told = λ j o at. elim (Bool-cases (k == j)) [
        | inl same ↦
            let here : k ≡ j = ground arith in
            let is_new : po ≡ o = ground (arith, row j) in
            let nothing = create_lines-none k (d ∷ ds) start (none_above k s.lines w.placed) in
            subst
              (λ i.
                suits (any_received i (create_lines k (d ∷ ds) start).lines)
                  (is_fully_received i (create_lines k (d ∷ ds) start).lines) o.status
                ≡ true)
              here (rw (← is_new, nothing) refl)
        | inr apart ↦
            subst (λ ls. suits (any_of has_receipt ls) (all_received ls) o.status ≡ true)
              (sym (create_lines-others k j (d ∷ ds) start apart))
              (w.told j o (ground (arith, row j)))
      ];
      issued = λ j o at. elim (from j o at) [
        | inl (here, number) ↦ omega (arith, last, number)
        | inr (old, below) ↦ omega (arith, last, below)
      ];
      distinct = λ i j o other at at' same. elim (from i o at) [
        | inl (here, number) ↦ elim (from j other at') [
          | inl (here', number') ↦ sym here ∙ here'
          | inr (old', below') ↦ absurd (omega arith)
        ]
        | inr (old, below) ↦ elim (from j other at') [
          | inl (here', number') ↦ absurd (omega arith)
          | inr (old', below') ↦ w.distinct i j o other old old' same
        ]
      ];
    })

mark-IsOrderly :
    (po : PurchaseOrder) (s s' : Purchases)
    → IsOrderly s
    → s.orders po.id ≡ some po
    → mark_purchase_order_ordered po s ≡ ok s'
    → IsOrderly s'
unfolding mark_purchase_order_ordered
mark-IsOrderly po s s' w there h =
    let new = record po { status = ordered } in
    let e : s' ≡ record s { orders = put po.id new s.orders } = ground arith in
    let is_draft : po.status ≡ draft = ground arith in
    resaved-IsOrderly s s' po.id w po new there refl (ap Purchases.orders e)
      (ap Purchases.last_number e) (rw e w.within) (rw e w.placed)
      (λ j apart. ap (λ (x : Purchases). lines_of j x.lines) e)
      (rw e (ground (arith, w.told po.id po there)))

pub receive-IsOrderly :
    (line : PurchaseOrderLine) (quantity : ℤ) (by : Option ℕ) (s s' : Purchases)
    → IsOrderly s
    → line_at line.id s.lines ≡ some line
    → receive_purchase_order_line line quantity by s ≡ ok s'
    → IsOrderly s'
receive-IsOrderly line quantity by s s' w fresh h =
    let r = receive-Received line quantity by s s' h in
    let n = line.quantity_received + pos_part quantity in
    let k = line.purchase_order in
    let some_units = r.some_units in
    let touched : any_received k s'.lines ≡ true =
      ap (any_received k) r.lines_saved
      ∙ save_received-touched line n s.lines fresh (omega arith) in
    resaved-IsOrderly s s' k w r.order _ r.order_there refl r.order_saved r.same_number
      (subst (All (λ (l : PurchaseOrderLine). l.quantity_received ≤ l.quantity_ordered))
        (sym r.lines_saved) (save_received-within line n s.lines fresh r.fits w.within))
      (rw (r.lines_saved, r.same_next) (save_received-placed line n s.next_id s.lines w.placed))
      (λ j apart. ap (lines_of j) r.lines_saved ∙ save_received-others line n j s.lines fresh apart)
      (ground arith)

-- Drafts, orderings and receipts, on fresh copies of the order or the line, keep the purchase
-- orders orderly: no line takes more than it asked for, an order is `received` only when all its
-- lines are, `partially_received` only when some units are, and no two orders share a number.
pub PurchaseStep-IsOrderly : (s s' : Purchases) → IsOrderly s → PurchaseStep s s' → IsOrderly s'
PurchaseStep-IsOrderly s s' w (create supplier ds by h) = create-IsOrderly supplier ds by s s' w h
PurchaseStep-IsOrderly s s' w (mark po there h) = mark-IsOrderly po s s' w there h
PurchaseStep-IsOrderly s s' w (receive line quantity by fresh h) =
    receive-IsOrderly line quantity by s s' w fresh h
