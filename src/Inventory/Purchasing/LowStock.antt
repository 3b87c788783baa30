-- ===== src/Inventory/Purchasing/LowStock.antt =====
-- The draft that restocks what a supplier's products are short of (`create_purchase_order_from_low_stock` of
-- inventory/services.py).
use shop_orbit.Base.{
  ◌==◌, Bool, false, max, some, err, Result, no_low_stock, if◌then◌else◌, leb, ◌-◌, ℕ, ◌+◌, ◌*◌,
  ◌≤◌, ◌≡◌, refl, sym, ap, true, List, [], ◌∷◌, Option, none, ok, arith, ◌&&◌, Bool-cases, inl, inr,
}
use shop_orbit.Inventory.Models.{StockRow, in_stock, stock_status, available_to_sell}
use mathlib.Core.List.{Memᴰ}
use mathlib.Core.List.Memᴰ
use shop_orbit.Inventory.Purchasing.{
  PurchaseOrderLine, LineData, Purchases, create_line, create_lines, new_purchase_order, add_order,
  create_purchase_order,
}

-- The columns of a `Product` that a draft from low stock reads
pub record SupplierProduct : Type 0 where
  pub id : ℕ
  pub default_supplier : Option ℕ
  pub is_active : Bool
  pub row : StockRow

abbrev pub supplied_by : ℕ → SupplierProduct → Bool
supplied_by supplier p = elim p.default_supplier [
  | none ↦ false
  | some q ↦ q == supplier && p.is_active
]

-- `max(product.low_stock_threshold * 2 - product.available_to_sell, 1)`
abbrev pub suggested_quantity : StockRow → ℕ
suggested_quantity r = max (r.low_stock_threshold * 2 - available_to_sell r) 1

abbrev pub is_low : StockRow → Bool
is_low r = leb (available_to_sell r) r.low_stock_threshold

-- The entry of `lines_data` that a product gets
abbrev pub draft_line : SupplierProduct → LineData
draft_line p = record {
  product = p.id;
  variant = none;
  quantity_ordered = suggested_quantity p.row;
  unit_cost = 0;
}

-- The loop of `create_purchase_order_from_low_stock`
abbrev pub low_stock_lines : ℕ → List SupplierProduct → List LineData
low_stock_lines supplier [] = []
low_stock_lines supplier (p ∷ ps) =
    let rest = low_stock_lines supplier ps in
    if supplied_by supplier p && is_low p.row then draft_line p ∷ rest else rest

-- `create_purchase_order_from_low_stock`
unfoldable pub create_purchase_order_from_low_stock :
    ℕ → List SupplierProduct → Option ℕ → Purchases → Result Purchases
create_purchase_order_from_low_stock supplier products created_by s =
    elim (low_stock_lines supplier products) [
      | [] ↦ err no_low_stock
      | d ∷ ds ↦ create_purchase_order supplier (d ∷ ds) created_by s
    ]

-- Received in full, the quantity that is suggested for a row takes it out of low stock, and to twice its threshold
-- at least, where no more is reserved than there is.
suggested_quantity-suffices :
    (r : StockRow)
    → r.reserved_count ≤ r.stock_count
    → let restocked = record r { stock_count = r.stock_count + suggested_quantity r } in
      (stock_status restocked ≡ in_stock)
      × (r.low_stock_threshold * 2 ≤ available_to_sell restocked)
      × (1 ≤ suggested_quantity r)
unfolding stock_status
suggested_quantity-suffices r covered = ground arith

-- a line that was created stays while others are
create_lines-keeps :
    (po : ℕ) (ds : List LineData) (s : Purchases) (l : PurchaseOrderLine)
    → Memᴰ l s.lines
    → Memᴰ l (create_lines po ds s).lines
create_lines-keeps po [] s l in_s = in_s
create_lines-keeps po (d ∷ ds) s l in_s =
    create_lines-keeps po ds (create_line po d s) l (Memᴰ.tail in_s)

-- A line of an order for a product, and what it asks for
pub record Asks (po product : ℕ) (quantity : ℕ) (lines : List PurchaseOrderLine) : Type 0 where
  pub line : PurchaseOrderLine
  pub there : Memᴰ line lines
  pub of_order : line.purchase_order ≡ po
  pub for_product : (line.product ≡ product) × (line.variant ≡ none)
  pub asked : line.quantity_ordered ≡ quantity

create_lines-Asks :
    (po supplier : ℕ) (ps : List SupplierProduct) (s : Purchases) (p : SupplierProduct)
    → Memᴰ p ps
    → supplied_by supplier p ≡ true
    → is_low p.row ≡ true
    → Asks po p.id
        (suggested_quantity p.row)
        (create_lines po (low_stock_lines supplier ps) s).lines
create_lines-Asks po supplier [] s p at ours low = absurd (Memᴰ.not-nil at)
create_lines-Asks po supplier (q ∷ ps) s p (Memᴰ.head e) ours low =
    let rest = low_stock_lines supplier ps in
    let drafted : low_stock_lines supplier (q ∷ ps) ≡ draft_line q ∷ rest =
      rw (← e, ours, low) refl in
    rw drafted (record {
      line = _;
      there = create_lines-keeps po rest (create_line po (draft_line q) s) _ (Memᴰ.head refl);
      of_order = refl;
      for_product = (ap SupplierProduct.id (sym e), refl);
      asked = ap (λ (x : SupplierProduct). suggested_quantity x.row) (sym e);
    })
create_lines-Asks po supplier (q ∷ ps) s p (Memᴰ.tail at) ours low =
    elim (Bool-cases (supplied_by supplier q && is_low q.row)) [
      | inl short ↦
          simp short
            (create_lines-Asks po supplier ps (create_line po (draft_line q) s) p at ours low)
      | inr enough ↦ simp enough (create_lines-Asks po supplier ps s p at ours low)
    ]

low_stock_lines-some :
    (supplier : ℕ) (ps : List SupplierProduct) (p : SupplierProduct)
    → Memᴰ p ps
    → supplied_by supplier p ≡ true
    → is_low p.row ≡ true
    → (d : LineData) × (ds : List LineData) × (low_stock_lines supplier ps ≡ d ∷ ds)
low_stock_lines-some supplier [] p at ours low = absurd (Memᴰ.not-nil at)
low_stock_lines-some supplier (q ∷ ps) p (Memᴰ.head e) ours low =
    (draft_line q, low_stock_lines supplier ps, rw (← e, ours, low) refl)
low_stock_lines-some supplier (q ∷ ps) p (Memᴰ.tail at) ours low =
    elim (Bool-cases (supplied_by supplier q && is_low q.row)) [
      | inl short ↦ (draft_line q, low_stock_lines supplier ps, simp short)
      | inr enough ↦
          let (d, ds, e) = low_stock_lines-some supplier ps p at ours low in
          (d, ds, simp (enough, e))
    ]

-- A draft from low stock has, for every active product of the supplier that is at or below its
-- threshold, a line that asks for the suggested quantity; a draft is refused only where there is none.
create_purchase_order_from_low_stock-Asks :
    (supplier : ℕ) (ps : List SupplierProduct) (by : Option ℕ) (s : Purchases) (p : SupplierProduct)
    → Memᴰ p ps
    → supplied_by supplier p ≡ true
    → is_low p.row ≡ true
    → (s' : Purchases) × (create_purchase_order_from_low_stock supplier ps by s ≡ ok s')
      × Asks s.next_id p.id (suggested_quantity p.row) s'.lines
unfolding create_purchase_order_from_low_stock create_purchase_order
create_purchase_order_from_low_stock-Asks supplier ps by s p at ours low =
    let start = add_order (new_purchase_order supplier by s) s in
    let w = create_lines-Asks s.next_id supplier ps start p at ours low in
    let (d, ds, e) = low_stock_lines-some supplier ps p at ours low in
    (create_lines s.next_id (low_stock_lines supplier ps) start, ground (arith, e), w)
