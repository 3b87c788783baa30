-- ===== src/Fulfillment/Services/Tax.antt =====
-- The amounts and the numbers of the invoices.
use mathlib.Core.Path.{subst}
use shop_orbit.Base.{
  ℕ, ◌≡◌, refl, ◌+◌, ◌*◌, ◌≤◌, ◌<◌, leb, Bool, true, false, none, some, List, [], ◌∷◌, sum_by,
  arith, ==_refl, ◌==◌, round_half_even-le, round_half_even_near, if◌then◌else◌, Option-cases,
  Bool-cases, inl, inr, sym, ap, ◌∙◌, ◌⊎◌,
}
use shop_orbit.Cart.Models.{Order, OrderItem, line_total}
use shop_orbit.Cart.Pricing.{tax_amount, taxable_value}
use shop_orbit.Fulfillment.Models.{Invoice}
use shop_orbit.Fulfillment.Services.{
  Env, split_tax, generate_invoice, new_invoice, current_financial_year,
}
use shop_orbit.Shop.{Shop}

-- The parts of an invoice's tax add up to the tax within one paisa, for a sale within the state
-- and for an interstate one.
split_tax_near :
    (interstate : Bool) (t : ℕ)
    → (((split_tax interstate t).cgst
          + (split_tax interstate t).sgst
          + (split_tax interstate t).igst)
        ≤ t + 1)
      × (t
          ≤ (split_tax interstate t).cgst
            + (split_tax interstate t).sgst
            + (split_tax interstate t).igst
            + 1)
unfolding split_tax
split_tax_near true t = (omega arith, omega arith)
split_tax_near false t =
    let (a, b) = round_half_even_near t 2 (omega arith) in
    (omega (arith, a, b), omega (arith, a, b))

-- The tax within a price is at most the price.
tax_amount-le : (i : OrderItem) → tax_amount i ≤ line_total i
unfolding tax_amount
tax_amount-le i = elim (Bool-cases (i.gst_rate == 0)) [
  | inl free ↦ simp free (omega arith)
  | inr taxed ↦ simp taxed (
      round_half_even-le (line_total i * i.gst_rate) (10000 + i.gst_rate) (line_total i)
        (omega arith) (grind arith))
]

sums_add_up :
    (items : List OrderItem)
    → sum_by taxable_value items + sum_by tax_amount items ≡ sum_by line_total items
unfolding taxable_value
sums_add_up [] = refl
sums_add_up (i ∷ items) = omega (arith, tax_amount-le i, sums_add_up items)

-- The taxable amount and the tax that an invoice is made out with add up to the prices of its lines.
invoice_adds_up :
    (env : Env) (order : Order) (s : Shop) (invoice : Invoice)
    → s.invoices order.id ≡ none
    → (generate_invoice env order s).invoices order.id ≡ some invoice
    → invoice.taxable_amount + invoice.total_tax ≡ sum_by line_total order.items
unfolding generate_invoice new_invoice
invoice_adds_up env order s invoice fresh made =
    ground (arith, ==_refl order.id, sums_add_up order.items)

-- An order gets one invoice: asked again, at whatever time, nothing changes.
invoiced_once :
    (env env' : Env) (order : Order) (s : Shop)
    → generate_invoice env' order (generate_invoice env order s) ≡ generate_invoice env order s
unfolding generate_invoice
invoiced_once env env' order s = elim (Option-cases (s.invoices order.id)) [
  | inl fresh ↦ ground (arith, ==_refl order.id)
  | inr (i, found) ↦ ground arith
]

-- The invoices of a year carry the numbers from 1 to the year's counter, each of them just once.
pub record IsNumbered (s : Shop) : Type 0 where
  pub counted :
      (a : ℕ) (i : Invoice)
      → s.invoices a ≡ some i
      → (0 < i.number) × (i.number ≤ s.invoice_numbers i.financial_year)
  pub apart :
      (a b : ℕ) (i j : Invoice)
      → s.invoices a ≡ some i
      → s.invoices b ≡ some j
      → i.financial_year ≡ j.financial_year
      → i.number ≡ j.number
      → a ≡ b
  pub gapless :
      (year k : ℕ)
      → 0 < k
      → k ≤ s.invoice_numbers year
      → (a : ℕ) × (i : Invoice) × (s.invoices a ≡ some i)
        × (i.financial_year ≡ year)
        × (i.number ≡ k)

generate_invoice-old :
    (env : Env) (order : Order) (s : Shop) (i : Invoice)
    → s.invoices order.id ≡ some i
    → generate_invoice env order s ≡ s
unfolding generate_invoice
generate_invoice-old env order s i found = ground arith

-- a row of the table after an invoice was made out: an old row, or the new one with the next number
invoice_row :
    (env : Env) (order : Order) (s : Shop) (a : ℕ) (i : Invoice)
    → s.invoices order.id ≡ none
    → (generate_invoice env order s).invoices a ≡ some i
    → (s.invoices a ≡ some i)
      ⊎ ((a ≡ order.id)
          × (i.financial_year ≡ current_financial_year env)
          × (i.number ≡ s.invoice_numbers (current_financial_year env) + 1))
unfolding generate_invoice new_invoice
invoice_row env order s a i fresh at = elim (Bool-cases (order.id == a)) [
  | inl own ↦ inr (ground arith)
  | inr other ↦ inl (ground arith)
]

counter_grows :
    (env : Env) (order : Order) (s : Shop) (y : ℕ)
    → s.invoices order.id ≡ none
    → (generate_invoice env order s).invoice_numbers y
      ≡ (if current_financial_year env == y then s.invoice_numbers y + 1 else s.invoice_numbers y)
unfolding generate_invoice
counter_grows env order s y fresh = ground arith

-- the invoice that was made out
made_out :
    (env : Env) (order : Order) (s : Shop)
    → s.invoices order.id ≡ none
    → (i : Invoice) × ((generate_invoice env order s).invoices order.id ≡ some i)
      × (i.financial_year ≡ current_financial_year env)
      × (i.number ≡ s.invoice_numbers (current_financial_year env) + 1)
unfolding generate_invoice new_invoice
made_out env order s fresh = (new_invoice env order s, ground (arith, ==_refl order.id), refl, refl)

-- an invoice that was there stays
kept_row :
    (env : Env) (order : Order) (s : Shop) (a : ℕ) (i : Invoice)
    → s.invoices order.id ≡ none
    → s.invoices a ≡ some i
    → (generate_invoice env order s).invoices a ≡ some i
unfolding generate_invoice
kept_row env order s a i fresh at = elim (Bool-cases (order.id == a)) [
  | inl own ↦ let e : order.id ≡ a = ground arith in absurd (ground (arith, ap s.invoices e))
  | inr other ↦ ground arith
]

-- Making out an invoice keeps the numbering of each year without a gap and without a repetition, and the
-- invoice of an order that had none carries the next number of its year.
pub generate_invoice-IsNumbered :
    (env : Env) (order : Order) (s : Shop)
    → IsNumbered s
    → IsNumbered (generate_invoice env order s)
      × (s.invoices order.id ≡ none
          → (i : Invoice) × ((generate_invoice env order s).invoices order.id ≡ some i)
            × (i.number ≡ s.invoice_numbers i.financial_year + 1))
generate_invoice-IsNumbered env order s numbered = (
  elim (Option-cases (s.invoices order.id)) [
    | inr (i, found) ↦ subst IsNumbered (sym (generate_invoice-old env order s i found)) numbered
    | inl fresh ↦ record {
      counted = λ a i at. elim (invoice_row env order s a i fresh at) [
        | inl old ↦
            ground (arith, numbered.counted a i, counter_grows env order s i.financial_year fresh)
        | inr new ↦ ground (arith, counter_grows env order s i.financial_year fresh)
      ];
      apart = λ a b i j ai bj year number. elim (invoice_row env order s a i fresh ai) [
        | inl x ↦ elim (invoice_row env order s b j fresh bj) [
          | inl y ↦ numbered.apart a b i j x y year number
          | inr y ↦ absurd (clash i j (numbered.counted a i x).1 y year number)
        ]
        | inr x ↦ elim (invoice_row env order s b j fresh bj) [
          | inl y ↦ absurd (clash j i (numbered.counted b j y).1 x (sym year) (sym number))
          | inr y ↦ x.0 ∙ sym y.0
        ]
      ];
      gapless = λ year k positive le. elim (Bool-cases (leb k (s.invoice_numbers year))) [
        | inl below ↦
            let (a, i, at, of_year, number) = numbered.gapless year k positive (ground arith) in
            (a, i, kept_row env order s a i fresh at, of_year, number)
        | inr above ↦
            let grows = counter_grows env order s year fresh in
            let (i, at, of_year, number) = made_out env order s fresh in
            let now : current_financial_year env ≡ year = ground arith in
            (order.id, i, at, of_year ∙ now, ground (arith, ap s.invoice_numbers now))
      ];
    }
  ],
  λ fresh.
      let (i, at, of_year, number) = made_out env order s fresh in
      (i, at, number ∙ ap (λ y. s.invoice_numbers y + 1) (sym of_year)),
)
  where
    clash :
        {c : ℕ} (i j : Invoice)
        → i.number ≤ s.invoice_numbers i.financial_year
        → (c ≡ order.id)
          × (j.financial_year ≡ current_financial_year env)
          × (j.number ≡ s.invoice_numbers (current_financial_year env) + 1)
        → i.financial_year ≡ j.financial_year
        → i.number ≡ j.number
        → ⊥
    clash i j le (own, y, n) year number =
        omega (arith, le, n, number, ap s.invoice_numbers (year ∙ y))
