-- ===== src/Returns/Views.antt =====
-- The page on which a buyer asks to return items (`request_return` of returns/views.py).
pub mod Bought
use shop_orbit.Base.{
  ℕ, Option, none, some, List, [], ◌∷◌, ℤ, pos, ltb_ℤ, leb_ℤ, if◌then◌else◌, Result, ok, err, Error,
  does_not_exist, select,
}
use shop_orbit.Cart.Models.{OrderItem}
use shop_orbit.Payments.PayPage.{own_order}
use shop_orbit.Returns.Models.{ReturnRequest}
use shop_orbit.Returns.Services.{LineData, remaining_returnable_quantity, request_return}
use shop_orbit.Shop.{Shop}
use shop_orbit.Shop.Action.{Action}

-- What the page answers: every exception of the service is a `ValueError`, and is shown.
pub data ReturnAnswer : Type 0 where
  submitted : ReturnAnswer
  refused : Error → ReturnAnswer

-- the items that the page lists: those with units left to return
unfoldable pub returnable_items : List ReturnRequest → List OrderItem → List OrderItem
returnable_items table = select (λ i. ltb_ℤ (pos 0) (remaining_returnable_quantity i table))

-- `lines_data`: `int(raw_quantity)` of the box of each item, `none` where it is no number
abbrev pub lines_data : (OrderItem → Option ℤ) → List OrderItem → List LineData
lines_data posted [] = []
lines_data posted (i ∷ items) =
    let rest = lines_data posted items in
    elim (posted i) [
      | none ↦ rest
      | some n ↦ if leb_ℤ n (pos 0) then rest else record { order_item = i; quantity = n } ∷ rest
    ]

abbrev pub return_answer : Result Shop → Shop → Result ReturnAnswer × Shop
return_answer (ok s') s = (ok submitted, s')
return_answer (err e) s = (ok (refused e), s)

-- `request_return` on a POST, with `RETURN_WINDOW_DAYS` as `days`
unfoldable pub request_return_view :
    (days now user id : ℕ) → (OrderItem → Option ℤ) → Action ReturnAnswer
unfolding request_return
request_return_view days now user id posted s = elim (own_order user id s) [
  | none ↦ (err does_not_exist, s)
  | some o ↦
      let items = returnable_items s.returns o.items in
      return_answer (request_return days now o (lines_data posted items) user s) s
]
