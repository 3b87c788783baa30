-- ===== src/Cart/Services/Advance.antt =====
-- The staff-driven stages between payment and hand-over: accepted, then packed.
use shop_orbit.Base.{
  ℕ, ◌≡◌, true, false, Option, some, ◌∷◌, ◌∙◌, ◌==◌, ok, err, arith, is_ok, bad_status, ◌&&◌,
  Bool-cases, if◌then◌else◌, ==_refl,
}
use shop_orbit.Cart.Models.{
  OrderStatus, Order, same_status, same_status→eq, payment_confirmed, accepted, packed,
}
use shop_orbit.Shop.{Shop, save_status}
use shop_orbit.Shop.Saves.{Saved, save_status-Saved}
use shop_orbit.Cart.Services.{advance_order_status, accept_order, mark_order_packed}

-- An advance goes through exactly if the caller's copy and the row are both in the status to leave;
-- it then saves the new status and nothing else, and is refused as a bad status otherwise.
pub advance_decided :
    (from to : OrderStatus) (obj o : Order) (actor : Option ℕ) (s : Shop)
    → s.orders obj.id ≡ some o
    → (is_ok (advance_order_status from to obj actor s)
        ≡ (same_status obj.status from && same_status o.status from))
      × (is_ok (advance_order_status from to obj actor s) ≡ false
          → advance_order_status from to obj actor s ≡ err bad_status)
unfolding advance_order_status save_status
advance_decided from to obj o actor s found = (
  ground (arith, Bool-cases (same_status o.status from)),
  λ refused. ground (arith, Bool-cases (same_status o.status from)),
)

pub advance-Saved :
    (from to : OrderStatus) (obj o : Order) (actor : Option ℕ) (s s' : Shop)
    → s.orders obj.id ≡ some o
    → advance_order_status from to obj actor s ≡ ok s'
    → (o.status ≡ from) × Saved obj.id o to actor s s'
unfolding advance_order_status
advance-Saved from to obj o actor s s' found h = (
  same_status→eq o.status from (ground arith),
  save_status-Saved obj.id to actor true o s s' found (ground arith),
)

-- An order that is accepted and then packed from the rows that these calls find was paid for, and ends
-- packed, with two audit entries, the stock of every row as it was, and every other order as it was.
packed_was_paid :
    (obj obj' o : Order) (actor actor' : Option ℕ) (s s1 s2 : Shop)
    → s.orders obj.id ≡ some o
    → obj'.id ≡ obj.id
    → accept_order obj actor s ≡ ok s1
    → mark_order_packed obj' actor' s1 ≡ ok s2
    → (o.status ≡ payment_confirmed)
      × (s2.inventory ≡ s.inventory)
      × ((j : ℕ)
          → s2.orders j ≡ (if obj.id == j then some (record o { status = packed }) else s.orders j))
      × (s2.order_history
          ≡ record {
            order = obj.id;
            previous_status = accepted;
            new_status = packed;
            changed_by = actor';
          }
            ∷ record {
              order = obj.id;
              previous_status = payment_confirmed;
              new_status = accepted;
              changed_by = actor;
            }
            ∷ s.order_history)
unfolding accept_order mark_order_packed
packed_was_paid obj obj' o actor actor' s s1 s2 found same h h' =
    let (paid, w) = advance-Saved payment_confirmed accepted obj o actor s s1 found h in
    let row : s1.orders obj'.id ≡ some (record o { status = accepted }) =
      ground (arith, w.orders_put, ==_refl obj.id) in
    let (was, w') =
      advance-Saved accepted packed obj' (record o { status = accepted }) actor' s1 s2 row h' in
    (
      paid,
      w'.stock_same ∙ w.stock_same,
      λ j. ground (arith, w'.orders_put, w.orders_put),
      ground (arith, w'.history_logged, w.history_logged),
    )
