-- ===== src/Orders/Lifecycle.antt =====
-- The life of an order as an abstract machine: what may happen to it, and where each event takes it.
use shop_orbit.Base.{Bool, true, false, Option, none, some, List, [], ◌∷◌, ◌≡◌, ◌&&◌, ◌||◌}
use shop_orbit.Cart.Models.{
  OrderStatus, same_status, is_cancellable, awaiting_payment, payment_confirmed, payment_failed,
  expired, accepted, packed, shipped, delivered, cancelled, refunded, partially_refunded,
}
use shop_orbit.Fulfillment.Models.{ShipmentStatus}
use shop_orbit.Payments.Models.{RefundStatus, full}

-- What may happen to an order. A courier reports the status of a parcel, and a processed refund says whether
-- the payment is refunded in full by now.
pub data Event : Type 0 where
  checkout capture_report failure_report expiry retrial cancellation acceptance packing : Event
  courier_report : ShipmentStatus → Event
  refund_report : RefundStatus → Event

-- A relation between the status before and after, `none` where there is no order
abbrev pub Move : Type 0
Move = Option OrderStatus → Option OrderStatus → Bool

abbrev pub has : OrderStatus → Option OrderStatus → Bool
has st none = false
has st (some a) = same_status a st

abbrev pub may_cancel : Option OrderStatus → Bool
may_cancel none = false
may_cancel (some a) = is_cancellable a

abbrev pub is_same : Move
is_same none none = true
is_same (some a) (some b) = same_status a b
is_same _ _ = false

-- Where a parcel's status takes its order: handed over, it is shipped; and otherwise it stays
abbrev by_courier : ShipmentStatus → Move
by_courier ShipmentStatus.picked_up a b = has shipped b
by_courier ShipmentStatus.in_transit a b = has shipped b
by_courier ShipmentStatus.out_for_delivery a b = has shipped b
by_courier ShipmentStatus.delivered a b = has delivered b
by_courier _ a b = is_same a b

-- The machine. An order starts by awaiting its payment. Only then can it be confirmed, fail or expire, and a
-- late report of a payment leaves it. A failed payment may be tried again. Staff accept what is
-- confirmed, and pack what is accepted.
abbrev pub transition : Event → Move
transition checkout none b = has awaiting_payment b
transition checkout (some a) b = false
transition capture_report a b = is_same a b || (has awaiting_payment a && has payment_confirmed b)
transition failure_report a b = is_same a b || (has awaiting_payment a && has payment_failed b)
transition expiry a b = has awaiting_payment a && has expired b
transition retrial a b = (has awaiting_payment a || has payment_failed a) && has awaiting_payment b
transition cancellation a b = may_cancel a && has cancelled b
transition acceptance a b = has payment_confirmed a && has accepted b
transition packing a b = has accepted a && has packed b
transition (courier_report sh) a b = by_courier sh a b
transition (refund_report full) a b = has refunded b
transition (refund_report _) a b = has partially_refunded b

-- A course from `a` through the events, newest first, each of them a transition of the machine
pub data Course (a : Option OrderStatus) : List Event → Option OrderStatus → Type 0 where
  here : Course a [] a
  next :
      {es : List Event} {b c : Option OrderStatus}
      → (e : Event) → Course a es b
      → transition e b c ≡ true
      → Course a (e ∷ es) c
