-- ===== src/Fulfillment/Tasks.antt =====
-- fulfillment/tasks.py: the task that polls the courier for every shipment that is under way. `respond` is what the
-- courier answers for a tracking number, and `configured` whether there is a token.
use Prim.Native.String.{String}
use mathlib.Core.Path.{fun_ext}
use shop_orbit.Base.{
  ◌≡◌, refl, ap, Bool, true, false, ◌&&◌, Option, none, some, List, [], ◌∷◌, Result, ok, err,
  api_error, if◌then◌else◌, select, arith, Bool-cases, Result-cases, inl, inr,
}
use shop_orbit.Fulfillment.Models.{
  Shipment, ShipmentStatus, pending, picked_up, in_transit, out_for_delivery, ndr,
}
use shop_orbit.Fulfillment.Services.{Env, is_delhivery, sync_shipment_tracking}
use shop_orbit.Shop.{Shop}
use shop_orbit.Shop.Action.{Action}

-- `_ACTIVE_STATUSES`
abbrev pub is_active : ShipmentStatus → Bool
is_active pending = true
is_active picked_up = true
is_active in_transit = true
is_active out_for_delivery = true
is_active ndr = true
is_active _ = false

-- `Shipment.objects.filter(...).exclude(tracking_number="")`
abbrev pub is_polled : Shipment → Bool
is_polled sh =
    is_delhivery sh.carrier
    && is_active sh.status
    && elim sh.tracking_number [ none ↦ false | some w ↦ true ]

-- what is done after a poll: an error of the courier's API is logged, and the next shipment
-- is polled; another exception ends the task, and what was saved stays
abbrev pub after_poll : Result (Shop × Bool) → Action (Unit {0}) → Action (Unit {0})
after_poll (ok (s', moved)) rest s = rest s'
after_poll (err api_error) rest s = rest s
after_poll (err e) rest s = (err e, s)

module _ (respond : Option String → Result (Option String)) (env : Env) where
  -- The loop
  abbrev pub sync_each : List Shipment → Action (Unit {0})
  sync_each [] s = (ok tt, s)
  sync_each (sh ∷ shs) s =
      after_poll (sync_shipment_tracking env (respond sh.tracking_number) sh none s) (sync_each shs)
        s

  -- `sync_all_shipment_tracking`, on the table of shipments
  unfoldable pub sync_all_shipment_tracking : Bool → List Shipment → Action (Unit {0})
  sync_all_shipment_tracking configured table s =
      if configured then sync_each (select is_polled table) s else (ok tt, s)

  -- whether the courier answers for a shipment
  abbrev pub is_answered : Shipment → Bool
  is_answered sh = elim (respond sh.tracking_number) [
    | ok raw ↦ true
    | err api_error ↦ false
    | err e ↦ true
  ]

  unanswered :
      (sh : Shipment) (s : Shop)
      → is_polled sh ≡ true
      → is_answered sh ≡ false
      → sync_shipment_tracking env (respond sh.tracking_number) sh none s ≡ err api_error
  unfolding sync_shipment_tracking
  unanswered sh s polled silent = elim (Result-cases (respond sh.tracking_number)) [
    | inl (raw, said) ↦ absurd (ground arith)
    | inr (e, failed) ↦ ground arith
  ]

  skips :
      (table : List Shipment) (s : Shop)
      → sync_each (select is_polled table) s
        ≡ sync_each (select is_polled (select is_answered table)) s
  skips [] s = refl
  skips (sh ∷ table) s = elim (Bool-cases (is_polled sh)) [
    | inr idle ↦ elim (Bool-cases (is_answered sh)) [
      | inl answered ↦ simp (idle, answered) (skips table s)
      | inr silent ↦ simp (idle, silent) (skips table s)
    ]
    | inl polled ↦ elim (Bool-cases (is_answered sh)) [
      | inr silent ↦
          let e = unanswered sh s polled silent in simp (polled, silent, e) (skips table s)
      | inl answered ↦
          let rest = fun_ext (λ t. skips table t) in
          let poll = sync_shipment_tracking env (respond sh.tracking_number) sh none s in
          simp (polled, answered) (ap (λ next. after_poll poll next s) rest)
    ]
  ]

  -- A poll that the courier does not answer holds nothing up: the task does just what it would do if the shipments whose
  -- poll fails were not there.
  sync_all-skips :
      (configured : Bool) (table : List Shipment) (s : Shop)
      → sync_all_shipment_tracking configured table s
        ≡ sync_all_shipment_tracking configured (select is_answered table) s
  unfolding sync_all_shipment_tracking
  sync_all-skips true table s = skips table s
  sync_all-skips false table s = refl
