-- ===== src/Returns/Desk/Runs.antt =====
-- Runs of the posts on returns: a buyer asks, cancels and tracks; staff approve, reject and receive.
use Prim.Native.String.{String}
use mathlib.Core.Path.{subst}
use shop_orbit.Base.{
  ==_refl, [], ℕ, ◌≡◌, refl, sym, ap, ◌∙◌, Bool, Option, none, some, List, ◌∷◌, ok, ℤ, arith, ◌==◌,
  find, Bool-cases, Option-cases, Result-cases, inl, inr,
}
use shop_orbit.Cart.Models.{Order, OrderItem}
use shop_orbit.Fulfillment.Models.{Carrier}
use shop_orbit.Returns.Desk.{
  cancel_return_view, update_return_shipment_view, approve_action, reject_action,
  receive_return_view, ticked, own_return,
}
use shop_orbit.Returns.Desk.Course.{
  DeskEvent, asking, cancelling, tracking, approving, rejecting, receiving, return_may,
  return_may_refl, ReturnCourse, here, next, Standing, standing, standing_of, HasKeys, Moves,
  Falls-fresh,
}
use shop_orbit.Returns.Desk.Posts.{
  unmoved, answered-Moves, on_return-Moves, on_ticked-Moves, at_found, own_found, ticked_found,
  approve_return-Moves, reject_return-Moves, cancel_return-Moves, received-Moves, tracked-Moves,
}
use shop_orbit.Returns.Models.{ReturnRequest, same_return_status, approved, requested}
use shop_orbit.Returns.Services.{
  LineData, new_request, return_at, approve_return, reject_return, mark_return_received,
  cancel_return_request, update_return_shipment_tracking, request_return,
}
use shop_orbit.Returns.Services.Quantities.{request_return-returned}
use shop_orbit.Returns.Views.{request_return_view, returnable_items, lines_data}
use shop_orbit.Shop.{Shop}

-- One post, whoever sends it and whatever is in its form
pub data DeskStep (s : Shop) : Shop → Type 0 where
  ask :
      (days now user order : ℕ) (posted : OrderItem → Option ℤ)
      → DeskStep s (request_return_view days now user order posted s).1
  cancel : (user id : ℕ) → DeskStep s (cancel_return_view user id s).1
  track :
      (now user id : ℕ) (carrier : Carrier) (number url : String)
      → DeskStep s (update_return_shipment_view now user id carrier number url s).1
  approve : (now staff : ℕ) (ids : List ℕ) → DeskStep s (approve_action now staff ids s).1
  reject :
      (noted : ReturnRequest → Bool) (now staff : ℕ) (ids : List ℕ)
      → DeskStep s (reject_action noted now staff ids s).1
  receive :
      (now staff id : ℕ) (decisions : ℕ → Bool)
      → DeskStep s (receive_return_view now staff id decisions s).1

pub data DeskRun (s : Shop) : Shop → Type 0 where
  start : DeskRun s s
  then_post : {s1 s2 : Shop} → DeskRun s s1 → DeskStep s1 s2 → DeskRun s s2

-- What a post is for the machine
abbrev pub desk_event : {s s' : Shop} → DeskStep s s' → DeskEvent
desk_event (ask days now user order posted) = asking user
desk_event (cancel user id) = cancelling user
desk_event (track now user id carrier number url) = tracking
desk_event (approve now staff ids) = approving
desk_event (reject noted now staff ids) = rejecting
desk_event (receive now staff id decisions) = receiving

-- The posts of a run, newest first
abbrev pub desk_events : {s s' : Shop} → DeskRun s s' → List DeskEvent
desk_events start = []
desk_events (then_post run step) = desk_event step ∷ desk_events run

module _ (s : Shop) (keys : HasKeys s) where
  new-Moves :
      (s' : Shop) (days now : ℕ) (o : Order) (lines : List LineData) (user : ℕ)
      → request_return days now o lines user s ≡ ok s'
      → Moves (asking user) s s'
  new-Moves s' days now o lines user done =
      let (_, _, _, _, _, rows, bumped) = request_return-returned days now o lines user s s' done in
      record {
        keys = rw (rows, bumped) (omega arith, keys);
        moved = λ j.
            let now_at : return_at j s'
                ≡ find (λ (q : ReturnRequest). q.id == j)
                    (new_request s.next_id o.id user lines ∷ s.returns) =
              ap (find (λ (q : ReturnRequest). q.id == j)) rows in
            elim (Bool-cases (s.next_id == j)) [
              | inl fresh ↦
                  let before = Falls-fresh s.next_id j s.returns keys (ground arith) in
                  let a : standing j s ≡ none = ap standing_of before in
                  let made : Standing = record { status = requested; user = user } in
                  let b : standing j s' ≡ some made = ap standing_of now_at ∙ simp fresh refl in
                  ap (λ x. return_may (asking user) x (standing j s')) a
                  ∙ ap (return_may (asking user) none) b
                  ∙ ==_refl user
              | inr old ↦
                  let b : standing j s' ≡ standing j s = ap standing_of now_at ∙ simp old refl in
                  ap (return_may (asking user) (standing j s)) b
                  ∙ return_may_refl (asking user) (standing j s)
            ];
      }

  asked-Moves :
      (days now user id : ℕ) (posted : OrderItem → Option ℤ)
      → Moves (asking user) s (request_return_view days now user id posted s).1
  unfolding request_return_view
  asked-Moves days now user id posted = elim (Option-cases (s.orders id)) [
    | inl gone ↦
        let same : (request_return_view days now user id posted s).1 ≡ s = ground arith in
        subst (Moves (asking user) s) (sym same) (unmoved s keys (asking user))
    | inr (o, at) ↦ elim (Bool-cases (o.user == user)) [
      | inr foreign ↦
          let same : (request_return_view days now user id posted s).1 ≡ s = ground arith in
          subst (Moves (asking user) s) (sym same) (unmoved s keys (asking user))
      | inl own ↦
          let lines = lines_data posted (returnable_items s.returns o.items) in
          elim (Result-cases (request_return days now o lines user s)) [
            | inr (e, failed) ↦
                let same : (request_return_view days now user id posted s).1 ≡ s = ground arith in
                subst (Moves (asking user) s) (sym same) (unmoved s keys (asking user))
            | inl (s', done) ↦
                let same : (request_return_view days now user id posted s).1 ≡ s' = ground arith in
                subst (Moves (asking user) s) (sym same) (new-Moves s' days now o lines user done)
          ]
    ]
  ]

  step-Moves : (s' : Shop) (step : DeskStep s s') → Moves (desk_event step) s s'
  unfolding cancel_return_view update_return_shipment_view approve_action reject_action
      receive_return_view
  step-Moves s' (ask days now user id posted) = asked-Moves days now user id posted
  step-Moves s' (cancel user id) =
      on_return-Moves s keys (cancelling user) (own_return user id s) _ (λ r h.
        let (found, mine) = own_found s keys user id r h in
        answered-Moves s keys (cancelling user) (cancel_return_request r)
          (cancel_return-Moves s keys r found user mine))
  step-Moves s' (track now user id carrier number url) =
      on_return-Moves s keys tracking (own_return user id s) _ (λ r h.
        answered-Moves s keys tracking (update_return_shipment_tracking now r carrier number url)
          (tracked-Moves s keys r (own_found s keys user id r h).0 now carrier number url))
  step-Moves s' (approve now staff ids) = on_ticked-Moves s keys approving (ticked ids s) _ (λ r h.
      answered-Moves s keys approving (approve_return now r staff)
        (approve_return-Moves s keys r (ticked_found s keys ids r h) now staff))
  step-Moves s' (reject noted now staff ids) =
      on_ticked-Moves s keys rejecting (ticked ids s) _ (λ r h. elim (Bool-cases (noted r)) [
        | inl note ↦ simp note (
            answered-Moves s keys rejecting (reject_return now r staff)
              (reject_return-Moves s keys r (ticked_found s keys ids r h) now staff))
        | inr blank ↦ simp blank (unmoved s keys rejecting)
      ])
  step-Moves s' (receive now staff id decisions) =
      on_return-Moves s keys receiving (return_at id s) _ (λ r h.
        elim (Bool-cases (same_return_status r.status approved)) [
          | inl due ↦ simp due (
              answered-Moves s keys receiving (mark_return_received now r decisions (some staff))
                (received-Moves s keys r (at_found s keys id r h) now decisions (some staff)))
          | inr other ↦ simp other (unmoved s keys receiving)
        ])

-- Start from a shop whose returns have keys of their own. Through any run of posts, of buyers who ask for a
-- return, cancel it or track its parcel and of staff who approve, reject or receive it, the keys stay their
-- own, and every return follows its machine by the posts of the run: each post leaves it as it is or makes
-- the one move of that post. A request is its sender's and stays so; only a request is approved,
-- rejected or cancelled, the last by its sender alone; and only an approved return is received.
pub DeskRun-ReturnCourse :
    (s s' : Shop)
    → HasKeys s
    → (run : DeskRun s s')
    → HasKeys s' × ((id : ℕ) → ReturnCourse (standing id s) (desk_events run) (standing id s'))
DeskRun-ReturnCourse s s' keys start = (keys, λ id. here)
DeskRun-ReturnCourse s s' keys (then_post {s1 = s1} run step) =
    let (keys1, course) = DeskRun-ReturnCourse s s1 keys run in
    let m = step-Moves s1 keys1 s' step in
    (m.keys, λ id. next (desk_event step) (course id) (m.moved id))
