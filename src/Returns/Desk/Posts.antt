-- ===== src/Returns/Desk/Posts.antt =====
-- Each post on a return moves it along its machine, and leaves every other return where it was.
use Prim.Native.String.{String}
use shop_orbit.Base.{
  ==_refl, true, ℕ, ◌≡◌, refl, sym, ap, ◌∙◌, Bool, Option, none, some, List, [], ◌∷◌, Result, ok,
  pos, arith, ◌==◌, map, any_of, Bool-cases, Option-cases, Result-cases, inl, inr,
}
use shop_orbit.Fulfillment.Models.{Carrier}
use shop_orbit.Inventory.Services.{restock_from_return}
use shop_orbit.Returns.Desk.{ticked, own_return, answered, on_return, on_ticked, DeskAnswer}
use shop_orbit.Staff.Bulk.{is_value_error}
use shop_orbit.Returns.Desk.Course.{
  DeskEvent, approving, rejecting, receiving, tracking, cancelling, return_may_refl, standing_of,
  HasKeys, Moves, Falls-found, only_one-first, still-Moves, updated-Moves, change,
}
use shop_orbit.Returns.Models.{
  ReturnRequest, ReturnLine, same_return_status, requested, approved, is_cancellable,
}
use shop_orbit.Returns.Services.{
  as_approved, as_rejected, as_cancelled, as_received, with_parcel, as_tracked, is_over, return_at,
  update_return, receive_line, receive_lines, approve_return, reject_return, mark_return_received,
  cancel_return_request, update_return_shipment_tracking,
}
use shop_orbit.Shop.{Shop}
use shop_orbit.Shop.Action.{Action}

-- the lines of a parcel only bring stock
receive_line-same :
    (request : ℕ) (by : Option ℕ) (decisions : ℕ → Bool) (l l' : ReturnLine) (s s' : Shop)
    → receive_line request by decisions l s ≡ ok (l', s')
    → (s'.returns ≡ s.returns) × (s'.next_id ≡ s.next_id)
unfolding receive_line
receive_line-same request by decisions l l' s s' h = elim (Option-cases l.order_item.product) [
  | inl gone ↦ (ground arith, ground arith)
  | inr (p, sold) ↦ elim (Bool-cases (decisions l.id)) [
    | inr kept ↦ (ground arith, ground arith)
    | inl back ↦
        elim (Result-cases
          (restock_from_return p l.order_item.variant (pos l.quantity) request by s.inventory)) [
            | inl (i, done) ↦ (ground arith, ground arith)
            | inr (e, failed) ↦ absurd (ground arith)
          ]
  ]
]

pub receive_lines-same :
    (request : ℕ) (by : Option ℕ) (decisions : ℕ → Bool) (lines lines' : List ReturnLine)
    (s s' : Shop)
    → receive_lines request by decisions lines s ≡ ok (lines', s')
    → (s'.returns ≡ s.returns) × (s'.next_id ≡ s.next_id)
unfolding receive_lines
receive_lines-same request by decisions [] lines' s s' h = (ground arith, ground arith)
receive_lines-same request by decisions (l ∷ lines) lines' s s' h =
    elim (Result-cases (receive_line request by decisions l s)) [
      | inr (e, failed) ↦ absurd (ground arith)
      | inl ((l1, s1), first) ↦ elim (Result-cases (receive_lines request by decisions lines s1)) [
        | inr (e, failed) ↦ absurd (ground arith)
        | inl ((rest, s2), second) ↦
            let (a, b) = receive_line-same request by decisions l l1 s s1 first in
            let (c, d) = receive_lines-same request by decisions lines rest s1 s2 second in
            (ground arith, ground arith)
      ]
    ]

-- What a service that was called on `s` and returned has done is what the machine has for the event.
abbrev Fits : DeskEvent → Shop → (Shop → Result Shop) → Type 0
Fits e s service = (s' : Shop) → service s ≡ ok s' → Moves e s s'

module _ (s : Shop) (keys : HasKeys s) where
  pub unmoved : (e : DeskEvent) → Moves e s s
  unmoved e = still-Moves e s s keys refl refl

  pub answered-Moves :
      (e : DeskEvent) (service : Shop → Result Shop)
      → Fits e s service
      → Moves e s (answered (service s) s).1
  answered-Moves e service fits = elim (Result-cases (service s)) [
    | inl (s', done) ↦ rw done (fits s' done)
    | inr (x, failed) ↦ elim (Bool-cases (is_value_error x)) [
      | inl caught ↦ simp (failed, caught) (unmoved e)
      | inr thrown ↦ simp (failed, thrown) (unmoved e)
    ]
  ]

  module _ (r : ReturnRequest) (found : return_at r.id s ≡ some r) where
    pub approve_return-Moves : (now staff : ℕ) → Fits approving s (approve_return now r staff)
    unfolding approve_return
    approve_return-Moves now staff s' h =
        elim (Bool-cases (same_return_status r.status requested)) [
          | inl new ↦
              updated-Moves approving s s' r (as_approved now staff) keys found (λ q. refl)
                (ground arith) (ground arith) (ground (arith, ==_refl r.user))
          | inr old ↦ absurd (ground arith)
        ]

    pub reject_return-Moves : (now staff : ℕ) → Fits rejecting s (reject_return now r staff)
    unfolding reject_return
    reject_return-Moves now staff s' h = elim (Bool-cases (same_return_status r.status requested)) [
      | inl new ↦
          updated-Moves rejecting s s' r (as_rejected now staff) keys found (λ q. refl)
            (ground arith) (ground arith) (ground (arith, ==_refl r.user))
      | inr old ↦ absurd (ground arith)
    ]

    pub cancel_return-Moves :
        (user : ℕ) → (r.user == user) ≡ true → Fits (cancelling user) s (cancel_return_request r)
    unfolding cancel_return_request
    cancel_return-Moves user mine s' h = elim (Bool-cases (is_cancellable r.status)) [
      | inl new ↦
          updated-Moves (cancelling user) s s' r as_cancelled keys found (λ q. refl) (ground arith)
            (ground arith) (ground (arith, ==_refl r.user))
      | inr old ↦ absurd (ground arith)
    ]

    pub received-Moves :
        (now : ℕ) (decisions : ℕ → Bool) (by : Option ℕ)
        → Fits receiving s (mark_return_received now r decisions by)
    unfolding mark_return_received
    received-Moves now decisions by s' h =
        elim (Bool-cases (same_return_status r.status approved)) [
          | inr other ↦ absurd (ground arith)
          | inl due ↦ elim (Result-cases (receive_lines r.id by decisions r.lines s)) [
            | inr (e, failed) ↦ absurd (ground arith)
            | inl ((lines, s1), done) ↦
                let (rows, next_same) =
                  receive_lines-same r.id by decisions r.lines lines s s1 done in
                let left : update_return r.id (as_received now lines) s1 ≡ s' = ground arith in
                updated-Moves receiving s s' r (as_received now lines) keys found (λ q. refl)
                  (sym (ap (λ (x : Shop). x.returns) left)
                    ∙ ap (map (change r.id (as_received now lines))) rows)
                  (sym (ap (λ (x : Shop). x.next_id) left) ∙ next_same)
                  (ground (arith, ==_refl r.user))
          ]
        ]

    pub tracked-Moves :
        (now : ℕ) (carrier : Carrier) (number url : String)
        → Fits tracking s (update_return_shipment_tracking now r carrier number url)
    unfolding update_return_shipment_tracking
    tracked-Moves now carrier number url s' h = elim (Option-cases r.return_shipment) [
      | inl none_yet ↦ absurd (ground arith)
      | inr (p, attached) ↦ elim (Bool-cases (is_over p.status)) [
        | inl over ↦ absurd (ground arith)
        | inr underway ↦
            let left : update_return r.id (with_parcel (as_tracked now carrier number url p)) s
                ≡ s' =
              ground arith in
            updated-Moves tracking s s' r (with_parcel (as_tracked now carrier number url p)) keys
              found (λ q. refl) (sym (ap (λ (x : Shop). x.returns) left))
              (sym (ap (λ (x : Shop). x.next_id) left))
              (return_may_refl tracking (standing_of (some r)))
      ]
    ]

  pub on_return-Moves :
      (e : DeskEvent) (o : Option ReturnRequest) (post : ReturnRequest → Action DeskAnswer)
      → ((r : ReturnRequest) → o ≡ some r → Moves e s (post r s).1)
      → Moves e s (on_return o post s).1
  on_return-Moves e none post fits = unmoved e
  on_return-Moves e (some r) post fits = fits r refl

  pub on_ticked-Moves :
      (e : DeskEvent) (o : Option ReturnRequest) (post : ReturnRequest → Action DeskAnswer)
      → ((r : ReturnRequest) → o ≡ some r → Moves e s (post r s).1)
      → Moves e s (on_ticked o post s).1
  on_ticked-Moves e none post fits = unmoved e
  on_ticked-Moves e (some r) post fits = fits r refl

  pub at_found : (id : ℕ) (r : ReturnRequest) → return_at id s ≡ some r → return_at r.id s ≡ some r
  at_found id r h = (Falls-found (λ (q : ReturnRequest). q.id == id) s.next_id s.returns r keys h).1

  pub own_found :
      (user id : ℕ) (r : ReturnRequest)
      → own_return user id s ≡ some r
      → (return_at r.id s ≡ some r) × ((r.user == user) ≡ true)
  own_found user id r h = elim (Option-cases (return_at id s)) [
    | inl gone ↦ absurd (ground arith)
    | inr (q, at) ↦ (at_found id r (ground arith), ground arith)
  ]

  pub ticked_found :
      (ids : List ℕ) (r : ReturnRequest) → ticked ids s ≡ some r → return_at r.id s ≡ some r
  ticked_found ids r h =
      let p : ReturnRequest → Bool = λ q. any_of (λ id. id == q.id) ids in
      (Falls-found p s.next_id s.returns r keys (only_one-first p s.returns r h)).1
