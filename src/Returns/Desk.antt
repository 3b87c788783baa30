-- ===== src/Returns/Desk.antt =====
-- What buyers and staff post about a return: the pages of returns/views.py that cancel a request and track its
-- parcel, and the admin of returns/admin.py. Free text is left out, but for whether there is a note; a carrier is one of its choices.
pub mod Course
pub mod Posts
pub mod Runs
pub mod Received
use Prim.Native.String.{String}
use shop_orbit.Base.{
  ℕ, Bool, Option, none, some, List, [], ◌∷◌, Result, ok, err, Error, select, any_of, not, ◌==◌,
  if◌then◌else◌,
}
use shop_orbit.Fulfillment.Models.{Carrier}
use shop_orbit.Returns.Models.{ReturnRequest, same_return_status, approved}
use shop_orbit.Returns.Services.{
  return_at, approve_return, reject_return, mark_return_received, cancel_return_request,
  update_return_shipment_tracking,
}
use shop_orbit.Shop.{Shop}
use shop_orbit.Shop.Action.{Action}
use shop_orbit.Staff.Bulk.{is_value_error}

-- What a post comes to
pub data DeskAnswer : Type 0 where
  not_found not_one wants_note not_approved done : DeskAnswer
  refused : Error → DeskAnswer

-- `try: ... except ValueError as exc: ... else: ...` around a transaction
abbrev pub answered : Result Shop → Action DeskAnswer
answered (ok s') s = (ok done, s')
answered (err e) s = if is_value_error e then (ok (refused e), s) else (err e, s)

-- `get_object_or_404(ReturnRequest, pk=pk, user=request.user)`
abbrev pub own_return : ℕ → ℕ → Shop → Option ReturnRequest
own_return user id s = elim (return_at id s) [
  | none ↦ none
  | some r ↦ if r.user == user then some r else none
]

-- The post of a page on the request that was found
abbrev pub on_return :
    Option ReturnRequest → (ReturnRequest → Action DeskAnswer) → Action DeskAnswer
on_return none post s = (ok not_found, s)
on_return (some r) post s = post r s

-- `cancel_return_request` of returns/views.py
unfoldable pub cancel_return_view : (user id : ℕ) → Action DeskAnswer
cancel_return_view user id s =
    on_return (own_return user id s) (λ r s. answered (cancel_return_request r s) s) s

-- `update_return_shipment` of returns/views.py
unfoldable pub update_return_shipment_view :
    (now user id : ℕ) → Carrier → (number url : String) → Action DeskAnswer
update_return_shipment_view now user id carrier number url s =
    on_return (own_return user id s)
      (λ r s. answered (update_return_shipment_tracking now r carrier number url s) s) s

-- The rows that are ticked, if they are just one
abbrev pub only_one : List ReturnRequest → Option ReturnRequest
only_one [] = none
only_one (r ∷ []) = some r
only_one (r ∷ q ∷ rest) = none

abbrev pub ticked : List ℕ → Shop → Option ReturnRequest
ticked ids s = only_one (select (λ (r : ReturnRequest). any_of (λ id. id == r.id) ids) s.returns)

abbrev pub on_ticked :
    Option ReturnRequest → (ReturnRequest → Action DeskAnswer) → Action DeskAnswer
on_ticked none post s = (ok not_one, s)
on_ticked (some r) post s = post r s

-- `ReturnRequestAdmin.approve_action`
unfoldable pub approve_action : (now staff : ℕ) → List ℕ → Action DeskAnswer
approve_action now staff ids s =
    on_ticked (ticked ids s) (λ r s. answered (approve_return now r staff s) s) s

-- `ReturnRequestAdmin.reject_action`; `noted` says whether a request has a note of the staff
unfoldable pub reject_action : (ReturnRequest → Bool) → (now staff : ℕ) → List ℕ → Action DeskAnswer
reject_action noted now staff ids s =
    on_ticked (ticked ids s)
      (λ r s.
        if not (noted r) then (ok wants_note, s) else answered (reject_return now r staff s) s)
      s

-- `ReturnRequestAdmin.receive_view` on a POST, with the boxes that are ticked
unfoldable pub receive_return_view : (now staff id : ℕ) → (ℕ → Bool) → Action DeskAnswer
receive_return_view now staff id decisions s =
    on_return (return_at id s)
      (λ r s.
        if not (same_return_status r.status approved)
        then (ok not_approved, s)
        else answered (mark_return_received now r decisions (some staff) s) s)
      s
