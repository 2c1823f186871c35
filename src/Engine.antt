-- ===== src/Engine.antt =====
-- The system as its users and its workers drive it: any sequence of the writes of the services of
-- backend/kairos/bookings, waitlist and identity, of their jobs, and of the requests to the views
-- of bookings and waitlist, each with whatever the world decides about it.
pub mod Occupancy
pub mod Reconciliation
use kairos_booking_engine.Base.{ℕ, String, List, ◌≡◌, Option}
use kairos_booking_engine.Range.{Range}
use kairos_booking_engine.Store.{State, Env}
use kairos_booking_engine.Store.Consistent.{IsConsistent}
use kairos_booking_engine.Bookings.{
  BookingCreateRequest, BookingEditRequest, BookingCancelRequest, BookingTransferRequest,
  RecurringSeriesCancelRequest, create_booking, edit_booking, cancel_booking,
  transfer_booking_ownership, cancel_recurring_series,
}
use kairos_booking_engine.Bookings.Invariant.{
  Consistent-create_booking, Consistent-edit_booking, Consistent-cancel_booking,
  Consistent-transfer_booking_ownership, Consistent-cancel_recurring_series,
}
use kairos_booking_engine.Schema.{Booking, Json, Resource, ResourceAdmin}
use kairos_booking_engine.Store.Keeps.{Keeps-bind, Keeps-pure}
use kairos_booking_engine.Idempotency.{WriteRequest}
use kairos_booking_engine.Idempotency.Create.{perform_create, post_booking}
use kairos_booking_engine.Bookings.{RecurringSeriesCancelResult}
use kairos_booking_engine.Authorization.{UserGroupMembership}
use kairos_booking_engine.Series.Token.{Jwt}
use kairos_booking_engine.Series.Confirm.{ConfirmOutcome}
use kairos_booking_engine.Endpoints.{
  Request, post_booking_view, patch_booking_view, cancel_booking_view, cancel_series_view,
  confirm_series_view,
}
use kairos_booking_engine.Schema.{WaitlistEntry, WaitlistOffer}
use kairos_booking_engine.Store.{Tables}
use kairos_booking_engine.Endpoints.Waitlist.{
  join_waitlist_view, cancel_waitlist_entry_view, confirm_offer_view, decline_offer_view,
}
use kairos_booking_engine.Endpoints.Invariant.{
  Consistent-join_waitlist_view, Consistent-cancel_waitlist_entry_view,
  Consistent-confirm_offer_view, Consistent-decline_offer_view, Consistent-post_booking_view,
  Consistent-patch_booking_view, Consistent-cancel_booking_view, Consistent-cancel_series_view,
  Consistent-confirm_series_view,
}
use kairos_booking_engine.Idempotency.Invariant.{Consistent-run_idempotent_write}
use kairos_booking_engine.Waitlist.Entries.{
  WaitlistJoinRequest, WaitlistCancelRequest, join_waitlist, cancel_waitlist_entry,
}
use kairos_booking_engine.Waitlist.Offers.{
  AcceptOfferRequest, DeclineOfferRequest, accept_offer, decline_offer,
}
use kairos_booking_engine.Waitlist.Cascade.{Envs, create_offer_for_freed_range}
use kairos_booking_engine.Waitlist.Cascade.Invariant.{Consistent-create_offer_for_freed_range}
use kairos_booking_engine.Waitlist.Reaper.{reap_expired_holds}
use kairos_booking_engine.Waitlist.Reaper.Invariant.{Consistent-reap_expired_holds}
use kairos_booking_engine.Recurrence.{Tzdata}
use kairos_booking_engine.Authorization.{Directory}
use kairos_booking_engine.Offboarding.Rows.{DeactivateUserRequest}
use kairos_booking_engine.Offboarding.Cascade.{deactivate_user}
use kairos_booking_engine.Offboarding.Invariant.{Consistent-deactivate_user}
use kairos_booking_engine.Series.Token.{DecodedPreview}
use kairos_booking_engine.Series.Confirm.{confirm_recurring_series}
use kairos_booking_engine.Series.Rolling.{rolling_materialize_series}
use kairos_booking_engine.Series.Rematerialization.{rematerialize_stale_series}
use kairos_booking_engine.Series.Invariant.{Consistent-confirm_recurring_series}
use kairos_booking_engine.Series.Jobs.{
  Consistent-rolling_materialize_series, Consistent-rematerialize_stale_series,
}
use kairos_booking_engine.Waitlist.Invariant.{
  Consistent-join_waitlist, Consistent-cancel_waitlist_entry, Consistent-accept_offer,
  Consistent-decline_offer,
}

-- One call. Its answer, an exception included, goes to the caller; the state is what it left.
pub data Step (s : State) : State → Type 0 where
  creates : (e : Env) (req : BookingCreateRequest) → Step s (create_booking e req s).1
  edits : (e : Env) (req : BookingEditRequest) → Step s (edit_booking e req s).1
  cancels : (e : Env) (req : BookingCancelRequest) → Step s (cancel_booking e req s).1
  transfers :
      (e : Env) (req : BookingTransferRequest) → Step s (transfer_booking_ownership e req s).1
  cancels_series :
      (e : Env) (req : RecurringSeriesCancelRequest) → Step s (cancel_recurring_series e req s).1
  joins : (e : Env) (req : WaitlistJoinRequest) → Step s (join_waitlist e req s).1
  leaves : (e : Env) (req : WaitlistCancelRequest) → Step s (cancel_waitlist_entry e req s).1
  accepts : (e : Env) (req : AcceptOfferRequest) → Step s (accept_offer e req s).1
  declines : (e : Env) (req : DeclineOfferRequest) → Step s (decline_offer e req s).1
  cascades :
      (envs : Envs) (resource : ℕ) (freed : Range) (request_id : String)
      → Step s (create_offer_for_freed_range envs resource freed request_id s).1
  posts :
      (claim_env e : Env) (wreq : WriteRequest) (req : BookingCreateRequest)
      (render : Booking → Json)
      → Step s (post_booking claim_env e wreq req render s).1
  reaps :
      (envs : ℕ → Envs) (now : ℕ) (request_id : String)
      → Step s (reap_expired_holds envs now request_id s).1
  confirms_series :
      (tz : Tzdata) (resources : List Resource) (envs : Envs) (user : ℕ) (decoded : DecodedPreview)
      (request_id : String)
      → Step s (confirm_recurring_series tz resources envs user decoded request_id s).1
  rolls_series :
      (tz : Tzdata) (envs : ℕ → Envs) (now : ℕ) (request_id : String)
      → Step s (rolling_materialize_series tz envs now request_id s).1
  rematerializes_series :
      (tz : Tzdata) (grants : List ResourceAdmin) (envs : ℕ → Envs) (now : ℕ) (request_id : String)
      → Step s (rematerialize_stale_series tz grants envs now request_id s).1
  deactivates :
      (d : Directory) (envs : ℕ → Envs) (req : DeactivateUserRequest)
      → Step s (deactivate_user d envs req s).1
  requests_booking :
      (tz : Tzdata) (ms : List UserGroupMembership) (now : ℕ) (claim_env e : Env) (r : Request)
      (resource start end : ℕ) (render : Booking → Json)
      → Step s (post_booking_view tz ms now claim_env e r resource start end render s).1
  requests_edit :
      (tz : Tzdata) (now : ℕ) (claim_env e : Env) (r : Request) (pk start end : ℕ)
      (render : Booking → Json)
      → Step s (patch_booking_view tz now claim_env e r pk start end render s).1
  requests_cancellation :
      (ms : List UserGroupMembership) (claim_env e : Env) (r : Request) (pk : ℕ)
      (reason : Option String) (render : Booking → Json)
      → Step s (cancel_booking_view ms claim_env e r pk reason render s).1
  requests_series_cancellation :
      (ms : List UserGroupMembership) (claim_env e : Env) (r : Request) (pk : ℕ)
      (reason : Option String) (render : RecurringSeriesCancelResult → Json)
      → Step s (cancel_series_view ms claim_env e r pk reason render s).1
  requests_confirmation :
      (j : Jwt String) (tz : Tzdata) (now : ℕ) (claim_env after : Env) (envs : Envs) (r : Request)
      (token : String) (conflicts adjustments : List ℕ) (render : ConfirmOutcome → Json)
      → Step s
          (confirm_series_view j tz now claim_env after envs r token conflicts adjustments render
            s).1
  requests_entry :
      (ms : List UserGroupMembership) (claim_env e : Env) (r : Request) (resource start end : ℕ)
      (render : WaitlistEntry → Tables → Json)
      → Step s (join_waitlist_view ms claim_env e r resource start end render s).1
  requests_withdrawal :
      (claim_env e : Env) (r : Request) (pk : ℕ) (render : WaitlistEntry → Tables → Json)
      → Step s (cancel_waitlist_entry_view claim_env e r pk render s).1
  requests_acceptance :
      (claim_env e : Env) (r : Request) (pk : ℕ) (render : Booking → WaitlistOffer → Json)
      → Step s (confirm_offer_view claim_env e r pk render s).1
  requests_decline :
      (claim_env e : Env) (r : Request) (pk : ℕ) (render : WaitlistOffer → Json)
      → Step s (decline_offer_view claim_env e r pk render s).1

pub data Reach (s : State) : State → Type 0 where
  here : Reach s s
  next : {t u : State} → Reach s t → Step t u → Reach s u

Step-IsConsistent : {s t : State} → Step s t → IsConsistent s.tables → IsConsistent t.tables
Step-IsConsistent {s} (creates e req) h = (Consistent-create_booking e req).at s h
Step-IsConsistent {s} (edits e req) h = (Consistent-edit_booking e req).at s h
Step-IsConsistent {s} (cancels e req) h = (Consistent-cancel_booking e req).at s h
Step-IsConsistent {s} (transfers e req) h = (Consistent-transfer_booking_ownership e req).at s h
Step-IsConsistent {s} (cancels_series e req) h = (Consistent-cancel_recurring_series e req).at s h
Step-IsConsistent {s} (joins e req) h = (Consistent-join_waitlist e req).at s h
Step-IsConsistent {s} (leaves e req) h = (Consistent-cancel_waitlist_entry e req).at s h
Step-IsConsistent {s} (accepts e req) h = (Consistent-accept_offer e req).at s h
Step-IsConsistent {s} (declines e req) h = (Consistent-decline_offer e req).at s h
Step-IsConsistent {s} (cascades envs resource freed request_id) h =
    (Consistent-create_offer_for_freed_range envs resource freed request_id).at s h
Step-IsConsistent {s} (posts claim_env e wreq req render) h =
    (Consistent-run_idempotent_write claim_env wreq (perform_create e req render)
        (Keeps-bind _ _ (Consistent-create_booking e req) (λ b. Keeps-pure (201, render b)))).at
      s h
Step-IsConsistent {s} (reaps envs now request_id) h =
    (Consistent-reap_expired_holds envs now request_id).at s h
Step-IsConsistent {s} (confirms_series tz resources envs user decoded request_id) h =
    (Consistent-confirm_recurring_series tz resources envs user decoded request_id).at s h
Step-IsConsistent {s} (rolls_series tz envs now request_id) h =
    (Consistent-rolling_materialize_series tz envs now request_id).at s h
Step-IsConsistent {s} (rematerializes_series tz grants envs now request_id) h =
    (Consistent-rematerialize_stale_series grants tz envs now request_id).at s h
Step-IsConsistent {s} (deactivates d envs req) h = (Consistent-deactivate_user d req envs).at s h
Step-IsConsistent {s} (requests_booking tz ms now claim_env e r resource start end render) h =
    (Consistent-post_booking_view tz ms now claim_env e r resource start end render).at s h
Step-IsConsistent {s} (requests_edit tz now claim_env e r pk start end render) h =
    (Consistent-patch_booking_view tz now claim_env e r pk start end render).at s h
Step-IsConsistent {s} (requests_entry ms claim_env e r resource start end render) h =
    (Consistent-join_waitlist_view ms claim_env e r resource start end render).at s h
Step-IsConsistent {s} (requests_withdrawal claim_env e r pk render) h =
    (Consistent-cancel_waitlist_entry_view claim_env e r pk render).at s h
Step-IsConsistent {s} (requests_acceptance claim_env e r pk render) h =
    (Consistent-confirm_offer_view claim_env e r pk render).at s h
Step-IsConsistent {s} (requests_decline claim_env e r pk render) h =
    (Consistent-decline_offer_view claim_env e r pk render).at s h
Step-IsConsistent {s} (requests_cancellation ms claim_env e r pk reason render) h =
    (Consistent-cancel_booking_view ms claim_env e r pk reason render).at s h
Step-IsConsistent {s} (requests_series_cancellation ms claim_env e r pk reason render) h =
    (Consistent-cancel_series_view ms claim_env e r pk reason render).at s h
Step-IsConsistent {s}
      (requests_confirmation j tz now claim_env after envs r token conflicts adjustments render) h =
    (Consistent-confirm_series_view j tz now claim_env after envs r token conflicts adjustments
        render).at
      s h

-- Every sequence of the writes keeps the constraints of the schema: no overlap of confirmed or
-- held bookings, a range and an expiry as each row needs, distinct booking identifiers, one
-- live entry for a user, resource and range, and one offer for a hold and one active offer for
-- an entry.
pub Reach-IsConsistent : {s t : State} → IsConsistent s.tables → Reach s t → IsConsistent t.tables
Reach-IsConsistent h here = h
Reach-IsConsistent h (next r st) = Step-IsConsistent st (Reach-IsConsistent h r)
