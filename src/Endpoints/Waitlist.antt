-- ===== src/Endpoints/Waitlist.antt =====
-- The views of backend/kairos/waitlist/views.py that write, with the policy of joining of
-- backend/kairos/waitlist/serializers.py.
use kairos_booking_engine.Base.{ℕ, not, none, List, find?, leb, ◌==◌}
use kairos_booking_engine.Errors.{Error, Result, ok}
use kairos_booking_engine.Schema.{
  AppUser, AuditActorType, Booking, Json, Resource, WaitlistEntry, WaitlistOffer,
}
use kairos_booking_engine.Store.{Tables, Env, M, ◌>>=◌, ◌>>◌, pure, raise, gets, when}
use kairos_booking_engine.Authorization.{UserGroupMembership, Directory}
use kairos_booking_engine.Waitlist.Eligibility.{slot_is_free}
use kairos_booking_engine.Waitlist.Entries.{join_waitlist, cancel_waitlist_entry}
use kairos_booking_engine.Waitlist.Offers.{accept_offer, decline_offer}
use kairos_booking_engine.Idempotency.{IdempotentWriteResult, run_idempotent_write}
use kairos_booking_engine.Series.Table.{of_result}
use kairos_booking_engine.Policy.{refuse_if, and_then, visible_resource, resource_of}
use kairos_booking_engine.Endpoints.{
  Request, require_idempotency_key, write_request, directory_of, or_not_found,
}

-- `WaitlistJoinSerializer.validate`, with the resource, start and end of the body
unfoldable pub validate_join : Directory → AppUser → Tables → ℕ → ℕ → ℕ → Result Resource
validate_join d user t resource start end =
    and_then (visible_resource d user (resource_of d resource)) (λ r.
      refuse_if (leb end start) (Error.policy_validation "end" "must be after start") (
        refuse_if (slot_is_free r.id (record { lower = start; upper = end }) t)
          Error.slot_already_available (ok r)))

-- `WaitlistEntryCollectionView.post`; the answer is rendered from the entry and the tables
unfoldable pub join_waitlist_view :
    List UserGroupMembership
    → Env
    → Env
    → Request
    → ℕ
    → ℕ
    → ℕ
    → (WaitlistEntry → Tables → Json)
    → M IdempotentWriteResult
join_waitlist_view ms claim_env e r resource start end render = do
  key ← of_result (require_idempotency_key r.header)
  valid ← gets (λ t. validate_join (directory_of ms t) r.user t resource start end)
  found ← of_result valid
  run_idempotent_write claim_env (write_request r key AuditActorType.user none) (
      join_waitlist e (record {
        resource = found.id;
        user = r.user.id;
        start = start;
        end = end;
        request_id = r.request_id;
      })
      >>= λ w. gets (render w) >>= λ body. pure (201, body))

-- `WaitlistEntryCancelView.post`
unfoldable pub cancel_waitlist_entry_view :
    Env → Env → Request → ℕ → (WaitlistEntry → Tables → Json) → M IdempotentWriteResult
cancel_waitlist_entry_view claim_env e r pk render = do
  key ← of_result (require_idempotency_key r.header)
  rows ← gets (λ t. t.entries)
  entry ← or_not_found (find? (λ w. w.id == pk) rows)
  when (not (entry.user == r.user.id)) (raise Error.not_found)
  run_idempotent_write claim_env (write_request r key AuditActorType.user none) (
      cancel_waitlist_entry e (record {
        entry = entry;
        actor = r.user.id;
        request_id = r.request_id;
        actor_type = AuditActorType.user;
      })
      >>= λ x. gets (render x.entry) >>= λ body. pure (200, body))

-- `_get_offer_for_owner`: the entry of an offer exists, by its foreign key
unfoldable pub get_offer_for_owner : ℕ → AppUser → M WaitlistOffer
get_offer_for_owner pk user = do
  offers ← gets (λ t. t.offers)
  offer ← or_not_found (find? (λ o. o.id == pk) offers)
  entries ← gets (λ t. t.entries)
  entry ← or_not_found (find? (λ w. w.id == offer.waitlist_entry) entries)
  when (not (entry.user == user.id)) (raise Error.not_found)
  pure offer

-- `WaitlistOfferConfirmView.post`
unfoldable pub confirm_offer_view :
    Env → Env → Request → ℕ → (Booking → WaitlistOffer → Json) → M IdempotentWriteResult
confirm_offer_view claim_env e r pk render = do
  key ← of_result (require_idempotency_key r.header)
  offer ← get_offer_for_owner pk r.user
  run_idempotent_write claim_env (write_request r key AuditActorType.user none) (
      accept_offer e (record { offer = offer; user = r.user.id; request_id = r.request_id })
      >>= λ b. pure (201, render b offer))

-- `WaitlistOfferDeclineView.post`
unfoldable pub decline_offer_view :
    Env → Env → Request → ℕ → (WaitlistOffer → Json) → M IdempotentWriteResult
decline_offer_view claim_env e r pk render = do
  key ← of_result (require_idempotency_key r.header)
  offer ← get_offer_for_owner pk r.user
  run_idempotent_write claim_env (write_request r key AuditActorType.user none) (
      decline_offer e (record {
        offer = offer;
        user = r.user.id;
        request_id = r.request_id;
        actor_type = AuditActorType.user;
      })
      >>= λ o. pure (200, render o))
