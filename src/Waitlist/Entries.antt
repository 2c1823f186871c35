-- ===== src/Waitlist/Entries.antt =====
-- `join_waitlist` and `cancel_waitlist_entry` of backend/kairos/waitlist/services.py.
pub mod Withdraw
use kairos_booking_engine.Base.{
  ℕ, String, ◌<◌, ◌≡◌, refl, Bool, true, false, not, ◌&&◌, ◌||◌, Option, none, some, List, [], ◌∷◌,
  arith, ltb, ◌==◌, ==_refl, if◌then◌else◌, any,
}
use kairos_booking_engine.Errors.{
  Sqlstate, Cause, Error, ok, err, is_unique_violation, is_retryable, is_failover,
}
use kairos_booking_engine.Schema.{WaitlistEntry, WaitlistEntryStatus, AuditActorType, is_waiting}
use kairos_booking_engine.Store.{
  State, Env, M, ◌>>=◌, ◌>>◌, pure, raise, serve, catch_database_error, atomic,
  apply_write_path_session_settings, actor_unless_system,
}
use kairos_booking_engine.Store.Waitlist.{same_slot, insert_entry, update_entries, get_entry}
use kairos_booking_engine.Bookings.{failover_retry_after_seconds}

pub record WaitlistJoinRequest : Type 0 where
  pub resource : ℕ
  pub user : ℕ
  pub start : ℕ
  pub end : ℕ
  pub request_id : String

-- The exception that the handler of `join_waitlist` raises for an SQLSTATE.
unfoldable pub join_error : Option Sqlstate → Error
join_error sqlstate =
    if is_unique_violation sqlstate
    then Error.already_on_waitlist
    else if is_retryable sqlstate
    then Error.service_unavailable 1 Cause.lock_contention
    else if is_failover sqlstate
    then Error.service_unavailable failover_retry_after_seconds Cause.failover
    else Error.database_error sqlstate

abbrev pub new_entry : Env → WaitlistJoinRequest → WaitlistEntry
new_entry e req = record {
  id = e.uuid;
  resource = req.resource;
  user = req.user;
  time_range = record { lower = req.start; upper = req.end };
  status = WaitlistEntryStatus.waiting;
  joined_at = e.transaction_time;
}

join_waitlist_body : Env → WaitlistJoinRequest → M WaitlistEntry
join_waitlist_body e req = do
  apply_write_path_session_settings (some req.user) AuditActorType.user req.request_id none
  serve e
  insert_entry (new_entry e req)
  get_entry e.uuid

unfoldable pub join_waitlist : Env → WaitlistJoinRequest → M WaitlistEntry
unfolding join_waitlist_body
join_waitlist e req =
    catch_database_error (atomic (join_waitlist_body e req)) (λ st. raise (join_error st))

pub record WaitlistCancelRequest : Type 0 where
  pub entry : WaitlistEntry
  pub actor : ℕ
  pub request_id : String
  pub actor_type : AuditActorType

pub record WaitlistCancelResult : Type 0 where
  pub entry : WaitlistEntry
  pub already_cancelled : Bool

abbrev pub entry_id : ℕ → WaitlistEntry → Bool
entry_id id e = e.id == id

abbrev pub is_waiting_row : ℕ → WaitlistEntry → Bool
is_waiting_row id e = e.id == id && is_waiting e.status

abbrev pub with_entry_status : WaitlistEntryStatus → WaitlistEntry → WaitlistEntry
with_entry_status st e = record e { status = st }

cancel_waitlist_entry_body : Env → WaitlistCancelRequest → M WaitlistCancelResult
cancel_waitlist_entry_body e req = do
  apply_write_path_session_settings (actor_unless_system req.actor req.actor_type) req.actor_type
      req.request_id none
  serve e
  updated ←
      update_entries (is_waiting_row req.entry.id) (with_entry_status WaitlistEntryStatus.cancelled)
  entry ← get_entry req.entry.id
  pure (record { entry = entry; already_cancelled = not (ltb 0 updated) })

unfoldable pub cancel_waitlist_entry : Env → WaitlistCancelRequest → M WaitlistCancelResult
unfolding cancel_waitlist_entry_body
cancel_waitlist_entry e req = atomic (cancel_waitlist_entry_body e req)

-- The user already has a live entry for the same resource and range.
abbrev pub already_waiting : Env → WaitlistJoinRequest → List WaitlistEntry → Bool
already_waiting e req rows = any (same_slot (new_entry e req)) rows

slot_taken :
    (n : WaitlistEntry) (rows : List WaitlistEntry)
    → any (entry_id n.id) rows ≡ false
    → any (λ r. r.id == n.id || same_slot n r) rows ≡ any (same_slot n) rows
slot_taken n [] h = refl
slot_taken n (x ∷ rows) h = ground (arith, slot_taken n rows)

-- Inside a transaction, with a range that is not empty, a new identifier and no server failure,
-- joining answers `already_on_waitlist` exactly where the user has a waiting or offered entry
-- for the same resource and range, and the new entry otherwise.
pub join_waitlist_answer :
    (e : Env) (req : WaitlistJoinRequest) (s : State)
    → s.in_atomic ≡ true
    → e.fault ≡ none
    → req.start < req.end
    → any (entry_id e.uuid) s.entries ≡ false
    → (join_waitlist e req s).0 ≡ (
        if already_waiting e req s.entries
        then err Error.already_on_waitlist
        else ok (new_entry e req))
unfolding join_waitlist atomic insert_entry get_entry join_error
join_waitlist_answer e req s nested quiet proper fresh =
    ground (arith, ==_refl e.uuid, slot_taken (new_entry e req) s.entries fresh)
