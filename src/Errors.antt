-- ===== src/Errors.antt =====
-- The SQLSTATEs that the services tell apart, the domain exceptions of
-- backend/kairos/core/exceptions.py, and the result of code that may raise.
use kairos_booking_engine.Base.{ℕ, String, Bool, true, false, Option, none, some}

-- Five-character codes of the server; `other_state` is any that the code does not name.
pub data Sqlstate : Type 0 where
  exclusion_violation : Sqlstate
  unique_violation : Sqlstate
  foreign_key_violation : Sqlstate
  check_violation : Sqlstate
  data_exception : Sqlstate
  lock_timeout : Sqlstate
  deadlock_detected : Sqlstate
  query_canceled : Sqlstate
  admin_shutdown : Sqlstate
  crash_shutdown : Sqlstate
  cannot_connect_now : Sqlstate
  other_state : String → Sqlstate

pub data Cause : Type 0 where
  lock_contention failover : Cause

pub data Error : Type 0 where
  -- a `DatabaseError` with the server's SQLSTATE, or with none when no server answered
  database_error : Option Sqlstate → Error
  slot_unavailable : Error
  service_unavailable : ℕ → Cause → Error
  not_found : Error
  policy_validation : String → String → Error
  request_in_progress : Error
  idempotency_key_conflict : Error
  preview_expired : Error
  unacknowledged_conflicts : Error
  already_on_waitlist : Error
  slot_already_available : Error
  offer_expired : Error
  already_resource_admin : Error
  offer_already_resolved : Error
  -- `Model.DoesNotExist`, from an unguarded `.get(id=...)`
  does_not_exist : Error
  -- what the mail server or the way to it raised
  delivery_failure : String → Error
  -- a failed `assert`
  assertion_error : Error

pub data Result (A : Type 0) : Type 0 where
  ok : A → Result A
  err : Error → Result A

-- `code`, `message` and `http_status` of a `RecordableConflictError`.
pub record Conflict : Type 0 where
  pub code : String
  pub message : String
  pub http_status : ℕ

-- The four subclasses of `RecordableConflictError`; any other exception is none.
unfoldable pub recordable_conflict : Error → Option Conflict
recordable_conflict slot_unavailable = some (record {
  code = "slot_unavailable";
  message = "This time slot is no longer available.";
  http_status = 409;
})
recordable_conflict already_on_waitlist = some (record {
  code = "already_on_waitlist";
  message = "You already have a live waitlist entry for this resource and time range.";
  http_status = 409;
})
recordable_conflict offer_expired = some (record {
  code = "offer_expired";
  message = "This offer has expired or is no longer valid.";
  http_status = 409;
})
recordable_conflict offer_already_resolved = some (record {
  code = "offer_already_resolved";
  message = "This offer has already been confirmed or declined.";
  http_status = 409;
})
recordable_conflict _ = none

abbrev pub is_exclusion_violation : Option Sqlstate → Bool
is_exclusion_violation (some exclusion_violation) = true
is_exclusion_violation _ = false

abbrev pub is_unique_violation : Option Sqlstate → Bool
is_unique_violation (some unique_violation) = true
is_unique_violation _ = false

-- RETRYABLE_SQLSTATES, also KEY_CLAIM_CONTENDED_SQLSTATES.
abbrev pub is_retryable : Option Sqlstate → Bool
is_retryable (some lock_timeout) = true
is_retryable (some deadlock_detected) = true
is_retryable (some query_canceled) = true
is_retryable _ = false

-- `sqlstate in FAILOVER_SQLSTATES or sqlstate is None`
abbrev pub is_failover : Option Sqlstate → Bool
is_failover none = true
is_failover (some admin_shutdown) = true
is_failover (some crash_shutdown) = true
is_failover (some cannot_connect_now) = true
is_failover _ = false

abbrev pub is_database_error : Error → Bool
is_database_error (database_error _) = true
is_database_error _ = false
