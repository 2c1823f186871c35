-- ===== src/Idempotency.antt =====
-- `run_idempotent_write` and `run_idempotent_recurring_confirm` of
-- backend/kairos/core/idempotency.py. The write that a key protects is an argument, as in the
-- code, and so is the fingerprint of the request's body.
pub mod Replay
pub mod Twice
pub mod Invariant
pub mod Confirm
pub mod Create
use kairos_booking_engine.Base.{
  ℕ, String, Bool, true, false, Option, none, some, ◌==◌, if◌then◌else◌,
}
use kairos_booking_engine.Errors.{
  Sqlstate, Error, Result, ok, err, Conflict, recordable_conflict, is_unique_violation,
  is_retryable,
}
use kairos_booking_engine.Schema.{IdempotencyKey, IdempotencyKeyStatus, Json, AuditActorType}
use kairos_booking_engine.Store.{
  State, Env, M, ◌>>=◌, ◌>>◌, pure, raise, serve, catch_database_error, atomic,
  apply_write_path_session_settings,
}
use kairos_booking_engine.Bookings.{or_empty}
use kairos_booking_engine.Store.Keys.{is_in_progress, insert_key, update_keys, get_key}

pub record IdempotentWriteResult : Type 0 where
  pub response_status : ℕ
  pub response_body : Json
  pub is_replay : Bool

-- The keyword arguments of one call, with the fingerprint of `body`.
pub record WriteRequest : Type 0 where
  pub user : ℕ
  pub key : ℕ
  pub endpoint : String
  pub fingerprint : ℕ
  pub request_id : Option String
  pub actor_type : AuditActorType
  pub reason : Option String

abbrev pub claimed_key : Env → WriteRequest → IdempotencyKey
claimed_key e req = record {
  user = req.user;
  key = req.key;
  endpoint = req.endpoint;
  request_body_hash = req.fingerprint;
  status = IdempotencyKeyStatus.in_progress;
  response_status = none;
  response_body = none;
  created_at = e.now;
  completed_at = none;
}

abbrev pub complete_key : Env → ℕ → Json → IdempotencyKey → IdempotencyKey
complete_key e status body k = record k {
  status = IdempotencyKeyStatus.completed;
  response_status = some status;
  response_body = some body;
  completed_at = some e.now;
}

-- assert existing.response_status is not None; assert existing.response_body is not None
abbrev pub stored_response : Option ℕ → Option Json → M IdempotentWriteResult
stored_response (some status) (some body) =
    pure (record { response_status = status; response_body = body; is_replay = true })
stored_response _ _ = raise Error.assertion_error

abbrev pub compare_fingerprint : ℕ → IdempotencyKey → M IdempotentWriteResult
compare_fingerprint fingerprint existing =
    if existing.request_body_hash == fingerprint
    then stored_response existing.response_status existing.response_body
    else raise Error.idempotency_key_conflict

-- `_replay_or_conflict`
unfoldable pub replay_or_conflict : WriteRequest → M IdempotentWriteResult
replay_or_conflict req = do
  existing ← get_key req.user req.key
  compare_fingerprint req.fingerprint existing

-- `_replay_or_conflict_allowing_in_progress`
unfoldable pub replay_or_conflict_allowing_in_progress : WriteRequest → M IdempotentWriteResult
replay_or_conflict_allowing_in_progress req = do
  existing ← get_key req.user req.key
  if is_in_progress existing.status
      then raise Error.request_in_progress
      else compare_fingerprint req.fingerprint existing

abbrev pub conflict_key : Env → WriteRequest → Conflict → IdempotencyKey
conflict_key e req c = record {
  user = req.user;
  key = req.key;
  endpoint = req.endpoint;
  request_body_hash = req.fingerprint;
  status = IdempotencyKeyStatus.completed;
  response_status = some c.http_status;
  response_body = some (Json.error_envelope c.code c.message req.request_id);
  created_at = e.now;
  completed_at = some e.now;
}

-- `_record_conflict_outcome`
unfoldable pub record_conflict_outcome : Env → WriteRequest → Conflict → M (Unit {0})
record_conflict_outcome e req c = atomic (insert_key (conflict_key e req c))

-- The two `except` clauses of `run_idempotent_write`.
database_failure :
    (WriteRequest → M IdempotentWriteResult)
    → WriteRequest
    → Option Sqlstate
    → M IdempotentWriteResult
database_failure replay req sqlstate =
    if is_unique_violation sqlstate
    then replay req
    else if is_retryable sqlstate
    then raise Error.request_in_progress
    else raise (Error.database_error sqlstate)

record_and_raise : Env → WriteRequest → Error → Option Conflict → M IdempotentWriteResult
record_and_raise e req error none = raise error
record_and_raise e req error (some c) = record_conflict_outcome e req c >>= λ _. raise error

other_failure : Env → WriteRequest → Error → M IdempotentWriteResult
unfolding record_and_raise
other_failure e req error = record_and_raise e req error (recordable_conflict error)

answer_failure :
    Env → WriteRequest → Result IdempotentWriteResult × State → Result IdempotentWriteResult × State
unfolding database_failure other_failure
answer_failure e req (ok r, s) = (ok r, s)
answer_failure e req (err (Error.database_error st), s) =
    database_failure replay_or_conflict req st s
answer_failure e req (err error, s) = other_failure e req error s

unfoldable pub run_idempotent_write_body :
    Env → WriteRequest → M (ℕ × Json) → M IdempotentWriteResult
run_idempotent_write_body e req perform_write = do
  apply_write_path_session_settings (some req.user) req.actor_type (or_empty req.request_id)
      req.reason
  serve e
  insert_key (claimed_key e req)
  response ← perform_write
  _ ← update_keys req.user req.key (complete_key e response.0 response.1)
  pure (record { response_status = response.0; response_body = response.1; is_replay = false })

unfoldable pub run_idempotent_write : Env → WriteRequest → M (ℕ × Json) → M IdempotentWriteResult
unfolding answer_failure
run_idempotent_write e req perform_write s =
    answer_failure e req (atomic (run_idempotent_write_body e req perform_write) s)

unfoldable pub claim : Env → WriteRequest → M (Unit {0})
claim e req = atomic (do
  apply_write_path_session_settings (some req.user) req.actor_type (or_empty req.request_id) none
  serve e
  insert_key (claimed_key e req))

unfoldable pub record_outcome : Env → WriteRequest → ℕ × Json → M ℕ
record_outcome e req response = atomic (do
  apply_write_path_session_settings (some req.user) req.actor_type (or_empty req.request_id) none
  serve e
  update_keys req.user req.key (complete_key e response.0 response.1))

confirm_claimed :
    Env
    → WriteRequest
    → M (ℕ × Json)
    → Result (Unit {0}) × State
    → Result IdempotentWriteResult × State
unfolding database_failure
confirm_claimed e req perform_confirm (ok _, s) =
    (do
      response ← perform_confirm
      _ ← record_outcome e req response
      pure (record { response_status = response.0; response_body = response.1; is_replay = false }))
      s
confirm_claimed e req perform_confirm (err (Error.database_error st), s) =
    database_failure replay_or_conflict_allowing_in_progress req st s
confirm_claimed e req perform_confirm (err error, s) = (err error, s)

-- The key is claimed in a transaction of its own, the series confirmed in others, and the outcome
-- recorded in a last one.
unfoldable pub run_idempotent_recurring_confirm :
    Env → Env → WriteRequest → M (ℕ × Json) → M IdempotentWriteResult
unfolding confirm_claimed
run_idempotent_recurring_confirm e after req perform_confirm s =
    confirm_claimed after req perform_confirm (claim e req s)
