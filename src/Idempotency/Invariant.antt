-- ===== src/Idempotency/Invariant.antt =====
-- A write under a key (backend/kairos/core/idempotency.py) leaves the constraints of the schema
-- true where the write itself does.
use kairos_booking_engine.Base.{ℕ, false, Option, none, some, arith}
use kairos_booking_engine.Errors.{Sqlstate, Error, Result, ok, err, Conflict, recordable_conflict}
use kairos_booking_engine.Schema.{IdempotencyKey, Json}
use kairos_booking_engine.Bookings.{or_empty}
use kairos_booking_engine.Store.{State, Env, M}
use kairos_booking_engine.Store.Keys.{insert_key, update_keys, get_key}
use kairos_booking_engine.Store.Keeps.{
  Keeps, Keeps-bind, Keeps-pure, Keeps-raise, Keeps-serve, Keeps-settings, Keeps-atomic,
}
use kairos_booking_engine.Store.Consistent.{IsConsistent, consistent_rules}
use kairos_booking_engine.Idempotency.{
  IdempotentWriteResult, WriteRequest, claimed_key, replay_or_conflict,
  replay_or_conflict_allowing_in_progress, record_conflict_outcome, claim, record_outcome,
  confirm_claimed, run_idempotent_recurring_confirm, complete_key, database_failure,
  record_and_raise, other_failure, answer_failure, run_idempotent_write_body, run_idempotent_write,
}

Consistent-insert_key : (k : IdempotencyKey) → Keeps IsConsistent (insert_key k)
unfolding insert_key
Consistent-insert_key k = record { at = λ s h. ground arith }

Consistent-update_keys :
    (user key : ℕ) (f : IdempotencyKey → IdempotencyKey)
    → Keeps IsConsistent (update_keys user key f)
unfolding update_keys
Consistent-update_keys user key f = record { at = λ s h. ground arith }

Consistent-replay_or_conflict : (req : WriteRequest) → Keeps IsConsistent (replay_or_conflict req)
unfolding replay_or_conflict get_key
Consistent-replay_or_conflict req = record { at = λ s h. ground arith }

Consistent-record_conflict_outcome :
    (e : Env) (req : WriteRequest) (c : Conflict)
    → Keeps IsConsistent (record_conflict_outcome e req c)
unfolding record_conflict_outcome
Consistent-record_conflict_outcome e req c =
    search (consistent_rules, Consistent-insert_key) depth 8

Consistent-record_and_raise :
    (e : Env) (req : WriteRequest) (error : Error) (c : Option Conflict)
    → Keeps IsConsistent (record_and_raise e req error c)
unfolding record_and_raise
Consistent-record_and_raise e req error none = search consistent_rules
Consistent-record_and_raise e req error (some c) =
    Keeps-bind _ _ (Consistent-record_conflict_outcome e req c) λ _. Keeps-raise error

Consistent-other_failure :
    (e : Env) (req : WriteRequest) (error : Error) → Keeps IsConsistent (other_failure e req error)
unfolding other_failure
Consistent-other_failure e req error =
    Consistent-record_and_raise e req error (recordable_conflict error)

Consistent-database_failure :
    (req : WriteRequest) (st : Option Sqlstate)
    → Keeps IsConsistent (database_failure replay_or_conflict req st)
unfolding database_failure
Consistent-database_failure req st =
    search (consistent_rules, Consistent-replay_or_conflict) depth 8

Consistent-answer_failure :
    (e : Env) (req : WriteRequest) (p : Result IdempotentWriteResult × State)
    → IsConsistent p.1.tables
    → IsConsistent (answer_failure e req p).1.tables
unfolding answer_failure
Consistent-answer_failure e req (ok r, s) h = h
Consistent-answer_failure e req (err (Error.database_error st), s) h =
    (Consistent-database_failure req st).at s h
Consistent-answer_failure e req (err error, s) h =
    let other = (Consistent-other_failure e req error).at s h in ground arith

Consistent-body :
    (e : Env) (req : WriteRequest) (perform_write : M (ℕ × Json))
    → Keeps IsConsistent perform_write
    → Keeps IsConsistent (run_idempotent_write_body e req perform_write)
unfolding run_idempotent_write_body
Consistent-body e req perform_write h =
    Keeps-bind _ _
      (Keeps-settings (some req.user) req.actor_type (or_empty req.request_id) req.reason)
      λ _. Keeps-bind _ _ (Keeps-serve e) λ _.
        Keeps-bind _ _ (Consistent-insert_key (claimed_key e req)) λ _. Keeps-bind _ _ h λ response.
          Keeps-bind _ _
            (Consistent-update_keys req.user req.key (complete_key e response.0 response.1))
            λ _. Keeps-pure (record {
              response_status = response.0;
              response_body = response.1;
              is_replay = false;
            })

pub Consistent-run_idempotent_write :
    (e : Env) (req : WriteRequest) (perform_write : M (ℕ × Json))
    → Keeps IsConsistent perform_write
    → Keeps IsConsistent (run_idempotent_write e req perform_write)
unfolding run_idempotent_write
Consistent-run_idempotent_write e req perform_write h = record {
  at = λ s c.
      Consistent-answer_failure e req _
        ((Keeps-atomic _ (Consistent-body e req perform_write h)).at s c);
}

Consistent-replay_allowing_in_progress :
    (req : WriteRequest) → Keeps IsConsistent (replay_or_conflict_allowing_in_progress req)
unfolding replay_or_conflict_allowing_in_progress get_key
Consistent-replay_allowing_in_progress req = record { at = λ s h. ground arith }

Consistent-claim : (e : Env) (req : WriteRequest) → Keeps IsConsistent (claim e req)
unfolding claim
Consistent-claim e req = search (consistent_rules, Consistent-insert_key) depth 8

Consistent-record_outcome :
    (e : Env) (req : WriteRequest) (response : ℕ × Json)
    → Keeps IsConsistent (record_outcome e req response)
unfolding record_outcome
Consistent-record_outcome e req response = search (consistent_rules, Consistent-update_keys) depth 8

Consistent-confirm_claimed :
    (e : Env) (req : WriteRequest) (perform_confirm : M (ℕ × Json))
    → Keeps IsConsistent perform_confirm
    → (p : Result (Unit {0}) × State) → IsConsistent p.1.tables
    → IsConsistent (confirm_claimed e req perform_confirm p).1.tables
unfolding confirm_claimed database_failure
Consistent-confirm_claimed e req perform_confirm k (ok u, s) h =
    (Keeps-bind perform_confirm _ k (λ response.
        Keeps-bind _ _ (Consistent-record_outcome e req response) (λ n. Keeps-pure (record {
          response_status = response.0;
          response_body = response.1;
          is_replay = false;
        })))).at
      s h
Consistent-confirm_claimed e req perform_confirm k (err (Error.database_error st), s) h =
    let failed : Keeps IsConsistent
        (database_failure replay_or_conflict_allowing_in_progress req st) =
      search (consistent_rules, Consistent-replay_allowing_in_progress) depth 8 in
    failed.at s h
Consistent-confirm_claimed e req perform_confirm k (err error, s) h = ground arith

pub Consistent-run_idempotent_recurring_confirm :
    (e after : Env) (req : WriteRequest) (perform_confirm : M (ℕ × Json))
    → Keeps IsConsistent perform_confirm
    → Keeps IsConsistent (run_idempotent_recurring_confirm e after req perform_confirm)
unfolding run_idempotent_recurring_confirm
Consistent-run_idempotent_recurring_confirm e after req perform_confirm k = record {
  at = λ s h.
      Consistent-confirm_claimed after req perform_confirm k (claim e req s)
        ((Consistent-claim e req).at s h);
}
