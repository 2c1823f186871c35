-- ===== src/Idempotency/Replay.antt =====
-- What one call of `run_idempotent_write` (backend/kairos/core/idempotency.py) does, under a new key
-- and under a known one.
use kairos_booking_engine.Base.{
  ℕ, ◌≡◌, true, false, none, some, List, [], ◌∷◌, ◌++◌, arith, ◌==◌, ==_refl, if◌then◌else◌, any,
  all, find?, update_where, update_where_none, update_where,
}
use kairos_booking_engine.Errors.{
  Sqlstate, Error, ok, err, Conflict, recordable_conflict, is_retryable, is_database_error,
}
use kairos_booking_engine.Schema.{IdempotencyKey, Json}
use kairos_booking_engine.Store.{State, Env, M, atomic, no_session, references_hold}
use kairos_booking_engine.Store.Keys.{
  is_key, completed_has_response, insert_key, update_keys, get_key,
}
use kairos_booking_engine.Bookings.{or_empty}
use kairos_booking_engine.Idempotency.{
  WriteRequest, claimed_key, complete_key, conflict_key, replay_or_conflict,
  record_conflict_outcome, run_idempotent_write_body, run_idempotent_write,
}

-- The state in which the protected write starts: the key is claimed, the settings made.
abbrev pub claimed : Env → WriteRequest → State → State
claimed e req s = record s {
  tables = record s.tables { keys = claimed_key e req ∷ s.keys };
  session = record {
    actor_id = some req.user;
    actor_type = some req.actor_type;
    request_id = or_empty req.request_id;
    reason = elim req.reason [ none ↦ "" | some r ↦ r ];
  };
  in_atomic = true;
}

-- The state after the write, its outcome recorded, and the commit.
abbrev pub completed : Env → WriteRequest → ℕ → Json → List IdempotencyKey → State → State
completed e req status body keys u = record {
  tables = record u.tables { keys = complete_key e status body (claimed_key e req) ∷ keys };
  session = no_session;
  in_atomic = false;
  on_commit_queue = [];
  sent = u.sent ++ u.on_commit_queue;
}

-- The state in which a conflict is the recorded outcome, and the write is undone.
abbrev pub conflict_recorded : Env → WriteRequest → Conflict → State → State
conflict_recorded e req c s = record {
  tables = record s.tables { keys = conflict_key e req c ∷ s.keys };
  session = no_session;
  in_atomic = false;
  on_commit_queue = [];
  sent = s.sent ++ s.on_commit_queue;
}

pub key_found :
    (user key : ℕ) (f : IdempotencyKey → IdempotencyKey) (k : IdempotencyKey)
    (rows : List IdempotencyKey)
    → is_key user key k ≡ true
    → any (is_key user key) rows ≡ false
    → update_where (is_key user key) f (k ∷ rows) ≡ f k ∷ rows
key_found user key f k rows h fresh =
    ground (arith, update_where_none (is_key user key) f rows fresh)

module _ (e : Env) (req : WriteRequest) (perform_write : M (ℕ × Json)) (s : State) where
  pub run_idempotent_write_first :
      (status : ℕ) (body : Json) (u : State)
      → s.in_atomic ≡ false
      → e.fault ≡ none
      → any (is_key req.user req.key) s.keys ≡ false
      → all completed_has_response s.keys ≡ true
      → perform_write (claimed e req s) ≡ (ok (status, body), u)
      → u.keys ≡ claimed_key e req ∷ s.keys
      → references_hold u.tables ≡ true
      → run_idempotent_write e req perform_write s ≡ (
        ok (record { response_status = status; response_body = body; is_replay = false }),
        completed e req status body s.keys u,
      )
  unfolding run_idempotent_write run_idempotent_write_body atomic insert_key update_keys
  run_idempotent_write_first status body u outer quiet fresh checked wrote kept held = ground (
    arith,
    ==_refl req.user,
    ==_refl req.key,
    key_found req.user req.key (complete_key e status body) (claimed_key e req) s.keys,
  )

  pub run_idempotent_write_replay :
      (k : IdempotencyKey) (status : ℕ) (body : Json)
      → s.in_atomic ≡ false
      → e.fault ≡ none
      → any (is_key req.user req.key) s.keys ≡ true
      → find? (is_key req.user req.key) s.keys ≡ some k
      → k.response_status ≡ some status
      → k.response_body ≡ some body
      → run_idempotent_write e req perform_write s ≡ (
          if k.request_body_hash == req.fingerprint
          then (ok (record { response_status = status; response_body = body; is_replay = true }), s)
          else (err Error.idempotency_key_conflict, s))
  unfolding run_idempotent_write run_idempotent_write_body atomic insert_key get_key
      replay_or_conflict
  run_idempotent_write_replay k status body outer quiet claimed_before found has_status has_body =
      ground arith

  pub run_idempotent_write_conflict :
      (error : Error) (c : Conflict) (u : State)
      → s.in_atomic ≡ false
      → e.fault ≡ none
      → any (is_key req.user req.key) s.keys ≡ false
      → perform_write (claimed e req s) ≡ (err error, u)
      → recordable_conflict error ≡ some c
      → references_hold s.tables ≡ true
      → run_idempotent_write e req perform_write s ≡ (err error, conflict_recorded e req c s)
  unfolding run_idempotent_write run_idempotent_write_body atomic insert_key record_conflict_outcome
      recordable_conflict
  run_idempotent_write_conflict error c u outer quiet fresh wrote known held = ground arith

  -- Outside a transaction and with no server failure, a write under a new key that raises
  -- neither a recordable conflict nor a database error leaves everything as it was, the key not
  -- claimed, and the exception goes to the caller.
  pub run_idempotent_write_undecided :
      (error : Error) (u : State)
      → s.in_atomic ≡ false
      → e.fault ≡ none
      → any (is_key req.user req.key) s.keys ≡ false
      → perform_write (claimed e req s) ≡ (err error, u)
      → recordable_conflict error ≡ none
      → is_database_error error ≡ false
      → run_idempotent_write e req perform_write s ≡ (err error, s)
  unfolding run_idempotent_write run_idempotent_write_body atomic insert_key recordable_conflict
  run_idempotent_write_undecided error u outer quiet fresh wrote unknown decided = ground arith

  -- Outside a transaction, a lock timeout, a deadlock or a statement timeout on the claim of
  -- the key raises `request_in_progress` and changes nothing.
  pub run_idempotent_write_contended :
      (st : Sqlstate)
      → s.in_atomic ≡ false
      → e.fault ≡ some (some st)
      → is_retryable (some st) ≡ true
      → run_idempotent_write e req perform_write s ≡ (err Error.request_in_progress, s)
  unfolding run_idempotent_write run_idempotent_write_body atomic
  run_idempotent_write_contended st outer busy retry = ground arith
