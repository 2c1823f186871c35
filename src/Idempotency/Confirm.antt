-- ===== src/Idempotency/Confirm.antt =====
-- `run_idempotent_recurring_confirm` of backend/kairos/core/idempotency.py: its outcome, and a call
-- whose key is claimed and not completed.
use kairos_booking_engine.Base.{
  ℕ, ◌≡◌, true, false, none, some, [], ◌∷◌, ◌++◌, arith, ==_refl, any, all, find?,
}
use kairos_booking_engine.Errors.{Error, ok, err}
use kairos_booking_engine.Schema.{IdempotencyKey, Json}
use kairos_booking_engine.Store.{State, Env, M, atomic, no_session, references_hold}
use kairos_booking_engine.Store.Keys.{
  is_in_progress, is_key, completed_has_response, insert_key, update_keys, get_key,
}
use kairos_booking_engine.Idempotency.{
  WriteRequest, claimed_key, complete_key, replay_or_conflict_allowing_in_progress, claim,
  record_outcome, run_idempotent_recurring_confirm,
}
use kairos_booking_engine.Idempotency.Replay.{key_found}

-- The state that the claim commits, before the first occurrence is booked.
abbrev pub claim_committed : Env → WriteRequest → State → State
claim_committed e req s = record {
  tables = record s.tables { keys = claimed_key e req ∷ s.keys };
  session = no_session;
  in_atomic = false;
  on_commit_queue = [];
  sent = s.sent ++ s.on_commit_queue;
}

module _ (e after : Env) (req : WriteRequest) (perform_confirm : M (ℕ × Json)) (s : State) where
  -- With no server failure, a call with a key that is claimed and not completed raises `request_in_progress` whatever its fingerprint, confirms nothing and
  -- changes nothing.
  pub run_idempotent_recurring_confirm_in_progress :
      (k : IdempotencyKey)
      → e.fault ≡ none
      → any (is_key req.user req.key) s.keys ≡ true
      → find? (is_key req.user req.key) s.keys ≡ some k
      → is_in_progress k.status ≡ true
      → run_idempotent_recurring_confirm e after req perform_confirm s
        ≡ (err Error.request_in_progress, s)
  unfolding run_idempotent_recurring_confirm claim atomic insert_key get_key
      replay_or_conflict_allowing_in_progress
  run_idempotent_recurring_confirm_in_progress k quiet before found open_key = ground arith

  -- Outside a transaction and with no server failure, the confirmation of a series under a new
  -- key, which succeeds outside a transaction and leaves the keys alone, on keys that meet
  -- their constraint and with each offer having its hold before and after, gives its response,
  -- and the key ends completed with it beside what the confirmation wrote.
  pub run_idempotent_recurring_confirm_first :
      (status : ℕ) (body : Json) (u : State)
      → s.in_atomic ≡ false
      → e.fault ≡ none
      → after.fault ≡ none
      → any (is_key req.user req.key) s.keys ≡ false
      → all completed_has_response s.keys ≡ true
      → references_hold s.tables ≡ true
      → perform_confirm (claim_committed e req s) ≡ (ok (status, body), u)
      → u.in_atomic ≡ false
      → u.keys ≡ claimed_key e req ∷ s.keys
      → references_hold u.tables ≡ true
      → (run_idempotent_recurring_confirm e after req perform_confirm s).0
          ≡ ok (record { response_status = status; response_body = body; is_replay = false })
        × ((run_idempotent_recurring_confirm e after req perform_confirm s).1.tables
            ≡ record u.tables {
              keys = complete_key after status body (claimed_key e req) ∷ s.keys;
            })
  unfolding run_idempotent_recurring_confirm claim record_outcome atomic insert_key update_keys
  run_idempotent_recurring_confirm_first status body u outer quiet quiet' fresh checked held done
        outer' kept held' =
      let found =
        key_found req.user req.key (complete_key after status body) (claimed_key e req) s.keys
          (ground (arith, ==_refl req.user, ==_refl req.key)) fresh in
      (ground arith, ground arith)
