-- ===== src/Idempotency/Twice.antt =====
-- Two calls of `run_idempotent_write` (backend/kairos/core/idempotency.py) with one key.
use kairos_booking_engine.Base.{
  ℕ, ◌≡◌, refl, true, false, none, some, ◌∷◌, arith, ◌==◌, ==_refl, if◌then◌else◌, any, all,
}
use kairos_booking_engine.Errors.{Error, ok, err, Conflict, recordable_conflict}
use kairos_booking_engine.Schema.{Json}
use kairos_booking_engine.Store.{State, Env, M, references_hold}
use kairos_booking_engine.Store.Keys.{is_key, completed_has_response}
use kairos_booking_engine.Idempotency.{
  WriteRequest, claimed_key, complete_key, conflict_key, run_idempotent_write,
}
use kairos_booking_engine.Idempotency.Replay.{
  claimed, completed, conflict_recorded, run_idempotent_write_first, run_idempotent_write_replay,
  run_idempotent_write_conflict,
}

-- A second call with the same key, whatever it would write itself.
module _ (e later : Env) (req again : WriteRequest) (perform_write other_write : M (ℕ × Json))
    (s : State) where
  -- Outside a transaction and with no server failure, after a write under a new key that
  -- succeeded, left the keys alone and left each offer its hold, on keys that meet their
  -- constraint, a second call with the same user and key runs no write: with the same
  -- fingerprint it repeats the stored response, with another one it raises
  -- `idempotency_key_conflict`, and it changes nothing.
  pub run_idempotent_write_twice :
      (status : ℕ) (body : Json) (u : State)
      → s.in_atomic ≡ false
      → e.fault ≡ none
      → later.fault ≡ none
      → again.user ≡ req.user
      → again.key ≡ req.key
      → any (is_key req.user req.key) s.keys ≡ false
      → all completed_has_response s.keys ≡ true
      → perform_write (claimed e req s) ≡ (ok (status, body), u)
      → u.keys ≡ claimed_key e req ∷ s.keys
      → references_hold u.tables ≡ true
      → run_idempotent_write later again other_write (run_idempotent_write e req perform_write s).1
        ≡ (
          if req.fingerprint == again.fingerprint
              then ok (record { response_status = status; response_body = body; is_replay = true })
              else err Error.idempotency_key_conflict,
          (run_idempotent_write e req perform_write s).1,
        )
  run_idempotent_write_twice status body u outer quiet quiet' same_user same_key fresh checked wrote
        kept held =
      let first =
        run_idempotent_write_first e req perform_write s status body u outer quiet fresh checked
          wrote kept held in
      rw (first) ground (
        arith,
        ==_refl req.user,
        ==_refl req.key,
        run_idempotent_write_replay later again other_write (completed e req status body s.keys u)
            (complete_key e status body (claimed_key e req)) status body refl quiet',
      )

  -- Outside a transaction and with no server failure, after a write under a new key that raised
  -- a recordable conflict, where each offer has its hold, a second call with the same user and
  -- key runs no write: with the same fingerprint it gives the status and the envelope of that
  -- conflict, with another one `idempotency_key_conflict`, and it changes nothing.
  pub run_idempotent_write_conflict_twice :
      (error : Error) (c : Conflict) (u : State)
      → s.in_atomic ≡ false
      → e.fault ≡ none
      → later.fault ≡ none
      → again.user ≡ req.user
      → again.key ≡ req.key
      → any (is_key req.user req.key) s.keys ≡ false
      → perform_write (claimed e req s) ≡ (err error, u)
      → recordable_conflict error ≡ some c
      → references_hold s.tables ≡ true
      → run_idempotent_write later again other_write (run_idempotent_write e req perform_write s).1
        ≡ (
          if req.fingerprint == again.fingerprint
              then ok (record {
                response_status = c.http_status;
                response_body = Json.error_envelope c.code c.message req.request_id;
                is_replay = true;
              })
              else err Error.idempotency_key_conflict,
          (run_idempotent_write e req perform_write s).1,
        )
  run_idempotent_write_conflict_twice error c u outer quiet quiet' same_user same_key fresh wrote
        known held =
      let first =
        run_idempotent_write_conflict e req perform_write s error c u outer quiet fresh wrote known
          held in
      rw (first) ground (
        arith,
        ==_refl req.user,
        ==_refl req.key,
        run_idempotent_write_replay later again other_write (conflict_recorded e req c s)
            (conflict_key e req c) c.http_status
            (Json.error_envelope c.code c.message req.request_id) refl quiet',
      )
