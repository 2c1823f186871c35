-- ===== src/Series/Crash.antt =====
-- `confirm_recurring_series` of backend/kairos/bookings/recurring_series.py under its idempotency key
-- (`run_idempotent_recurring_confirm` of backend/kairos/core/idempotency.py), where it breaks off.
use kairos_booking_engine.Base.{
  ℕ, suc, ◌≡◌, refl, String, true, false, none, some, List, [], ◌∷◌, arith, ==_refl, any, find?,
  ◌∙◌, sym, subst,
}
use kairos_booking_engine.Errors.{Error, Result, ok, err}
use kairos_booking_engine.Schema.{IdempotencyKey, Json, RecurringSeries, Resource, WaitlistOffer}
use kairos_booking_engine.Recurrence.{Tzdata, Occurrence}
use kairos_booking_engine.Store.{State, Env, M, resume, ◌>>=◌, pure, atomic, references_hold}
use kairos_booking_engine.Store.Keys.{is_key, insert_key}
use kairos_booking_engine.Store.Keeps.{Keeps, keeps_rules, Keeps-bind, Keeps-pure, Keeps-if}
use kairos_booking_engine.Waitlist.Cascade.{Envs}
use kairos_booking_engine.Idempotency.{
  IdempotentWriteResult, WriteRequest, claimed_key, claim, record_outcome,
  run_idempotent_recurring_confirm,
}
use kairos_booking_engine.Idempotency.Confirm.{
  claim_committed, run_idempotent_recurring_confirm_in_progress,
}
use kairos_booking_engine.Idempotency.Create.{Kept, Kept-create_booking}
use kairos_booking_engine.Series.Table.{insert_series, save_series}
use kairos_booking_engine.Series.Token.{DecodedPreview}
use kairos_booking_engine.Series.Invariant.{Keeps-of_result, Keeps-or_missing, Keeps-try_create}
use kairos_booking_engine.Series.Confirm.{
  ConfirmOutcome, attempt_occurrences, confirm_occurrences, confirm_recurring_series,
}

-- perform_confirm
abbrev pub perform_series :
    Tzdata
    → List Resource
    → Envs
    → ℕ
    → DecodedPreview
    → String
    → (ConfirmOutcome → Json)
    → M (ℕ × Json)
perform_series tz resources envs user decoded request_id render =
    confirm_recurring_series tz resources envs user decoded request_id >>= λ o. pure (207, render o)

module _ (ks : List IdempotencyKey) (os : List WaitlistOffer) where
  Kept-insert_series : (r : RecurringSeries) → Keeps (Kept ks os) (insert_series r)
  unfolding insert_series
  Kept-insert_series r = record { at = λ s h. (ground arith, ground arith) }

  Kept-attempt_occurrences :
      (envs : Envs) (resource user series : ℕ) (request_id : String) (known : List ℕ)
      (occurrences : List Occurrence)
      → Keeps
          (Kept ks os)
          (attempt_occurrences envs resource user series request_id known occurrences)
  unfolding attempt_occurrences
  Kept-attempt_occurrences envs resource user series request_id known [] = Keeps-pure _
  Kept-attempt_occurrences envs resource user series request_id known (o ∷ later) =
      let rest =
        Kept-attempt_occurrences (λ n. envs (suc n)) resource user series request_id known later in
      Keeps-if _ _ _ (Keeps-bind _ _ rest (λ r. Keeps-pure _)) (
        Keeps-try_create _ _ _ (Kept-create_booking ks os _ _)
          (λ b. Keeps-bind _ _ rest (λ r. Keeps-pure _)) (Keeps-bind _ _ rest (λ r. Keeps-pure _)))

  Kept-perform_series :
      (tz : Tzdata) (resources : List Resource) (envs : Envs) (user : ℕ) (decoded : DecodedPreview)
      (request_id : String) (render : ConfirmOutcome → Json)
      → Keeps (Kept ks os) (perform_series tz resources envs user decoded request_id render)
  unfolding confirm_recurring_series confirm_occurrences save_series
  Kept-perform_series tz resources envs user decoded request_id render =
      search
        (
          keeps_rules, Keeps-of_result, Keeps-or_missing, Kept-insert_series,
          Kept-attempt_occurrences,
        )
        depth 14

-- A block that raises leaves the state as it was.
atomic_raised :
    {A : Type 0} (m : M A) (s : State) (error : Error)
    → (atomic m s).0 ≡ err error
    → (atomic m s).1 ≡ s
unfolding atomic
atomic_raised m s error h = ground arith

record_raised :
    (after : Env) (req : WriteRequest) (response : ℕ × Json) (s : State) (error : Error)
    → (record_outcome after req response s).0 ≡ err error
    → (record_outcome after req response s).1 ≡ s
unfolding record_outcome
record_raised after req response s error h = atomic_raised _ s error h

-- The end of a run, after what the confirmation gave: where it raises, the confirmation has raised
-- or its outcome could not be recorded.
ended : Env → WriteRequest → Result (ℕ × Json) × State → Result IdempotentWriteResult × State
ended after req = resume (λ response. record_outcome after req response >>= λ _.
    pure (record { response_status = response.0; response_body = response.1; is_replay = false }))

ended_keys :
    (after : Env) (req : WriteRequest) (r : Result (ℕ × Json)) (u : State) (error : Error)
    → (ended after req (r, u)).0 ≡ err error
    → (ended after req (r, u)).1.keys ≡ u.keys
unfolding ended
ended_keys after req (err x) u error h = refl
ended_keys after req (ok response) u error h =
    ground (arith, record_raised after req response u error)

run_ended :
    (e after : Env) (req : WriteRequest) (perform_confirm : M (ℕ × Json)) (s : State)
    → s.in_atomic ≡ false
    → e.fault ≡ none
    → any (is_key req.user req.key) s.keys ≡ false
    → references_hold s.tables ≡ true
    → run_idempotent_recurring_confirm e after req perform_confirm s
      ≡ ended after req (perform_confirm (claim_committed e req s))
unfolding run_idempotent_recurring_confirm claim atomic insert_key ended
run_ended e after req perform_confirm s outer quiet fresh held = ground arith

-- Outside a transaction and with no server failure at the claim of a key that is new, each
-- offer having its hold, where the confirmation of a series under that key raises, at whichever
-- occurrence or at the record of its outcome, and whatever the world decides, the claim of the
-- key stays committed beside the keys from before; another call with the same user and key and
-- no server failure, whatever its fingerprint and whatever it would confirm, raises
-- `request_in_progress` and changes nothing.
pub confirm_recurring_series_crash :
    (tz : Tzdata) (resources : List Resource) (envs : Envs) (decoded : DecodedPreview)
    (request_id : String) (render : ConfirmOutcome → Json) (e after later later_after : Env)
    (req again : WriteRequest) (retried : M (ℕ × Json)) (s : State) (error : Error)
    → s.in_atomic ≡ false
    → e.fault ≡ none
    → later.fault ≡ none
    → again.user ≡ req.user
    → again.key ≡ req.key
    → any (is_key req.user req.key) s.keys ≡ false
    → references_hold s.tables ≡ true
    → let confirm = perform_series tz resources envs req.user decoded request_id render in
      let run = run_idempotent_recurring_confirm e after req confirm s in
      run.0 ≡ err error
      → (run.1.keys ≡ claimed_key e req ∷ s.keys)
        × (run_idempotent_recurring_confirm later later_after again retried run.1
            ≡ (err Error.request_in_progress, run.1))
confirm_recurring_series_crash tz resources envs decoded request_id render e after later later_after
      req again retried s error outer quiet calm user key fresh held crashed =
    let confirm = perform_series tz resources envs req.user decoded request_id render in
    let run = run_idempotent_recurring_confirm e after req confirm s in
    let c = claim_committed e req s in
    let same = run_ended e after req confirm s outer quiet fresh held in
    let kept =
      (Kept-perform_series c.keys s.offers tz resources envs req.user decoded request_id render).at
        c (refl, refl) in
    let keys : run.1.keys ≡ claimed_key e req ∷ s.keys =
      subst
        (λ (x : Result IdempotentWriteResult × State).
          x.0 ≡ err error → x.1.keys ≡ claimed_key e req ∷ s.keys)
        (sym same) (λ h. ended_keys after req (confirm c).0 (confirm c).1 error h ∙ kept.0)
        crashed in
    let found : find? (is_key again.user again.key) run.1.keys ≡ some (claimed_key e req) =
      rw (keys, user, key) (ground (arith, ==_refl req.user, ==_refl req.key)) in
    let before : any (is_key again.user again.key) run.1.keys ≡ true =
      rw (keys, user, key) (ground (arith, ==_refl req.user, ==_refl req.key)) in
    (
      keys,
      run_idempotent_recurring_confirm_in_progress later later_after again retried run.1
          (claimed_key e req) calm before found refl,
    )
