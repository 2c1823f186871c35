-- ===== src/Examples/Idempotency.antt =====
-- The theorems about backend/kairos/core/idempotency.py at concrete requests.
use kairos_booking_engine.Base.{
  ℕ, ◌+◌, ◌==◌, if◌then◌else◌, Bool, true, false, ◌≡◌, refl, none, some, [], ◌∷◌,
}
use kairos_booking_engine.Errors.{Cause, Error, ok, err, recordable_conflict}
use kairos_booking_engine.Schema.{Booking, Json, AuditActorType}
use kairos_booking_engine.Store.{M, pure, raise, atomic}
use kairos_booking_engine.Idempotency.{
  claimed_key, IdempotentWriteResult, WriteRequest, run_idempotent_write,
  run_idempotent_recurring_confirm, claim,
}
use kairos_booking_engine.Idempotency.Twice.{
  run_idempotent_write_twice, run_idempotent_write_conflict_twice,
}
use kairos_booking_engine.Store.Bookings.{insert_booking, delete_bookings, get_booking}
use kairos_booking_engine.Store.Keys.{insert_key}
use kairos_booking_engine.Bookings.{
  create_booking, handle_write_database_error, write_database_error,
}
use kairos_booking_engine.Recurrence.{
  expand_occurrences, occurrences_from, materialize_occurrence, validate_iana_zone,
}
use kairos_booking_engine.Series.Table.{save_series, insert_series}
use kairos_booking_engine.Series.Confirm.{
  ConfirmOutcome, confirm_recurring_series, confirm_occurrences, attempt_occurrences,
}
use kairos_booking_engine.Series.Crash.{perform_series, confirm_recurring_series_crash}
use kairos_booking_engine.Waitlist.Cascade.{Envs}
use kairos_booking_engine.Examples.Authorization.{resource_row}
use kairos_booking_engine.Examples.Series.{tz, decoded}
use kairos_booking_engine.Examples.Data.{calm, state, booked}

abbrev keyed : ℕ → WriteRequest
keyed fingerprint = record {
  user = 4;
  key = 77;
  endpoint = "POST /api/v1/bookings";
  fingerprint = fingerprint;
  request_id = some "r";
  actor_type = AuditActorType.user;
  reason = none;
}

abbrev rendered : Booking → Json
rendered b = Json.content "booking"

abbrev created : M (ℕ × Json)
created = pure (201, Json.content "created")

abbrev answer : Json → Bool → IdempotentWriteResult
answer body is_replay = record {
  response_status = 201;
  response_body = body;
  is_replay = is_replay;
}

run_idempotent_write_twice_example :
    run_idempotent_write
      (calm 20 0)
      (keyed 6)
      created
      (run_idempotent_write (calm 9 0) (keyed 5) created (state false booked)).1
    ≡ (
      err Error.idempotency_key_conflict,
      (run_idempotent_write (calm 9 0) (keyed 5) created (state false booked)).1,
    )
run_idempotent_write_twice_example =
    run_idempotent_write_twice (calm 9 0) (calm 20 0) (keyed 5) (keyed 6) created created
      (state false booked) 201 (Json.content "created") _ refl refl refl refl refl refl refl refl
      refl refl

abbrev refused : M (ℕ × Json)
refused = raise Error.slot_unavailable

run_idempotent_write_conflict_twice_example :
    run_idempotent_write
      (calm 20 0)
      (keyed 5)
      created
      (run_idempotent_write (calm 9 0) (keyed 5) refused (state false booked)).1
    ≡ (
      ok (record {
        response_status = 409;
        response_body =
            Json.error_envelope "slot_unavailable" "This time slot is no longer available."
              (some "r");
        is_replay = true;
      }),
      (run_idempotent_write (calm 9 0) (keyed 5) refused (state false booked)).1,
    )
unfolding recordable_conflict
run_idempotent_write_conflict_twice_example =
    run_idempotent_write_conflict_twice (calm 9 0) (calm 20 0) (keyed 5) (keyed 5) refused created
      (state false booked) Error.slot_unavailable
      (record {
        code = "slot_unavailable";
        message = "This time slot is no longer available.";
        http_status = 409;
      })
      _ refl refl refl refl refl refl refl refl refl

-- The first occurrence meets a booking; the connection is lost at the attempt for the second.
abbrev breaking : Envs
breaking n = record {
  now = 10;
  transaction_time = 10;
  uuid = 100 + n;
  fault = if n == 2 then some none else none;
}

abbrev described : ConfirmOutcome → Json
described o = Json.content "series"

abbrev perform_confirm : M (ℕ × Json)
perform_confirm = perform_series tz (resource_row 7 none ∷ []) breaking 4 decoded "r" described

crashed :
    (run_idempotent_recurring_confirm
      (calm 9 0)
      (calm 19 0)
      (keyed 5)
      perform_confirm
      (state false booked)).0
    ≡ err (Error.service_unavailable 5 Cause.failover)
unfolding run_idempotent_recurring_confirm claim confirm_recurring_series expand_occurrences
    occurrences_from attempt_occurrences confirm_occurrences save_series validate_iana_zone
    insert_series create_booking atomic delete_bookings insert_booking materialize_occurrence
    handle_write_database_error write_database_error get_booking insert_key
crashed = refl

confirm_recurring_series_crash_example :
    let run =
      run_idempotent_recurring_confirm
        (calm 9 0)
        (calm 19 0)
        (keyed 5)
        perform_confirm
        (state false booked) in
    (run.1.keys ≡ claimed_key (calm 9 0) (keyed 5) ∷ [])
    × (run_idempotent_recurring_confirm (calm 30 0) (calm 39 0) (keyed 6) created run.1
        ≡ (err Error.request_in_progress, run.1))
confirm_recurring_series_crash_example =
    confirm_recurring_series_crash tz (resource_row 7 none ∷ []) breaking decoded "r" described
      (calm 9 0) (calm 19 0) (calm 30 0) (calm 39 0) (keyed 5) (keyed 6) created
      (state false booked) (Error.service_unavailable 5 Cause.failover) refl refl refl refl refl
      refl refl crashed
