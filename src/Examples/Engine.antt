-- ===== src/Examples/Engine.antt =====
-- The theorems about every run of the writes of backend/kairos at a run of three calls.
use kairos_booking_engine.Base.{none, some, ◌≤◌, true, false, ◌≡◌, refl, [], ◌∷◌, ◌↔◌}
use kairos_booking_engine.Errors.{ok}
use kairos_booking_engine.Schema.{Booking, BookingStatus, Json, AuditActorType}
use kairos_booking_engine.Store.{State}
use kairos_booking_engine.Store.Bookings.{no_overlapping_bookings}
use kairos_booking_engine.Bookings.{create_booking}
use kairos_booking_engine.Idempotency.{WriteRequest}
use kairos_booking_engine.Idempotency.Create.{post_booking}
use kairos_booking_engine.Engine.{creates, posts, reaps, Reach, here, next}
use kairos_booking_engine.Engine.Occupancy.{occupancy, Reach-occupancy}
use kairos_booking_engine.Engine.Reconciliation.{
  find_overlapping_active_bookings, check_reconciliation, find_overlapping_active_bookings_iff,
  Reach-check_reconciliation,
}
use kairos_booking_engine.Waitlist.Reaper.{reap_expired_holds}
use kairos_booking_engine.Examples.Data.{
  calm, row, state, confirmed_row, offered, offered-IsConsistent, create_request,
}

abbrev keyed : WriteRequest
keyed = record {
  user = 4;
  key = 77;
  endpoint = "POST /api/v1/bookings";
  fingerprint = 5;
  request_id = some "r";
  actor_type = AuditActorType.user;
  reason = none;
}

abbrev rendered : Booking → Json
rendered b = Json.content "booking"

-- A booking that is refused, one that is made under a key, and a sweep of the reaper.
abbrev last_state : State
last_state =
    (reap_expired_holds (λ m n. calm 70 100) 70 "r"
      (post_booking (calm 19 0) (calm 20 14) keyed (create_request 200 250) rendered
        (create_booking (calm 10 13) (create_request 150 250) (state false offered)).1).1).1

three_calls : Reach (state false offered) last_state
three_calls =
    next
      (next (next here (creates (calm 10 13) (create_request 150 250)))
        (posts (calm 19 0) (calm 20 14) keyed (create_request 200 250) rendered))
      (reaps (λ m n. calm 70 100) 70 "r")

Reach-occupancy_example : occupancy 7 350 last_state.bookings ≤ 1
Reach-occupancy_example =
    Reach-occupancy {s = state false offered} {u = last_state} 7 350 offered-IsConsistent
      three_calls

Reach-check_reconciliation_example : (check_reconciliation 80 last_state).0 ≡ ok []
Reach-check_reconciliation_example =
    Reach-check_reconciliation {s = state false offered} {u = last_state} 80 offered-IsConsistent
      three_calls

find_overlapping_active_bookings_iff_example :
    (find_overlapping_active_bookings
        (confirmed_row ∷ row 15 4 150 250 BookingStatus.confirmed none ∷ [])
      ≡ [])
    ↔ (no_overlapping_bookings (confirmed_row ∷ row 15 4 150 250 BookingStatus.confirmed none ∷ [])
        ≡ true)
find_overlapping_active_bookings_iff_example =
    find_overlapping_active_bookings_iff
      (confirmed_row ∷ row 15 4 150 250 BookingStatus.confirmed none ∷ []) refl
