-- ===== src/Examples/Bookings.antt =====
-- The theorems about backend/kairos/bookings/services.py at concrete bookings.
use kairos_booking_engine.Base.{ℕ, true, false, ◌≡◌, refl, none, some, [], ◌∷◌, arith, any, ◌==◌}
use kairos_booking_engine.Errors.{Sqlstate, Error, ok, err}
use kairos_booking_engine.Schema.{Booking, BookingStatus, AuditActorType}
use kairos_booking_engine.Store.{Message}
use kairos_booking_engine.Bookings.{
  BookingEditRequest, BookingCancelRequest, BookingTransferRequest, RecurringSeriesCancelRequest,
  new_booking, create_booking, edit_booking, cancel_booking, cancel_recurring_series, cancel_row,
}
use kairos_booking_engine.Bookings.Outcome.{create_booking_commit}
use kairos_booking_engine.Bookings.Reclaim.{create_booking_over_offered_hold}
use kairos_booking_engine.Bookings.Edit.{edit_booking_answer}
use kairos_booking_engine.Bookings.Cancel.{cancel_booking_confirmed}
use kairos_booking_engine.Bookings.Rebook.{create-cancel}
use kairos_booking_engine.Bookings.Series.{cancel_recurring_series_answer}
use kairos_booking_engine.Examples.Data.{
  calm, row, tables, state, confirmed_row, held_row, offer_row, booked, offered,
  booked-IsConsistent, offered-IsConsistent, create_request,
}

create_booking_commit_example :
    (create_booking (calm 10 13) (create_request 150 250) (state false offered)).0
    ≡ err Error.slot_unavailable
create_booking_commit_example =
    create_booking_commit (calm 10 13) (create_request 150 250) (state false offered)
      (record { quiet = refl; nonempty = omega arith; fresh = refl }) refl

create_booking_over_offered_hold_example :
    create_booking (calm 90 13) (create_request 350 380) (state false offered)
    ≡ (err (Error.database_error (some Sqlstate.foreign_key_violation)), state false offered)
create_booking_over_offered_hold_example =
    create_booking_over_offered_hold (calm 90 13) (create_request 350 380) (state false offered)
      held_row offer_row (record { quiet = refl; nonempty = omega arith; fresh = refl })
      offered-IsConsistent refl refl (record { held = refl; offered = refl }) refl

abbrev move : ℕ → ℕ → BookingEditRequest
move start end = record {
  booking = confirmed_row;
  start = start;
  end = end;
  request_id = "r";
  actor_type = AuditActorType.user;
}

edit_booking_answer_example :
    (edit_booking (calm 10 13) (move 150 350) (state true offered)).0 ≡ err Error.slot_unavailable
edit_booking_answer_example =
    edit_booking_answer (calm 10 13) (move 150 350) (state true offered) confirmed_row
      offered-IsConsistent refl refl (omega arith) refl

abbrev transfer : BookingTransferRequest
transfer = record { booking = confirmed_row; new_owner = 9; request_id = "r" }

abbrev override : Booking → BookingCancelRequest
override b = record {
  booking = b;
  actor = 1;
  actor_type = AuditActorType.admin;
  reason = some "flood";
  request_id = "r";
}

cancel_booking_confirmed_example :
    ((cancel_booking (calm 10 13) (override confirmed_row) (state true booked)).0
      ≡ ok (record {
        booking = cancel_row 10 1 (some "flood") confirmed_row;
        already_cancelled = false;
      }))
    × ((cancel_booking (calm 10 13) (override confirmed_row) (state true booked)).1.bookings
        ≡ cancel_row 10 1 (some "flood") confirmed_row ∷ [])
    × ((cancel_booking (calm 10 13) (override confirmed_row) (state true booked)).1.on_commit_queue
        ≡ Message.dispatch_cascade 7 100 200 "r"
          ∷ Message.notify_admin_cancellation 3 7 100 200 "flood" "r"
          ∷ [])
cancel_booking_confirmed_example =
    cancel_booking_confirmed (calm 10 13) (override confirmed_row) (state true booked) confirmed_row
      booked-IsConsistent refl refl refl refl

fresh_after_cancel :
    any
      (λ r. r.id == 13)
      (cancel_booking (calm 10 13) (override confirmed_row) (state true booked)).1.bookings
    ≡ false
fresh_after_cancel = rw (cancel_booking_confirmed_example.1) refl

create-cancel_example :
    (create_booking
      (calm 11 13)
      (create_request 120 180)
      (cancel_booking (calm 10 13) (override confirmed_row) (state true booked)).1).0
    ≡ ok (new_booking (calm 11 13) (create_request 120 180))
create-cancel_example =
    create-cancel (calm 10 13) (override confirmed_row) (state true booked) confirmed_row
      (calm 11 13) (create_request 120 180) booked-IsConsistent refl refl refl refl refl refl
      (record { quiet = refl; nonempty = omega arith; fresh = fresh_after_cancel })

abbrev end_series : RecurringSeriesCancelRequest
end_series = record {
  series = 50;
  actor = 3;
  actor_type = AuditActorType.user;
  reason = none;
  request_id = "r";
}

cancel_recurring_series_answer_example :
    ((cancel_recurring_series (calm 150 13) end_series (
        state true
          (tables (confirmed_row ∷ row 14 3 500 600 BookingStatus.confirmed none ∷ []) [] []))).0
      ≡ ok (record { cancelled_booking_ids = 14 ∷ []; occurrences_already_past = 1 }))
    × ((cancel_recurring_series (calm 150 13) end_series (
          state true (
            tables
              (confirmed_row ∷ row 14 3 500 600 BookingStatus.confirmed none ∷ [])
              []
              []))).1.bookings
        ≡ confirmed_row
          ∷ cancel_row 150 3 none (row 14 3 500 600 BookingStatus.confirmed none)
          ∷ [])
cancel_recurring_series_answer_example =
    cancel_recurring_series_answer (calm 150 13) end_series
      (state true
        (tables (confirmed_row ∷ row 14 3 500 600 BookingStatus.confirmed none ∷ []) [] []))
      (record { apart = refl; checked = refl; ids = refl; slots = refl; claims = refl }) refl refl
