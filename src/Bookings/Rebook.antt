-- ===== src/Bookings/Rebook.antt =====
-- `cancel_booking`, then `create_booking` (backend/kairos/bookings/services.py).
use kairos_booking_engine.Base.{◌≡◌, ◌∙◌, true, not, some, none, arith, find?, any-select-false}
use kairos_booking_engine.Errors.{ok}
use kairos_booking_engine.Schema.{Booking, is_confirmed}
use kairos_booking_engine.Range.{contained_by}
use kairos_booking_engine.Store.{State, Env, atomic, on_commit}
use kairos_booking_engine.Store.Bookings.{conflicts, update_bookings, get_booking}
use kairos_booking_engine.Store.Consistent.{IsConsistent}
use kairos_booking_engine.Bookings.{
  BookingCancelRequest, BookingCreateRequest, cancel_booking, cancel_callbacks, create_booking,
  has_id, is_expired_hold, requested_range, new_booking, handle_write_database_error,
}
use kairos_booking_engine.Bookings.Outcome.{IsProper, create_booking_answer}
use kairos_booking_engine.Bookings.Cancel.{cancel_booking_confirmed, freed_range}

in_atomic-cancel_booking :
    (e : Env) (req : BookingCancelRequest) (s : State)
    → s.in_atomic ≡ true
    → (cancel_booking e req s).1.in_atomic ≡ true
unfolding cancel_booking cancel_callbacks atomic update_bookings get_booking on_commit
    handle_write_database_error
in_atomic-cancel_booking e req s nested = ground arith

-- Inside a transaction, after a confirmed booking of consistent tables is cancelled, a proper
-- request for a range within its range on the same resource is answered with the new booking.
pub create-cancel :
    (e : Env) (req : BookingCancelRequest) (s : State) (b : Booking) (e' : Env)
    (new : BookingCreateRequest)
    → IsConsistent s.tables
    → s.in_atomic ≡ true
    → e.fault ≡ none
    → find? (has_id req.booking.id) s.bookings ≡ some b
    → is_confirmed b.status ≡ true
    → new.resource ≡ b.resource
    → contained_by (requested_range new) b.time_range ≡ true
    → IsProper e' new (cancel_booking e req s).1
    → (create_booking e' new (cancel_booking e req s).1).0 ≡ ok (new_booking e' new)
create-cancel e req s b e' new c nested quiet found active same inside proper =
    let rows = (cancel_booking_confirmed e req s b c nested quiet found active).1 in
    let free =
      any-select-false (conflicts (new_booking e' new))
        (λ r. not (is_expired_hold e'.transaction_time new r)) _
        (freed_range req.booking.id e.now req.actor req.reason (new_booking e' new) b s.bookings
          c.ids c.apart found same inside active) in
    create_booking_answer e' new (cancel_booking e req s).1 proper
      (in_atomic-cancel_booking e req s nested)
    ∙ rw (rows, free)
