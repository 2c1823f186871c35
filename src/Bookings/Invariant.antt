-- ===== src/Bookings/Invariant.antt =====
-- Every write of backend/kairos/bookings/services.py leaves the constraints of the schema true.
use kairos_booking_engine.Base.{ℕ, refl, Option}
use kairos_booking_engine.Errors.{Sqlstate}
use kairos_booking_engine.Store.{Env}
use kairos_booking_engine.Store.Keeps.{Keeps, keeps_rules}
use kairos_booking_engine.Store.Consistent.{
  IsConsistent, consistent_rules, Consistent-update_bookings,
}
use kairos_booking_engine.Bookings.{
  BookingCreateRequest, BookingEditRequest, BookingCancelRequest, BookingTransferRequest,
  RecurringSeriesCancelRequest, handle_write_database_error, create_booking, edit_booking,
  cancel_booking, cancel_callbacks, transfer_booking_ownership, cancel_recurring_series, has_id,
  with_range,
}

Consistent-handler :
    {A : Type 0} (st : Option Sqlstate)
    → Keeps IsConsistent (handle_write_database_error {A = A} st)
unfolding handle_write_database_error
Consistent-handler st = search keeps_rules

pub Consistent-create_booking :
    (e : Env) (req : BookingCreateRequest) → Keeps IsConsistent (create_booking e req)
unfolding create_booking
Consistent-create_booking e req = search (consistent_rules, Consistent-handler) depth 12

pub Consistent-edit_booking :
    (e : Env) (req : BookingEditRequest) → Keeps IsConsistent (edit_booking e req)
unfolding edit_booking
Consistent-edit_booking e req =
    search
      (
        consistent_rules,
        Consistent-handler,
        λ (i a b : ℕ). Consistent-update_bookings (has_id i) (with_range a b) (λ r. refl),
      )
      depth 12

pub Consistent-cancel_booking :
    (e : Env) (req : BookingCancelRequest) → Keeps IsConsistent (cancel_booking e req)
unfolding cancel_booking cancel_callbacks
Consistent-cancel_booking e req = search (consistent_rules, Consistent-handler) depth 12

pub Consistent-transfer_booking_ownership :
    (e : Env) (req : BookingTransferRequest) → Keeps IsConsistent (transfer_booking_ownership e req)
unfolding transfer_booking_ownership
Consistent-transfer_booking_ownership e req = search consistent_rules depth 12

pub Consistent-cancel_recurring_series :
    (e : Env) (req : RecurringSeriesCancelRequest)
    → Keeps IsConsistent (cancel_recurring_series e req)
unfolding cancel_recurring_series
Consistent-cancel_recurring_series e req = search consistent_rules depth 12
