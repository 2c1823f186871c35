-- ===== src/Bookings.antt =====
-- backend/kairos/bookings/services.py: every write of the table `booking`.
pub mod Invariant
pub mod Rows
pub mod Outcome
pub mod Reclaim
pub mod Edit
pub mod Cancel
pub mod Series
pub mod Rebook
use kairos_booking_engine.Base.{
  ℕ, ◌+◌, ◌*◌, String, Bool, true, false, not, ◌&&◌, Option, none, some, List, map, ltb, leb, ◌==◌,
  if◌then◌else◌, any, select, length, count_where,
}
use kairos_booking_engine.Range.{Range, overlaps, minute}
use kairos_booking_engine.Errors.{
  Sqlstate, Cause, Error, is_exclusion_violation, is_retryable, is_failover,
}
use kairos_booking_engine.Schema.{
  Booking, BookingStatus, AuditActorType, starts_at, is_confirmed, is_held, is_admin,
}
use kairos_booking_engine.Store.{
  State, Env, M, Message, ◌>>=◌, ◌>>◌, pure, raise, gets, when, serve, catch_database_error, atomic,
  on_commit, apply_write_path_session_settings, actor_unless_system,
}
use kairos_booking_engine.Store.Bookings.{
  insert_booking, update_bookings, delete_bookings, get_booking,
}

-- OFFER_WINDOW_MINUTES and FAILOVER_RETRY_AFTER_SECONDS of backend/kairos/core/constants.py.
abbrev pub offer_window_minutes : ℕ
offer_window_minutes = 15

abbrev pub failover_retry_after_seconds : ℕ
failover_retry_after_seconds = 5

-- The exception that `_handle_write_database_error` raises for an SQLSTATE.
unfoldable pub write_database_error : Option Sqlstate → Error
write_database_error sqlstate =
    if is_exclusion_violation sqlstate
    then Error.slot_unavailable
    else if is_retryable sqlstate
    then Error.service_unavailable 1 Cause.lock_contention
    else if is_failover sqlstate
    then Error.service_unavailable failover_retry_after_seconds Cause.failover
    else Error.database_error sqlstate

unfoldable pub handle_write_database_error : {A : Type 0} → Option Sqlstate → M A
handle_write_database_error sqlstate = raise (write_database_error sqlstate)

pub record BookingCreateRequest : Type 0 where
  pub resource : ℕ
  pub user : ℕ
  pub start : ℕ
  pub end : ℕ
  pub request_id : String
  pub series : Option ℕ
  pub actor_type : AuditActorType
  pub status : BookingStatus

-- The range about to be written.
abbrev pub requested_range : BookingCreateRequest → Range
requested_range req = record { lower = req.start; upper = req.end }

-- WHERE resource_id = .. AND status = 'held' AND expires_at <= now() AND time_range && ..
abbrev pub is_expired_hold : ℕ → BookingCreateRequest → Booking → Bool
is_expired_hold now req b =
    ((b.resource == req.resource && is_held b.status)
      && elim b.expires_at [ none ↦ false | some t ↦ leb t now ])
    && overlaps b.time_range (requested_range req)

abbrev pub new_booking : Env → BookingCreateRequest → Booking
new_booking e req = record {
  id = e.uuid;
  resource = req.resource;
  series = req.series;
  user = req.user;
  time_range = requested_range req;
  status = req.status;
  expires_at = if is_held req.status then some (e.now + offer_window_minutes * minute) else none;
  created_at = e.now;
  cancelled_at = none;
  cancelled_by = none;
  cancellation_reason = none;
}

create_booking_body : Env → BookingCreateRequest → M Booking
create_booking_body e req = do
  apply_write_path_session_settings (actor_unless_system req.user req.actor_type) req.actor_type
      req.request_id none
  serve e
  delete_bookings (is_expired_hold e.transaction_time req)
  insert_booking (new_booking e req)
  get_booking e.uuid

unfoldable pub create_booking : Env → BookingCreateRequest → M Booking
unfolding create_booking_body
create_booking e req =
    catch_database_error (atomic (create_booking_body e req)) handle_write_database_error

pub record BookingEditRequest : Type 0 where
  pub booking : Booking
  pub start : ℕ
  pub end : ℕ
  pub request_id : String
  pub actor_type : AuditActorType

abbrev pub has_id : ℕ → Booking → Bool
has_id id b = b.id == id

abbrev pub with_range : ℕ → ℕ → Booking → Booking
with_range start end b = record b { time_range = record { lower = start; upper = end } }

edit_booking_body : Env → BookingEditRequest → M Booking
edit_booking_body e req = do
  apply_write_path_session_settings (actor_unless_system req.booking.user req.actor_type)
      req.actor_type req.request_id none
  serve e
  _ ← update_bookings (has_id req.booking.id) (with_range req.start req.end)
  get_booking req.booking.id

unfoldable pub edit_booking : Env → BookingEditRequest → M Booking
unfolding edit_booking_body
edit_booking e req =
    catch_database_error (atomic (edit_booking_body e req)) handle_write_database_error

pub record BookingCancelRequest : Type 0 where
  pub booking : Booking
  pub actor : ℕ
  pub actor_type : AuditActorType
  pub reason : Option String
  pub request_id : String

pub record BookingCancelResult : Type 0 where
  pub booking : Booking
  pub already_cancelled : Bool

abbrev pub is_confirmed_row : ℕ → Booking → Bool
is_confirmed_row id b = b.id == id && is_confirmed b.status

abbrev pub cancel_row : ℕ → ℕ → Option String → Booking → Booking
cancel_row now actor reason b = record b {
  status = BookingStatus.cancelled;
  cancelled_at = some now;
  cancelled_by = some actor;
  cancellation_reason = reason;
}

-- req.reason or ""
abbrev pub or_empty : Option String → String
or_empty none = ""
or_empty (some r) = r

-- The two callbacks of a cancellation that took effect.
cancel_callbacks : BookingCancelRequest → Booking → M (Unit {0})
cancel_callbacks req b = do
  on_commit
      (Message.dispatch_cascade b.resource b.time_range.lower b.time_range.upper req.request_id)
  when (is_admin req.actor_type) (
      on_commit (
        Message.notify_admin_cancellation req.booking.user req.booking.resource b.time_range.lower
          b.time_range.upper (or_empty req.reason) req.request_id))

cancel_booking_body : Env → BookingCancelRequest → M BookingCancelResult
unfolding cancel_callbacks
cancel_booking_body e req = do
  apply_write_path_session_settings (actor_unless_system req.actor req.actor_type) req.actor_type
      req.request_id req.reason
  serve e
  updated ←
      update_bookings (is_confirmed_row req.booking.id) (cancel_row e.now req.actor req.reason)
  b ← get_booking req.booking.id
  when (ltb 0 updated) (cancel_callbacks req b)
  pure (record { booking = b; already_cancelled = not (ltb 0 updated) })

unfoldable pub cancel_booking : Env → BookingCancelRequest → M BookingCancelResult
unfolding cancel_booking_body
cancel_booking e req =
    catch_database_error (atomic (cancel_booking_body e req)) handle_write_database_error

pub record BookingTransferRequest : Type 0 where
  pub booking : Booking
  pub new_owner : ℕ
  pub request_id : String

abbrev pub with_user : ℕ → Booking → Booking
with_user u b = record b { user = u }

transfer_booking_body : Env → BookingTransferRequest → M Booking
transfer_booking_body e req = do
  apply_write_path_session_settings none AuditActorType.system req.request_id none
  serve e
  _ ← update_bookings (has_id req.booking.id) (with_user req.new_owner)
  get_booking req.booking.id

unfoldable pub transfer_booking_ownership : Env → BookingTransferRequest → M Booking
unfolding transfer_booking_body
transfer_booking_ownership e req = atomic (transfer_booking_body e req)

pub record RecurringSeriesCancelRequest : Type 0 where
  pub series : ℕ
  pub actor : ℕ
  pub actor_type : AuditActorType
  pub reason : Option String
  pub request_id : String

pub record RecurringSeriesCancelResult : Type 0 where
  pub cancelled_booking_ids : List ℕ
  pub occurrences_already_past : ℕ

abbrev pub of_series : ℕ → Booking → Bool
of_series series b = elim b.series [ none ↦ false | some s ↦ s == series ]

-- series=.., status=CONFIRMED, starts_at__gte=now
abbrev pub is_future_occurrence : ℕ → ℕ → Booking → Bool
is_future_occurrence series now b =
    (of_series series b && is_confirmed b.status) && leb now (starts_at b)

-- series=.., starts_at__lt=now
abbrev pub is_past_occurrence : ℕ → ℕ → Booking → Bool
is_past_occurrence series now b = of_series series b && ltb (starts_at b) now

-- id__in=ids
abbrev pub id_in : List ℕ → Booking → Bool
id_in ids b = any (λ i. b.id == i) ids

cancel_series_body : Env → RecurringSeriesCancelRequest → M RecurringSeriesCancelResult
cancel_series_body e req = do
  apply_write_path_session_settings (some req.actor) req.actor_type req.request_id req.reason
  serve e
  ids ← gets (λ t. map (λ b. b.id) (select (is_future_occurrence req.series e.now) t.bookings))
  _ ← update_bookings (id_in ids) (cancel_row e.now req.actor req.reason)
  past ← gets (λ t. count_where (is_past_occurrence req.series e.now) t.bookings)
  pure (record { cancelled_booking_ids = ids; occurrences_already_past = past })

unfoldable pub cancel_recurring_series :
    Env → RecurringSeriesCancelRequest → M RecurringSeriesCancelResult
unfolding cancel_series_body
cancel_recurring_series e req = atomic (cancel_series_body e req)
