-- ===== src/Endpoints.antt =====
-- The views of backend/kairos/bookings/views.py that write, or that guard what they show: the guards
-- before a service, in their order, and the call of it. A request is what is left of it after the
-- framework has authenticated its user and parsed its body.
pub mod Authority
pub mod Acknowledgment
pub mod Revoked
pub mod Invariant
pub mod Waitlist
pub mod Owned
pub mod Once
use kairos_booking_engine.Base.{
  ℕ, String, Bool, true, false, not, ◌||◌, Option, none, some, List, any, ◌==◌, find?,
}
use kairos_booking_engine.Errors.{Error, Result, ok, err}
use kairos_booking_engine.Schema.{
  Booking, AppUser, AuditActorType, BookingStatus, Json, RecurringSeries, Resource,
}
use kairos_booking_engine.Store.{Tables, Env, M, ◌>>=◌, ◌>>◌, pure, raise, gets, when}
use kairos_booking_engine.Bookings.{
  BookingCreateRequest, BookingEditRequest, BookingCancelRequest, RecurringSeriesCancelRequest,
  RecurringSeriesCancelResult, edit_booking, cancel_booking, cancel_recurring_series,
}
use kairos_booking_engine.Waitlist.Cascade.{Envs}
use kairos_booking_engine.Authorization.{
  UserGroupMembership, Directory, can_view_booking, can_edit_booking, can_cancel_booking,
  can_cancel_series,
}
use kairos_booking_engine.Idempotency.{
  IdempotentWriteResult, WriteRequest, run_idempotent_write, run_idempotent_recurring_confirm,
}
use kairos_booking_engine.Idempotency.Create.{post_booking}
use kairos_booking_engine.Recurrence.{Tzdata}
use kairos_booking_engine.Series.{SeriesDefinition, date_in}
use kairos_booking_engine.Series.Table.{of_result}
use kairos_booking_engine.Series.Token.{Jwt, DecodedPreview, decode_preview_token}
use kairos_booking_engine.Series.Preview.{PreviewResult, preview_recurring_series}
use kairos_booking_engine.Series.Confirm.{ConfirmOutcome, confirm_recurring_series}
use kairos_booking_engine.Policy.{
  resource_of, validate_booking_create, validate_booking_edit, validate_cancel,
  validate_series_preview,
}

-- The header `Idempotency-Key`: absent or empty, no UUID, or a UUID.
pub data IdempotencyKeyHeader : Type 0 where
  absent malformed : IdempotencyKeyHeader
  uuid : ℕ → IdempotencyKeyHeader

-- `endpoint` is the label that the view makes of its method and path; `fingerprint` is that of the
-- body, with the identifier of the path in it.
pub record Request : Type 0 where
  pub user : AppUser
  pub header : IdempotencyKeyHeader
  pub endpoint : String
  pub fingerprint : ℕ
  pub request_id : String

-- `_require_idempotency_key`
abbrev pub require_idempotency_key : IdempotencyKeyHeader → Result ℕ
require_idempotency_key IdempotencyKeyHeader.absent =
    err (Error.policy_validation "Idempotency-Key" "header is required")
require_idempotency_key IdempotencyKeyHeader.malformed =
    err (Error.policy_validation "Idempotency-Key" "must be a valid UUID")
require_idempotency_key (IdempotencyKeyHeader.uuid key) = ok key

abbrev pub write_request : Request → ℕ → AuditActorType → Option String → WriteRequest
write_request r key actor_type reason = record {
  user = r.user.id;
  key = key;
  endpoint = r.endpoint;
  fingerprint = r.fingerprint;
  request_id = some r.request_id;
  actor_type = actor_type;
  reason = reason;
}

-- What the authorization service reads, as the tables stand at the request.
abbrev pub directory_of : List UserGroupMembership → Tables → Directory
directory_of memberships t = record {
  admin_grants = t.admin_grants;
  memberships = memberships;
  resources = t.resources;
}

-- `try: X.objects.get(id=pk) except X.DoesNotExist: raise NotFoundError`
abbrev pub or_not_found : {A : Type 0} → Option A → M A
or_not_found none s = (err Error.not_found, s)
or_not_found (some a) s = (ok a, s)

abbrev pub find_booking : ℕ → M Booking
find_booking pk s = or_not_found (find? (λ b. b.id == pk) s.bookings) s

abbrev pub actor_type_of : Bool → AuditActorType
actor_type_of true = AuditActorType.admin
actor_type_of false = AuditActorType.user

abbrev pub create_request_of : Request → Resource → ℕ → ℕ → BookingCreateRequest
create_request_of r found start end = record {
  resource = found.id;
  user = r.user.id;
  start = start;
  end = end;
  request_id = r.request_id;
  series = none;
  actor_type = AuditActorType.user;
  status = BookingStatus.confirmed;
}

-- `BookingCollectionView.post`, with the resource, start and end of the body
unfoldable pub post_booking_view :
    Tzdata
    → List UserGroupMembership
    → ℕ
    → Env
    → Env
    → Request
    → ℕ
    → ℕ
    → ℕ
    → (Booking → Json)
    → M IdempotentWriteResult
post_booking_view tz ms now claim_env e r resource start end render = do
  key ← of_result (require_idempotency_key r.header)
  d ← gets (directory_of ms)
  found ← of_result (validate_booking_create tz d r.user now resource start end)
  post_booking claim_env e (write_request r key AuditActorType.user none)
      (create_request_of r found start end) render

-- `BookingDetailView.get`; its representation is the serializer's
unfoldable pub get_booking_view : List UserGroupMembership → AppUser → ℕ → M Booking
get_booking_view ms user pk = do
  booking ← find_booking pk
  d ← gets (directory_of ms)
  when (not (can_view_booking d user booking)) (raise Error.not_found)
  pure booking

-- `BookingDetailView.patch`, with the start and end of the body
unfoldable pub patch_booking_view :
    Tzdata → ℕ → Env → Env → Request → ℕ → ℕ → ℕ → (Booking → Json) → M IdempotentWriteResult
patch_booking_view tz now claim_env e r pk start end render = do
  key ← of_result (require_idempotency_key r.header)
  booking ← find_booking pk
  when (not (can_edit_booking r.user booking)) (raise Error.not_found)
  rows ← gets (λ t. t.resources)
  resource ← or_not_found (find? (λ x. x.id == booking.resource) rows)
  of_result (validate_booking_edit tz now resource start end)
  run_idempotent_write claim_env (write_request r key AuditActorType.user none) (
      edit_booking e (record {
        booking = booking;
        start = start;
        end = end;
        request_id = r.request_id;
        actor_type = AuditActorType.user;
      })
      >>= λ b. pure (200, render b))

-- `BookingCancelView.post`, with the reason of the body
unfoldable pub cancel_booking_view :
    List UserGroupMembership
    → Env
    → Env
    → Request
    → ℕ
    → Option String
    → (Booking → Json)
    → M IdempotentWriteResult
cancel_booking_view ms claim_env e r pk reason render = do
  key ← of_result (require_idempotency_key r.header)
  booking ← find_booking pk
  d ← gets (directory_of ms)
  let (allowed, is_override) = can_cancel_booking d r.user booking
  when (not allowed) (raise Error.not_found)
  of_result (validate_cancel (not is_override) reason)
  run_idempotent_write claim_env (write_request r key (actor_type_of is_override) reason) (
      cancel_booking e (record {
        booking = booking;
        actor = r.user.id;
        actor_type = actor_type_of is_override;
        reason = reason;
        request_id = r.request_id;
      })
      >>= λ x. pure (200, render x.booking))

-- `RecurringSeriesCancelView.post`: the key's own settings get no reason here.
unfoldable pub cancel_series_view :
    List UserGroupMembership
    → Env
    → Env
    → Request
    → ℕ
    → Option String
    → (RecurringSeriesCancelResult → Json)
    → M IdempotentWriteResult
cancel_series_view ms claim_env e r pk reason render = do
  key ← of_result (require_idempotency_key r.header)
  rows ← gets (λ t. t.series)
  series ← or_not_found (find? (λ x. x.id == pk) rows)
  d ← gets (directory_of ms)
  let (allowed, is_override) = can_cancel_series d r.user series
  when (not allowed) (raise Error.not_found)
  of_result (validate_cancel (not is_override) reason)
  run_idempotent_write claim_env (write_request r key (actor_type_of is_override) none) (
      cancel_recurring_series e (record {
        series = series.id;
        actor = r.user.id;
        actor_type = actor_type_of is_override;
        reason = reason;
        request_id = r.request_id;
      })
      >>= λ x. pure (200, render x))

-- `RecurringSeriesPreviewView.post`
unfoldable pub preview_series_view :
    {Token : Type 0}
    → Jwt Token
    → Tzdata
    → List UserGroupMembership
    → ℕ
    → AppUser
    → SeriesDefinition
    → M (PreviewResult Token)
preview_series_view j tz ms now user def = do
  d ← gets (directory_of ms)
  resource ← of_result (validate_series_preview tz d user def)
  preview_recurring_series j tz now user.id def

-- dates - acknowledged, as a test that something is left
abbrev pub has_unacknowledged : List ℕ → List ℕ → Bool
has_unacknowledged dates acknowledged = any (λ d. not (date_in d acknowledged)) dates

-- `RecurringSeriesConfirmView.post`, with the token and both lists of the body, at `now` seconds
unfoldable pub confirm_series_view :
    {Token : Type 0}
    → Jwt Token
    → Tzdata
    → ℕ
    → Env
    → Env
    → Envs
    → Request
    → Token
    → List ℕ
    → List ℕ
    → (ConfirmOutcome → Json)
    → M IdempotentWriteResult
confirm_series_view j tz now claim_env after envs r token conflicts adjustments render = do
  key ← of_result (require_idempotency_key r.header)
  decoded ← of_result (decode_preview_token j now token r.user.id)
  when
      (has_unacknowledged decoded.conflict_dates conflicts
        || has_unacknowledged decoded.adjustment_dates adjustments)
      (raise Error.unacknowledged_conflicts)
  resources ← gets (λ t. t.resources)
  run_idempotent_recurring_confirm claim_env after (write_request r key AuditActorType.user none) (
      confirm_recurring_series tz resources envs r.user.id decoded r.request_id >>= λ o.
      pure (207, render o))
