-- ===== src/Series/Confirm.antt =====
-- `confirm_recurring_series` of backend/kairos/bookings/recurring_series.py.
use kairos_booking_engine.Base.{
  ℕ, suc, String, Bool, true, false, some, List, [], ◌∷◌, ◌==◌, if◌then◌else◌, find?,
}
use kairos_booking_engine.Errors.{Error, Result, ok, err}
use kairos_booking_engine.Schema.{
  Booking, BookingStatus, RecurringSeries, RecurringSeriesStatus, AuditActorType, Resource,
}
use kairos_booking_engine.Recurrence.{Tzdata, Occurrence, expand_occurrences}
use kairos_booking_engine.Store.{State, M, ◌>>=◌, ◌>>◌, pure, serve}
use kairos_booking_engine.Store.Bookings.{or_missing}
use kairos_booking_engine.Bookings.{BookingCreateRequest, create_booking}
use kairos_booking_engine.Waitlist.Cascade.{Envs}
use kairos_booking_engine.Series.{SeriesDefinition, date_in, weekly}
use kairos_booking_engine.Series.Table.{of_result, save_series}
use kairos_booking_engine.Series.Token.{DecodedPreview}

pub record CreatedOccurrence : Type 0 where
  pub booking_id : ℕ
  pub occurrence_date : ℕ
  pub start : ℕ
  pub end : ℕ

-- The reason is always "slot_unavailable".
pub record ConflictedOccurrence : Type 0 where
  pub occurrence_date : ℕ
  pub acknowledged : Bool

pub record Attempts : Type 0 where
  pub created : List CreatedOccurrence
  pub conflicts : List ConflictedOccurrence

pub record ConfirmOutcome : Type 0 where
  pub series_id : ℕ
  pub attempts : Attempts
  pub open attempts use *

-- occurrences[-1].occurrence_date, of a list that an expansion never leaves empty
abbrev pub last_date : List Occurrence → ℕ
last_date [] = 0
last_date (o ∷ []) = o.occurrence_date
last_date (o ∷ p ∷ os) = last_date (p ∷ os)

abbrev pub new_series : Tzdata → ℕ → ℕ → SeriesDefinition → ℕ → RecurringSeries
new_series tz id user def through = record {
  id = id;
  resource = def.resource;
  created_by = user;
  timezone = def.timezone;
  local_start_time = def.local_start_time;
  local_end_time = def.local_end_time;
  weekday = def.weekday;
  series_start_date = def.series_start_date;
  occurrence_count = def.occurrence_count;
  tzdata_version = tz.version;
  materialized_through = through;
  status = RecurringSeriesStatus.active;
}

abbrev pub occurrence_request :
    ℕ → ℕ → ℕ → String → AuditActorType → Occurrence → BookingCreateRequest
occurrence_request resource user series request_id actor_type o = record {
  resource = resource;
  user = user;
  start = o.start;
  end = o.end;
  request_id = request_id;
  series = some series;
  actor_type = actor_type;
  status = BookingStatus.confirmed;
}

-- try: x = ... except SlotUnavailableError: ...
abbrev pub unless_unavailable :
    {A B : Type 0} → Result A × State → (A → M B) → M B → Result B × State
unless_unavailable (ok a, s) done taken = done a s
unless_unavailable (err Error.slot_unavailable, s) done taken = taken s
unless_unavailable (err e, s) done taken = (err e, s)

abbrev pub try_create : {B : Type 0} → M Booking → (Booking → M B) → M B → M B
try_create m done taken = λ s. unless_unavailable (m s) done taken

abbrev pub created_entry : Occurrence → Booking → CreatedOccurrence
created_entry o b = record {
  booking_id = b.id;
  occurrence_date = o.occurrence_date;
  start = o.start;
  end = o.end;
}

abbrev pub with_created : Occurrence → Booking → Attempts → Attempts
with_created o b rest = record rest { created = created_entry o b ∷ rest.created }

abbrev pub with_conflict : Occurrence → Bool → Attempts → Attempts
with_conflict o acknowledged rest = record rest {
  conflicts =
      record { occurrence_date = o.occurrence_date; acknowledged = acknowledged } ∷ rest.conflicts;
}

abbrev pub next_env : Envs → Envs
next_env envs n = envs (suc n)

-- The loop over the occurrences: the first element of `envs` is what the world decides of the
-- attempt for the first of them. An acknowledged one is not attempted.
unfoldable pub attempt_occurrences :
    Envs → ℕ → ℕ → ℕ → String → List ℕ → List Occurrence → M Attempts
attempt_occurrences envs resource user series request_id known [] =
    pure (record { created = []; conflicts = [] })
attempt_occurrences envs resource user series request_id known (o ∷ os) =
    let rest = attempt_occurrences (next_env envs) resource user series request_id known os in
    if date_in o.occurrence_date known
    then (rest >>= λ r. pure (with_conflict o true r))
    else try_create
        (create_booking (envs 0)
          (occurrence_request resource user series request_id AuditActorType.user o))
        (λ b. rest >>= λ r. pure (with_created o b r))
        (rest >>= λ r. pure (with_conflict o false r))

-- The series, then its occurrences: each statement commits on its own.
unfoldable pub confirm_occurrences :
    Tzdata → Envs → ℕ → DecodedPreview → String → ℕ → List Occurrence → M ConfirmOutcome
confirm_occurrences tz envs user decoded request_id resource occurrences = do
  serve (envs 0)
  save_series tz (new_series tz (envs 0).uuid user decoded.definition (last_date occurrences))
  attempts ←
      attempt_occurrences (next_env envs) resource user (envs 0).uuid request_id
        decoded.conflict_dates occurrences
  pure (record { series_id = (envs 0).uuid; attempts = attempts })

unfoldable pub confirm_recurring_series :
    Tzdata → List Resource → Envs → ℕ → DecodedPreview → String → M ConfirmOutcome
unfolding confirm_occurrences
confirm_recurring_series tz resources envs user decoded request_id = do
  let def = decoded.definition
  resource ← or_missing (find? (λ r. r.id == def.resource) resources)
  occurrences ← of_result (expand_occurrences (weekly tz def) def.occurrence_count)
  confirm_occurrences tz envs user decoded request_id resource.id occurrences
