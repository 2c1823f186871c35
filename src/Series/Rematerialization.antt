-- ===== src/Series/Rematerialization.antt =====
-- `rematerialize_stale_series` of backend/kairos/bookings/tasks.py.
use kairos_booking_engine.Base.{
  ℕ, ◌+◌, ◌-◌, ◌*◌, String, str_eq, Bool, true, false, not, ◌&&◌, ◌||◌, Option, none, some, List,
  [], ◌∷◌, ◌++◌, map, ltb, leb, ◌==◌, if◌then◌else◌, any, select, length,
}
use kairos_booking_engine.Range.{day}
use kairos_booking_engine.Schema.{
  Booking, RecurringSeries, AuditActorType, CheckName, CheckStatus, ResourceAdmin,
}
use kairos_booking_engine.Recurrence.{Tzdata, Occurrence, expand_occurrences}
use kairos_booking_engine.Store.{
  Env, M, Message, ◌>>=◌, ◌>>◌, pure, gets, serve, send, record_check,
}
use kairos_booking_engine.Bookings.{edit_booking, BookingEditRequest, is_future_occurrence}
use kairos_booking_engine.Waitlist.Cascade.{Envs}
use kairos_booking_engine.Series.Table.{of_result, update_series, active_series}
use kairos_booking_engine.Series.Confirm.{try_create, next_env}
use kairos_booking_engine.Series.Rolling.{weekly_of, next_series}

pub record RematerializationConflict : Type 0 where
  pub series_id : ℕ
  pub booking_id : ℕ
  pub occurrence_date : ℕ
  pub series_owner : ℕ

pub record Rematerialized : Type 0 where
  pub series_checked : ℕ
  pub occurrences_updated : ℕ
  pub conflicts : List RematerializationConflict

abbrev pub nothing_checked : Rematerialized
nothing_checked = record { series_checked = 0; occurrences_updated = 0; conflicts = [] }

-- abs((o.start - lower).total_seconds()), in microseconds
abbrev pub distance : ℕ → ℕ → ℕ
distance a b = (a - b) + (b - a)

-- min(occurrences, key=...): the first of the nearest ones
abbrev pub nearer : ℕ → Occurrence → Occurrence → Occurrence
nearer lower o p = if leb (distance o.start lower) (distance p.start lower) then o else p

unfoldable pub closest : ℕ → Occurrence → List Occurrence → Occurrence
closest lower o [] = o
closest lower o (p ∷ os) = closest lower (nearer lower o p) os

-- What is to be done about a booking: nothing, or a move to the recomputed range.
unfoldable pub recomputed : List Occurrence → Booking → Option Occurrence
unfolding closest
recomputed [] b = none
recomputed (o ∷ os) b =
    let c = closest b.time_range.lower o os in
    if ltb (2 * day) (distance c.start b.time_range.lower)
      || (c.start == b.time_range.lower && c.end == b.time_range.upper)
    then none
    else some c

-- A set: the owner and the administrators of the resource, each once.
abbrev pub without_repeats : List ℕ → List ℕ
without_repeats [] = []
without_repeats (u ∷ us) =
    let rest = without_repeats us in if any (λ x. x == u) us then rest else u ∷ rest

abbrev pub conflict_recipients : List ResourceAdmin → RecurringSeries → List ℕ
conflict_recipients grants r =
    without_repeats
      (r.created_by ∷ map (λ g. g.user) (select (λ g. g.resource == r.resource) grants))

unfoldable pub notify_all : RecurringSeries → ℕ → String → List ℕ → M (Unit {0})
notify_all r date request_id [] = pure tt
notify_all r date request_id (u ∷ us) = do
  send (Message.notify_rematerialization_conflict u r.resource date request_id)
  notify_all r date request_id us

abbrev pub with_update : Rematerialized → Rematerialized
with_update x = record x { occurrences_updated = x.occurrences_updated + 1 }

abbrev pub with_remat_conflict :
    RecurringSeries → Booking → Occurrence → Rematerialized → Rematerialized
with_remat_conflict r b o x = record x {
  conflicts =
      x.conflicts
      ++ record {
        series_id = r.id;
        booking_id = b.id;
        occurrence_date = o.occurrence_date;
        series_owner = r.created_by;
      }
        ∷ [];
}

abbrev pub edit_request : Booking → Occurrence → String → BookingEditRequest
edit_request b o request_id = record {
  booking = b;
  start = o.start;
  end = o.end;
  request_id = request_id;
  actor_type = AuditActorType.system;
}

-- try: edit_booking(..); notify the owner. except SlotUnavailableError: record and notify.
unfoldable pub move_booking :
    List ResourceAdmin
    → Env
    → RecurringSeries
    → String
    → Booking
    → Option Occurrence
    → Rematerialized
    → M Rematerialized
unfolding notify_all
move_booking grants e r request_id b none x = pure x
move_booking grants e r request_id b (some o) x =
    try_create (edit_booking e (edit_request b o request_id))
      (λ _.
        send (
          Message.notify_rematerialization b.user r.resource b.time_range.lower b.time_range.upper
            o.start o.end request_id)
        >> pure (with_update x))
      (notify_all r o.occurrence_date request_id (conflict_recipients grants r)
        >> pure (with_remat_conflict r b o x))

unfoldable pub move_bookings :
    List ResourceAdmin
    → Envs
    → RecurringSeries
    → String
    → List Occurrence
    → List Booking
    → Rematerialized
    → M Rematerialized
unfolding move_booking
move_bookings grants envs r request_id occurrences [] x = pure x
move_bookings grants envs r request_id occurrences (b ∷ bs) x = do
  y ← move_booking grants (envs 0) r request_id b (recomputed occurrences b) x
  move_bookings grants (next_env envs) r request_id occurrences bs y

abbrev pub with_tzdata_version : String → RecurringSeries → RecurringSeries
with_tzdata_version v r = record r { tzdata_version = v }

-- `if not series_had_conflict:` the series has the current version from now on.
unfoldable pub mark_current : Tzdata → Env → RecurringSeries → Bool → M (Unit {0})
mark_current tz e r true = pure tt
mark_current tz e r false = serve e >> update_series r.id (with_tzdata_version tz.version)

abbrev pub with_checked : Rematerialized → Rematerialized
with_checked x = record x { series_checked = x.series_checked + 1 }

unfoldable pub rematerialize_series :
    Tzdata
    → List ResourceAdmin
    → Envs
    → ℕ
    → String
    → RecurringSeries
    → Rematerialized
    → M Rematerialized
unfolding move_bookings mark_current
rematerialize_series tz grants envs now request_id r x = do
  occurrences ← of_result (expand_occurrences (weekly_of tz r) r.occurrence_count)
  existing ← gets (λ t. select (is_future_occurrence r.id now) t.bookings)
  y ← move_bookings grants (next_env envs) r request_id occurrences existing (with_checked x)
  mark_current tz (envs 0) r (ltb (length x.conflicts) (length y.conflicts))
  pure y

unfoldable pub rematerialize_all :
    Tzdata
    → List ResourceAdmin
    → (ℕ → Envs)
    → ℕ
    → String
    → List RecurringSeries
    → Rematerialized
    → M Rematerialized
unfolding rematerialize_series
rematerialize_all tz grants envs now request_id [] x = pure x
rematerialize_all tz grants envs now request_id (r ∷ rs) x = do
  y ← rematerialize_series tz grants (envs 0) now request_id r x
  rematerialize_all tz grants (next_series envs) now request_id rs y

abbrev pub is_stale_series : Tzdata → RecurringSeries → Bool
is_stale_series tz r = not (str_eq r.tzdata_version tz.version)

abbrev pub rematerialized_status : List RematerializationConflict → CheckStatus
rematerialized_status [] = CheckStatus.passed
rematerialized_status (c ∷ cs) = CheckStatus.failed

-- The findings also name the current version.
unfoldable pub rematerialize_stale_series :
    Tzdata → List ResourceAdmin → (ℕ → Envs) → ℕ → String → M Rematerialized
unfolding rematerialize_all
rematerialize_stale_series tz grants envs now request_id = do
  rows ← gets (λ t. select (is_stale_series tz) (active_series t.series))
  x ← rematerialize_all tz grants envs now request_id rows nothing_checked
  record_check (record {
    check_name = CheckName.tzdata_rematerialization;
    status = rematerialized_status x.conflicts;
    run_at = now;
    findings = x.series_checked ∷ x.occurrences_updated ∷ length x.conflicts ∷ [];
  })
  pure x
