-- ===== src/Recurrence.antt =====
-- backend/kairos/core/timezones.py and backend/kairos/bookings/recurrence.py: local times of a
-- zone, and the expansion of a series into occurrences. A naive datetime is the number of
-- microseconds since the midnight of day 0, a date a number of days, a time of day a number of
-- microseconds, and an instant of UTC a number of microseconds.
pub mod Dates
pub mod WallClock
use kairos_booking_engine.Base.{
  ℕ, zero, suc, ◌+◌, ◌-◌, ◌*◌, String, Bool, true, false, not, ◌&&◌, Option, none, some, List, [],
  ◌∷◌, leb, ◌==◌, if◌then◌else◌, ◌/◌, ◌%◌,
}
use kairos_booking_engine.Range.{day}
use kairos_booking_engine.Errors.{Error, Result, ok, err}

-- Which of two readings of a repeated or a skipped local time: PEP 495.
pub data Fold : Type 0 where
  first second : Fold

-- What `zoneinfo` makes of the rules of one zone: `naive.replace(tzinfo, fold).astimezone(UTC)`,
-- and the naive value of `instant.astimezone(zone)`. The rules are data of the package `tzdata`.
pub record Zone : Type 0 where
  pub to_utc : Fold → ℕ → ℕ
  pub to_local : ℕ → ℕ

-- The installed `tzdata`: `available_timezones()`, `ZoneInfo(key)` and the package's version.
pub record Tzdata : Type 0 where
  pub available_timezones : String → Bool
  pub zone_info : String → Zone
  pub version : String

-- datetime.combine, and the two parts of a datetime
abbrev pub combine : ℕ → ℕ → ℕ
combine date time = date * day + time

abbrev pub date_of : ℕ → ℕ
date_of naive = naive / day

abbrev pub time_of : ℕ → ℕ
time_of naive = naive % day

unfoldable pub validate_iana_zone : Tzdata → String → Result (Unit {0})
validate_iana_zone tz value =
    if tz.available_timezones value
    then ok tt
    else err (Error.policy_validation "timezone" "is not a known IANA timezone identifier")

unfoldable pub local_to_instant : Zone → ℕ → ℕ → ℕ
local_to_instant zone local_dt on_date = zone.to_utc Fold.first (combine on_date (time_of local_dt))

unfoldable pub is_nonexistent_local_time : Zone → ℕ → Bool
is_nonexistent_local_time zone naive = not (zone.to_local (zone.to_utc Fold.first naive) == naive)

unfoldable pub is_ambiguous_local_time : Zone → ℕ → Bool
unfolding is_nonexistent_local_time
is_ambiguous_local_time zone naive =
    if is_nonexistent_local_time zone naive
    then false
    else not (zone.to_utc Fold.first naive == zone.to_utc Fold.second naive)

pub data Issue : Type 0 where
  nonexistent_local_time ambiguous_local_time : Issue

pub record TimeAdjustment : Type 0 where
  pub issue : Issue
  pub requested_local : ℕ
  pub adjusted_local : ℕ
  pub explanation : String

pub record Occurrence : Type 0 where
  pub occurrence_date : ℕ
  pub start : ℕ
  pub end : ℕ
  pub adjustment : Option TimeAdjustment

-- naive_dt + _transition_gap(naive_dt, zone): the gap is what the instant of the first reading
-- exceeds that of the second by, and may be negative, so it is added before it is subtracted.
unfoldable pub after_transition_gap : Zone → ℕ → ℕ → ℕ
after_transition_gap zone at naive = naive + zone.to_utc Fold.first at - zone.to_utc Fold.second at

-- The start and the end of the occurrence in local time, and what has to be disclosed.
abbrev pub shifted : Zone → ℕ → ℕ → ℕ → ℕ
shifted zone occurrence_date local_start_time local_time =
    let naive_start = combine occurrence_date local_start_time in
    let naive = combine occurrence_date local_time in
    if is_nonexistent_local_time zone naive_start
    then after_transition_gap zone naive_start naive
    else naive

abbrev pub adjustment_of : Zone → ℕ → ℕ → Option TimeAdjustment
adjustment_of zone occurrence_date local_start_time =
    let naive_start = combine occurrence_date local_start_time in
    if is_nonexistent_local_time zone naive_start
    then some (record {
      issue = Issue.nonexistent_local_time;
      requested_local = local_start_time;
      adjusted_local = time_of (after_transition_gap zone naive_start naive_start);
      explanation =
          "Local time does not exist due to a DST transition; shifted forward by the transition gap.";
    })
    else if is_ambiguous_local_time zone naive_start
    then some (record {
      issue = Issue.ambiguous_local_time;
      requested_local = local_start_time;
      adjusted_local = local_start_time;
      explanation =
          "Local time occurs twice due to a DST transition; the first (pre-transition) instance was used.";
    })
    else none

unfoldable pub materialize_occurrence : Zone → ℕ → ℕ → ℕ → Occurrence
unfolding is_nonexistent_local_time is_ambiguous_local_time after_transition_gap local_to_instant
materialize_occurrence zone occurrence_date local_start_time local_end_time =
    let naive_start = shifted zone occurrence_date local_start_time local_start_time in
    let naive_end = shifted zone occurrence_date local_start_time local_end_time in
    record {
      occurrence_date = occurrence_date;
      start = local_to_instant zone naive_start (date_of naive_start);
      end = local_to_instant zone naive_end (date_of naive_end);
      adjustment = adjustment_of zone occurrence_date local_start_time;
    }

-- MAX_SERIES_OCCURRENCES of backend/kairos/core/constants.py.
abbrev pub max_series_occurrences : ℕ
max_series_occurrences = 100

-- What a series says of its occurrences, but for their number.
pub record Weekly : Type 0 where
  pub zone : Zone
  pub local_start_time : ℕ
  pub local_end_time : ℕ
  pub series_start_date : ℕ

unfoldable pub occurrence_at : Weekly → ℕ → Occurrence
occurrence_at w i =
    materialize_occurrence w.zone (w.series_start_date + 7 * i) w.local_start_time w.local_end_time

-- [... for i in range(occurrence_count)], from the i-th on
unfoldable pub occurrences_from : Weekly → ℕ → ℕ → List Occurrence
occurrences_from w i zero = []
occurrences_from w i (suc n) = occurrence_at w i ∷ occurrences_from w (suc i) n

unfoldable pub expand_occurrences : Weekly → ℕ → Result (List Occurrence)
unfolding occurrences_from occurrence_at
expand_occurrences w occurrence_count =
    if leb 1 occurrence_count && leb occurrence_count max_series_occurrences
    then ok (occurrences_from w 0 occurrence_count)
    else err (Error.policy_validation "occurrence_count" "must be between 1 and 100")
