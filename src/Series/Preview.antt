-- ===== src/Series/Preview.antt =====
-- `preview_recurring_series` of backend/kairos/bookings/recurring_series.py.
use kairos_booking_engine.Base.{
  ℕ, ◌+◌, ◌*◌, ◌/◌, String, Bool, not, ◌&&◌, none, some, List, [], ◌∷◌, map, ltb, ◌==◌, is_some,
  any, select,
}
use kairos_booking_engine.Range.{Range, overlaps, day, second}
use kairos_booking_engine.Errors.{Error}
use kairos_booking_engine.Schema.{Booking}
use kairos_booking_engine.Recurrence.{Tzdata, TimeAdjustment, Occurrence, expand_occurrences}
use kairos_booking_engine.Store.{M, ◌>>=◌, ◌>>◌, raise, gets, when}
use kairos_booking_engine.Store.Bookings.{occupies}
use kairos_booking_engine.Series.{SeriesDefinition, date_in, weekly}
use kairos_booking_engine.Series.Table.{of_result}
use kairos_booking_engine.Series.Token.{Jwt, issue_preview_token}

-- MAX_ADVANCE_HORIZON_DAYS of backend/kairos/core/constants.py.
abbrev pub max_advance_horizon_days : ℕ
max_advance_horizon_days = 365

abbrev pub occurrence_range : Occurrence → Range
occurrence_range o = record { lower = o.start; upper = o.end }

-- resource=.., status__in=[CONFIRMED, HELD], time_range__overlap=(start, end)
abbrev pub is_in_the_way : ℕ → List Booking → Occurrence → Bool
is_in_the_way resource rows o =
    any (λ b. (b.resource == resource && occupies b) && overlaps b.time_range (occurrence_range o))
      rows

-- `_occurrence_conflicts`
unfoldable pub occurrence_conflicts : ℕ → List Occurrence → List Booking → List ℕ
occurrence_conflicts resource occurrences rows =
    map (λ o. o.occurrence_date) (select (is_in_the_way resource rows) occurrences)

-- One entry of `would_create`, and of `conflicts`, whose reason is always "slot_unavailable".
pub record PreviewedOccurrence : Type 0 where
  pub occurrence_date : ℕ
  pub start : ℕ
  pub end : ℕ

abbrev pub previewed : Occurrence → PreviewedOccurrence
previewed o = record { occurrence_date = o.occurrence_date; start = o.start; end = o.end }

abbrev pub adjustments : List Occurrence → List (ℕ × TimeAdjustment)
adjustments [] = []
adjustments (o ∷ os) = elim o.adjustment [
  | none ↦ adjustments os
  | some a ↦ (o.occurrence_date, a) ∷ adjustments os
]

pub record PreviewResult (Token : Type 0) : Type 0 where
  pub token : Token
  pub resource_id : ℕ
  pub tzdata_version : String
  pub would_create : List PreviewedOccurrence
  pub conflicts : List PreviewedOccurrence
  pub time_adjustments : List (ℕ × TimeAdjustment)
  pub conflict_dates : List ℕ
  pub adjustment_dates : List ℕ

-- occurrences[-1].start, of a list that an expansion never leaves empty
abbrev pub last_start : List Occurrence → ℕ
last_start [] = 0
last_start (o ∷ []) = o.start
last_start (o ∷ p ∷ os) = last_start (p ∷ os)

-- What the preview says, once the expansion and the horizon are checked.
abbrev pub preview_of :
    {Token : Type 0}
    → Jwt Token
    → Tzdata
    → ℕ
    → ℕ
    → SeriesDefinition
    → List Occurrence
    → List Booking
    → PreviewResult Token
preview_of j tz now user def occurrences rows =
    let conflict_dates = occurrence_conflicts def.resource occurrences rows in
    let adjustment_dates =
      map (λ o. o.occurrence_date) (select (λ o. is_some o.adjustment) occurrences) in
    record {
      token = issue_preview_token j (now / second) user def conflict_dates adjustment_dates;
      resource_id = def.resource;
      tzdata_version = tz.version;
      would_create =
          map previewed (select (λ o. not (date_in o.occurrence_date conflict_dates)) occurrences);
      conflicts =
          map previewed (select (λ o. date_in o.occurrence_date conflict_dates) occurrences);
      time_adjustments = adjustments occurrences;
      conflict_dates = conflict_dates;
      adjustment_dates = adjustment_dates;
    }

unfoldable pub preview_recurring_series :
    {Token : Type 0} → Jwt Token → Tzdata → ℕ → ℕ → SeriesDefinition → M (PreviewResult Token)
preview_recurring_series j tz now user def = do
  occurrences ← of_result (expand_occurrences (weekly tz def) def.occurrence_count)
  when (ltb (now + max_advance_horizon_days * day) (last_start occurrences)) (
      raise (
        Error.policy_validation "occurrence_count"
          "series extends beyond the 365-day advance horizon"))
  gets (λ t. preview_of j tz now user def occurrences t.bookings)
