-- ===== src/Series.antt =====
-- backend/kairos/bookings/recurring_series.py: the preview of a recurring series, the signed token
-- that carries it, and the confirmation that creates its occurrences.
pub mod Table
pub mod Token
pub mod Roundtrip
pub mod Preview
pub mod Confirm
pub mod Invariant
pub mod Confirmed
pub mod Outcome
pub mod Availability
pub mod Rolling
pub mod Rematerialization
pub mod Settled
pub mod Rerun
pub mod Jobs
pub mod Crash
use kairos_booking_engine.Base.{ℕ, String, Bool, List, ◌==◌, any}
use kairos_booking_engine.Recurrence.{Tzdata, Weekly}

-- What a series is defined by: the arguments of the preview, the claims of the token.
pub record SeriesDefinition : Type 0 where
  pub resource : ℕ
  pub timezone : String
  pub local_start_time : ℕ
  pub local_end_time : ℕ
  pub weekday : ℕ
  pub series_start_date : ℕ
  pub occurrence_count : ℕ

-- A set of dates, as the list of its members. Only membership is ever asked of it.
abbrev pub date_in : ℕ → List ℕ → Bool
date_in d dates = any (λ x. x == d) dates

-- The arguments that `expand_occurrences` takes from a definition, besides the count.
abbrev pub weekly : Tzdata → SeriesDefinition → Weekly
weekly tz def = record {
  zone = tz.zone_info def.timezone;
  local_start_time = def.local_start_time;
  local_end_time = def.local_end_time;
  series_start_date = def.series_start_date;
}
