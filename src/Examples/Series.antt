-- ===== src/Examples/Series.antt =====
-- The theorems about backend/kairos/bookings/recurrence.py, recurring_series.py and tasks.py at a
-- zone that is UTC, with a series of weekly occurrences in room 7.
use kairos_booking_engine.Base.{
  Option, ℕ, ◌+◌, ◌*◌, ◌≤◌, ◌<◌, true, false, ◌≡◌, refl, none, some, List, [], ◌∷◌, arith, length,
  leb, ltb, ◌&&◌, if◌then◌else◌, All, inl,
}
use kairos_booking_engine.Range.{day}
use kairos_booking_engine.Errors.{ok}
use kairos_booking_engine.Schema.{RecurringSeries, RecurringSeriesStatus}
use kairos_booking_engine.Store.{State, atomic}
use kairos_booking_engine.Store.Bookings.{insert_booking, delete_bookings, get_booking}
use kairos_booking_engine.Bookings.{
  create_booking, handle_write_database_error, write_database_error,
}
use kairos_booking_engine.Waitlist.Cascade.{Envs}
use kairos_booking_engine.Recurrence.{
  Zone, Tzdata, Occurrence, Weekly, occurrence_at, materialize_occurrence, occurrences_from,
  expand_occurrences, max_series_occurrences, validate_iana_zone,
}
use kairos_booking_engine.Recurrence.Dates.{get_elem?, expand_occurrences_dates}
use kairos_booking_engine.Recurrence.WallClock.{IsZone, IsAnnounced, expand_occurrences-IsAnnounced}
use kairos_booking_engine.Series.{SeriesDefinition, date_in}
use kairos_booking_engine.Series.Token.{
  Claims, Jwt, IsJwt, DecodedPreview, issue_preview_token, decode_preview_token, Text,
}
use kairos_booking_engine.Series.Roundtrip.{in_text_order, decode_preview_token-issue_preview_token}
use kairos_booking_engine.Series.Preview.{
  previewed, last_start, max_advance_horizon_days, preview_recurring_series, preview_of,
}
use kairos_booking_engine.Series.Availability.{preview_recurring_series_answer}
use kairos_booking_engine.Series.Confirm.{
  ConfirmOutcome, confirm_recurring_series, confirm_occurrences, attempt_occurrences,
}
use kairos_booking_engine.Series.Outcome.{IsReport, confirm_recurring_series-IsReport}
use kairos_booking_engine.Series.Rolling.{Rolled, nothing_rolled, rolling_materialize_series}
use kairos_booking_engine.Series.Rerun.{rolling_materialize_series_twice}
use kairos_booking_engine.Series.Table.{save_series, insert_series, update_series}
use kairos_booking_engine.Examples.Data.{calm, state, booked}
use kairos_booking_engine.Examples.Authorization.{resource_row}

abbrev pub utc : Zone
utc = record { to_utc = λ f n. n; to_local = λ u. u }

utc-IsZone : IsZone utc
utc-IsZone = record { reads_back = λ n. inl refl; exists = λ u. refl }

abbrev pub tz : Tzdata
tz = record { available_timezones = λ s. true; zone_info = λ s. utc; version = "2026a" }

abbrev every_week : Weekly
every_week = record {
  zone = utc;
  local_start_time = 150;
  local_end_time = 180;
  series_start_date = 0;
}

abbrev two_weeks : List Occurrence
two_weeks = occurrence_at every_week 0 ∷ occurrence_at every_week 1 ∷ []

expand_occurrences_dates_example :
    (1 ≤ 2)
    × (2 ≤ max_series_occurrences)
    × (length two_weeks ≡ 2)
    × ((k : ℕ) → k < 2 → get_elem? two_weeks k ≡ some (occurrence_at every_week k))
    × ((k : ℕ) (o : Occurrence)
        → k < 2
        → get_elem? two_weeks k ≡ some o
        → o.occurrence_date ≡ 0 + 7 * k)
unfolding expand_occurrences occurrences_from
expand_occurrences_dates_example = expand_occurrences_dates every_week 2 two_weeks refl

expand_occurrences-IsAnnounced_example : All (IsAnnounced utc 150) two_weeks
unfolding expand_occurrences occurrences_from
expand_occurrences-IsAnnounced_example =
    expand_occurrences-IsAnnounced every_week 2 two_weeks utc-IsZone (omega arith) refl

abbrev pub definition : SeriesDefinition
definition = record {
  resource = 7;
  timezone = "UTC";
  local_start_time = 150;
  local_end_time = 180;
  weekday = 3;
  series_start_date = 0;
  occurrence_count = 2;
}

-- A text of one code point, which is the value.
abbrev one_code : ℕ → Text
one_code n = n ∷ []

abbrev value_of : Text → Option ℕ
value_of [] = none
value_of (n ∷ []) = some n
value_of (n ∷ m ∷ ms) = none

-- Tokens that are their claims.
abbrev pub jwt : Jwt Claims
jwt = record {
  encode = λ c. c;
  decode = λ now c. if leb c.iat now && ltb now c.exp then some c else none;
  uuid_text = one_code;
  uuid_of = value_of;
  date_text = one_code;
  date_of_text = value_of;
  time_text = one_code;
  time_of_text = value_of;
}

pub jwt-IsJwt : IsJwt jwt
jwt-IsJwt = record {
  accepts = λ c now. refl;
  reads_uuid = λ n. refl;
  reads_date = λ n. refl;
  reads_time = λ n. refl;
}

decode_preview_token-issue_preview_token_example :
    (decode_preview_token jwt 899 (issue_preview_token jwt 0 4 definition (7 ∷ 0 ∷ []) []) 4
      ≡ ok (record { definition = definition; conflict_dates = 0 ∷ 7 ∷ []; adjustment_dates = [] }))
    × ((d : ℕ) → date_in d (0 ∷ 7 ∷ []) ≡ date_in d (7 ∷ 0 ∷ []))
    × ((d : ℕ) → date_in d [] ≡ date_in d [])
unfolding in_text_order
decode_preview_token-issue_preview_token_example =
    decode_preview_token-issue_preview_token jwt 0 899 4 4 definition (7 ∷ 0 ∷ []) [] jwt-IsJwt

preview_recurring_series_answer_example :
    ((preview_recurring_series jwt tz 10 4 definition (state false booked)).1 ≡ state false booked)
    × ((preview_of jwt tz 10 4 definition two_weeks booked.bookings).conflicts
        ≡ previewed (occurrence_at every_week 0) ∷ [])
    × ((preview_of jwt tz 10 4 definition two_weeks booked.bookings).would_create
        ≡ previewed (occurrence_at every_week 1) ∷ [])
    × (last_start two_weeks ≤ 10 + max_advance_horizon_days * day)
unfolding preview_recurring_series expand_occurrences occurrences_from materialize_occurrence
preview_recurring_series_answer_example =
    preview_recurring_series_answer jwt tz 10 4 definition (state false booked) two_weeks
      (preview_of jwt tz 10 4 definition two_weeks booked.bookings) refl refl

abbrev pub decoded : DecodedPreview
decoded = record { definition = definition; conflict_dates = []; adjustment_dates = [] }

-- The identifiers that are drawn from `first` on.
abbrev pub world : ℕ → Envs
world first n = calm 10 (first + n)

-- The first occurrence meets the booking of 100-200, the second is made.
abbrev confirmed : ConfirmOutcome
confirmed = record {
  series_id = 100;
  attempts = record {
    created =
        record { booking_id = 102; occurrence_date = 7; start = 7 * day + 150; end = 7 * day + 180 }
        ∷ [];
    conflicts = record { occurrence_date = 0; acknowledged = false } ∷ [];
  };
}

confirm_recurring_series-IsReport_example :
    IsReport 7 4 100 [] two_weeks confirmed.attempts
      (confirm_recurring_series tz
        (resource_row 7 none ∷ [])
        (world 100)
        4
        decoded
        "r"
        (state false booked)).1.tables
unfolding confirm_recurring_series expand_occurrences occurrences_from attempt_occurrences
    confirm_occurrences save_series validate_iana_zone insert_series create_booking atomic
    delete_bookings insert_booking materialize_occurrence handle_write_database_error
    write_database_error get_booking
confirm_recurring_series-IsReport_example =
    confirm_recurring_series-IsReport tz (resource_row 7 none ∷ []) (world 100) 4 decoded "r"
      (state false booked) confirmed two_weeks refl refl

abbrev series_row : RecurringSeries
series_row = record {
  id = 50;
  resource = 7;
  created_by = 3;
  timezone = "UTC";
  local_start_time = 150;
  local_end_time = 180;
  weekday = 3;
  series_start_date = 0;
  occurrence_count = 3;
  tzdata_version = "2026a";
  materialized_through = 0;
  status = RecurringSeriesStatus.active;
}

abbrev with_series : State
with_series = state false (record booked { series = series_row ∷ [] })

abbrev rolled : Rolled
rolled = record { series_extended = 1; occurrences_created = 2; conflicts = [] }

rolling_materialize_series_twice_example :
    let t = (rolling_materialize_series tz (λ n. world (100 + 10 * n)) 10 "r" with_series).1 in
    let u = (rolling_materialize_series tz (λ n. world (200 + 10 * n)) 10 "r" t).1 in
    ((rolling_materialize_series tz (λ n. world (200 + 10 * n)) 10 "r" t).0 ≡ ok nothing_rolled)
    × (u.bookings ≡ t.bookings)
    × (u.series ≡ t.series)
unfolding rolling_materialize_series expand_occurrences materialize_occurrence create_booking atomic
    delete_bookings insert_booking get_booking update_series
rolling_materialize_series_twice_example =
    rolling_materialize_series_twice tz 10 "r" (λ n. world (100 + 10 * n))
      (λ n. world (200 + 10 * n)) with_series rolled refl refl refl
