-- ===== src/Series/Table.antt =====
-- The table `recurring_series` of backend/kairos/bookings/models.py: its CHECK constraints, and the
-- statements that the series code runs on it. It has no audit trigger.
use kairos_booking_engine.Base.{
  ℕ, Bool, ◌&&◌, Option, none, some, List, ◌∷◌, ltb, leb, ◌==◌, if◌then◌else◌, any, select,
  update_where,
}
use kairos_booking_engine.Errors.{Sqlstate, Result, ok}
use kairos_booking_engine.Schema.{RecurringSeries, is_active_series}
use kairos_booking_engine.Recurrence.{Tzdata, validate_iana_zone, max_series_occurrences}
use kairos_booking_engine.Store.{State, M, ◌>>◌}
use kairos_booking_engine.Store.Bookings.{verdict}

-- recurring_series_weekday_check, recurring_series_occurrence_count_check, series_window_valid
abbrev pub series_check : RecurringSeries → Bool
series_check r =
    leb r.weekday 6
    && ((leb 1 r.occurrence_count && leb r.occurrence_count max_series_occurrences)
        && ltb r.local_start_time r.local_end_time)

abbrev pub series_insert_error : RecurringSeries → List RecurringSeries → Option Sqlstate
series_insert_error r rows =
    if series_check r
    then if any (λ x. x.id == r.id) rows then some Sqlstate.unique_violation else none
    else some Sqlstate.check_violation

abbrev pub write_series : State → List RecurringSeries → State
write_series s rows = record s { tables = record s.tables { series = rows } }

-- INSERT
unfoldable pub insert_series : RecurringSeries → M (Unit {0})
insert_series r s = verdict s (series_insert_error r s.series) tt (write_series s (r ∷ s.series))

abbrev pub of_result : {A : Type 0} → Result A → M A
of_result r s = (r, s)

-- `RecurringSeries.save`
unfoldable pub save_series : Tzdata → RecurringSeries → M (Unit {0})
save_series tz r = do of_result (validate_iana_zone tz r.timezone); insert_series r

-- RecurringSeries.objects.filter(id=..).update(..), of columns that no constraint speaks of
unfoldable pub update_series : ℕ → (RecurringSeries → RecurringSeries) → M (Unit {0})
update_series id f s = (ok tt, write_series s (update_where (λ r. r.id == id) f s.series))

-- status='active'
abbrev pub active_series : List RecurringSeries → List RecurringSeries
active_series = select (λ r. is_active_series r.status)
