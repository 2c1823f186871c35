-- ===== src/Series/Rolling.antt =====
-- `rolling_materialize_series` of backend/kairos/bookings/tasks.py.
use kairos_booking_engine.Base.{
  ℕ, suc, ◌+◌, ◌-◌, ◌*◌, String, Bool, ◌&&◌, List, [], ◌∷◌, ◌++◌, ltb, leb, if◌then◌else◌, select,
  length,
}
use kairos_booking_engine.Range.{day}
use kairos_booking_engine.Schema.{RecurringSeries, AuditActorType, CheckName, CheckStatus}
use kairos_booking_engine.Recurrence.{Tzdata, Weekly, Occurrence, expand_occurrences}
use kairos_booking_engine.Store.{M, ◌>>=◌, ◌>>◌, pure, gets, serve, record_check}
use kairos_booking_engine.Bookings.{create_booking}
use kairos_booking_engine.Waitlist.Cascade.{Envs}
use kairos_booking_engine.Series.Table.{of_result, update_series, active_series}
use kairos_booking_engine.Series.Preview.{max_advance_horizon_days}
use kairos_booking_engine.Series.Confirm.{occurrence_request, try_create, last_date, next_env}

-- The arguments that `expand_occurrences` takes from a row, besides the count.
abbrev pub weekly_of : Tzdata → RecurringSeries → Weekly
weekly_of tz r = record {
  zone = tz.zone_info r.timezone;
  local_start_time = r.local_start_time;
  local_end_time = r.local_end_time;
  series_start_date = r.series_start_date;
}

-- The reason is always "slot_unavailable".
pub record RolledConflict : Type 0 where
  pub series_id : ℕ
  pub occurrence_date : ℕ

pub record Rolled : Type 0 where
  pub series_extended : ℕ
  pub occurrences_created : ℕ
  pub conflicts : List RolledConflict

abbrev pub nothing_rolled : Rolled
nothing_rolled = record { series_extended = 0; occurrences_created = 0; conflicts = [] }

abbrev pub with_extension : Rolled → Rolled
with_extension x = record x { series_extended = x.series_extended + 1 }

abbrev pub with_occurrence : Rolled → Rolled
with_occurrence x = record x { occurrences_created = x.occurrences_created + 1 }

abbrev pub with_rolled_conflict : RecurringSeries → Occurrence → Rolled → Rolled
with_rolled_conflict r o x = record x {
  conflicts = x.conflicts ++ record { series_id = r.id; occurrence_date = o.occurrence_date } ∷ [];
}

-- The count of a row is at least one.
abbrev pub theoretical_last_date : RecurringSeries → ℕ
theoretical_last_date r = r.series_start_date + 7 * (r.occurrence_count - 1)

abbrev pub is_within_reach : ℕ → ℕ → Occurrence → Bool
is_within_reach through cutoff o = ltb through o.occurrence_date && leb o.start cutoff

abbrev pub to_materialize : ℕ → RecurringSeries → List Occurrence → List Occurrence
to_materialize now r =
    select (is_within_reach r.materialized_through (now + max_advance_horizon_days * day))

-- The inner loop: one attempt for each occurrence, by the system.
unfoldable pub roll_occurrences :
    Envs → RecurringSeries → String → List Occurrence → Rolled → M Rolled
roll_occurrences envs r request_id [] x = pure x
roll_occurrences envs r request_id (o ∷ os) x =
    let rest = roll_occurrences (next_env envs) r request_id os in
    try_create
      (create_booking (envs 0)
        (occurrence_request r.resource r.created_by r.id request_id AuditActorType.system o))
      (λ b. rest (with_occurrence x)) (rest (with_rolled_conflict r o x))

abbrev pub with_materialized_through : ℕ → RecurringSeries → RecurringSeries
with_materialized_through d r = record r { materialized_through = d }

-- `if not to_materialize: continue`; otherwise the attempts, and the new watermark, which is the
-- date of the last of them, be it created or in conflict.
unfoldable pub roll_pending : Envs → RecurringSeries → String → List Occurrence → Rolled → M Rolled
unfolding roll_occurrences
roll_pending envs r request_id [] x = pure x
roll_pending envs r request_id (o ∷ os) x = do
  y ← roll_occurrences (next_env envs) r request_id (o ∷ os) (with_extension x)
  serve (envs 0)
  update_series r.id (with_materialized_through (last_date (o ∷ os)))
  pure y

unfoldable pub roll_series : Tzdata → Envs → ℕ → String → RecurringSeries → Rolled → M Rolled
unfolding roll_pending
roll_series tz envs now request_id r x =
    if leb (theoretical_last_date r) r.materialized_through
    then pure x
    else (of_result (expand_occurrences (weekly_of tz r) r.occurrence_count) >>= λ occurrences.
        roll_pending envs r request_id (to_materialize now r occurrences) x)

-- The world decides of each series in turn.
abbrev pub next_series : (ℕ → Envs) → ℕ → Envs
next_series envs n = envs (suc n)

unfoldable pub roll_all :
    Tzdata → (ℕ → Envs) → ℕ → String → List RecurringSeries → Rolled → M Rolled
unfolding roll_series
roll_all tz envs now request_id [] x = pure x
roll_all tz envs now request_id (r ∷ rs) x = do
  y ← roll_series tz (envs 0) now request_id r x
  roll_all tz (next_series envs) now request_id rs y

abbrev pub rolled_status : List RolledConflict → CheckStatus
rolled_status [] = CheckStatus.passed
rolled_status (c ∷ cs) = CheckStatus.failed

unfoldable pub rolling_materialize_series : Tzdata → (ℕ → Envs) → ℕ → String → M Rolled
unfolding roll_all
rolling_materialize_series tz envs now request_id = do
  rows ← gets (λ t. active_series t.series)
  x ← roll_all tz envs now request_id rows nothing_rolled
  record_check (record {
    check_name = CheckName.series_materialization;
    status = rolled_status x.conflicts;
    run_at = now;
    findings = x.series_extended ∷ x.occurrences_created ∷ length x.conflicts ∷ [];
  })
  pure x
