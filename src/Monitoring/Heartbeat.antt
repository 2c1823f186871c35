-- ===== src/Monitoring/Heartbeat.antt =====
-- `heartbeat_is_stale` of backend/kairos/core/heartbeat.py and the checks that delegate to it.
use kairos_booking_engine.Base.{
  ℕ, ◌+◌, ◌*◌, ◌≡◌, refl, Bool, true, not, ◌&&◌, Option, none, some, List, [], ◌∷◌, arith, ltb, leb,
  if◌then◌else◌, select, any, Option-cases, inl, inr,
}
use kairos_booking_engine.Range.{second}
use kairos_booking_engine.Schema.{CheckName, SystemCheckRun}

abbrev pub check_code : CheckName → ℕ
check_code CheckName.schema_assertion = 0
check_code CheckName.reconciliation = 1
check_code CheckName.hold_reaper = 2
check_code CheckName.offer_cascade = 3
check_code CheckName.series_materialization = 4
check_code CheckName.tzdata_rematerialization = 5

abbrev pub is_check : CheckName → SystemCheckRun → Bool
is_check name c =
    leb (check_code name) (check_code c.check_name)
    && leb (check_code c.check_name) (check_code name)

-- order_by("-run_at").first()
abbrev pub later_run : SystemCheckRun → Option SystemCheckRun → SystemCheckRun
later_run c none = c
later_run c (some d) = if leb d.run_at c.run_at then c else d

abbrev pub latest_run : List SystemCheckRun → Option SystemCheckRun
latest_run [] = none
latest_run (c ∷ cs) = some (later_run c (latest_run cs))

unfoldable pub latest_check : CheckName → List SystemCheckRun → Option SystemCheckRun
latest_check name checks = latest_run (select (is_check name) checks)

-- (now - latest.run_at).total_seconds() > threshold_seconds; never run counts as stale
unfoldable pub heartbeat_is_stale : CheckName → ℕ → ℕ → List SystemCheckRun → Bool
unfolding latest_check
heartbeat_is_stale name threshold_seconds now checks = elim (latest_check name checks) [
  | none ↦ true
  | some latest ↦ ltb (latest.run_at + threshold_seconds * second) now
]

-- The thresholds of backend/kairos/core/constants.py, by default.
abbrev pub schema_assertion_stale_threshold_seconds : ℕ
schema_assertion_stale_threshold_seconds = 7200

abbrev pub hold_reaper_stale_threshold_seconds : ℕ
hold_reaper_stale_threshold_seconds = 90

abbrev pub offer_cascade_stale_threshold_seconds : ℕ
offer_cascade_stale_threshold_seconds = 90

abbrev pub series_materialization_stale_threshold_seconds : ℕ
series_materialization_stale_threshold_seconds = 7200

abbrev pub tzdata_rematerialization_stale_threshold_seconds : ℕ
tzdata_rematerialization_stale_threshold_seconds = 7200

abbrev pub schema_assertion_heartbeat_is_stale : ℕ → List SystemCheckRun → Bool
schema_assertion_heartbeat_is_stale =
    heartbeat_is_stale CheckName.schema_assertion schema_assertion_stale_threshold_seconds

abbrev pub hold_reaper_heartbeat_is_stale : ℕ → List SystemCheckRun → Bool
hold_reaper_heartbeat_is_stale =
    heartbeat_is_stale CheckName.hold_reaper hold_reaper_stale_threshold_seconds

abbrev pub offer_cascade_heartbeat_is_stale : ℕ → List SystemCheckRun → Bool
offer_cascade_heartbeat_is_stale =
    heartbeat_is_stale CheckName.offer_cascade offer_cascade_stale_threshold_seconds

abbrev pub series_materialization_heartbeat_is_stale : ℕ → List SystemCheckRun → Bool
series_materialization_heartbeat_is_stale =
    heartbeat_is_stale CheckName.series_materialization
      series_materialization_stale_threshold_seconds

abbrev pub tzdata_rematerialization_heartbeat_is_stale : ℕ → List SystemCheckRun → Bool
tzdata_rematerialization_heartbeat_is_stale =
    heartbeat_is_stale CheckName.tzdata_rematerialization
      tzdata_rematerialization_stale_threshold_seconds

-- A run that is no older than the threshold.
abbrev pub is_recent : ℕ → ℕ → SystemCheckRun → Bool
is_recent threshold_seconds now c = leb now (c.run_at + threshold_seconds * second)

latest_run-recent :
    (threshold now : ℕ) (cs : List SystemCheckRun)
    → elim (latest_run cs) [
      | none ↦ true
      | some latest ↦ ltb (latest.run_at + threshold * second) now
    ]
      ≡ not (any (is_recent threshold now) cs)
latest_run-recent threshold now [] = refl
latest_run-recent threshold now (c ∷ cs) = elim (Option-cases (latest_run cs)) [
  | inl e ↦ ground (arith, e, latest_run-recent threshold now cs)
  | inr (d, e) ↦ ground (arith, e, latest_run-recent threshold now cs)
]

-- A check is stale exactly where none of its runs, in whatever order they are stored, lies within
-- the threshold.
pub heartbeat_is_stale_lem :
    (name : CheckName) (threshold now : ℕ) (checks : List SystemCheckRun)
    → heartbeat_is_stale name threshold now checks
      ≡ not (any (is_recent threshold now) (select (is_check name) checks))
unfolding heartbeat_is_stale
heartbeat_is_stale_lem name threshold now checks =
    latest_run-recent threshold now (select (is_check name) checks)
