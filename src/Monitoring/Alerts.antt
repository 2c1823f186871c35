-- ===== src/Monitoring/Alerts.antt =====
-- `fire_or_resolve` and `evaluate_alerts` of backend/kairos/core/alerting.py, and the table
-- `alert_event` of backend/kairos/core/models.py.
use kairos_booking_engine.Base.{
  ℕ, suc, String, Bool, true, false, ◌&&◌, ◌||◌, Option, none, some, List, [], ◌∷◌, ◌++◌, ltb, ◌==◌,
  if◌then◌else◌, is_none, any, find?, update_where, length,
}
use kairos_booking_engine.Errors.{Sqlstate, ok}
use kairos_booking_engine.Schema.{
  AlertEvent, AlertKey, AlertSeverity, DeliveryStatus, CheckName, CheckStatus, SystemCheckRun,
}
use kairos_booking_engine.Store.{
  Tables, State, Env, M, Message, ◌>>=◌, ◌>>◌, pure, gets, serve, send, when,
}
use kairos_booking_engine.Store.Bookings.{verdict}
use kairos_booking_engine.Waitlist.Cascade.{Envs}
use kairos_booking_engine.Waitlist.Reaper.{stuck_held_bookings, stuck_hold_grace_seconds}
use kairos_booking_engine.Monitoring.Heartbeat.{
  latest_check, schema_assertion_heartbeat_is_stale, hold_reaper_heartbeat_is_stale,
  series_materialization_heartbeat_is_stale, tzdata_rematerialization_heartbeat_is_stale,
}

unfoldable pub key_code : AlertKey → ℕ
key_code AlertKey.schema_assertion = 0
key_code AlertKey.reconciliation = 1
key_code AlertKey.hold_reaper = 2
key_code AlertKey.offer_cascade = 3
key_code AlertKey.series_materialization = 4
key_code AlertKey.tzdata_rematerialization = 5
key_code AlertKey.audit_actor_unknown = 6
key_code AlertKey.gist_write_throughput = 7

-- ALERT_SEVERITY
abbrev pub alert_severity : AlertKey → AlertSeverity
alert_severity AlertKey.schema_assertion = AlertSeverity.sev_1
alert_severity AlertKey.reconciliation = AlertSeverity.sev_1
alert_severity AlertKey.hold_reaper = AlertSeverity.sev_2
alert_severity AlertKey.offer_cascade = AlertSeverity.sev_2
alert_severity AlertKey.series_materialization = AlertSeverity.sev_2
alert_severity AlertKey.tzdata_rematerialization = AlertSeverity.sev_2
alert_severity AlertKey.audit_actor_unknown = AlertSeverity.sev_3
alert_severity AlertKey.gist_write_throughput = AlertSeverity.sev_3

-- alert_key=.., resolved_at__isnull=True
abbrev pub is_open : AlertKey → AlertEvent → Bool
is_open key a = key_code a.alert_key == key_code key && is_none a.resolved_at

-- uniq_open_alert_per_key
abbrev pub open_clash : AlertEvent → AlertEvent → Bool
open_clash a b =
    key_code b.alert_key == key_code a.alert_key && (is_none a.resolved_at && is_none b.resolved_at)

abbrev pub alert_insert_error : AlertEvent → List AlertEvent → Option Sqlstate
alert_insert_error a rows =
    if any (λ r. r.id == a.id) rows || any (open_clash a) rows
    then some Sqlstate.unique_violation
    else none

abbrev pub write_alerts : State → List AlertEvent → State
write_alerts s rows = record s { tables = record s.tables { alerts = rows } }

-- INSERT
unfoldable pub insert_alert : AlertEvent → M (Unit {0})
insert_alert a s = verdict s (alert_insert_error a s.alerts) tt (write_alerts s (a ∷ s.alerts))

-- AlertEvent.objects.filter(id=..).update(..), which opens no alert again
unfoldable pub update_alerts : ℕ → (AlertEvent → AlertEvent) → M (Unit {0})
update_alerts id f s = (ok tt, write_alerts s (update_where (λ a. a.id == id) f s.alerts))

abbrev pub resolved_now : ℕ → AlertEvent → AlertEvent
resolved_now now a = record a { resolved_at = some now }

abbrev pub new_alert : Env → AlertKey → String → AlertEvent
new_alert e key message = record {
  id = e.uuid;
  alert_key = key;
  severity = alert_severity key;
  message = message;
  fired_at = e.transaction_time;
  resolved_at = none;
  email_status = DeliveryStatus.pending;
  email_attempts = 0;
  email_last_error = none;
  email_sent_at = none;
}

-- `_dispatch_alert_email`: where the broker is not reached the failure is logged, and no more.
abbrev pub dispatch_alert_email : Bool → ℕ → M (Unit {0})
dispatch_alert_email broker_up id = when broker_up (send (Message.send_alert_email id))

-- The four cases, by the open event that was found.
unfoldable pub fire_case :
    Env → Bool → AlertKey → Bool → String → Option AlertEvent → M (Option AlertEvent)
fire_case e broker_up key false message none = pure none
fire_case e broker_up key false message (some open_event) = do
  update_alerts open_event.id (resolved_now e.now)
  pure none
fire_case e broker_up key true message (some open_event) = pure none
fire_case e broker_up key true message none = do
  insert_alert (new_alert e key message)
  dispatch_alert_email broker_up e.uuid
  pure (some (new_alert e key message))

unfoldable pub fire_or_resolve : Env → Bool → AlertKey → Bool → String → M (Option AlertEvent)
unfolding fire_case
fire_or_resolve e broker_up key active message = do
  serve e
  open_event ← gets (λ t. find? (is_open key) t.alerts)
  fire_case e broker_up key active message open_event

-- latest is not None and latest.status == FAIL
abbrev pub is_failed_run : Option SystemCheckRun → Bool
is_failed_run none = false
is_failed_run (some c) = elim c.status [ CheckStatus.failed ↦ true | CheckStatus.passed ↦ false ]

abbrev pub failing : CheckName → Tables → Bool
failing name t = is_failed_run (latest_check name t.checks)

-- BOOKING_WRITE_P95_ALERT_THRESHOLD_MS of backend/kairos/core/constants.py.
abbrev pub booking_write_p95_alert_threshold_ms : ℕ
booking_write_p95_alert_threshold_ms = 1500

-- What `evaluate_alerts` reads besides the tables of the model: the number of recent rows of
-- `audit_log` whose actor type is 'unknown', and the P95 of the booking writes in milliseconds.
pub record Readings : Type 0 where
  pub unknown_actors : ℕ
  pub write_p95 : Option ℕ

-- The condition of each alert.
unfoldable pub alert_condition : AlertKey → ℕ → Readings → Tables → Bool
alert_condition AlertKey.schema_assertion now r t =
    failing CheckName.schema_assertion t || schema_assertion_heartbeat_is_stale now t.checks
alert_condition AlertKey.reconciliation now r t = failing CheckName.reconciliation t
alert_condition AlertKey.hold_reaper now r t = hold_reaper_heartbeat_is_stale now t.checks
alert_condition AlertKey.offer_cascade now r t =
    ltb 0 (length (stuck_held_bookings now stuck_hold_grace_seconds t))
alert_condition AlertKey.series_materialization now r t =
    series_materialization_heartbeat_is_stale now t.checks
alert_condition AlertKey.tzdata_rematerialization now r t =
    failing CheckName.tzdata_rematerialization t
    || tzdata_rematerialization_heartbeat_is_stale now t.checks
alert_condition AlertKey.audit_actor_unknown now r t = ltb 0 r.unknown_actors
alert_condition AlertKey.gist_write_throughput now r t = elim r.write_p95 [
  | none ↦ false
  | some p ↦ ltb booking_write_p95_alert_threshold_ms p
]

-- The order of the eight evaluations.
abbrev pub alert_keys : List AlertKey
alert_keys =
    AlertKey.schema_assertion ∷ AlertKey.reconciliation ∷ AlertKey.hold_reaper
    ∷ AlertKey.offer_cascade ∷ AlertKey.series_materialization ∷ AlertKey.tzdata_rematerialization
    ∷ AlertKey.audit_actor_unknown ∷ AlertKey.gist_write_throughput ∷ []

-- if event is not None: fired.append(event)
abbrev pub appended : List AlertEvent → Option AlertEvent → List AlertEvent
appended fired none = fired
appended fired (some event) = fired ++ event ∷ []

-- The texts of the alerts are an argument: no decision reads them.
unfoldable pub evaluate_keys :
    Envs
    → Bool
    → ℕ
    → Readings
    → (AlertKey → String)
    → List AlertKey
    → List AlertEvent
    → M (List AlertEvent)
unfolding fire_or_resolve alert_condition
evaluate_keys envs broker_up now r message [] fired = pure fired
evaluate_keys envs broker_up now r message (key ∷ keys) fired = do
  active ← gets (alert_condition key now r)
  event ← fire_or_resolve (envs 0) broker_up key active (message key)
  evaluate_keys (λ n. envs (suc n)) broker_up now r message keys (appended fired event)

unfoldable pub evaluate_alerts :
    Envs → Bool → ℕ → Readings → (AlertKey → String) → M (List AlertEvent)
unfolding evaluate_keys
evaluate_alerts envs broker_up now r message =
    evaluate_keys envs broker_up now r message alert_keys []
