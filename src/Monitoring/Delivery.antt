-- ===== src/Monitoring/Delivery.antt =====
-- `_execute_alert_email_delivery` of backend/kairos/core/alerting.py.
use kairos_booking_engine.Base.{ℕ, suc, String, Bool, Option, none, some, ◌==◌, find?}
use kairos_booking_engine.Errors.{Error}
use kairos_booking_engine.Schema.{AlertEvent, DeliveryStatus}
use kairos_booking_engine.Store.{Env, M, ◌>>=◌, ◌>>◌, raise, gets, serve}
use kairos_booking_engine.Store.Bookings.{or_missing}
use kairos_booking_engine.Monitoring.Alerts.{update_alerts}

abbrev pub alert_id : ℕ → AlertEvent → Bool
alert_id id a = a.id == id

abbrev pub with_email_attempt : AlertEvent → AlertEvent
with_email_attempt a = record a { email_attempts = suc a.email_attempts }

abbrev pub with_email_sent : ℕ → AlertEvent → AlertEvent
with_email_sent now a = record a { email_status = DeliveryStatus.sent; email_sent_at = some now }

abbrev pub with_email_failure : String → AlertEvent → AlertEvent
with_email_failure reason a = record a {
  email_status = DeliveryStatus.failed;
  email_last_error = some reason;
}

unfoldable pub record_email : Env → ℕ → Option String → M (Unit {0})
record_email e id none = update_alerts id (with_email_sent e.now)
record_email e id (some reason) =
    update_alerts id (with_email_failure reason) >> raise (Error.delivery_failure reason)

-- One attempt, with what the mail server did: `none`, or the text of what it raised.
unfoldable pub execute_alert_email_delivery : Env → ℕ → Option String → M (Unit {0})
unfolding record_email
execute_alert_email_delivery e id outcome = do
  serve e
  rows ← gets (λ t. t.alerts)
  event ← or_missing (find? (alert_id id) rows)
  update_alerts event.id with_email_attempt
  record_email e event.id outcome
