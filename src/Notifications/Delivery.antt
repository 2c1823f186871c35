-- ===== src/Notifications/Delivery.antt =====
-- `_execute_notification_delivery` of backend/kairos/core/notifications.py, with the table
-- `notification_log` of backend/kairos/core/models.py.
use kairos_booking_engine.Base.{
  ℕ, suc, String, Bool, Option, none, some, List, [], ◌∷◌, ◌==◌, if◌then◌else◌, any, update_where,
}
use kairos_booking_engine.Errors.{Error, Result, ok, err}
use kairos_booking_engine.Schema.{NotificationLog, DeliveryStatus}
use kairos_booking_engine.Store.{State, Env, M, ◌>>◌, raise, serve}
use kairos_booking_engine.Notifications.{Mail}

abbrev pub log_id : ℕ → NotificationLog → Bool
log_id id l = l.id == id

abbrev pub write_log : State → List NotificationLog → State
write_log s rows = record s { tables = record s.tables { notifications = rows } }

abbrev pub new_log : Env → ℕ → Mail → NotificationLog
new_log e id m = record {
  id = id;
  notification_type = m.notification_type;
  recipient_user_id = m.recipient_user_id;
  recipient_email = m.recipient_email;
  subject = m.subject;
  body = m.body;
  status = DeliveryStatus.pending;
  attempts = 0;
  last_error = none;
  request_id = m.request_id;
  created_at = e.transaction_time;
  sent_at = none;
}

-- NotificationLog.objects.get_or_create(id=.., defaults=..)
unfoldable pub get_or_create_log : Env → ℕ → Mail → M (Unit {0})
get_or_create_log e id m s =
    if any (log_id id) s.notifications
    then (ok tt, s)
    else (ok tt, write_log s (new_log e id m ∷ s.notifications))

-- NotificationLog.objects.filter(id=..).update(..)
unfoldable pub update_log : ℕ → (NotificationLog → NotificationLog) → M (Unit {0})
update_log id f s = (ok tt, write_log s (update_where (log_id id) f s.notifications))

abbrev pub with_attempt : NotificationLog → NotificationLog
with_attempt l = record l { attempts = suc l.attempts }

abbrev pub with_sent : ℕ → NotificationLog → NotificationLog
with_sent now l = record l { status = DeliveryStatus.sent; sent_at = some now }

abbrev pub with_failure : String → NotificationLog → NotificationLog
with_failure reason l = record l { status = DeliveryStatus.failed; last_error = some reason }

-- What `NotificationService.send` did: `none`, or the text of the exception that it raised. It is
-- recorded and raised again, for the next attempt to be scheduled.
unfoldable pub record_delivery : Env → ℕ → Option String → M (Unit {0})
unfolding update_log
record_delivery e id none = update_log id (with_sent e.now)
record_delivery e id (some reason) =
    update_log id (with_failure reason) >> raise (Error.delivery_failure reason)

unfoldable pub execute_notification_delivery : Env → ℕ → Mail → Option String → M (Unit {0})
unfolding get_or_create_log update_log record_delivery
execute_notification_delivery e id m outcome = do
  serve e
  get_or_create_log e id m
  update_log id with_attempt
  record_delivery e id outcome

-- One attempt of the task: its environment, and what the mail server answers.
pub record Attempt : Type 0 where
  pub env : Env
  pub outcome : Option String

abbrev pub retry : Result (Unit {0}) × State → M (Unit {0}) → Result (Unit {0}) × State
retry (ok u, s) again = (ok u, s)
retry (err e, s) again = again s

-- The first attempt and those that `autoretry_for` schedules after it, each where the one before it
-- raised. What the last of them raises is final.
unfoldable pub deliver : ℕ → Mail → Attempt → List Attempt → M (Unit {0})
unfolding execute_notification_delivery
deliver id m a [] = execute_notification_delivery a.env id m a.outcome
deliver id m a (b ∷ rest) =
    λ s. retry (execute_notification_delivery a.env id m a.outcome s) (deliver id m b rest)
