-- ===== src/Examples/Monitoring.antt =====
-- The theorems about backend/kairos/core/alerting.py, notifications.py and rate_limit.py at one
-- alert, one notification and the bucket of the bookings.
use kairos_booking_engine.Base.{
  ◌+◌, ◌-◌, ◌*◌, ◌≤◌, true, false, ◌≡◌, refl, none, some, [], ◌∷◌, arith,
}
use kairos_booking_engine.Schema.{AlertKey, NotificationType}
use kairos_booking_engine.Store.{Message}
use kairos_booking_engine.Monitoring.Alerts.{key_code, fire_or_resolve}
use kairos_booking_engine.Monitoring.Edges.{is_firing, IsLatched, fire_or_resolve_latch}
use kairos_booking_engine.Notifications.{Mail}
use kairos_booking_engine.Notifications.Delivery.{Attempt, deliver}
use kairos_booking_engine.Notifications.Attempts.{IsLogged, deliver-IsLogged}
use kairos_booking_engine.RateLimit.{Bucket, parts, booking_create_bucket, token_bucket}
use kairos_booking_engine.RateLimit.Admission.{admitted, admitted_bound, retry_after_suffices}
use kairos_booking_engine.Examples.Data.{calm, state, booked}

fire_or_resolve_latch_example :
    let t =
      (fire_or_resolve
        (calm 10 100)
        true
        AlertKey.reconciliation
        true
        "overlap"
        (state false booked)).1 in
    (is_firing AlertKey.reconciliation t ≡ true)
    × (t.sent ≡ Message.send_alert_email 100 ∷ [])
    × IsLatched t.alerts
unfolding key_code
fire_or_resolve_latch_example =
    fire_or_resolve_latch (calm 10 100) AlertKey.reconciliation AlertKey.reconciliation true
      "overlap" (state false booked) (record { ids = refl; single = refl }) refl refl

abbrev mail : Mail
mail = record {
  notification_type = NotificationType.offer_created;
  recipient_user_id = 4;
  recipient_email = "b@example.org";
  subject = "A slot is free";
  body = "Accept it in time.";
  request_id = "r";
}

-- The mail server refuses the first attempt and takes the second.
abbrev refused : Attempt
refused = record { env = calm 10 0; outcome = some "busy" }

abbrev taken : Attempt
taken = record { env = calm 20 0; outcome = none }

deliver-IsLogged_example :
    IsLogged 5 2 true [] (deliver 5 mail refused (taken ∷ []) (state false booked))
deliver-IsLogged_example =
    deliver-IsLogged 5 mail refused (taken ∷ []) (state false booked) refl refl

-- An empty bucket at the time 0.
abbrev drained : Bucket
drained = record { tokens = 0; last_refill = 0 }

admitted_bound_example :
    admitted booking_create_bucket (3_000_000 ∷ 6_000_000 ∷ []) drained
      * parts booking_create_bucket
    ≤ 0 + (6_000_000 - 0) * 10
admitted_bound_example =
    admitted_bound booking_create_bucket (3_000_000 ∷ 6_000_000 ∷ []) drained
      (omega arith, (omega arith, tt))

retry_after_suffices_example :
    (token_bucket booking_create_bucket 6_000_000 1
      (some (token_bucket booking_create_bucket 0 1 (some drained)).bucket)).allowed
    ≡ true
unfolding token_bucket
retry_after_suffices_example =
    retry_after_suffices booking_create_bucket 0 6_000_000 1 (some drained) refl (omega arith)
      (omega arith)
