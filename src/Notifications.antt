-- ===== src/Notifications.antt =====
-- backend/kairos/core/notifications.py: the texts of the notifications, and their delivery.
pub mod Delivery
pub mod Attempts
use kairos_booking_engine.Base.{ℕ, String, str_append, Option, none, some, List, [], ◌∷◌}
use kairos_booking_engine.Schema.{NotificationType}
use kairos_booking_engine.Store.{Message}

-- A user, as a recipient.
pub record Recipient : Type 0 where
  pub id : ℕ
  pub email : String

-- The arguments of `dispatch_notification`; the JSON context, which repeats them, is left out.
pub record Mail : Type 0 where
  pub notification_type : NotificationType
  pub recipient_user_id : ℕ
  pub recipient_email : String
  pub subject : String
  pub body : String
  pub request_id : String

abbrev pub concat : List String → String
concat [] = ""
concat (t ∷ ts) = str_append t (concat ts)

-- `_notify`
abbrev pub notify : Recipient → NotificationType → List String → List String → String → Mail
notify recipient type subject body request_id = record {
  notification_type = type;
  recipient_user_id = recipient.id;
  recipient_email = recipient.email;
  subject = concat subject;
  body = concat body;
  request_id = request_id;
}

-- How an instant is written, `_iso`: its ISO 8601 text with a final Z; and how a number and a date
-- are written.
pub record Writing : Type 0 where
  pub iso : ℕ → String
  pub number : ℕ → String
  pub date : ℕ → String

module _ (w : Writing) where
  unfoldable pub notify_offer_created : Recipient → String → ℕ → ℕ → ℕ → String → Mail
  notify_offer_created recipient resource_name start end expires_at request_id =
      notify recipient NotificationType.offer_created
        ("A slot is available for " ∷ resource_name ∷ " — respond by " ∷ w.iso expires_at ∷ [])
        (resource_name
          ∷ " is available for "
          ∷ w.iso start
          ∷ " to "
          ∷ w.iso end
          ∷ ".\n\nThis offer expires at "
          ∷ w.iso expires_at
          ∷ ". Confirm before then or it will be released to the next person on the waitlist."
          ∷ [])
        request_id

  unfoldable pub notify_admin_cancellation : Recipient → String → ℕ → ℕ → String → String → Mail
  notify_admin_cancellation recipient resource_name start end reason request_id =
      notify recipient NotificationType.admin_cancellation
        ("Your booking for " ∷ resource_name ∷ " was cancelled by an administrator" ∷ [])
        ("Your booking for "
          ∷ resource_name
          ∷ " ("
          ∷ w.iso start
          ∷ " to "
          ∷ w.iso end
          ∷ ") was cancelled by an administrator.\n\nReason given: "
          ∷ reason
          ∷ [])
        request_id

  unfoldable pub notify_rematerialization : Recipient → String → ℕ → ℕ → ℕ → ℕ → String → Mail
  notify_rematerialization recipient resource_name old_start old_end new_start new_end request_id =
      notify recipient NotificationType.rematerialized
        ("A recurring booking time for " ∷ resource_name ∷ " has changed" ∷ [])
        ("A timezone rule update changed one of your recurring booking times for "
          ∷ resource_name
          ∷ ".\n\nPreviously: "
          ∷ w.iso old_start
          ∷ " to "
          ∷ w.iso old_end
          ∷ "\nNow: "
          ∷ w.iso new_start
          ∷ " to "
          ∷ w.iso new_end
          ∷ "\n\nThe booked duration is unchanged; only the underlying UTC instant was recomputed."
          ∷ [])
        request_id

  unfoldable pub notify_rematerialization_conflict : Recipient → String → ℕ → String → Mail
  notify_rematerialization_conflict recipient resource_name occurrence_date request_id =
      notify recipient NotificationType.rematerialization_conflict
        ("Action needed: a recurring booking for " ∷ resource_name ∷ " could not be updated" ∷ [])
        ("A timezone rule update could not be automatically applied to a recurring booking for "
          ∷ resource_name
          ∷ " on "
          ∷ w.date occurrence_date
          ∷ ", because the recomputed time now conflicts with another booking.\n\n"
          ∷ "This occurrence has been left at its original (now incorrect) time. "
          ∷ "Please review and resolve it manually."
          ∷ [])
        request_id

  unfoldable pub notify_series_owner_deactivated : Recipient → String → ℕ → String → Mail
  notify_series_owner_deactivated recipient resource_name occurrences_remaining request_id =
      notify recipient NotificationType.series_owner_deactivated
        ("Action needed: a recurring series for " ∷ resource_name ∷ " needs a new owner" ∷ [])
        ("The owner of a recurring booking series for "
          ∷ resource_name
          ∷ " ("
          ∷ w.number occurrences_remaining
          ∷ " occurrence(s) remaining) has been deactivated.\n\n"
          ∷ "Please transfer ownership of this series to another user or terminate it — it will "
          ∷ "otherwise keep materializing new occurrences for a principal who is no longer active."
          ∷ [])
        request_id

  unfoldable pub notify_rollback_hold_released : Recipient → String → ℕ → ℕ → String → Mail
  notify_rollback_hold_released recipient resource_name start end request_id =
      notify recipient NotificationType.rollback_hold_released
        ("Your reserved offer for " ∷ resource_name ∷ " was released — system maintenance" ∷ [])
        ("Your held offer for "
          ∷ resource_name
          ∷ " ("
          ∷ w.iso start
          ∷ " to "
          ∷ w.iso end
          ∷ ") was released because of a system rollback, not because you missed the response "
          ∷ "window.\n\nYour place in the waitlist queue has been preserved. You will be offered "
          ∷ "this or another matching slot again once the system is confirmed healthy."
          ∷ [])
        request_id

  -- The mail of a message that the services sent, with the recipients and the names of the
  -- resources as the tables have them. The cascade task and the alerts are no notifications.
  unfoldable pub mail_of : (ℕ → Recipient) → (ℕ → String) → Message → Option Mail
  unfolding notify_offer_created notify_admin_cancellation notify_rematerialization
      notify_rematerialization_conflict notify_series_owner_deactivated
  mail_of user name (Message.notify_offer_created u r start end expires request_id) =
      some (notify_offer_created (user u) (name r) start end expires request_id)
  mail_of user name (Message.notify_admin_cancellation u r start end reason request_id) =
      some (notify_admin_cancellation (user u) (name r) start end reason request_id)
  mail_of user name (Message.notify_rematerialization u r a b c d request_id) =
      some (notify_rematerialization (user u) (name r) a b c d request_id)
  mail_of user name (Message.notify_rematerialization_conflict u r date request_id) =
      some (notify_rematerialization_conflict (user u) (name r) date request_id)
  mail_of user name (Message.notify_series_owner_deactivated u r series remaining request_id) =
      some (notify_series_owner_deactivated (user u) (name r) remaining request_id)
  mail_of user name (Message.dispatch_cascade resource start end request_id) = none
  mail_of user name (Message.send_alert_email id) = none
