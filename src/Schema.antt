-- ===== src/Schema.antt =====
-- The rows of the tables: backend/kairos/bookings/models.py, backend/kairos/waitlist/models.py,
-- backend/kairos/resources/models.py, backend/kairos/identity/models.py and
-- backend/kairos/core/models.py. A UUID is a number; a column that may be NULL is an `Option`.
use kairos_booking_engine.Base.{ℕ, String, Bool, true, false, Option, List}
use kairos_booking_engine.Range.{Range}

pub data BookingStatus : Type 0 where
  confirmed held cancelled : BookingStatus

pub record Booking : Type 0 where
  pub id : ℕ
  pub resource : ℕ
  pub series : Option ℕ
  pub user : ℕ
  pub time_range : Range
  pub status : BookingStatus
  pub expires_at : Option ℕ
  pub created_at : ℕ
  pub cancelled_at : Option ℕ
  pub cancelled_by : Option ℕ
  pub cancellation_reason : Option String

-- The generated column `lower(time_range)`.
abbrev pub starts_at : Booking → ℕ
starts_at b = b.time_range.lower

pub data RecurringSeriesStatus : Type 0 where
  active cancelled : RecurringSeriesStatus

-- A local time is microseconds since midnight, a date a number of days.
pub record RecurringSeries : Type 0 where
  pub id : ℕ
  pub resource : ℕ
  pub created_by : ℕ
  pub timezone : String
  pub local_start_time : ℕ
  pub local_end_time : ℕ
  pub weekday : ℕ
  pub series_start_date : ℕ
  pub occurrence_count : ℕ
  pub tzdata_version : String
  pub materialized_through : ℕ
  pub status : RecurringSeriesStatus

abbrev pub is_active_series : RecurringSeriesStatus → Bool
is_active_series RecurringSeriesStatus.active = true
is_active_series RecurringSeriesStatus.cancelled = false

pub data WaitlistEntryStatus : Type 0 where
  waiting offered fulfilled expired cancelled : WaitlistEntryStatus

pub record WaitlistEntry : Type 0 where
  pub id : ℕ
  pub resource : ℕ
  pub user : ℕ
  pub time_range : Range
  pub status : WaitlistEntryStatus
  pub joined_at : ℕ

pub data WaitlistOfferStatus : Type 0 where
  active confirmed expired declined : WaitlistOfferStatus

pub record WaitlistOffer : Type 0 where
  pub id : ℕ
  pub waitlist_entry : ℕ
  pub hold_booking : ℕ
  pub resource : ℕ
  pub time_range : Range
  pub status : WaitlistOfferStatus
  pub expires_at : ℕ
  pub created_at : ℕ

pub data IdempotencyKeyStatus : Type 0 where
  in_progress completed : IdempotencyKeyStatus

-- A response body: the envelope that `build_error_envelope` of backend/kairos/core/drf.py makes of
-- a code, a message and a request id (its details are empty here), or another body, opaque.
pub data Json : Type 0 where
  content : String → Json
  error_envelope : String → String → Option String → Json

pub record IdempotencyKey : Type 0 where
  pub user : ℕ
  pub key : ℕ
  pub endpoint : String
  pub request_body_hash : ℕ
  pub status : IdempotencyKeyStatus
  pub response_status : Option ℕ
  pub response_body : Option Json
  pub created_at : ℕ
  pub completed_at : Option ℕ

pub data AuditActorType : Type 0 where
  user admin system unknown : AuditActorType

pub data AuditAction : Type 0 where
  insert update delete : AuditAction

pub data AuditedTable : Type 0 where
  booking waitlist_entry waitlist_offer resource resource_admin : AuditedTable

pub record AuditLog : Type 0 where
  pub entity_type : AuditedTable
  pub entity_id : ℕ
  pub action : AuditAction
  pub actor_id : Option ℕ
  pub actor_type : AuditActorType
  pub reason : Option String
  pub request_id : Option String

pub data CheckName : Type 0 where
  schema_assertion reconciliation hold_reaper offer_cascade : CheckName
  series_materialization tzdata_rematerialization : CheckName

pub data CheckStatus : Type 0 where
  passed failed : CheckStatus

pub record SystemCheckRun : Type 0 where
  pub check_name : CheckName
  pub status : CheckStatus
  pub run_at : ℕ
  -- the numbers of the findings, in the order of the dictionary
  pub findings : List ℕ

pub data AppUserPlatformRole : Type 0 where
  booker system_admin operations : AppUserPlatformRole

pub data AppUserStatus : Type 0 where
  active deactivated : AppUserStatus

pub record AppUser : Type 0 where
  pub id : ℕ
  pub platform_role : AppUserPlatformRole
  pub status : AppUserStatus
  pub deactivated_at : Option ℕ

abbrev pub is_active_user : AppUserStatus → Bool
is_active_user AppUserStatus.active = true
is_active_user AppUserStatus.deactivated = false

pub data ResourceOffboardingPolicy : Type 0 where
  transfer cancel_and_notify retain : ResourceOffboardingPolicy

pub data ResourceStatus : Type 0 where
  active inactive : ResourceStatus

pub record Resource : Type 0 where
  pub id : ℕ
  pub name : String
  pub category : String
  pub timezone : String
  pub bookable_start_time : ℕ
  pub bookable_end_time : ℕ
  pub max_booking_duration_minutes : Option ℕ
  pub offboarding_policy : ResourceOffboardingPolicy
  pub restricted_group : Option ℕ
  pub status : ResourceStatus
  pub created_by : ℕ

pub record ResourceAdmin : Type 0 where
  pub id : ℕ
  pub resource : ℕ
  pub user : ℕ
  pub granted_at : ℕ
  pub granted_by : ℕ

pub data AlertSeverity : Type 0 where
  sev_1 sev_2 sev_3 : AlertSeverity

pub data AlertKey : Type 0 where
  schema_assertion reconciliation hold_reaper offer_cascade series_materialization : AlertKey
  tzdata_rematerialization audit_actor_unknown gist_write_throughput : AlertKey

pub data DeliveryStatus : Type 0 where
  pending sent failed : DeliveryStatus

-- The JSON context of an alert is left out.
pub record AlertEvent : Type 0 where
  pub id : ℕ
  pub alert_key : AlertKey
  pub severity : AlertSeverity
  pub message : String
  pub fired_at : ℕ
  pub resolved_at : Option ℕ
  pub email_status : DeliveryStatus
  pub email_attempts : ℕ
  pub email_last_error : Option String
  pub email_sent_at : Option ℕ

pub data NotificationType : Type 0 where
  offer_created admin_cancellation rematerialized rematerialization_conflict : NotificationType
  rollback_hold_released series_owner_deactivated : NotificationType

-- The JSON context of a notification is left out.
pub record NotificationLog : Type 0 where
  pub id : ℕ
  pub notification_type : NotificationType
  pub recipient_user_id : ℕ
  pub recipient_email : String
  pub subject : String
  pub body : String
  pub status : DeliveryStatus
  pub attempts : ℕ
  pub last_error : Option String
  pub request_id : String
  pub created_at : ℕ
  pub sent_at : Option ℕ

abbrev pub is_confirmed : BookingStatus → Bool
is_confirmed BookingStatus.confirmed = true
is_confirmed _ = false

abbrev pub is_held : BookingStatus → Bool
is_held BookingStatus.held = true
is_held _ = false

abbrev pub is_waiting : WaitlistEntryStatus → Bool
is_waiting WaitlistEntryStatus.waiting = true
is_waiting _ = false

abbrev pub is_offered : WaitlistEntryStatus → Bool
is_offered WaitlistEntryStatus.offered = true
is_offered _ = false

abbrev pub is_active_offer : WaitlistOfferStatus → Bool
is_active_offer WaitlistOfferStatus.active = true
is_active_offer _ = false

abbrev pub is_system : AuditActorType → Bool
is_system AuditActorType.system = true
is_system _ = false

abbrev pub is_admin : AuditActorType → Bool
is_admin AuditActorType.admin = true
is_admin _ = false
