-- ===== src/Store.antt =====
-- The database connection that the services share: the tables, the session settings of
-- backend/kairos/core/db.py, transactions (`transaction.atomic`, `transaction.on_commit`) and the
-- audit trigger `write_audit_log()` of
-- backend/kairos/core/migrations/0003_audit_trail_triggers_and_grants.py.
pub mod Bookings
pub mod Waitlist
pub mod Keys
pub mod Keeps
pub mod Runs
pub mod Consistent
use kairos_booking_engine.Base.{
  ℕ, zero, suc, String, ◌≡◌, refl, Bool, true, false, not, ◌&&◌, ◌||◌, Option, none, some, List, [],
  ◌∷◌, ◌++◌, map, arith, ◌==◌, str_eq, if◌then◌else◌, any, all,
}
use kairos_booking_engine.Errors.{Sqlstate, Error, Result, ok, err}
use kairos_booking_engine.Schema.{
  Booking, RecurringSeries, WaitlistEntry, WaitlistOffer, IdempotencyKey, AuditActorType,
  AuditAction, AuditedTable, AuditLog, SystemCheckRun, AlertEvent, NotificationLog, AppUser,
  Resource, ResourceAdmin,
}

pub record Tables : Type 0 where
  pub bookings : List Booking
  pub series : List RecurringSeries
  pub entries : List WaitlistEntry
  pub offers : List WaitlistOffer
  pub keys : List IdempotencyKey
  pub checks : List SystemCheckRun
  pub audit_log : List AuditLog
  pub alerts : List AlertEvent
  pub notifications : List NotificationLog
  pub users : List AppUser
  pub resources : List Resource
  pub admin_grants : List ResourceAdmin

-- The `app.*` settings, each local to the transaction. `none` and "" are settings not made.
pub record Session : Type 0 where
  pub actor_id : Option ℕ
  pub actor_type : Option AuditActorType
  pub request_id : String
  pub reason : String

abbrev pub no_session : Session
no_session = record { actor_id = none; actor_type = none; request_id = ""; reason = "" }

-- What is sent to the outside: the cascade task and the notifications. A resource stands for its
-- name in the text of a notification.
pub data Message : Type 0 where
  -- resource, start, end, request id
  dispatch_cascade : ℕ → ℕ → ℕ → String → Message
  -- recipient, resource, start, end, reason, request id
  notify_admin_cancellation : ℕ → ℕ → ℕ → ℕ → String → String → Message
  -- recipient, resource, start, end, expiry, request id
  notify_offer_created : ℕ → ℕ → ℕ → ℕ → ℕ → String → Message
  -- recipient, resource, old start, old end, new start, new end, request id
  notify_rematerialization : ℕ → ℕ → ℕ → ℕ → ℕ → ℕ → String → Message
  -- recipient, resource, date of the occurrence, request id
  notify_rematerialization_conflict : ℕ → ℕ → ℕ → String → Message
  -- recipient, resource, series, occurrences remaining, request id
  notify_series_owner_deactivated : ℕ → ℕ → ℕ → ℕ → String → Message
  -- alert
  send_alert_email : ℕ → Message

pub record State : Type 0 where
  pub tables : Tables
  pub open tables use *
  pub session : Session
  -- `connection.in_atomic_block`
  pub in_atomic : Bool
  -- callbacks that wait for the commit, and messages that were sent
  pub on_commit_queue : List Message
  pub sent : List Message

-- What the world decides about one call: the clock of the process and that of the transaction,
-- the UUID that `uuid4` draws, and a failure that the server or the connection reports before the
-- transaction is over (`some none`: no server answered, so there is no SQLSTATE).
pub record Env : Type 0 where
  pub now : ℕ
  pub transaction_time : ℕ
  pub uuid : ℕ
  pub fault : Option (Option Sqlstate)

-- Code that works on the connection and may raise. What a statement wrote before an exception
-- stays written until a rollback.
abbrev pub M : Type 0 → Type 0
M A = State → Result A × State

abbrev pub resume : {A B : Type 0} → (A → M B) → Result A × State → Result B × State
resume f (ok a, s) = f a s
resume f (err e, s) = (err e, s)

infixl 5 ◌>>=◌ ◌>>◌
abbrev pub ◌>>=◌ : {A B : Type 0} → M A → (A → M B) → M B
◌>>=◌ m f s = resume f (m s)

abbrev pub ◌>>◌ : {B : Type 0} → M (Unit {0}) → M B → M B
m >> k = m >>= λ _. k

abbrev pub pure : {A : Type 0} → A → M A
pure a s = (ok a, s)

abbrev pub raise : {A : Type 0} → Error → M A
raise e s = (err e, s)

abbrev pub gets : {A : Type 0} → (Tables → A) → M A
gets f s = (ok (f s.tables), s)

-- `if condition:` with nothing to do otherwise
abbrev pub when : Bool → M (Unit {0}) → M (Unit {0})
when true m = m
when false m = pure tt

-- The server's failure, if there is to be one.
abbrev pub serve : Env → M (Unit {0})
serve e = elim e.fault [ none ↦ pure tt | some st ↦ raise (Error.database_error st) ]

-- except DatabaseError as exc: handler(sqlstate)
abbrev pub recover : {A : Type 0} → (Option Sqlstate → M A) → Result A × State → Result A × State
recover handler (err (Error.database_error st), s) = handler st s
recover handler (r, s) = (r, s)

abbrev pub catch_database_error : {A : Type 0} → M A → (Option Sqlstate → M A) → M A
catch_database_error m handler s = recover handler (m s)

-- `set_config(..., true)` of the `app.*` settings: `apply_write_path_session_settings`. The three
-- timeouts that it also sets show only in the failures that the server then reports.
abbrev pub apply_write_path_session_settings :
    Option ℕ → AuditActorType → String → Option String → M (Unit {0})
apply_write_path_session_settings actor_id actor_type request_id reason s = (
  ok tt,
  record s {
    session = record {
      actor_id = actor_id;
      actor_type = some actor_type;
      request_id = request_id;
      reason = elim reason [ none ↦ "" | some r ↦ r ];
    };
  },
)

-- str(user.id) if actor_type != AuditActorType.SYSTEM else ""
abbrev pub actor_unless_system : ℕ → AuditActorType → Option ℕ
actor_unless_system u AuditActorType.system = none
actor_unless_system u _ = some u

-- NULLIF(text, '')
nullif : String → Option String
nullif t = if str_eq t "" then none else some t

-- COALESCE(NULLIF(current_setting('app.actor_type', true), ''), 'unknown')
abbrev pub actor_type_or_unknown : Option AuditActorType → AuditActorType
actor_type_or_unknown none = AuditActorType.unknown
actor_type_or_unknown (some a) = a

-- `write_audit_log()`: the row that the trigger adds for one affected row. The images of the row
-- before and after are left out.
unfoldable pub write_audit_log : Session → AuditedTable → AuditAction → ℕ → AuditLog
unfolding nullif
write_audit_log session table action id = record {
  entity_type = table;
  entity_id = id;
  action = action;
  actor_id = session.actor_id;
  actor_type = actor_type_or_unknown session.actor_type;
  reason = nullif session.reason;
  request_id = nullif session.request_id;
}

-- A foreign key is checked when the transaction commits (DEFERRABLE INITIALLY DEFERRED): the hold
-- of each offer must be a row. No other referenced row is ever deleted here.
abbrev pub references_hold : Tables → Bool
references_hold t = all (λ o. any (λ b. b.id == o.hold_booking) t.bookings) t.offers

-- The end of an outermost block: deferred constraints, then the callbacks run.
abbrev pub commit : {A : Type 0} → State → A → State → Result A × State
commit before a s =
    if references_hold s.tables
    then (
      ok a,
      record s {
        session = no_session;
        in_atomic = false;
        on_commit_queue = [];
        sent = s.sent ++ s.on_commit_queue;
      },
    )
    else (err (Error.database_error (some Sqlstate.foreign_key_violation)), before)

abbrev pub finish_outermost : {A : Type 0} → State → Result A × State → Result A × State
finish_outermost before (ok a, s) = commit before a s
finish_outermost before (err e, s) = (err e, before)

-- A nested block is a savepoint: an exception undoes what was written since, callbacks included.
abbrev pub finish_savepoint : {A : Type 0} → State → Result A × State → Result A × State
finish_savepoint before (ok a, s) = (ok a, s)
finish_savepoint before (err e, s) = (err e, before)

-- with transaction.atomic():
unfoldable pub atomic : {A : Type 0} → M A → M A
atomic m s =
    if s.in_atomic
    then finish_savepoint s (m s)
    else finish_outermost s (m (record s { in_atomic = true }))

-- transaction.on_commit(lambda: ...), at once where no transaction is open
unfoldable pub on_commit : Message → M (Unit {0})
on_commit message s =
    if s.in_atomic
    then (ok tt, record s { on_commit_queue = s.on_commit_queue ++ message ∷ [] })
    else (ok tt, record s { sent = s.sent ++ message ∷ [] })

-- A message that does not wait for a commit.
abbrev pub send : Message → M (Unit {0})
send message s = (ok tt, record s { sent = s.sent ++ message ∷ [] })

-- SystemCheckRun.objects.create(...)
abbrev pub record_check : SystemCheckRun → M (Unit {0})
record_check c s = (ok tt, record s { tables = record s.tables { checks = c ∷ s.checks } })
