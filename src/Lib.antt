-- ===== src/Lib.antt =====
-- A model of the Kairos booking engine (Django, backend/kairos) and the proofs of what it
-- promises.
--
-- The program books time ranges of resources. Its services write one PostgreSQL database, whose
-- constraints, foremost the exclusion constraint on overlapping bookings, decide what may stand
-- in it. A cancellation frees a range; after the commit a worker offers it to the waitlist by a
-- hold, a booking row that expires; the user accepts or declines, or the reaper takes the hold
-- back. An endpoint runs its write under an idempotency key, in the same transaction.
--
-- The parts and their files:
-- - Base, Base/Tests, Base/Lists: names of the libraries, Boolean tests, list operations.
-- - Range: `tstzrange`, half open, in microseconds, and `timedelta`.
-- - Errors: backend/kairos/core/exceptions.py and the SQLSTATE tables of the services.
-- - Schema: the rows of backend/kairos/bookings/models.py, waitlist/models.py and core/models.py.
-- - Store: the connection. `State` holds the tables, the `app.*` settings of
--   backend/kairos/core/db.py, the open transaction, the callbacks that wait for the commit and
--   the messages that were sent; `M` is code that may raise; `atomic` and `on_commit` are those
--   of `django.db.transaction`. Store/Bookings, Store/Waitlist and Store/Keys are the tables with
--   their constraints (the models and
--   backend/kairos/bookings/migrations/0002_exclusion_constraint.py,
--   backend/kairos/waitlist/migrations/0002_uniq_live_waitlist_per_user_slot.py) and the audit
--   trigger (backend/kairos/core/migrations/0003_audit_trail_triggers_and_grants.py). Store/Keeps
--   has the rules for what an action keeps, Store/Consistent the constraints as an invariant.
-- - Bookings: backend/kairos/bookings/services.py, each function by its name; its children say
--   what each write answers and leaves.
-- - Waitlist: backend/kairos/waitlist/services.py. Eligibility is `find_eligible_entries`,
--   Entries `join_waitlist` and `cancel_waitlist_entry`, Offers `accept_offer` and
--   `decline_offer`, Cascade `create_offer_for_freed_range`, Reaper `reap_expired_holds`, Race
--   the two orders of accepting and reclaiming.
-- - Idempotency: backend/kairos/core/idempotency.py; Idempotency/Create is
--   `BookingCollectionView.post` of backend/kairos/bookings/views.py from the validated request
--   on, and Endpoints the whole of it.
-- - Recurrence: backend/kairos/core/timezones.py and backend/kairos/bookings/recurrence.py; Dates
--   is about the dates of an expansion, WallClock about its local times.
-- - Series: backend/kairos/bookings/recurring_series.py and bookings/tasks.py. Table is the table
--   of series, Token the signed preview with the texts of its claims, Preview and Confirm the two
--   endpoints' services, Rolling and Rematerialization the two jobs; Crash is a confirmation
--   under its key that breaks off; Roundtrip, Invariant, Confirmed, Outcome, Availability,
--   Settled, Rerun and Jobs are proofs.
-- - Offboarding: `deactivate_user` of backend/kairos/identity/services.py, Rows for its requests
--   and its first statement, Cascade for the rest; Invariant, Replay and Queue are proofs.
-- - Resources: backend/kairos/resources/services.py with its tables.
-- - Policy: the policies of backend/kairos/bookings/serializers.py.
-- - Notifications: backend/kairos/core/notifications.py, with Delivery for the log of a delivery
--   and `send_notification_task` of backend/kairos/core/tasks.py.
-- - Monitoring: Heartbeat is backend/kairos/core/heartbeat.py and the tests that stand on it,
--   Alerts `fire_or_resolve` and `evaluate_alerts` of backend/kairos/core/alerting.py, Delivery
--   the email of an alert, Edges the latch that an alert is.
-- - RateLimit: the script, the bucket and the throttles of backend/kairos/core/rate_limit.py.
-- - Authorization: backend/kairos/identity/authorization.py.
-- - Endpoints: the guards of backend/kairos/bookings/views.py over the services, and in Waitlist
--   those of backend/kairos/waitlist/views.py; Authority, Revoked, Owned and Acknowledgment are
--   about who can do what, Once is about a request that is sent twice, Invariant about the
--   constraints.
-- - Engine: all writes together as a step relation; Engine/Reconciliation is
--   backend/kairos/core/reconciliation.py.
-- - Examples: the theorems at concrete rows.
--
-- What the world decides is an argument: `Env` gives the clock of the process, the clock of the
-- transaction, the UUID drawn, and a failure that the server or the connection reports; a loop
-- takes one for each call that it makes. The write behind a key is an argument as in the code,
-- and so are the fingerprint of the body and the rendering of the answer; a request comes to a
-- view authenticated and parsed. Calls run one after another: concurrent transactions on the same
-- row are represented by their order, since each write is one conditional statement whose winner
-- the server decides. A call may run inside a transaction of its caller (`in_atomic`), where an
-- exception undoes its savepoint, or open its own, where the commit also checks deferred keys.
-- Loops are structural, over the list that the code iterates, so no fuel is used. Clocks and
-- identifiers are natural numbers of any size, as the database has no arithmetic on them to
-- overflow at these values.
--
-- A proper request (`IsProper`) has a range that is not empty and an identifier that no row has,
-- and the server reports no failure. Consistent tables (`IsConsistent`) meet the constraints of
-- the schema. A hold is running until its expiry.
--
-- The rules of the zones and the version of `tzdata`, PyJWT with its key, the texts of
-- identifiers, dates and times, the mail server, the broker, what Redis answers, the count of
-- unattributed audit rows and the P95 of the writes are arguments. The token bucket counts in
-- whole parts of tokens where the script uses doubles.
--
-- Not modelled: logging, the row images of the audit trail, the broker and its workers (tasks and
-- notifications are messages in `sent`), authentication, the metrics, the catalogue query of the
-- schema assertion, the cleanup of old keys, the other views, the list and the history of
-- bookings, and the frontend.
pub mod Base
pub mod Range
pub mod Errors
pub mod Schema
pub mod Store
pub mod Bookings
pub mod Waitlist
pub mod Idempotency
pub mod Authorization
pub mod Recurrence
pub mod Series
pub mod Offboarding
pub mod Resources
pub mod Policy
pub mod Monitoring
pub mod Notifications
pub mod RateLimit
pub mod Endpoints
pub mod Engine
pub mod Examples
