-- ===== src/Store/Bookings.antt =====
-- The table `booking`: its CHECK constraints (backend/kairos/bookings/models.py), the constraint
-- `no_overlapping_bookings` (backend/kairos/bookings/migrations/0002_exclusion_constraint.py) and
-- the statements that the services run on it, each under the audit trigger.
use kairos_booking_engine.Base.{
  ℕ, Bool, not, ◌&&◌, ◌||◌, Option, none, some, List, [], ◌∷◌, ◌++◌, map, ltb, ◌==◌, if◌then◌else◌,
  is_some, is_none, any, select, find?, count_where, update_where, distinct_by,
}
use kairos_booking_engine.Range.{overlaps}
use kairos_booking_engine.Errors.{Sqlstate, Error, Result, ok, err}
use kairos_booking_engine.Schema.{Booking, AuditAction, AuditedTable, is_confirmed, is_held}
use kairos_booking_engine.Store.{State, M, write_audit_log}

-- status IN ('confirmed', 'held')
abbrev pub occupies : Booking → Bool
occupies b = is_confirmed b.status || is_held b.status

-- resource_id WITH =, time_range WITH &&, for two rows within the predicate
abbrev pub conflicts : Booking → Booking → Bool
conflicts a b =
    (occupies a && occupies b) && (a.resource == b.resource && overlaps a.time_range b.time_range)

-- The constraint, over the whole table.
abbrev pub no_overlapping_bookings : List Booking → Bool
no_overlapping_bookings = distinct_by conflicts

-- (status = 'held' AND expires_at IS NOT NULL) OR (status <> 'held' AND expires_at IS NULL)
abbrev pub hold_has_expiry : Booking → Bool
hold_has_expiry b = if is_held b.status then is_some b.expires_at else is_none b.expires_at

-- NOT isempty(time_range)
abbrev pub time_range_not_empty : Booking → Bool
time_range_not_empty b = ltb b.time_range.lower b.time_range.upper

abbrev pub row_check : Booking → Bool
row_check b = time_range_not_empty b && hold_has_expiry b

-- What the server says of a row: bounds the wrong way round make no range at all.
abbrev pub row_error : Booking → Option Sqlstate
row_error b =
    if ltb b.time_range.upper b.time_range.lower
    then some Sqlstate.data_exception
    else if row_check b
    then none
    else some Sqlstate.check_violation

abbrev pub first_error : List Booking → Option Sqlstate
first_error [] = none
first_error (b ∷ bs) = elim (row_error b) [ some st ↦ some st | none ↦ first_error bs ]

abbrev pub insert_error : Booking → List Booking → Option Sqlstate
insert_error b rows = elim (row_error b) [
  | some st ↦ some st
  | none ↦
      if any (λ r. r.id == b.id) rows
      then some Sqlstate.unique_violation
      else if any (conflicts b) rows
      then some Sqlstate.exclusion_violation
      else none
]

abbrev pub update_error : List Booking → Option Sqlstate
update_error rows = elim (first_error rows) [
  | some st ↦ some st
  | none ↦ if no_overlapping_bookings rows then none else some Sqlstate.exclusion_violation
]

-- The state after a statement on the table, with the rows of the trigger.
abbrev pub write_bookings : State → List Booking → AuditAction → List Booking → State
write_bookings s rows action touched = record s {
  tables = record s.tables {
    bookings = rows;
    audit_log =
        map (λ b. write_audit_log s.session AuditedTable.booking action b.id) touched
        ++ s.audit_log;
  };
}

abbrev pub verdict : {A : Type 0} → State → Option Sqlstate → A → State → Result A × State
verdict s (some st) a t = (err (Error.database_error (some st)), s)
verdict s none a t = (ok a, t)

-- INSERT
unfoldable pub insert_booking : Booking → M (Unit {0})
insert_booking b s =
    verdict s (insert_error b s.bookings) tt
      (write_bookings s (b ∷ s.bookings) AuditAction.insert (b ∷ []))

-- UPDATE ... WHERE, with the number of rows it matched
unfoldable pub update_bookings : (Booking → Bool) → (Booking → Booking) → M ℕ
update_bookings p f s =
    let rows = update_where p f s.bookings in
    verdict s (update_error rows) (count_where p s.bookings)
      (write_bookings s rows AuditAction.update (select p s.bookings))

-- DELETE ... WHERE
unfoldable pub delete_bookings : (Booking → Bool) → M (Unit {0})
delete_bookings p s = (
  ok tt,
  write_bookings s (select (λ b. not (p b)) s.bookings) AuditAction.delete (select p s.bookings),
)

abbrev pub or_missing : {A : Type 0} → Option A → M A
or_missing none s = (err Error.does_not_exist, s)
or_missing (some a) s = (ok a, s)

-- Booking.objects.get(id=...)
unfoldable pub get_booking : ℕ → M Booking
get_booking id s = or_missing (find? (λ b. b.id == id) s.bookings) s
