-- ===== src/Store/Waitlist.antt =====
-- The tables `waitlist_entry` and `waitlist_offer`: their unique indexes
-- (backend/kairos/waitlist/migrations/0002_uniq_live_waitlist_per_user_slot.py and
-- `uniq_active_offer_per_entry` of backend/kairos/waitlist/models.py) and the statements on them.
use kairos_booking_engine.Base.{
  ℕ, Bool, ◌&&◌, ◌||◌, Option, none, some, List, [], ◌∷◌, ◌++◌, map, ltb, ◌==◌, if◌then◌else◌, any,
  select, find?, count_where, update_where, distinct_by, distinct_by,
}
use kairos_booking_engine.Range.{Range, same_range}
use kairos_booking_engine.Errors.{Sqlstate}
use kairos_booking_engine.Schema.{
  WaitlistEntry, WaitlistOffer, AuditAction, AuditedTable, is_waiting, is_offered, is_active_offer,
}
use kairos_booking_engine.Store.{State, M, write_audit_log}
use kairos_booking_engine.Store.Bookings.{verdict, or_missing}

-- status IN ('waiting', 'offered')
abbrev pub is_live : WaitlistEntry → Bool
is_live e = is_waiting e.status || is_offered e.status

-- uniq_live_waitlist_per_user_slot
abbrev pub same_slot : WaitlistEntry → WaitlistEntry → Bool
same_slot a b =
    (is_live a && is_live b)
    && ((a.user == b.user && a.resource == b.resource) && same_range a.time_range b.time_range)

abbrev pub range_error : Range → Option Sqlstate
range_error r =
    if ltb r.upper r.lower
    then some Sqlstate.data_exception
    else if ltb r.lower r.upper
    then none
    else some Sqlstate.check_violation

abbrev pub entry_error : WaitlistEntry → List WaitlistEntry → Option Sqlstate
entry_error e rows = elim (range_error e.time_range) [
  | some st ↦ some st
  | none ↦
      if any (λ r. r.id == e.id || same_slot e r) rows then some Sqlstate.unique_violation else none
]

abbrev pub write_entries : State → List WaitlistEntry → AuditAction → List WaitlistEntry → State
write_entries s rows action touched = record s {
  tables = record s.tables {
    entries = rows;
    audit_log =
        map (λ e. write_audit_log s.session AuditedTable.waitlist_entry action e.id) touched
        ++ s.audit_log;
  };
}

unfoldable pub insert_entry : WaitlistEntry → M (Unit {0})
insert_entry e s =
    verdict s (entry_error e s.entries) tt
      (write_entries s (e ∷ s.entries) AuditAction.insert (e ∷ []))

unfoldable pub update_entries : (WaitlistEntry → Bool) → (WaitlistEntry → WaitlistEntry) → M ℕ
update_entries p f s =
    let rows = update_where p f s.entries in
    verdict s (if distinct_by same_slot rows then none else some Sqlstate.unique_violation)
      (count_where p s.entries) (write_entries s rows AuditAction.update (select p s.entries))

unfoldable pub get_entry : ℕ → M WaitlistEntry
get_entry id s = or_missing (find? (λ e. e.id == id) s.entries) s

-- A hold has one offer, and an entry one active offer.
abbrev pub offer_clash : WaitlistOffer → WaitlistOffer → Bool
offer_clash a b =
    (a.id == b.id || a.hold_booking == b.hold_booking)
    || ((is_active_offer a.status && is_active_offer b.status)
        && a.waitlist_entry == b.waitlist_entry)

abbrev pub offer_error : WaitlistOffer → List WaitlistOffer → Option Sqlstate
offer_error o rows = elim (range_error o.time_range) [
  | some st ↦ some st
  | none ↦ if any (offer_clash o) rows then some Sqlstate.unique_violation else none
]

abbrev pub write_offers : State → List WaitlistOffer → AuditAction → List WaitlistOffer → State
write_offers s rows action touched = record s {
  tables = record s.tables {
    offers = rows;
    audit_log =
        map (λ o. write_audit_log s.session AuditedTable.waitlist_offer action o.id) touched
        ++ s.audit_log;
  };
}

unfoldable pub insert_offer : WaitlistOffer → M (Unit {0})
insert_offer o s =
    verdict s (offer_error o s.offers) tt
      (write_offers s (o ∷ s.offers) AuditAction.insert (o ∷ []))

unfoldable pub update_offers : (WaitlistOffer → Bool) → (WaitlistOffer → WaitlistOffer) → M ℕ
update_offers p f s =
    let rows = update_where p f s.offers in
    verdict s (if distinct_by offer_clash rows then none else some Sqlstate.unique_violation)
      (count_where p s.offers) (write_offers s rows AuditAction.update (select p s.offers))

unfoldable pub get_offer : ℕ → M WaitlistOffer
get_offer id s = or_missing (find? (λ o. o.id == id) s.offers) s
