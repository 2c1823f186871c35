-- ===== src/Waitlist/Entries/Withdraw.antt =====
-- What `cancel_waitlist_entry` of backend/kairos/waitlist/services.py answers and leaves.
use kairos_booking_engine.Base.{
  ℕ, ◌≡◌, refl, Bool, true, not, none, some, List, [], ◌∷◌, arith, ltb, if◌then◌else◌, any, find?,
  update_where, count_where,
}
use kairos_booking_engine.Errors.{ok}
use kairos_booking_engine.Schema.{WaitlistEntry, WaitlistEntryStatus, is_waiting}
use kairos_booking_engine.Store.{State, Env, atomic}
use kairos_booking_engine.Store.Waitlist.{update_entries, get_entry}
use kairos_booking_engine.Store.Consistent.{IsConsistent}
use kairos_booking_engine.Waitlist.Entries.{
  WaitlistCancelRequest, cancel_waitlist_entry, entry_id, is_waiting_row, with_entry_status,
}
use kairos_booking_engine.Waitlist.Offers.Fine.{settled_slots}

positive_count :
    (p : WaitlistEntry → Bool) (rows : List WaitlistEntry) → ltb 0 (count_where p rows) ≡ any p rows
positive_count p [] = refl
positive_count p (x ∷ rows) = ground (arith, positive_count p rows)

found_entry :
    (i : ℕ) (x : WaitlistEntry) (rows : List WaitlistEntry)
    → find? (entry_id i) rows ≡ some x
    → find?
        (entry_id i)
        (update_where (is_waiting_row i) (with_entry_status WaitlistEntryStatus.cancelled) rows)
      ≡ some (if is_waiting x.status then with_entry_status WaitlistEntryStatus.cancelled x else x)
found_entry i x [] h = cc
found_entry i x (y ∷ rows) h = ground (arith, found_entry i x rows)

-- Inside a transaction on consistent tables, with no server failure, the withdrawal of an
-- existing entry cancels the waiting rows with its identifier and no other, answers the row,
-- cancelled where it was waiting and as it is otherwise, and says `already_cancelled` exactly
-- where no row with the identifier was waiting.
pub cancel_waitlist_entry_answer :
    (e : Env) (req : WaitlistCancelRequest) (s : State) (x : WaitlistEntry)
    → IsConsistent s.tables
    → s.in_atomic ≡ true
    → e.fault ≡ none
    → find? (entry_id req.entry.id) s.entries ≡ some x
    → ((cancel_waitlist_entry e req s).0
        ≡ ok (record {
          entry =
              if is_waiting x.status then with_entry_status WaitlistEntryStatus.cancelled x else x;
          already_cancelled = not (any (is_waiting_row req.entry.id) s.entries);
        }))
      × ((cancel_waitlist_entry e req s).1.entries
          ≡ update_where
              (is_waiting_row req.entry.id)
              (with_entry_status WaitlistEntryStatus.cancelled)
              s.entries)
unfolding cancel_waitlist_entry atomic update_entries get_entry
cancel_waitlist_entry_answer e req s x c nested quiet found =
    let slots =
      settled_slots WaitlistEntryStatus.cancelled (is_waiting_row req.entry.id) s.tables refl refl
        c in
    let row = found_entry req.entry.id x s.entries found in
    let many = positive_count (is_waiting_row req.entry.id) s.entries in
    (ground arith, ground arith)
