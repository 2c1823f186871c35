-- ===== src/Examples/Reaping.antt =====
-- The theorems about the cascade and the reaper of backend/kairos/waitlist/services.py at concrete
-- holds.
use kairos_booking_engine.Base.{ℕ, ◌+◌, true, false, ◌≡◌, refl, none, some, [], ◌∷◌, arith, any}
use kairos_booking_engine.Errors.{Error, ok, err}
use kairos_booking_engine.Schema.{BookingStatus, WaitlistEntry, WaitlistEntryStatus}
use kairos_booking_engine.Store.{Tables}
use kairos_booking_engine.Bookings.{new_booking, create_booking}
use kairos_booking_engine.Bookings.Outcome.{create_booking_commit}
use kairos_booking_engine.Waitlist.Entries.{with_entry_status}
use kairos_booking_engine.Waitlist.Eligibility.{find_eligible_entries}
use kairos_booking_engine.Waitlist.Offers.{accept_offer}
use kairos_booking_engine.Waitlist.Cascade.{
  Envs, hold_request, create_offer_for_freed_range, try_candidates,
}
use kairos_booking_engine.Waitlist.Cascade.Fcfs.{
  AllBlocked, offer_of, create_offer_for_freed_range_first,
}
use kairos_booking_engine.Waitlist.Cascade.Attribution.{
  is_unattributed_offer, try_candidates_unattributed,
}
use kairos_booking_engine.Waitlist.Reaper.{
  lost, with_offer, reclaim, reap_expired_holds, is_expired,
}
use kairos_booking_engine.Waitlist.Reaper.Sweep.{reap_expired_holds_complete}
use kairos_booking_engine.Waitlist.Race.{accept_offer-reclaim, reclaim-accept_offer}
use kairos_booking_engine.Waitlist.Invariant.{Consistent-accept_offer}
use kairos_booking_engine.Waitlist.Reaper.Invariant.{Consistent-reclaim}
use kairos_booking_engine.Store.{atomic}
use kairos_booking_engine.Store.Bookings.{update_bookings, get_booking}
use kairos_booking_engine.Store.Waitlist.{update_entries, update_offers}
use kairos_booking_engine.Waitlist.Reaper.{reap_holds}
use kairos_booking_engine.Examples.Data.{
  calm, row, entry_row, tables, state, held_row, offered, offered-IsConsistent,
}
use kairos_booking_engine.Examples.Waitlist.{freed, acceptance}

-- The world of one cascade: the clock at `now`, and identifiers from `first` on.
abbrev world : ℕ → ℕ → Envs
world now first n = calm now (first + n)

-- The first to join wants a range that is booked from 350 on, the second one a free range.
abbrev blocked_entry : WaitlistEntry
blocked_entry = entry_row 21 5 2 WaitlistEntryStatus.waiting

abbrev fitting_entry : WaitlistEntry
fitting_entry = record (entry_row 22 4 3 WaitlistEntryStatus.waiting) {
  time_range = record { lower = 300; upper = 340 };
}

abbrev half_booked : Tables
half_booked =
    tables (row 15 3 350 380 BookingStatus.confirmed none ∷ []) (fitting_entry ∷ blocked_entry ∷ [])
      []

placed :
    (create_booking (calm 10 103) (hold_request 7 "r" fitting_entry) (state false half_booked)).0
    ≡ ok (new_booking (calm 10 103) (hold_request 7 "r" fitting_entry))
placed =
    create_booking_commit (calm 10 103) (hold_request 7 "r" fitting_entry) (state false half_booked)
      (record { quiet = refl; nonempty = omega arith; fresh = refl }) refl

listed : find_eligible_entries 7 freed half_booked ≡ blocked_entry ∷ fitting_entry ∷ []
unfolding find_eligible_entries
listed = refl

create_offer_for_freed_range_first_example :
    ((create_offer_for_freed_range (world 10 100) 7 freed "r" (state false half_booked)).0
      ≡ ok (some (offer_of (world 10 103) 7 "r" fitting_entry)))
    × ((create_offer_for_freed_range (world 10 100) 7 freed "r" (state false half_booked)).1.offers
        ≡ offer_of (world 10 103) 7 "r" fitting_entry ∷ [])
    × ((create_offer_for_freed_range (world 10 100) 7 freed "r" (state false half_booked)).1.entries
        ≡ with_entry_status WaitlistEntryStatus.offered fitting_entry ∷ blocked_entry ∷ [])
unfolding AllBlocked
create_offer_for_freed_range_first_example =
    create_offer_for_freed_range_first (world 10 100) 7 freed "r" (blocked_entry ∷ []) []
      fitting_entry (state false half_booked) listed
      ((record { quiet = refl; nonempty = omega arith; fresh = refl }, refl), tt) placed
      (omega arith) (record { quiet = refl; quiet' = refl; unclaimed = refl; slots = refl })

try_candidates_unattributed_example :
    any
      (is_unattributed_offer 104)
      (try_candidates
        (world 10 103)
        7
        "r"
        1
        (fitting_entry ∷ [])
        (state false half_booked)).1.audit_log
    ≡ true
try_candidates_unattributed_example =
    try_candidates_unattributed (world 10 103) 7 "r" 1 fitting_entry [] (state false half_booked)
      refl placed (omega arith)
      (record { quiet = refl; quiet' = refl; unclaimed = refl; slots = refl })

reclaim-accept_offer_example :
    ((reclaim
        (calm 70 14)
        70
        "r"
        held_row
        (accept_offer (calm 10 13) acceptance (state true offered)).1).0
      ≡ ok lost)
    × ((reclaim
          (calm 70 14)
          70
          "r"
          held_row
          (accept_offer (calm 10 13) acceptance (state true offered)).1).1.bookings
        ≡ (accept_offer (calm 10 13) acceptance (state true offered)).1.bookings)
unfolding accept_offer atomic update_bookings update_offers update_entries get_booking
reclaim-accept_offer_example =
    reclaim-accept_offer (calm 10 13) (calm 70 14) acceptance 70 "r" held_row held_row
      (state true offered) (accept_offer (calm 10 13) acceptance (state true offered)).1
      offered-IsConsistent refl refl refl refl refl refl
      ((Consistent-accept_offer (calm 10 13) acceptance).at (state true offered)
        offered-IsConsistent)
      refl refl

accept_offer-reclaim_example :
    accept_offer
      (calm 71 14)
      acceptance
      (reclaim (calm 70 13) 70 "r" held_row (state true offered)).1
    ≡ (err Error.offer_expired, (reclaim (calm 70 13) 70 "r" held_row (state true offered)).1)
unfolding reclaim atomic update_bookings update_offers update_entries
accept_offer-reclaim_example =
    accept_offer-reclaim (calm 71 14) (calm 70 13) acceptance 70 "r" held_row held_row
      (state true offered) (reclaim (calm 70 13) 70 "r" held_row (state true offered)).1
      (with_offer (record { lower = 300; upper = 400 })) offered-IsConsistent refl refl refl refl
      refl
      ((Consistent-reclaim (calm 70 13) 70 "r" held_row).at (state true offered)
        offered-IsConsistent)
      refl

abbrev worlds : ℕ → Envs
worlds m n = calm 70 (200 + m + n)

reap_expired_holds_complete_example :
    any (is_expired 70) (reap_expired_holds worlds 70 "r" (state true offered)).1.bookings ≡ false
unfolding reap_expired_holds reap_holds reclaim create_offer_for_freed_range try_candidates atomic
    update_bookings update_offers update_entries find_eligible_entries
reap_expired_holds_complete_example =
    reap_expired_holds_complete worlds 70 "r"
      (record { holds_reclaimed = 1; cascades_triggered = 0; entries_returned_to_waiting = 1 })
      (state true offered) (λ n m. omega arith) refl
