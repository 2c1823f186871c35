-- ===== src/Examples/Waitlist.antt =====
-- The theorems about backend/kairos/waitlist/services.py at concrete entries and offers.
use kairos_booking_engine.Base.{leb, ◌==◌, count_where, ◌&&◌, Bool, true, ◌≡◌, refl, [], ◌∷◌, arith}
use kairos_booking_engine.Range.{Range}
use kairos_booking_engine.Errors.{Error, ok, err}
use kairos_booking_engine.Schema.{
  is_waiting, WaitlistEntry, WaitlistEntryStatus, WaitlistOfferStatus, AuditActorType,
}
use kairos_booking_engine.Store.{Tables, Message}
use kairos_booking_engine.Waitlist.Entries.{
  WaitlistJoinRequest, join_waitlist, join_waitlist_answer,
}
use kairos_booking_engine.Waitlist.Eligibility.{
  find_eligible_entries, find_eligible_entries-IsFirstCome, IsFirstCome,
}
use kairos_booking_engine.Waitlist.Offers.{
  AcceptOfferRequest, DeclineOfferRequest, accept_offer, decline_offer, confirm_row, release_row,
  with_offer_status,
}
use kairos_booking_engine.Waitlist.Offers.Accept.{accept_offer_accepted}
use kairos_booking_engine.Waitlist.Offers.Decline.{decline_offer_active}
use kairos_booking_engine.Examples.Data.{
  calm, entry_row, offer_row, tables, state, confirmed_row, held_row, offered, waiting,
  offered-IsConsistent,
}

abbrev join : WaitlistJoinRequest
join = record { resource = 7; user = 4; start = 300; end = 400; request_id = "r" }

join_waitlist_answer_example :
    (join_waitlist (calm 10 25) join (state true waiting)).0 ≡ err Error.already_on_waitlist
join_waitlist_answer_example =
    join_waitlist_answer (calm 10 25) join (state true waiting) refl refl (omega arith) refl

abbrev pub freed : Range
freed = record { lower = 250; upper = 400 }

find_eligible_entries-IsFirstCome_example :
    IsFirstCome (find_eligible_entries 7 freed waiting)
    × ((p : WaitlistEntry → Bool)
        → count_where p (find_eligible_entries 7 freed waiting)
          ≡ count_where
              (λ w.
                ((w.resource == 7 && is_waiting w.status)
                  && (leb 250 w.time_range.lower && leb w.time_range.upper 400))
                && p w)
              waiting.entries)
find_eligible_entries-IsFirstCome_example = find_eligible_entries-IsFirstCome 7 freed waiting

abbrev pub acceptance : AcceptOfferRequest
acceptance = record { offer = offer_row; user = 4; request_id = "r" }

accept_offer_accepted_example :
    ((accept_offer (calm 10 13) acceptance (state true offered)).0 ≡ ok (confirm_row held_row))
    × ((accept_offer (calm 10 13) acceptance (state true offered)).1.bookings
        ≡ confirmed_row ∷ confirm_row held_row ∷ [])
    × ((accept_offer (calm 10 13) acceptance (state true offered)).1.offers
        ≡ with_offer_status WaitlistOfferStatus.confirmed offer_row ∷ [])
    × ((accept_offer (calm 10 13) acceptance (state true offered)).1.entries
        ≡ entry_row 21 4 2 WaitlistEntryStatus.fulfilled ∷ [])
accept_offer_accepted_example =
    accept_offer_accepted (calm 10 13) acceptance (state true offered) held_row offered-IsConsistent
      refl refl refl refl

abbrev refusal : DeclineOfferRequest
refusal = record { offer = offer_row; user = 4; request_id = "r"; actor_type = AuditActorType.user }

decline_offer_active_example :
    ((decline_offer (calm 10 13) refusal (state true offered)).0
      ≡ ok (with_offer_status WaitlistOfferStatus.declined offer_row))
    × ((decline_offer (calm 10 13) refusal (state true offered)).1.bookings
        ≡ confirmed_row ∷ release_row 10 held_row ∷ [])
    × ((decline_offer (calm 10 13) refusal (state true offered)).1.offers
        ≡ with_offer_status WaitlistOfferStatus.declined offer_row ∷ [])
    × ((decline_offer (calm 10 13) refusal (state true offered)).1.entries
        ≡ entry_row 21 4 2 WaitlistEntryStatus.expired ∷ [])
    × ((decline_offer (calm 10 13) refusal (state true offered)).1.on_commit_queue
        ≡ Message.dispatch_cascade 7 300 400 "r" ∷ [])
decline_offer_active_example =
    decline_offer_active (calm 10 13) refusal (state true offered) offer_row offered-IsConsistent
      refl refl refl refl

abbrev resolved : Tables
resolved =
    tables (confirmed_row ∷ release_row 10 held_row ∷ [])
      (entry_row 21 4 2 WaitlistEntryStatus.expired ∷ [])
      (with_offer_status WaitlistOfferStatus.declined offer_row ∷ [])
