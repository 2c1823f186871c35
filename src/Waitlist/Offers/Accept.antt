-- ===== src/Waitlist/Offers/Accept.antt =====
-- What `accept_offer` of backend/kairos/waitlist/services.py answers.
use kairos_booking_engine.Base.{
  ℕ, ◌<◌, ◌≡◌, refl, Bool, true, false, none, some, List, [], ◌∷◌, arith, any, find?, update_where,
  count_where, update_where_none, count_where_none,
}
use kairos_booking_engine.Errors.{Error, ok, err}
use kairos_booking_engine.Schema.{Booking, WaitlistEntryStatus, WaitlistOfferStatus}
use kairos_booking_engine.Store.{State, Env, atomic}
use kairos_booking_engine.Store.Bookings.{update_bookings, get_booking}
use kairos_booking_engine.Store.Waitlist.{update_entries, update_offers}
use kairos_booking_engine.Store.Consistent.{IsConsistent}
use kairos_booking_engine.Bookings.{has_id}
use kairos_booking_engine.Bookings.Rows.{found_updated}
use kairos_booking_engine.Waitlist.Entries.{entry_id, with_entry_status}
use kairos_booking_engine.Waitlist.Offers.{
  AcceptOfferRequest, accept_offer, is_acceptable, is_active_row, confirm_row, with_offer_status,
}
use kairos_booking_engine.Waitlist.Offers.Fine.{confirm_row_fine, settled_slots, settled_claims}

acceptable_count :
    (i user now : ℕ) (b : Booking) (rows : List Booking)
    → find? (has_id i) rows ≡ some b
    → is_acceptable i user now b ≡ true
    → 0 < count_where (is_acceptable i user now) rows
acceptable_count i user now b [] h q = cc
acceptable_count i user now b (x ∷ rows) h q = ground (arith, acceptable_count i user now b rows)

module _ (e : Env) (req : AcceptOfferRequest) (s : State) where
  abbrev guard : Booking → Bool
  guard = is_acceptable req.offer.hold_booking req.user e.now

  -- Inside a transaction on consistent tables, with no server failure, the acceptance of a hold
  -- that is the user's and has not expired answers the confirmed row, and changes that row, the
  -- active offer and the entry alone.
  pub accept_offer_accepted :
      (b : Booking)
      → IsConsistent s.tables
      → s.in_atomic ≡ true
      → e.fault ≡ none
      → find? (has_id req.offer.hold_booking) s.bookings ≡ some b
      → is_acceptable req.offer.hold_booking req.user e.now b ≡ true
      → ((accept_offer e req s).0 ≡ ok (confirm_row b))
        × ((accept_offer e req s).1.bookings ≡ update_where guard confirm_row s.bookings)
        × ((accept_offer e req s).1.offers
            ≡ update_where
                (is_active_row req.offer.id)
                (with_offer_status WaitlistOfferStatus.confirmed)
                s.offers)
        × ((accept_offer e req s).1.entries
            ≡ update_where
                (entry_id req.offer.waitlist_entry)
                (with_entry_status WaitlistEntryStatus.fulfilled)
                s.entries)
  unfolding accept_offer atomic update_bookings update_offers update_entries get_booking
  accept_offer_accepted b c nested quiet found fits =
      let many = acceptable_count req.offer.hold_booking req.user e.now b s.bookings found fits in
      let fine = confirm_row_fine guard s.tables (λ r. ground arith) c in
      let claims =
        settled_claims WaitlistOfferStatus.confirmed (is_active_row req.offer.id) s.tables refl c in
      let slots =
        settled_slots WaitlistEntryStatus.fulfilled (entry_id req.offer.waitlist_entry) s.tables
          refl refl c in
      let row =
        found_updated req.offer.hold_booking guard confirm_row b s.bookings (λ r. refl) found in
      (ground arith, ground arith, ground arith, ground arith)

  -- On consistent tables, with no server failure, where no held booking of the user with the
  -- identifier of the hold is still running, the acceptance raises `offer_expired` and changes
  -- nothing.
  pub accept_offer_refused :
      IsConsistent s.tables
      → e.fault ≡ none
      → any guard s.bookings ≡ false
      → accept_offer e req s ≡ (err Error.offer_expired, s)
  unfolding accept_offer atomic update_bookings
  accept_offer_refused c quiet missed =
      let same = update_where_none guard confirm_row s.bookings missed in
      let zero_rows = count_where_none guard s.bookings missed in
      let fine = confirm_row_fine guard s.tables (λ r. ground arith) c in ground arith
