-- ===== src/Waitlist/Offers/Decline.antt =====
-- What `decline_offer` of backend/kairos/waitlist/services.py answers.
use kairos_booking_engine.Base.{
  ℕ, ◌<◌, ◌≡◌, refl, Bool, true, false, none, some, List, [], ◌∷◌, ◌++◌, arith, ◌==◌, if◌then◌else◌,
  any, find?, update_where, count_where, update_where_none, count_where_none, find?-holds,
}
use kairos_booking_engine.Errors.{Error, ok, err}
use kairos_booking_engine.Schema.{
  WaitlistEntryStatus, WaitlistOffer, WaitlistOfferStatus, is_active_offer,
}
use kairos_booking_engine.Store.{State, Env, Message, atomic, on_commit}
use kairos_booking_engine.Store.Bookings.{update_bookings}
use kairos_booking_engine.Store.Waitlist.{update_entries, update_offers, get_offer}
use kairos_booking_engine.Store.Consistent.{IsConsistent}
use kairos_booking_engine.Waitlist.Entries.{entry_id, with_entry_status}
use kairos_booking_engine.Waitlist.Offers.{
  DeclineOfferRequest, decline_offer, is_held_row, is_active_row, release_row, with_offer_status,
}
use kairos_booking_engine.Waitlist.Offers.Fine.{release_row_fine, settled_slots, settled_claims}

abbrev pub offer_id : ℕ → WaitlistOffer → Bool
offer_id id o = o.id == id

active_count :
    (i : ℕ) (o : WaitlistOffer) (rows : List WaitlistOffer)
    → find? (offer_id i) rows ≡ some o
    → is_active_offer o.status ≡ true
    → 0 < count_where (is_active_row i) rows
active_count i o [] h q = cc
active_count i o (x ∷ rows) h q = ground (arith, active_count i o rows)

found_offer :
    (i : ℕ) (p : WaitlistOffer → Bool) (f : WaitlistOffer → WaitlistOffer) (o : WaitlistOffer)
    (rows : List WaitlistOffer)
    → ((r : WaitlistOffer) → (f r).id ≡ r.id)
    → find? (offer_id i) rows ≡ some o
    → find? (offer_id i) (update_where p f rows) ≡ some (if p o then f o else o)
found_offer i p f o [] same h = cc
found_offer i p f o (x ∷ rows) same h = ground (arith, same x, found_offer i p f o rows same)

none_active :
    (i : ℕ) (rows : List WaitlistOffer)
    → any
        (is_active_row i)
        (update_where (is_active_row i) (with_offer_status WaitlistOfferStatus.declined) rows)
      ≡ false
none_active i [] = refl
none_active i (x ∷ rows) = ground (arith, none_active i rows)

module _ (e : Env) (req : DeclineOfferRequest) (s : State) where
  -- Inside a transaction on consistent tables, with no server failure, declining an active
  -- offer answers the declined offer, releases its hold, expires its entry and queues the
  -- cascade for its range.
  pub decline_offer_active :
      (o : WaitlistOffer)
      → IsConsistent s.tables
      → s.in_atomic ≡ true
      → e.fault ≡ none
      → find? (offer_id req.offer.id) s.offers ≡ some o
      → is_active_offer o.status ≡ true
      → ((decline_offer e req s).0 ≡ ok (with_offer_status WaitlistOfferStatus.declined o))
        × ((decline_offer e req s).1.bookings
            ≡ update_where (is_held_row req.offer.hold_booking) (release_row e.now) s.bookings)
        × ((decline_offer e req s).1.offers
            ≡ update_where
                (is_active_row req.offer.id)
                (with_offer_status WaitlistOfferStatus.declined)
                s.offers)
        × ((decline_offer e req s).1.entries
            ≡ update_where
                (entry_id req.offer.waitlist_entry)
                (with_entry_status WaitlistEntryStatus.expired)
                s.entries)
        × ((decline_offer e req s).1.on_commit_queue
            ≡ s.on_commit_queue
              ++ Message.dispatch_cascade req.offer.resource req.offer.time_range.lower
                  req.offer.time_range.upper req.request_id
                ∷ [])
  unfolding decline_offer atomic update_bookings update_offers update_entries get_offer on_commit
  decline_offer_active o c nested quiet found active =
      let many = active_count req.offer.id o s.offers found active in
      let fine = release_row_fine e.now (is_held_row req.offer.hold_booking) s.tables c in
      let claims =
        settled_claims WaitlistOfferStatus.declined (is_active_row req.offer.id) s.tables refl c in
      let slots =
        settled_slots WaitlistEntryStatus.expired (entry_id req.offer.waitlist_entry) s.tables refl
          refl c in
      let row =
        found_offer req.offer.id (is_active_row req.offer.id)
          (with_offer_status WaitlistOfferStatus.declined) o s.offers (λ r. refl) found in
      let hit = find?-holds (offer_id req.offer.id) s.offers o found in
      (ground arith, ground arith, ground arith, ground arith, ground arith)

  -- On consistent tables, with no server failure, declining an offer that is not active raises
  -- `offer_already_resolved` and changes nothing.
  pub decline_offer_resolved :
      IsConsistent s.tables
      → e.fault ≡ none
      → any (is_active_row req.offer.id) s.offers ≡ false
      → decline_offer e req s ≡ (err Error.offer_already_resolved, s)
  unfolding decline_offer atomic update_offers
  decline_offer_resolved c quiet missed =
      let same =
        update_where_none (is_active_row req.offer.id)
          (with_offer_status WaitlistOfferStatus.declined) s.offers missed in
      let zero_rows = count_where_none (is_active_row req.offer.id) s.offers missed in
      let claims =
        settled_claims WaitlistOfferStatus.declined (is_active_row req.offer.id) s.tables refl c in
      ground arith
