-- ===== src/Waitlist/Offers/Fine.antt =====
-- The statements of accepting, declining and reclaiming meet no constraint.
use kairos_booking_engine.Base.{
  ℕ, ◌≡◌, Bool, true, false, none, arith, update_where, distinct_by, distinct_by-update,
}
use kairos_booking_engine.Schema.{
  Booking, WaitlistEntry, WaitlistEntryStatus, WaitlistOffer, WaitlistOfferStatus, is_held,
  is_active_offer, is_waiting, is_offered,
}
use kairos_booking_engine.Store.{Tables}
use kairos_booking_engine.Store.Bookings.{update_error}
use kairos_booking_engine.Store.Waitlist.{same_slot, offer_clash}
use kairos_booking_engine.Store.Consistent.{IsConsistent, update_error-none}
use kairos_booking_engine.Waitlist.Entries.{with_entry_status}
use kairos_booking_engine.Waitlist.Offers.{confirm_row, release_row, with_offer_status}

-- Confirming a hold keeps its occupation; releasing one ends it.
pub confirm_row_fine :
    (p : Booking → Bool) (t : Tables)
    → ((b : Booking) → p b ≡ true → is_held b.status ≡ true)
    → IsConsistent t
    → update_error (update_where p confirm_row t.bookings) ≡ none
confirm_row_fine p t held_only c =
    update_error-none p confirm_row t c (λ b fine hit. ground arith)
      (λ a b. ground (arith, held_only a, held_only b))

pub release_row_fine :
    (now : ℕ) (p : Booking → Bool) (t : Tables)
    → IsConsistent t
    → update_error (update_where p (release_row now) t.bookings) ≡ none
release_row_fine now p t c =
    update_error-none p (release_row now) t c (λ b fine hit. ground arith) (λ a b. ground arith)

-- An entry that leaves the live states leaves the unique index.
pub settled_slots :
    (st : WaitlistEntryStatus) (p : WaitlistEntry → Bool) (t : Tables)
    → is_waiting st ≡ false
    → is_offered st ≡ false
    → IsConsistent t
    → distinct_by same_slot (update_where p (with_entry_status st) t.entries) ≡ true
settled_slots st p t w o c =
    distinct_by-update same_slot p (with_entry_status st) t.entries (λ a b. ground arith) c.slots

pub settled_claims :
    (st : WaitlistOfferStatus) (p : WaitlistOffer → Bool) (t : Tables)
    → is_active_offer st ≡ false
    → IsConsistent t
    → distinct_by offer_clash (update_where p (with_offer_status st) t.offers) ≡ true
settled_claims st p t a c =
    distinct_by-update offer_clash p (with_offer_status st) t.offers (λ x y. ground arith) c.claims
