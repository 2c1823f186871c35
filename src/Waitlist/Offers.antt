-- ===== src/Waitlist/Offers.antt =====
-- `accept_offer` and `decline_offer` of backend/kairos/waitlist/services.py.
pub mod Fine
pub mod Accept
pub mod Decline
use kairos_booking_engine.Base.{
  ℕ, String, Bool, true, false, ◌&&◌, Option, none, some, ltb, ◌==◌, if◌then◌else◌,
}
use kairos_booking_engine.Errors.{Error}
use kairos_booking_engine.Schema.{
  Booking, BookingStatus, WaitlistEntryStatus, WaitlistOffer, WaitlistOfferStatus, AuditActorType,
  is_held, is_active_offer,
}
use kairos_booking_engine.Store.{
  Env, M, Message, ◌>>=◌, ◌>>◌, pure, raise, serve, atomic, on_commit,
  apply_write_path_session_settings, actor_unless_system,
}
use kairos_booking_engine.Store.Bookings.{update_bookings, get_booking}
use kairos_booking_engine.Store.Waitlist.{update_entries, update_offers, get_offer}
use kairos_booking_engine.Waitlist.Entries.{entry_id, with_entry_status}

pub record AcceptOfferRequest : Type 0 where
  pub offer : WaitlistOffer
  pub user : ℕ
  pub request_id : String

-- id=.., status=HELD, user=.., expires_at__gt=now
abbrev pub is_acceptable : ℕ → ℕ → ℕ → Booking → Bool
is_acceptable hold user now b =
    ((b.id == hold && is_held b.status) && b.user == user)
    && elim b.expires_at [ none ↦ false | some t ↦ ltb now t ]

abbrev pub confirm_row : Booking → Booking
confirm_row b = record b { status = BookingStatus.confirmed; expires_at = none }

abbrev pub is_active_row : ℕ → WaitlistOffer → Bool
is_active_row id o = o.id == id && is_active_offer o.status

abbrev pub with_offer_status : WaitlistOfferStatus → WaitlistOffer → WaitlistOffer
with_offer_status st o = record o { status = st }

abbrev pub raise_unless : Bool → Error → M (Unit {0})
raise_unless true e = pure tt
raise_unless false e = raise e

accept_offer_body : Env → AcceptOfferRequest → M Booking
accept_offer_body e req = do
  apply_write_path_session_settings (some req.user) AuditActorType.user req.request_id none
  serve e
  updated ← update_bookings (is_acceptable req.offer.hold_booking req.user e.now) confirm_row
  raise_unless (ltb 0 updated) Error.offer_expired
  _ ← update_offers (is_active_row req.offer.id) (with_offer_status WaitlistOfferStatus.confirmed)
  _ ←
      update_entries (entry_id req.offer.waitlist_entry)
        (with_entry_status WaitlistEntryStatus.fulfilled)
  get_booking req.offer.hold_booking

unfoldable pub accept_offer : Env → AcceptOfferRequest → M Booking
unfolding accept_offer_body
accept_offer e req = atomic (accept_offer_body e req)

pub record DeclineOfferRequest : Type 0 where
  pub offer : WaitlistOffer
  pub user : ℕ
  pub request_id : String
  pub actor_type : AuditActorType

abbrev pub is_held_row : ℕ → Booking → Bool
is_held_row id b = b.id == id && is_held b.status

abbrev pub release_row : ℕ → Booking → Booking
release_row now b = record b {
  status = BookingStatus.cancelled;
  cancelled_at = some now;
  expires_at = none;
}

decline_offer_body : Env → DeclineOfferRequest → M (Unit {0})
decline_offer_body e req = do
  apply_write_path_session_settings (actor_unless_system req.user req.actor_type) req.actor_type
      req.request_id none
  serve e
  updated ←
      update_offers (is_active_row req.offer.id) (with_offer_status WaitlistOfferStatus.declined)
  raise_unless (ltb 0 updated) Error.offer_already_resolved
  _ ← update_bookings (is_held_row req.offer.hold_booking) (release_row e.now)
  _ ←
      update_entries (entry_id req.offer.waitlist_entry)
        (with_entry_status WaitlistEntryStatus.expired)
  on_commit (
      Message.dispatch_cascade req.offer.resource req.offer.time_range.lower
        req.offer.time_range.upper req.request_id)

unfoldable pub decline_offer : Env → DeclineOfferRequest → M WaitlistOffer
unfolding decline_offer_body
decline_offer e req = do atomic (decline_offer_body e req); get_offer req.offer.id
