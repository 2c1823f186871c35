-- ===== src/Examples/Data.antt =====
-- Concrete rows and requests for the services of backend/kairos: room 7, the users 3 and 4.
use kairos_booking_engine.Base.{ℕ, Bool, refl, Option, none, some, List, [], ◌∷◌}
use kairos_booking_engine.Schema.{
  Booking, BookingStatus, WaitlistEntry, WaitlistEntryStatus, WaitlistOffer, WaitlistOfferStatus,
  AuditActorType,
}
use kairos_booking_engine.Store.{Tables, State, Env, no_session}
use kairos_booking_engine.Store.Consistent.{IsConsistent}
use kairos_booking_engine.Bookings.{BookingCreateRequest}

abbrev pub calm : ℕ → ℕ → Env
calm now uuid = record { now = now; transaction_time = now; uuid = uuid; fault = none }

abbrev pub row : ℕ → ℕ → ℕ → ℕ → BookingStatus → Option ℕ → Booking
row id user start end status expires = record {
  id = id;
  resource = 7;
  series = some 50;
  user = user;
  time_range = record { lower = start; upper = end };
  status = status;
  expires_at = expires;
  created_at = 1;
  cancelled_at = none;
  cancelled_by = none;
  cancellation_reason = none;
}

abbrev pub entry_row : ℕ → ℕ → ℕ → WaitlistEntryStatus → WaitlistEntry
entry_row id user joined status = record {
  id = id;
  resource = 7;
  user = user;
  time_range = record { lower = 300; upper = 400 };
  status = status;
  joined_at = joined;
}

abbrev pub offer_row : WaitlistOffer
offer_row = record {
  id = 31;
  waitlist_entry = 21;
  hold_booking = 12;
  resource = 7;
  time_range = record { lower = 300; upper = 400 };
  status = WaitlistOfferStatus.active;
  expires_at = 60;
  created_at = 5;
}

abbrev pub tables : List Booking → List WaitlistEntry → List WaitlistOffer → Tables
tables bookings entries offers = record {
  bookings = bookings;
  series = [];
  entries = entries;
  offers = offers;
  keys = [];
  checks = [];
  audit_log = [];
  alerts = [];
  notifications = [];
  users = [];
  resources = [];
  admin_grants = [];
}

abbrev pub state : Bool → Tables → State
state in_atomic t = record {
  tables = t;
  session = no_session;
  in_atomic = in_atomic;
  on_commit_queue = [];
  sent = [];
}

-- A confirmed booking 11 of 100-200, and a hold 12 of 300-400 that expires at 60.
abbrev pub confirmed_row : Booking
confirmed_row = row 11 3 100 200 BookingStatus.confirmed none

abbrev pub held_row : Booking
held_row = row 12 4 300 400 BookingStatus.held (some 60)

abbrev pub booked : Tables
booked = tables (confirmed_row ∷ []) [] []

abbrev pub offered : Tables
offered =
    tables (confirmed_row ∷ held_row ∷ []) (entry_row 21 4 2 WaitlistEntryStatus.offered ∷ [])
      (offer_row ∷ [])

abbrev pub waiting : Tables
waiting =
    tables (confirmed_row ∷ [])
      (entry_row 22 4 3 WaitlistEntryStatus.waiting
        ∷ entry_row 21 5 2 WaitlistEntryStatus.waiting
        ∷ [])
      []

pub booked-IsConsistent : IsConsistent booked
booked-IsConsistent = record {
  apart = refl;
  checked = refl;
  ids = refl;
  slots = refl;
  claims = refl;
}

pub offered-IsConsistent : IsConsistent offered
offered-IsConsistent = record {
  apart = refl;
  checked = refl;
  ids = refl;
  slots = refl;
  claims = refl;
}

abbrev pub create_request : ℕ → ℕ → BookingCreateRequest
create_request start end = record {
  resource = 7;
  user = 4;
  start = start;
  end = end;
  request_id = "r";
  series = none;
  actor_type = AuditActorType.user;
  status = BookingStatus.confirmed;
}
