-- ===== src/Store/Consistent.antt =====
-- The constraints of the schema as an invariant: what each statement of the services leaves true.
use kairos_booking_engine.Base.{
  ℕ, Bool, true, false, not, ◌||◌, ◌≡◌, refl, none, List, [], ◌∷◌, arith, ◌==◌, if◌then◌else◌, all,
  any, update_where, distinct_by, all-select, all-update, distinct_by-select, distinct_by-update,
}
use kairos_booking_engine.Schema.{Booking, WaitlistEntry, WaitlistOffer, SystemCheckRun}
use kairos_booking_engine.Store.{Tables, record_check}
use kairos_booking_engine.Store.Bookings.{
  conflicts, row_check, first_error, update_error, no_overlapping_bookings, insert_booking,
  update_bookings, delete_bookings, get_booking,
}
use kairos_booking_engine.Store.Waitlist.{
  same_slot, offer_clash, insert_entry, update_entries, get_entry, insert_offer, update_offers,
  get_offer,
}
use kairos_booking_engine.Store.Keeps.{Keeps, keeps_rules}

abbrev pub same_id : Booking → Booking → Bool
same_id a b = b.id == a.id

pub record IsConsistent (t : Tables) : Type 0 where
  pub apart : no_overlapping_bookings t.bookings ≡ true
  pub checked : all row_check t.bookings ≡ true
  pub ids : distinct_by same_id t.bookings ≡ true
  pub slots : distinct_by same_slot t.entries ≡ true
  pub claims : distinct_by offer_clash t.offers ≡ true

first_error-none : (rows : List Booking) → first_error rows ≡ none → all row_check rows ≡ true
first_error-none [] h = refl
first_error-none (b ∷ rows) h = ground (arith, first_error-none rows)

pub Consistent-insert_booking : (b : Booking) → Keeps IsConsistent (insert_booking b)
unfolding insert_booking
Consistent-insert_booking b = record { at = λ s h. ground arith }

pub Consistent-update_bookings :
    (p : Booking → Bool) (f : Booking → Booking)
    → ((b : Booking) → (f b).id ≡ b.id)
    → Keeps IsConsistent (update_bookings p f)
unfolding update_bookings
Consistent-update_bookings p f same = record {
  at = λ s h. ground (
    arith,
    first_error-none (update_where p f s.bookings),
    distinct_by-update same_id p f s.bookings (λ a b. ground (arith, same a, same b)) h.ids,
  );
}

pub Consistent-delete_bookings : (p : Booking → Bool) → Keeps IsConsistent (delete_bookings p)
unfolding delete_bookings
Consistent-delete_bookings p = record {
  at = λ s h. record {
    apart = distinct_by-select conflicts (λ b. not (p b)) s.bookings h.apart;
    checked = all-select row_check (λ b. not (p b)) s.bookings h.checked;
    ids = distinct_by-select same_id (λ b. not (p b)) s.bookings h.ids;
    slots = h.slots;
    claims = h.claims;
  };
}

pub Consistent-get_booking : (id : ℕ) → Keeps IsConsistent (get_booking id)
unfolding get_booking
Consistent-get_booking id = record { at = λ s h. ground arith }

any_or_false :
    (p q : WaitlistEntry → Bool) (rows : List WaitlistEntry)
    → any (λ r. p r || q r) rows ≡ false
    → any q rows ≡ false
any_or_false p q [] h = refl
any_or_false p q (r ∷ rows) h = ground (arith, any_or_false p q rows)

pub Consistent-insert_entry : (e : WaitlistEntry) → Keeps IsConsistent (insert_entry e)
unfolding insert_entry
Consistent-insert_entry e = record {
  at = λ s h. ground (arith, any_or_false (λ r. r.id == e.id) (same_slot e) s.entries);
}

pub Consistent-update_entries :
    (p : WaitlistEntry → Bool) (f : WaitlistEntry → WaitlistEntry)
    → Keeps IsConsistent (update_entries p f)
unfolding update_entries
Consistent-update_entries p f = record { at = λ s h. ground arith }

pub Consistent-get_entry : (id : ℕ) → Keeps IsConsistent (get_entry id)
unfolding get_entry
Consistent-get_entry id = record { at = λ s h. ground arith }

pub Consistent-insert_offer : (o : WaitlistOffer) → Keeps IsConsistent (insert_offer o)
unfolding insert_offer
Consistent-insert_offer o = record { at = λ s h. ground arith }

pub Consistent-update_offers :
    (p : WaitlistOffer → Bool) (f : WaitlistOffer → WaitlistOffer)
    → Keeps IsConsistent (update_offers p f)
unfolding update_offers
Consistent-update_offers p f = record { at = λ s h. ground arith }

pub Consistent-get_offer : (id : ℕ) → Keeps IsConsistent (get_offer id)
unfolding get_offer
Consistent-get_offer id = record { at = λ s h. ground arith }

pub Consistent-record_check : (c : SystemCheckRun) → Keeps IsConsistent (record_check c)
Consistent-record_check c = record {
  at = λ s h. record {
    apart = h.apart;
    checked = h.checked;
    ids = h.ids;
    slots = h.slots;
    claims = h.claims;
  };
}

pub ruleset consistent_rules = (
  keeps_rules, Consistent-insert_booking, Consistent-update_bookings, Consistent-delete_bookings,
  Consistent-get_booking, Consistent-insert_entry, Consistent-update_entries, Consistent-get_entry,
  Consistent-insert_offer, Consistent-update_offers, Consistent-get_offer, Consistent-record_check,
)

first_error_of_checked : (rows : List Booking) → all row_check rows ≡ true → first_error rows ≡ none
first_error_of_checked [] h = refl
first_error_of_checked (b ∷ rows) h = ground (arith, first_error_of_checked rows)

pub update_error_of_valid :
    (rows : List Booking)
    → all row_check rows ≡ true
    → no_overlapping_bookings rows ≡ true
    → update_error rows ≡ none
update_error_of_valid rows c h = ground (arith, first_error_of_checked rows)

-- An update that keeps each row in order and starts no occupation meets no constraint.
pub update_error-none :
    (p : Booking → Bool) (f : Booking → Booking) (t : Tables)
    → IsConsistent t
    → ((b : Booking) → row_check b ≡ true → p b ≡ true → row_check (f b) ≡ true)
    → ((a b : Booking)
        → conflicts (if p a then f a else a) (if p b then f b else b) ≡ true
        → conflicts a b ≡ true)
    → update_error (update_where p f t.bookings) ≡ none
update_error-none p f t c row back =
    update_error_of_valid (update_where p f t.bookings)
      (all-update row_check p f t.bookings row c.checked)
      (distinct_by-update conflicts p f t.bookings back c.apart)
