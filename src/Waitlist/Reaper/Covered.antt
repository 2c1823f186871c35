-- ===== src/Waitlist/Reaper/Covered.antt =====
-- Every expired hold is still on the list of a sweep of the reaper
-- (backend/kairos/waitlist/services.py).
use kairos_booking_engine.Base.{
  ℕ, ◌≤◌, String, ◌≡◌, refl, Bool, true, false, not, ◌||◌, List, [], ◌∷◌, arith, ◌==◌, any, all,
  all-select, update_where,
}
use kairos_booking_engine.Errors.{ok}
use kairos_booking_engine.Schema.{Booking, WaitlistEntry, WaitlistOffer, SystemCheckRun}
use kairos_booking_engine.Store.{Tables, State, Env, atomic, record_check}
use kairos_booking_engine.Store.Waitlist.{update_entries, update_offers, insert_offer}
use kairos_booking_engine.Store.Bookings.{
  insert_booking, update_bookings, delete_bookings, get_booking,
}
use kairos_booking_engine.Store.Keeps.{Keeps, Keeps-bind, Keeps-pure, keeps_rules}
use kairos_booking_engine.Bookings.{
  BookingCreateRequest, new_booking, create_booking, handle_write_database_error,
}
use kairos_booking_engine.Waitlist.Cascade.{Envs}
use kairos_booking_engine.Waitlist.Cascade.Invariant.{Keeps-create_offer_for_freed_range}
use kairos_booking_engine.Waitlist.Offers.{release_row}
use kairos_booking_engine.Waitlist.Reaper.{
  is_expired, is_expired_row, Findings, Reclaimed, lost, bare, with_offer, reclaim, cascade_after,
}

-- Every expired hold of the table is still on the list.
abbrev pub Covered : ℕ → List Booking → Tables → Type 0
Covered now list t =
    all (λ b. not (is_expired now b) || any (λ h. h.id == b.id) list) t.bookings ≡ true

release_covered :
    (now : ℕ) (hold : Booking) (list rows : List Booking)
    → all (λ b. not (is_expired now b) || any (λ h. h.id == b.id) (hold ∷ list)) rows ≡ true
    → all
        (λ b. not (is_expired now b) || any (λ h. h.id == b.id) list)
        (update_where (is_expired_row hold.id now) (release_row now) rows)
      ≡ true
release_covered now hold list [] h = refl
release_covered now hold list (x ∷ rows) h = ground (arith, release_covered now hold list rows)

pub bookings-reclaim :
    (e : Env) (now : ℕ) (request_id : String) (hold : Booking) (s : State) (r : Reclaimed)
    → (reclaim e now request_id hold s).0 ≡ ok r
    → (reclaim e now request_id hold s).1.bookings
      ≡ update_where (is_expired_row hold.id now) (release_row now) s.bookings
unfolding reclaim atomic update_bookings update_offers update_entries
bookings-reclaim e now request_id hold s r done = ground arith

module _ (now : ℕ) (list : List Booking) where
  Covered-insert_booking :
      (b : Booking) → is_expired now b ≡ false → Keeps (Covered now list) (insert_booking b)
  unfolding insert_booking
  Covered-insert_booking b fresh = record { at = λ s h. ground arith }

  Covered-delete_bookings : (p : Booking → Bool) → Keeps (Covered now list) (delete_bookings p)
  unfolding delete_bookings
  Covered-delete_bookings p = record { at = λ s h. all-select _ (λ b. not (p b)) s.bookings h }

  Covered-get_booking : (id : ℕ) → Keeps (Covered now list) (get_booking id)
  unfolding get_booking
  Covered-get_booking id = record { at = λ s h. ground arith }

  Covered-insert_offer : (o : WaitlistOffer) → Keeps (Covered now list) (insert_offer o)
  unfolding insert_offer
  Covered-insert_offer o = record { at = λ s h. ground arith }

  Covered-update_entries :
      (p : WaitlistEntry → Bool) (f : WaitlistEntry → WaitlistEntry)
      → Keeps (Covered now list) (update_entries p f)
  unfolding update_entries
  Covered-update_entries p f = record { at = λ s h. ground arith }

  Covered-record_check : (c : SystemCheckRun) → Keeps (Covered now list) (record_check c)
  Covered-record_check c = record { at = λ s h. h }

  Covered-new_booking :
      (e : Env) (req : BookingCreateRequest)
      → now ≤ e.now
      → is_expired now (new_booking e req) ≡ false
  Covered-new_booking e req h = ground arith

  Covered-create_booking :
      (e : Env) (req : BookingCreateRequest)
      → now ≤ e.now
      → Keeps (Covered now list) (create_booking e req)
  unfolding create_booking handle_write_database_error
  Covered-create_booking e req h =
      search
        (
          keeps_rules, Covered-insert_booking, Covered-delete_bookings, Covered-get_booking,
          Covered-new_booking,
        )
        depth 12

  pub Covered-cascade_after :
      (envs : Envs) (request_id : String) (hold : Booking) (f : Findings) (r : Reclaimed)
      → ((n : ℕ) → now ≤ (envs n).now)
      → Keeps (Covered now list) (cascade_after envs request_id hold f r)
  unfolding cascade_after
  Covered-cascade_after envs request_id hold f lost q = search keeps_rules
  Covered-cascade_after envs request_id hold f bare q = search keeps_rules
  Covered-cascade_after envs request_id hold f (with_offer freed) q =
      Keeps-bind _ _
        (Keeps-create_offer_for_freed_range (λ e. now ≤ e.now) Covered-create_booking
          Covered-insert_offer Covered-update_entries Covered-record_check envs hold.resource freed
          request_id q)
        (λ o. Keeps-pure _)

pub reclaim-Covered :
    (e : Env) (now : ℕ) (request_id : String) (hold : Booking) (list : List Booking) (s : State)
    (r : Reclaimed)
    → (reclaim e now request_id hold s).0 ≡ ok r
    → Covered now (hold ∷ list) s.tables
    → Covered now list (reclaim e now request_id hold s).1.tables
reclaim-Covered e now request_id hold list s r done h =
    rw (bookings-reclaim e now request_id hold s r done)
      (release_covered now hold list s.bookings h)
