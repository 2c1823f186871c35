-- ===== src/Series/Confirmed.antt =====
-- Confirmed rows stay while `confirm_recurring_series` of
-- backend/kairos/bookings/recurring_series.py makes the next ones.
use kairos_booking_engine.Base.{
  ℕ, suc, ◌≡◌, String, Bool, true, not, ◌&&◌, List, [], ◌∷◌, arith, ==_refl, any, select,
}
use kairos_booking_engine.Errors.{ok}
use kairos_booking_engine.Schema.{Booking, is_confirmed}
use kairos_booking_engine.Recurrence.{Occurrence}
use kairos_booking_engine.Store.{Tables, State, Env, atomic}
use kairos_booking_engine.Store.Bookings.{insert_booking, delete_bookings, get_booking}
use kairos_booking_engine.Store.Keeps.{Keeps, keeps_rules, Keeps-bind, Keeps-pure, Keeps-if}
use kairos_booking_engine.Bookings.{
  BookingCreateRequest, create_booking, new_booking, is_expired_hold, handle_write_database_error,
}
use kairos_booking_engine.Waitlist.Cascade.{Envs}
use kairos_booking_engine.Series.Invariant.{Keeps-try_create}
use kairos_booking_engine.Series.Confirm.{attempt_occurrences}

-- A confirmed row that a test names is one that the creation of bookings never takes away.
abbrev pub HasConfirmed : (Booking → Bool) → Tables → Type 0
HasConfirmed q t = any (λ b. is_confirmed b.status && q b) t.bookings ≡ true

select_keeps :
    (q p : Booking → Bool) (rows : List Booking)
    → ((b : Booking) → is_confirmed b.status ≡ true → p b ≡ true)
    → any (λ b. is_confirmed b.status && q b) rows ≡ true
    → any (λ b. is_confirmed b.status && q b) (select p rows) ≡ true
select_keeps q p [] stays h = h
select_keeps q p (x ∷ rows) stays h = ground (arith, stays x, select_keeps q p rows stays)

Confirmed-delete_expired :
    (q : Booking → Bool) (now : ℕ) (req : BookingCreateRequest)
    → Keeps (HasConfirmed q) (delete_bookings (is_expired_hold now req))
unfolding delete_bookings
Confirmed-delete_expired q now req = record {
  at = λ s h.
      select_keeps q (λ b. not (is_expired_hold now req b)) s.bookings (λ b c. ground arith) h;
}

Confirmed-insert_booking :
    (q : Booking → Bool) (b : Booking) → Keeps (HasConfirmed q) (insert_booking b)
unfolding insert_booking
Confirmed-insert_booking q b = record { at = λ s h. ground arith }

Confirmed-get_booking : (q : Booking → Bool) (id : ℕ) → Keeps (HasConfirmed q) (get_booking id)
unfolding get_booking
Confirmed-get_booking q id = record { at = λ s h. ground arith }

pub Confirmed-create_booking :
    (q : Booking → Bool) (e : Env) (req : BookingCreateRequest)
    → Keeps (HasConfirmed q) (create_booking e req)
unfolding create_booking handle_write_database_error
Confirmed-create_booking q e req =
    search (keeps_rules, Confirmed-delete_expired, Confirmed-insert_booking, Confirmed-get_booking)
      depth 12

pub Confirmed-attempt_occurrences :
    (q : Booking → Bool) (envs : Envs) (resource user series : ℕ) (request_id : String)
    (known : List ℕ) (os : List Occurrence)
    → Keeps (HasConfirmed q) (attempt_occurrences envs resource user series request_id known os)
unfolding attempt_occurrences
Confirmed-attempt_occurrences q envs resource user series request_id known [] = Keeps-pure _
Confirmed-attempt_occurrences q envs resource user series request_id known (o ∷ os) =
    let rest =
      Confirmed-attempt_occurrences q (λ n. envs (suc n)) resource user series request_id known
        os in
    Keeps-if _ _ _ (Keeps-bind _ _ rest (λ r. Keeps-pure _)) (
      Keeps-try_create _ _ _ (Confirmed-create_booking q _ _)
        (λ b. Keeps-bind _ _ rest (λ r. Keeps-pure _)) (Keeps-bind _ _ rest (λ r. Keeps-pure _)))

-- The row of a request that was answered with a booking.
pub create_booking_row :
    (e : Env) (req : BookingCreateRequest) (s : State) (b : Booking) (q : Booking → Bool)
    → (create_booking e req s).0 ≡ ok b
    → is_confirmed req.status ≡ true
    → q (new_booking e req) ≡ true
    → HasConfirmed q (create_booking e req s).1.tables × (b.id ≡ e.uuid)
unfolding create_booking atomic insert_booking delete_bookings get_booking
    handle_write_database_error
create_booking_row e req s b q done confirmed named =
    (ground (arith, ==_refl e.uuid), ground (arith, ==_refl e.uuid))
