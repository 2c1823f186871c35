-- ===== src/Bookings/Reclaim.antt =====
-- The cleanup-on-write of `create_booking` (backend/kairos/bookings/services.py).
use kairos_booking_engine.Base.{
  ℕ, ◌≡◌, refl, sym, ap, ◌∙◌, Bool, true, false, not, ◌||◌, some, List, [], ◌∷◌, arith, ◌==◌, any,
  all, select, find?, distinct_by, any-select-false,
}
use kairos_booking_engine.Errors.{Sqlstate, Error, ok, err}
use kairos_booking_engine.Schema.{Booking, WaitlistOffer}
use kairos_booking_engine.Store.{State, Env}
use kairos_booking_engine.Store.Bookings.{conflicts}
use kairos_booking_engine.Store.Consistent.{IsConsistent, same_id}
use kairos_booking_engine.Bookings.{
  BookingCreateRequest, new_booking, is_expired_hold, create_booking,
}
use kairos_booking_engine.Bookings.Outcome.{
  remaining, references, IsProper, create_booking_answer, create_booking_commit,
  create_booking_failure,
}

-- Whatever stands in the way is an expired hold.
abbrev pub only_expired_holds : Env → BookingCreateRequest → List Booking → Bool
only_expired_holds e req rows =
    all (λ b. not (conflicts (new_booking e req) b) || is_expired_hold e.transaction_time req b)
      rows

no_conflict_left :
    (e : Env) (req : BookingCreateRequest) (rows : List Booking)
    → only_expired_holds e req rows ≡ true
    → any (conflicts (new_booking e req)) (remaining e req rows) ≡ false
no_conflict_left e req [] h = refl
no_conflict_left e req (x ∷ rows) h = ground (arith, no_conflict_left e req rows)

-- Inside a transaction, a proper request is answered with the new booking where every row that
-- conflicts with it is an expired hold.
pub create_booking_self_healing :
    (e : Env) (req : BookingCreateRequest) (s : State)
    → IsProper e req s
    → s.in_atomic ≡ true
    → only_expired_holds e req s.bookings ≡ true
    → (create_booking e req s).0 ≡ ok (new_booking e req)
create_booking_self_healing e req s proper nested free =
    create_booking_answer e req s proper nested ∙ rw (no_conflict_left e req s.bookings free)

any_remaining :
    (i : ℕ) (p : Booking → Bool) (rows : List Booking)
    → any (λ b. b.id == i) rows ≡ false
    → any (λ b. b.id == i) (select p rows) ≡ false
any_remaining i p rows h = any-select-false (λ b. b.id == i) p rows h

any_id :
    (i j : ℕ) (rows : List Booking)
    → i ≡ j
    → any (λ b. b.id == i) rows ≡ false
    → any (λ b. b.id == j) rows ≡ false
any_id i j rows e h = rw (sym e) h

-- An identifier has one row, so a deleted row leaves none with its identifier.
no_row_left :
    (i : ℕ) (h : Booking) (p : Booking → Bool) (rows : List Booking)
    → distinct_by same_id rows ≡ true
    → find? (λ b. b.id == i) rows ≡ some h
    → p h ≡ false
    → any (λ b. b.id == i) (select p rows) ≡ false
no_row_left i h p [] d f q = refl
no_row_left i h p (x ∷ rows) d f q =
    ground (arith, no_row_left i h p rows, any_remaining i p rows, any_id x.id i rows)

another_id :
    (i u : ℕ) (h : Booking) (rows : List Booking)
    → find? (λ b. b.id == i) rows ≡ some h
    → any (λ b. b.id == u) rows ≡ false
    → (u == i) ≡ false
another_id i u h [] f q = cc
another_id i u h (x ∷ rows) f q = ground (arith, another_id i u h rows)

not_referenced :
    (o : WaitlistOffer) (rows : List Booking) (offers : List WaitlistOffer)
    → find? (λ x. x.hold_booking == o.hold_booking) offers ≡ some o
    → any (λ b. b.id == o.hold_booking) rows ≡ false
    → references rows offers ≡ false
not_referenced o rows [] f h = cc
not_referenced o rows (x ∷ offers) f h = ground (arith, not_referenced o rows offers)

-- A hold that has an offer.
pub record IsOfferedHold (s : State) (h : Booking) (o : WaitlistOffer) : Type 0 where
  pub held : find? (λ b. b.id == o.hold_booking) s.bookings ≡ some h
  pub offered : find? (λ x. x.hold_booking == o.hold_booking) s.offers ≡ some o

-- The row of an offered hold that the cleanup deletes leaves its offer without a hold.
not_referenced_after :
    (e : Env) (req : BookingCreateRequest) (s : State) (h : Booking) (o : WaitlistOffer)
    → IsConsistent s.tables
    → any (λ r. r.id == e.uuid) s.bookings ≡ false
    → IsOfferedHold s h o
    → is_expired_hold e.transaction_time req h ≡ true
    → references (new_booking e req ∷ remaining e req s.bookings) s.offers ≡ false
not_referenced_after e req s h o c fresh r x =
    not_referenced o (new_booking e req ∷ remaining e req s.bookings) s.offers r.offered (
      ground (
        arith,
        another_id o.hold_booking e.uuid h s.bookings r.held fresh,
        no_row_left o.hold_booking h (λ b. not (is_expired_hold e.transaction_time req b))
            s.bookings c.ids r.held (ap not x),
      ))

-- Outside a transaction, where only expired holds conflict with a proper request and one of
-- those that its cleanup deletes has an offer row, the commit violates the foreign key of that
-- offer: `create_booking` raises the bare database error, books nothing and leaves the hold in
-- place.
pub create_booking_over_offered_hold :
    (e : Env) (req : BookingCreateRequest) (s : State) (h : Booking) (o : WaitlistOffer)
    → IsProper e req s
    → IsConsistent s.tables
    → s.in_atomic ≡ false
    → only_expired_holds e req s.bookings ≡ true
    → IsOfferedHold s h o
    → is_expired_hold e.transaction_time req h ≡ true
    → create_booking e req s ≡ (err (Error.database_error (some Sqlstate.foreign_key_violation)), s)
create_booking_over_offered_hold e req s h o proper c outermost free r x =
    let failed : (create_booking e req s).0
        ≡ err (Error.database_error (some Sqlstate.foreign_key_violation)) =
      create_booking_commit e req s proper outermost
      ∙ rw (
        no_conflict_left e req s.bookings free,
        not_referenced_after e req s h o c proper.fresh r x,
      ) in
    cc (
      failed,
      create_booking_failure e req s (Error.database_error (some Sqlstate.foreign_key_violation))
          failed,
    )
