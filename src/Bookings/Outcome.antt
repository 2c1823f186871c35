-- ===== src/Bookings/Outcome.antt =====
-- What `create_booking` of backend/kairos/bookings/services.py answers, on every branch.
use kairos_booking_engine.Base.{
  ◌<◌, ◌≡◌, ◌∙◌, Bool, true, false, not, Option, none, some, List, ◌∷◌, arith, ◌==◌, ==_refl,
  if◌then◌else◌, any, all, select, any-select-false, Bool-cases, inl, inr,
}
use kairos_booking_engine.Errors.{Sqlstate, Error, ok, err}
use kairos_booking_engine.Schema.{Booking, WaitlistOffer}
use kairos_booking_engine.Store.{State, Env, atomic}
use kairos_booking_engine.Store.Bookings.{conflicts, insert_booking, delete_bookings, get_booking}
use kairos_booking_engine.Bookings.{
  BookingCreateRequest, new_booking, is_expired_hold, create_booking, handle_write_database_error,
  write_database_error,
}

-- The hold of each offer is a row.
abbrev pub references : List Booking → List WaitlistOffer → Bool
references rows offers = all (λ o. any (λ b. b.id == o.hold_booking) rows) offers

-- The rows that the cleanup leaves.
abbrev pub remaining : Env → BookingCreateRequest → List Booking → List Booking
remaining e req rows = select (λ b. not (is_expired_hold e.transaction_time req b)) rows

-- The server reports nothing, the range is not empty and the identifier is new.
pub record IsProper (e : Env) (req : BookingCreateRequest) (s : State) : Type 0 where
  pub quiet : e.fault ≡ none
  pub nonempty : req.start < req.end
  pub fresh : any (λ r. r.id == e.uuid) s.bookings ≡ false

module _ (e : Env) (req : BookingCreateRequest) (s : State) where
  -- Inside a transaction, for a proper request, `create_booking` answers `slot_unavailable`
  -- exactly where a row that its cleanup of expired holds leaves conflicts with the new one,
  -- and the new booking otherwise.
  pub create_booking_answer :
      IsProper e req s
      → s.in_atomic ≡ true
      → (create_booking e req s).0 ≡ (
          if any (conflicts (new_booking e req)) (remaining e req s.bookings)
          then err Error.slot_unavailable
          else ok (new_booking e req))
  unfolding create_booking atomic insert_booking delete_bookings get_booking
      handle_write_database_error write_database_error
  create_booking_answer proper nested = ground (
    arith,
    ==_refl e.uuid,
    any-select-false (λ r. r.id == e.uuid) (λ b. not (is_expired_hold e.transaction_time req b))
        s.bookings,
  )

  pub create_booking_rows :
      IsProper e req s
      → (b : Booking) → (create_booking e req s).0 ≡ ok b
      → (create_booking e req s).1.bookings ≡ new_booking e req ∷ remaining e req s.bookings
  unfolding create_booking atomic insert_booking delete_bookings get_booking
      handle_write_database_error write_database_error
  create_booking_rows proper b done = ground arith

  -- Any failure that the server or the connection reports during `create_booking` becomes the
  -- exception that the table of SQLSTATEs names, and nothing is changed.
  pub create_booking_fault :
      (st : Option Sqlstate)
      → e.fault ≡ some st
      → create_booking e req s ≡ (err (write_database_error st), s)
  unfolding create_booking atomic handle_write_database_error
  create_booking_fault st h = ground arith

  pub create_booking_failure :
      (r : Error) → (create_booking e req s).0 ≡ err r → (create_booking e req s).1 ≡ s
  unfolding create_booking atomic handle_write_database_error
  create_booking_failure r h = ground arith

  -- Outside a transaction, for a proper request, `create_booking` answers `slot_unavailable`
  -- where a remaining row conflicts, the new booking where none does and every offer still has
  -- its hold, and a foreign key violation otherwise.
  pub create_booking_commit :
      IsProper e req s
      → s.in_atomic ≡ false
      → (create_booking e req s).0 ≡ (
          if any (conflicts (new_booking e req)) (remaining e req s.bookings)
          then err Error.slot_unavailable
          else if references (new_booking e req ∷ remaining e req s.bookings) s.offers
          then ok (new_booking e req)
          else err (Error.database_error (some Sqlstate.foreign_key_violation)))
  unfolding create_booking atomic insert_booking delete_bookings get_booking
      handle_write_database_error write_database_error
  create_booking_commit proper outermost = ground (
    arith,
    ==_refl e.uuid,
    any-select-false (λ r. r.id == e.uuid) (λ b. not (is_expired_hold e.transaction_time req b))
        s.bookings,
  )

conflict_error :
    (e : Env) (req : BookingCreateRequest) (s : State)
    → IsProper e req s
    → any (conflicts (new_booking e req)) (remaining e req s.bookings) ≡ true
    → (create_booking e req s).0 ≡ err Error.slot_unavailable
conflict_error e req s proper taken = elim (Bool-cases s.in_atomic) [
  | inl nested ↦ create_booking_answer e req s proper nested ∙ rw taken
  | inr outermost ↦ create_booking_commit e req s proper outermost ∙ rw taken
]

-- In or outside a transaction, a proper request that conflicts with a remaining row raises
-- `slot_unavailable` and leaves everything as it was, the expired holds that it had deleted
-- included.
pub create_booking_conflict :
    (e : Env) (req : BookingCreateRequest) (s : State)
    → IsProper e req s
    → any (conflicts (new_booking e req)) (remaining e req s.bookings) ≡ true
    → create_booking e req s ≡ (err Error.slot_unavailable, s)
create_booking_conflict e req s proper taken =
    let failed = conflict_error e req s proper taken in
    cc (failed, create_booking_failure e req s Error.slot_unavailable failed)
