-- ===== src/Bookings/Edit.antt =====
-- `edit_booking` and `transfer_booking_ownership` of backend/kairos/bookings/services.py.
use kairos_booking_engine.Base.{
  ℕ, ◌<◌, ◌≡◌, refl, true, false, not, none, some, List, [], ◌∷◌, arith, ◌==◌, ==_iff,
  if◌then◌else◌, any, all, find?, distinct_by, update_where, update_where_none, find?-holds,
  Bool-cases, inl, inr,
}
use kairos_booking_engine.Errors.{Error, ok, err}
use kairos_booking_engine.Schema.{Booking}
use kairos_booking_engine.Store.{State, Env, atomic}
use kairos_booking_engine.Store.Bookings.{
  conflicts, row_check, first_error, no_overlapping_bookings, update_bookings, get_booking,
}
use kairos_booking_engine.Store.Consistent.{IsConsistent, same_id, update_error-none}
use kairos_booking_engine.Bookings.Rows.{
  others, others_all, no_second, conflicts_comm, found_updated,
}
use kairos_booking_engine.Bookings.{
  BookingEditRequest, BookingTransferRequest, edit_booking, transfer_booking_ownership, has_id,
  with_range, with_user, handle_write_database_error, write_database_error,
}

-- A row that met nobody meets at most the moved row.
meets_moved :
    (i : ℕ) (f : Booking → Booking) (x b : Booking) (rows : List Booking)
    → distinct_by same_id rows ≡ true
    → any (conflicts x) rows ≡ false
    → find? (has_id i) rows ≡ some b
    → any (conflicts x) (update_where (has_id i) f rows) ≡ conflicts x (f b)
meets_moved i f x b [] d q h = cc
meets_moved i f x b (y ∷ rows) d q h = elim (Bool-cases (y.id == i)) [
  | inl hit ↦
      rw
        (
          hit,
          update_where_none (has_id i) f rows
              (no_second i y rows ((==_iff y.id i).0 hit) (ground arith)),
        )
        (ground arith)
  | inr miss ↦ rw miss (ground (arith, meets_moved i f x b rows))
]

-- Moving one row meets the constraint exactly where the moved row meets another.
moved_apart :
    (i : ℕ) (f : Booking → Booking) (b : Booking) (rows : List Booking)
    → distinct_by same_id rows ≡ true
    → no_overlapping_bookings rows ≡ true
    → find? (has_id i) rows ≡ some b
    → no_overlapping_bookings (update_where (has_id i) f rows)
      ≡ not (any (conflicts (f b)) (others i rows))
moved_apart i f b [] d a h = cc
moved_apart i f b (x ∷ rows) d a h = elim (Bool-cases (x.id == i)) [
  | inl hit ↦
      let alone = no_second i x rows ((==_iff x.id i).0 hit) (ground arith) in
      rw (hit, update_where_none (has_id i) f rows alone, others_all i rows alone) (ground arith)
  | inr miss ↦
      rw miss
        (ground (arith, moved_apart i f b rows, meets_moved i f x b rows, conflicts_comm x (f b)))
]

moved_checked :
    (i : ℕ) (f : Booking → Booking) (rows : List Booking)
    → ((r : Booking) → row_check r ≡ true → row_check (f r) ≡ true)
    → all row_check rows ≡ true
    → first_error (update_where (has_id i) f rows) ≡ none
moved_checked i f [] keep h = refl
moved_checked i f (x ∷ rows) keep h = ground (arith, keep x, moved_checked i f rows keep)

module _ (e : Env) (req : BookingEditRequest) (s : State) (b : Booking) where
  -- Inside a transaction on consistent tables, with no server failure, moving an existing
  -- booking to a range that is not empty answers `slot_unavailable` exactly where the moved row
  -- conflicts with another row, and the moved row otherwise.
  pub edit_booking_answer :
      IsConsistent s.tables
      → s.in_atomic ≡ true
      → e.fault ≡ none
      → req.start < req.end
      → find? (has_id req.booking.id) s.bookings ≡ some b
      → (edit_booking e req s).0 ≡ (
          if any (conflicts (with_range req.start req.end b)) (others req.booking.id s.bookings)
          then err Error.slot_unavailable
          else ok (with_range req.start req.end b))
  unfolding edit_booking atomic update_bookings get_booking handle_write_database_error
      write_database_error
  edit_booking_answer c nested quiet proper found = ground (
    arith,
    moved_apart req.booking.id (with_range req.start req.end) b s.bookings c.ids c.apart found,
    moved_checked req.booking.id (with_range req.start req.end) s.bookings (λ r. ground arith)
        c.checked,
    found_updated req.booking.id (has_id req.booking.id) (with_range req.start req.end) b s.bookings
        (λ r. refl) found,
    find?-holds (has_id req.booking.id) s.bookings b found,
  )

  pub edit_booking_rows :
      (r : Booking)
      → (edit_booking e req s).0 ≡ ok r
      → (edit_booking e req s).1.bookings
        ≡ update_where (has_id req.booking.id) (with_range req.start req.end) s.bookings
  unfolding edit_booking atomic update_bookings get_booking handle_write_database_error
  edit_booking_rows r done = ground arith

  pub edit_booking_failure :
      (r : Error) → (edit_booking e req s).0 ≡ err r → (edit_booking e req s).1 ≡ s
  unfolding edit_booking atomic handle_write_database_error
  edit_booking_failure r h = ground arith

-- Inside a transaction on consistent tables, with no server failure, the transfer of an
-- existing booking always succeeds, answers the row with its new owner and changes that row
-- alone.
pub transfer_booking_ownership_answer :
    (e : Env) (req : BookingTransferRequest) (s : State) (b : Booking)
    → IsConsistent s.tables
    → s.in_atomic ≡ true
    → e.fault ≡ none
    → find? (has_id req.booking.id) s.bookings ≡ some b
    → ((transfer_booking_ownership e req s).0 ≡ ok (with_user req.new_owner b))
      × ((transfer_booking_ownership e req s).1.bookings
          ≡ update_where (has_id req.booking.id) (with_user req.new_owner) s.bookings)
unfolding transfer_booking_ownership atomic update_bookings get_booking
transfer_booking_ownership_answer e req s b c nested quiet found =
    let fine =
      update_error-none (has_id req.booking.id) (with_user req.new_owner) s.tables c
        (λ r ok_row hit. ok_row) (λ x y. ground arith) in
    let moved =
      found_updated req.booking.id (has_id req.booking.id) (with_user req.new_owner) b s.bookings
        (λ r. refl) found in
    let hit = find?-holds (has_id req.booking.id) s.bookings b found in (ground arith, ground arith)
