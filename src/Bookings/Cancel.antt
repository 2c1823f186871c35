-- ===== src/Bookings/Cancel.antt =====
-- `cancel_booking` of backend/kairos/bookings/services.py.
use kairos_booking_engine.Base.{
  ℕ, String, ◌<◌, ◌≡◌, refl, Bool, true, false, Option, none, some, List, [], ◌∷◌, ◌++◌,
  append_assoc, arith, ◌==◌, ==_iff, if◌then◌else◌, any, find?, distinct_by, update_where,
  count_where, update_where_none, count_where_none, find?-holds, Bool-cases, inl, inr,
}
use kairos_booking_engine.Errors.{ok}
use kairos_booking_engine.Schema.{Booking, is_confirmed, is_admin}
use kairos_booking_engine.Range.{contained_by}
use kairos_booking_engine.Store.{State, Env, Tables, Message, atomic, on_commit}
use kairos_booking_engine.Store.Bookings.{
  conflicts, update_error, no_overlapping_bookings, update_bookings, get_booking,
}
use kairos_booking_engine.Store.Consistent.{
  IsConsistent, same_id, update_error-none, update_error_of_valid,
}
use kairos_booking_engine.Bookings.Rows.{
  conflicts_comm, no_second, found_updated, meets_none, none_with_id,
}
use kairos_booking_engine.Bookings.{
  BookingCancelRequest, cancel_booking, cancel_callbacks, has_id, is_confirmed_row, cancel_row,
  or_empty,
}

-- A cancellation meets no constraint.
pub cancel_row_fine :
    (now actor : ℕ) (reason : Option String) (p : Booking → Bool) (t : Tables)
    → ((b : Booking) → p b ≡ true → is_confirmed b.status ≡ true)
    → IsConsistent t
    → update_error (update_where p (cancel_row now actor reason) t.bookings) ≡ none
cancel_row_fine now actor reason p t confirmed_only c =
    update_error-none p (cancel_row now actor reason) t c
      (λ b fine hit. ground (arith, confirmed_only b hit)) (λ a b. ground arith)

confirmed_count :
    (i : ℕ) (b : Booking) (rows : List Booking)
    → find? (has_id i) rows ≡ some b
    → is_confirmed b.status ≡ true
    → 0 < count_where (is_confirmed_row i) rows
confirmed_count i b [] h q = cc
confirmed_count i b (x ∷ rows) h q = ground (arith, confirmed_count i b rows)

nothing_to_cancel :
    (i : ℕ) (b : Booking) (rows : List Booking)
    → distinct_by same_id rows ≡ true
    → find? (has_id i) rows ≡ some b
    → is_confirmed b.status ≡ false
    → any (is_confirmed_row i) rows ≡ false
nothing_to_cancel i b [] d h q = refl
nothing_to_cancel i b (x ∷ rows) d h q = elim (Bool-cases (x.id == i)) [
  | inl hit ↦
      let alone = no_second i x rows ((==_iff x.id i).0 hit) (ground arith) in
      ground (arith, none_with_id i (λ r. is_confirmed r.status) rows alone)
  | inr miss ↦ ground (arith, nothing_to_cancel i b rows)
]

-- The callbacks of a cancellation, in the order in which they were registered.
abbrev pub cascade_message : BookingCancelRequest → Booking → Message
cascade_message req b =
    Message.dispatch_cascade b.resource b.time_range.lower b.time_range.upper req.request_id

abbrev pub notice : BookingCancelRequest → Booking → Message
notice req b =
    Message.notify_admin_cancellation req.booking.user req.booking.resource b.time_range.lower
      b.time_range.upper (or_empty req.reason) req.request_id

abbrev pub cancel_messages : BookingCancelRequest → Booking → List Message
cancel_messages req b =
    cascade_message req b ∷ (if is_admin req.actor_type then notice req b ∷ [] else [])

module _ (e : Env) (req : BookingCancelRequest) (s : State) (b : Booking) where
  -- Inside a transaction on consistent tables, with no server failure, the cancellation of a
  -- confirmed booking answers the cancelled row, changes that row alone, and queues the cascade
  -- for its range and, for an administrator, the notice to the owner, in this order.
  pub cancel_booking_confirmed :
      IsConsistent s.tables
      → s.in_atomic ≡ true
      → e.fault ≡ none
      → find? (has_id req.booking.id) s.bookings ≡ some b
      → is_confirmed b.status ≡ true
      → ((cancel_booking e req s).0
          ≡ ok (record {
            booking = cancel_row e.now req.actor req.reason b;
            already_cancelled = false;
          }))
        × ((cancel_booking e req s).1.bookings
            ≡ update_where
                (is_confirmed_row req.booking.id)
                (cancel_row e.now req.actor req.reason)
                s.bookings)
        × ((cancel_booking e req s).1.on_commit_queue ≡ s.on_commit_queue ++ cancel_messages req b)
  unfolding cancel_booking cancel_callbacks atomic update_bookings get_booking on_commit
  cancel_booking_confirmed c nested quiet found active =
      let fine =
        cancel_row_fine e.now req.actor req.reason (is_confirmed_row req.booking.id) s.tables
          (λ r. ground arith) c in
      let many = confirmed_count req.booking.id b s.bookings found active in
      let row =
        found_updated req.booking.id (is_confirmed_row req.booking.id)
          (cancel_row e.now req.actor req.reason) b s.bookings (λ r. refl) found in
      let hit = find?-holds (has_id req.booking.id) s.bookings b found in
      (
        ground arith,
        ground arith,
        ground (
          arith,
          append_assoc s.on_commit_queue (cascade_message req b ∷ []) (notice req b ∷ []),
        ),
      )

  -- Inside a transaction on consistent tables, with no server failure, the cancellation of a
  -- booking that is not confirmed is no error: it answers the row as it is with
  -- `already_cancelled`, changes no booking and queues nothing.
  pub cancel_booking_replay :
      IsConsistent s.tables
      → s.in_atomic ≡ true
      → e.fault ≡ none
      → find? (has_id req.booking.id) s.bookings ≡ some b
      → is_confirmed b.status ≡ false
      → ((cancel_booking e req s).0 ≡ ok (record { booking = b; already_cancelled = true }))
        × ((cancel_booking e req s).1.bookings ≡ s.bookings)
        × ((cancel_booking e req s).1.on_commit_queue ≡ s.on_commit_queue)
  unfolding cancel_booking cancel_callbacks atomic update_bookings get_booking on_commit
  cancel_booking_replay c nested quiet found inactive =
      let idle = nothing_to_cancel req.booking.id b s.bookings c.ids found inactive in
      let same =
        update_where_none (is_confirmed_row req.booking.id) (cancel_row e.now req.actor req.reason)
          s.bookings idle in
      let zero_rows = count_where_none (is_confirmed_row req.booking.id) s.bookings idle in
      let fine = update_error_of_valid s.bookings c.checked c.apart in
      (ground arith, ground arith, ground arith)

-- Where the freed range contains a wanted one, no row is in the way of it.
narrower_free :
    (n b : Booking) (rows : List Booking)
    → n.resource ≡ b.resource
    → contained_by n.time_range b.time_range ≡ true
    → is_confirmed b.status ≡ true
    → any (conflicts b) rows ≡ false
    → any (conflicts n) rows ≡ false
narrower_free n b [] r inside active q = refl
narrower_free n b (x ∷ rows) r inside active q = ground (arith, narrower_free n b rows)

pub freed_range :
    (i now actor : ℕ) (reason : Option String) (n b : Booking) (rows : List Booking)
    → distinct_by same_id rows ≡ true
    → no_overlapping_bookings rows ≡ true
    → find? (has_id i) rows ≡ some b
    → n.resource ≡ b.resource
    → contained_by n.time_range b.time_range ≡ true
    → is_confirmed b.status ≡ true
    → any (conflicts n) (update_where (is_confirmed_row i) (cancel_row now actor reason) rows)
      ≡ false
freed_range i now actor reason n b [] d a h r inside active = refl
freed_range i now actor reason n b (x ∷ rows) d a h r inside active =
    elim (Bool-cases (x.id == i)) [
      | inl hit ↦
          let alone = no_second i x rows ((==_iff x.id i).0 hit) (ground arith) in
          let still =
            update_where_none (is_confirmed_row i) (cancel_row now actor reason) rows
              (none_with_id i (λ y. is_confirmed y.status) rows alone) in
          ground (arith, narrower_free n b rows)
      | inr miss ↦ ground (
        arith,
        freed_range i now actor reason n b rows,
        meets_none i x b rows,
        conflicts_comm x b,
      )
    ]
