-- ===== src/Engine/Occupancy.antt =====
-- What the schema promises of the bookings, said without the constraint: at no instant do two
-- confirmed or held bookings occupy one resource.
use kairos_booking_engine.Base.{
  ℕ, ◌≤◌, ◌≡◌, refl, Bool, true, false, ◌&&◌, ◌||◌, List, [], ◌∷◌, arith, ◌==◌, any, count_where,
}
use kairos_booking_engine.Range.{contains_instant}
use kairos_booking_engine.Schema.{Booking, is_confirmed, is_held}
use kairos_booking_engine.Store.{State}
use kairos_booking_engine.Store.Bookings.{conflicts, no_overlapping_bookings}
use kairos_booking_engine.Store.Consistent.{IsConsistent}
use kairos_booking_engine.Engine.{Reach, Reach-IsConsistent}

-- The row is confirmed or held and covers the instant on the resource.
abbrev pub holds_at : ℕ → ℕ → Booking → Bool
holds_at resource t b =
    (b.resource == resource && (is_confirmed b.status || is_held b.status))
    && contains_instant b.time_range t

-- How many bookings occupy the resource at the instant.
abbrev pub occupancy : ℕ → ℕ → List Booking → ℕ
occupancy resource t = count_where (holds_at resource t)

none_beside :
    (resource t : ℕ) (b : Booking) (rows : List Booking)
    → holds_at resource t b ≡ true
    → any (conflicts b) rows ≡ false
    → occupancy resource t rows ≡ 0
none_beside resource t b [] h q = refl
none_beside resource t b (x ∷ rows) h q = ground (arith, none_beside resource t b rows)

occupancy_bound :
    (resource t : ℕ) (rows : List Booking)
    → no_overlapping_bookings rows ≡ true
    → occupancy resource t rows ≤ 1
occupancy_bound resource t [] h = omega arith
occupancy_bound resource t (b ∷ rows) h =
    ground (arith, none_beside resource t b rows, occupancy_bound resource t rows)

-- From tables that meet the constraints of the schema, every sequence of the writes, the
-- requests of the booking and waitlist views, the confirmation of series, both jobs over series
-- and the deactivation of users included, with any requests, clocks, identifiers and server
-- failures, leads to tables where at no instant do two confirmed or held bookings occupy one
-- resource.
pub Reach-occupancy :
    {s u : State} (resource t : ℕ)
    → IsConsistent s.tables
    → Reach s u
    → occupancy resource t u.bookings ≤ 1
Reach-occupancy {s} {u} resource t c r =
    occupancy_bound resource t u.bookings (Reach-IsConsistent c r).apart
