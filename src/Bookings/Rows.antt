-- ===== src/Bookings/Rows.antt =====
-- Rows of the table `booking` by their identifier.
use kairos_booking_engine.Base.{
  ℕ, ◌≡◌, refl, sym, Bool, false, not, ◌&&◌, some, List, [], ◌∷◌, arith, ◌==◌, if◌then◌else◌, any,
  select, find?, update_where,
}
use kairos_booking_engine.Schema.{Booking}
use kairos_booking_engine.Store.Bookings.{conflicts}
use kairos_booking_engine.Store.Consistent.{same_id}
use kairos_booking_engine.Bookings.{has_id}

-- The other rows of the table.
abbrev pub others : ℕ → List Booking → List Booking
others i rows = select (λ b. not (has_id i b)) rows

pub others_all : (i : ℕ) (rows : List Booking) → any (has_id i) rows ≡ false → others i rows ≡ rows
others_all i [] h = refl
others_all i (x ∷ rows) h = ground (arith, others_all i rows)

pub no_second :
    (i : ℕ) (x : Booking) (rows : List Booking)
    → x.id ≡ i
    → any (same_id x) rows ≡ false
    → any (has_id i) rows ≡ false
no_second i x rows e h = rw (sym e) h

pub conflicts_comm : (a b : Booking) → conflicts a b ≡ conflicts b a
conflicts_comm a b = ground arith

pub found_updated :
    (i : ℕ) (p : Booking → Bool) (f : Booking → Booking) (b : Booking) (rows : List Booking)
    → ((r : Booking) → (f r).id ≡ r.id)
    → find? (has_id i) rows ≡ some b
    → find? (has_id i) (update_where p f rows) ≡ some (if p b then f b else b)
found_updated i p f b [] same h = cc
found_updated i p f b (x ∷ rows) same h = ground (arith, same x, found_updated i p f b rows same)

-- A row that meets nobody does not meet the row that is looked up.
pub meets_none :
    (i : ℕ) (x b : Booking) (rows : List Booking)
    → any (conflicts x) rows ≡ false
    → find? (has_id i) rows ≡ some b
    → conflicts x b ≡ false
meets_none i x b [] q h = cc
meets_none i x b (y ∷ rows) q h = ground (arith, meets_none i x b rows)

-- No row has the identifier, so none has it and more.
pub none_with_id :
    (i : ℕ) (p : Booking → Bool) (rows : List Booking)
    → any (has_id i) rows ≡ false
    → any (λ b. b.id == i && p b) rows ≡ false
none_with_id i p [] h = refl
none_with_id i p (x ∷ rows) h = ground (arith, none_with_id i p rows)
