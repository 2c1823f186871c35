-- ===== src/Range.antt =====
-- Half-open time ranges: Postgres `tstzrange` with its default bounds `[)`, as the columns
-- `time_range` of backend/kairos/bookings/models.py and backend/kairos/waitlist/models.py hold them.
-- An instant is a number of microseconds.
use kairos_booking_engine.Base.{ℕ, Bool, ◌&&◌, ltb, leb, ◌==◌}

pub record Range : Type 0 where
  pub lower : ℕ
  pub upper : ℕ

abbrev pub second : ℕ
second = 1_000_000

abbrev pub minute : ℕ
minute = 60_000_000

abbrev pub day : ℕ
day = 86_400_000_000

-- `a && b`: some instant lies in both (neither range is empty, by a CHECK constraint).
abbrev pub overlaps : Range → Range → Bool
overlaps a b = ltb a.lower b.upper && ltb b.lower a.upper

-- `a <@ b`, the lookup `contained_by`.
abbrev pub contained_by : Range → Range → Bool
contained_by a b = leb b.lower a.lower && leb a.upper b.upper

abbrev pub same_range : Range → Range → Bool
same_range a b = a.lower == b.lower && a.upper == b.upper

abbrev pub contains_instant : Range → ℕ → Bool
contains_instant r t = leb r.lower t && ltb t r.upper
