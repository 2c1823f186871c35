-- ===== src/Recurrence/WallClock.antt =====
-- The local time at which each occurrence of backend/kairos/bookings/recurrence.py starts.
use kairos_booking_engine.Base.{
  ℕ, zero, suc, ◌+◌, ◌-◌, ◌*◌, ◌<◌, ◌≡◌, ◌⊎◌, Option, none, some, List, arith, All,
}
use kairos_booking_engine.Range.{day}
use kairos_booking_engine.Errors.{ok}
use kairos_booking_engine.Recurrence.{
  Fold, Zone, shifted, after_transition_gap, is_nonexistent_local_time, is_ambiguous_local_time,
  TimeAdjustment, Occurrence, Weekly, combine, date_of, time_of, local_to_instant,
  materialize_occurrence, occurrence_at, occurrences_from, expand_occurrences,
}

-- What PEP 495 documents of a zone: the first reading of a local time reads back as that time, or,
-- in a gap, as the time moved forward by the gap; and a time that is read from an instant exists.
pub record IsZone (z : Zone) : Type 0 where
  pub reads_back :
      (n : ℕ)
      → (z.to_local (z.to_utc Fold.first n) ≡ n)
        ⊎ (z.to_local (z.to_utc Fold.first n) ≡ n + z.to_utc Fold.first n - z.to_utc Fold.second n)
  pub exists : (u : ℕ) → z.to_local (z.to_utc Fold.first (z.to_local u)) ≡ z.to_local u

-- The time of day that an occurrence is announced with.
abbrev pub announced : ℕ → Option TimeAdjustment → ℕ
announced local_start_time none = local_start_time
announced local_start_time (some a) = a.adjusted_local

parts_of : (naive : ℕ) → combine (date_of naive) (time_of naive) ≡ naive
parts_of naive = omega arith

time_of-combine : (d t : ℕ) → t < day → time_of (combine d t) ≡ t
time_of-combine d t h = omega arith

-- The wall clock at the start of an occurrence reads what was announced, and where nothing is
-- disclosed it is the requested time on the occurrence's own date.
pub record IsAnnounced (z : Zone) (from : ℕ) (o : Occurrence) : Type 0 where
  pub time : time_of (z.to_local o.start) ≡ announced from o.adjustment
  pub undisturbed : o.adjustment ≡ none → z.to_local o.start ≡ combine o.occurrence_date from

materialize_occurrence-IsAnnounced :
    (z : Zone) (d from until : ℕ)
    → IsZone z
    → from < day
    → IsAnnounced z from (materialize_occurrence z d from until)
unfolding materialize_occurrence local_to_instant is_nonexistent_local_time is_ambiguous_local_time
    after_transition_gap
materialize_occurrence-IsAnnounced z d from until lawful h =
    let naive = combine d from in
    let start = shifted z d from from in
    let back = lawful.reads_back naive in
    let read = lawful.exists (z.to_utc Fold.first naive) in
    let whole = parts_of start in
    let time = time_of-combine d from h in
    let again = time_of-combine (date_of start) (time_of start) in
    record { time = ground arith; undisturbed = λ quiet. ground arith }

occurrences_from-IsAnnounced :
    (w : Weekly) (i n : ℕ)
    → IsZone w.zone
    → w.local_start_time < day
    → All (IsAnnounced w.zone w.local_start_time) (occurrences_from w i n)
unfolding occurrences_from occurrence_at
occurrences_from-IsAnnounced w i zero lawful h = tt
occurrences_from-IsAnnounced w i (suc n) lawful h = (
  materialize_occurrence-IsAnnounced w.zone (w.series_start_date + 7 * i) w.local_start_time
      w.local_end_time lawful h,
  occurrences_from-IsAnnounced w (suc i) n lawful h,
)

-- In a zone that reads its instants back, a repeated or a skipped time as PEP 495 says, with a
-- start within the day, each occurrence of an expansion starts at the local time of day that is
-- announced with it, and on its own date at the requested time where nothing had to be
-- adjusted.
pub expand_occurrences-IsAnnounced :
    (w : Weekly) (n : ℕ) (os : List Occurrence)
    → IsZone w.zone
    → w.local_start_time < day
    → expand_occurrences w n ≡ ok os
    → All (IsAnnounced w.zone w.local_start_time) os
unfolding expand_occurrences
expand_occurrences-IsAnnounced w n os lawful h e =
    ground (arith, occurrences_from-IsAnnounced w 0 n lawful h)
