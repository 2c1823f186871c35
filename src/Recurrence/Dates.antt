-- ===== src/Recurrence/Dates.antt =====
-- The dates and the number of the occurrences that `expand_occurrences` of
-- backend/kairos/bookings/recurrence.py gives.
use kairos_booking_engine.Base.{
  ℕ, zero, suc, ◌+◌, ◌*◌, ◌≤◌, ◌<◌, ◌≡◌, refl, ap, ◌∙◌, Option, none, some, List, [], ◌∷◌, arith,
  length, All,
}
use kairos_booking_engine.Errors.{ok}
use kairos_booking_engine.Recurrence.{
  Weekly, Occurrence, materialize_occurrence, occurrence_at, occurrences_from, expand_occurrences,
  max_series_occurrences,
}

abbrev pub get_elem? : List Occurrence → ℕ → Option Occurrence
get_elem? [] i = none
get_elem? (o ∷ os) zero = some o
get_elem? (o ∷ os) (suc i) = get_elem? os i

pub length-occurrences_from : (w : Weekly) (i n : ℕ) → length (occurrences_from w i n) ≡ n
unfolding occurrences_from
length-occurrences_from w i zero = refl
length-occurrences_from w i (suc n) = ap suc (length-occurrences_from w (suc i) n)

pub get_elem?-occurrences_from :
    (w : Weekly) (i n k : ℕ)
    → k < n
    → get_elem? (occurrences_from w i n) k ≡ some (occurrence_at w (i + k))
unfolding occurrences_from
get_elem?-occurrences_from w i zero k h = absurd (omega arith)
get_elem?-occurrences_from w i (suc n) zero h =
    ap (λ j. some (occurrence_at w j)) {x = i} {y = i + 0} (omega arith)
get_elem?-occurrences_from w i (suc n) (suc k) h =
    get_elem?-occurrences_from w (suc i) n k (omega arith)
    ∙ ap (λ j. some (occurrence_at w j)) {x = suc i + k} {y = i + suc k} (omega arith)

pub occurrence_at-date :
    (w : Weekly) (i : ℕ) → (occurrence_at w i).occurrence_date ≡ w.series_start_date + 7 * i
unfolding occurrence_at materialize_occurrence
occurrence_at-date w i = refl

-- An expansion that succeeds has between one and a hundred occurrences, as many as the count
-- says, and the k-th of them is on the local date that is 7 times k days after the start date.
pub expand_occurrences_dates :
    (w : Weekly) (n : ℕ) (os : List Occurrence)
    → expand_occurrences w n ≡ ok os
    → (1 ≤ n)
      × (n ≤ max_series_occurrences)
      × (length os ≡ n)
      × ((k : ℕ) → k < n → get_elem? os k ≡ some (occurrence_at w k))
      × ((k : ℕ) (o : Occurrence)
          → k < n
          → get_elem? os k ≡ some o
          → o.occurrence_date ≡ w.series_start_date + 7 * k)
unfolding expand_occurrences
expand_occurrences_dates w n os h = (
  ground arith,
  ground arith,
  ground (arith, length-occurrences_from w 0 n),
  λ k inside. ground (arith, get_elem?-occurrences_from w 0 n k inside),
  λ k o inside found.
      ground (arith, get_elem?-occurrences_from w 0 n k inside, occurrence_at-date w k),
)

pub later_dates :
    (w : Weekly) (d i n : ℕ)
    → d < w.series_start_date + 7 * i
    → All (λ o. d < o.occurrence_date) (occurrences_from w i n)
unfolding occurrences_from
later_dates w d i zero h = tt
later_dates w d i (suc n) h =
    (omega (arith, occurrence_at-date w i), later_dates w d (suc i) n (omega arith))
