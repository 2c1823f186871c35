-- ===== src/Series/Availability.antt =====
-- What `preview_recurring_series` of backend/kairos/bookings/recurring_series.py announces.
use kairos_booking_engine.Base.{
  ℕ, zero, suc, ◌+◌, ◌*◌, ◌<◌, ◌≤◌, ◌≡◌, refl, sym, subst, ◌∙◌, Bool, false, not, List, [], ◌∷◌,
  map, arith, ==_refl, select, All, Bool-cases, inl, inr,
}
use kairos_booking_engine.Range.{day}
use kairos_booking_engine.Errors.{ok}
use kairos_booking_engine.Recurrence.{
  Tzdata, Weekly, Occurrence, occurrence_at, occurrences_from, expand_occurrences,
}
use kairos_booking_engine.Recurrence.Dates.{later_dates, occurrence_at-date}
use kairos_booking_engine.Store.{State}
use kairos_booking_engine.Series.{SeriesDefinition, date_in, weekly}
use kairos_booking_engine.Series.Token.{Jwt}
use kairos_booking_engine.Series.Preview.{
  PreviewResult, preview_recurring_series, previewed, is_in_the_way, occurrence_conflicts,
  max_advance_horizon_days, last_start,
}

abbrev dates_of : (Occurrence → Bool) → List Occurrence → List ℕ
dates_of p os = map (λ o. o.occurrence_date) (select p os)

-- A set of dates that says of each occurrence what the test says.
abbrev Agrees : (Occurrence → Bool) → List ℕ → List Occurrence → Type 0
Agrees p dates os = All (λ o. date_in o.occurrence_date dates ≡ p o) os

absent_date :
    (p : Occurrence → Bool) (d : ℕ) (os : List Occurrence)
    → All (λ o. d < o.occurrence_date) os
    → date_in d (dates_of p os) ≡ false
absent_date p d [] h = refl
absent_date p d (o ∷ os) h = ground (arith, absent_date p d os h.1)

more_dates :
    (p : Occurrence → Bool) (d : ℕ) (dates : List ℕ) (os : List Occurrence)
    → All (λ o. d < o.occurrence_date) os
    → Agrees p dates os
    → Agrees p (d ∷ dates) os
more_dates p d dates [] h a = tt
more_dates p d dates (o ∷ os) h a = (ground arith, more_dates p d dates os h.1 a.1)

agree :
    (p : Occurrence → Bool) (w : Weekly) (i n : ℕ)
    → Agrees p (dates_of p (occurrences_from w i n)) (occurrences_from w i n)
unfolding occurrences_from
agree p w i zero = tt
agree p w i (suc n) =
    let o = occurrence_at w i in
    let rest = occurrences_from w (suc i) n in
    let after = later_dates w o.occurrence_date (suc i) n (omega (arith, occurrence_at-date w i)) in
    let absent = absent_date p o.occurrence_date rest after in
    let later = agree p w (suc i) n in
    elim (Bool-cases (p o)) [
      | inl hit ↦
          let dates : dates_of p (o ∷ rest) ≡ o.occurrence_date ∷ dates_of p rest = rw hit in
          subst (λ ds. Agrees p ds (o ∷ rest)) (sym dates)
            (
              ground (arith, hit, ==_refl o.occurrence_date),
              more_dates p o.occurrence_date (dates_of p rest) rest after later,
            )
      | inr miss ↦
          let dates : dates_of p (o ∷ rest) ≡ dates_of p rest = rw miss in
          subst (λ ds. Agrees p ds (o ∷ rest)) (sym dates) (absent ∙ sym miss, later)
    ]

same_selection :
    (p q : Occurrence → Bool) (os : List Occurrence)
    → All (λ o. q o ≡ p o) os
    → (select q os ≡ select p os) × (select (λ o. not (q o)) os ≡ select (λ o. not (p o)) os)
same_selection p q [] h = (refl, refl)
same_selection p q (o ∷ os) h =
    (ground (arith, same_selection p q os h.1), ground (arith, same_selection p q os h.1))

-- A preview that succeeds changes nothing, names as conflicts exactly the occurrences that a
-- confirmed or held booking of the resource overlaps and as creations the others, and its last
-- occurrence starts within 365 days.
pub preview_recurring_series_answer :
    {Token : Type 0} (j : Jwt Token) (tz : Tzdata) (now user : ℕ) (def : SeriesDefinition)
    (s : State) (os : List Occurrence) (r : PreviewResult Token)
    → (preview_recurring_series j tz now user def s).0 ≡ ok r
    → expand_occurrences (weekly tz def) def.occurrence_count ≡ ok os
    → ((preview_recurring_series j tz now user def s).1 ≡ s)
      × (r.conflicts ≡ map previewed (select (is_in_the_way def.resource s.bookings) os))
      × (r.would_create
          ≡ map previewed (select (λ o. not (is_in_the_way def.resource s.bookings o)) os))
      × (last_start os ≤ now + max_advance_horizon_days * day)
unfolding preview_recurring_series expand_occurrences occurrence_conflicts
preview_recurring_series_answer j tz now user def s os r done expanded =
    let w = weekly tz def in
    let way = is_in_the_way def.resource s.bookings in
    let all_of = occurrences_from w 0 def.occurrence_count in
    let split =
      same_selection way (λ o. date_in o.occurrence_date (dates_of way all_of)) all_of
        (agree way w 0 def.occurrence_count) in
    (ground arith, ground arith, ground arith, ground arith)
