-- ===== src/Series/Settled.antt =====
-- A run of `rolling_materialize_series` of backend/kairos/bookings/tasks.py leaves nothing for
-- another run at the same time.
use kairos_booking_engine.Base.{
  ℕ, zero, suc, ◌+◌, ◌*◌, ◌≤◌, ◌<◌, ◌≡◌, refl, sym, ap, subst, ◌∙◌, Bool, true, false, ◌||◌, List,
  [], ◌∷◌, arith, leb, ◌==◌, ==_refl, if◌then◌else◌, any, select, update_where, update_where_none,
  distinct_by, All, Bool-cases, inl, inr, any-select-false,
}
use kairos_booking_engine.Range.{day}
use kairos_booking_engine.Schema.{RecurringSeries, is_active_series}
use kairos_booking_engine.Recurrence.{Tzdata, Weekly, Occurrence, occurrences_from}
use kairos_booking_engine.Recurrence.Dates.{later_dates, occurrence_at-date}
use kairos_booking_engine.Series.Table.{active_series}
use kairos_booking_engine.Series.Preview.{max_advance_horizon_days}
use kairos_booking_engine.Series.Confirm.{last_date}
use kairos_booking_engine.Series.Rolling.{
  weekly_of, to_materialize, is_within_reach, theoretical_last_date, with_materialized_through,
}

-- The dates go up along the list.
abbrev IsIncreasing : List Occurrence → Type 0
IsIncreasing [] = Unit
IsIncreasing (o ∷ os) = All (λ x. o.occurrence_date < x.occurrence_date) os × IsIncreasing os

occurrences_from-IsIncreasing : (w : Weekly) (i n : ℕ) → IsIncreasing (occurrences_from w i n)
unfolding occurrences_from
occurrences_from-IsIncreasing w i zero = tt
occurrences_from-IsIncreasing w i (suc n) = (
  later_dates w _ (suc i) n (omega (arith, occurrence_at-date w i)),
  occurrences_from-IsIncreasing w (suc i) n,
)

module _ (p : Occurrence → Bool) where
  select_later :
      (d : ℕ) (os : List Occurrence)
      → All (λ x. d < x.occurrence_date) os
      → All (λ x. d < x.occurrence_date) (select p os)
  select_later d [] h = tt
  select_later d (o ∷ os) h = ground (arith, select_later d os h.1)

last_date_later :
    (d : ℕ) (o : Occurrence) (os : List Occurrence)
    → All (λ x. d < x.occurrence_date) (o ∷ os)
    → d < last_date (o ∷ os)
last_date_later d o [] h = h.0
last_date_later d o (x ∷ os) h = last_date_later d x os h.1

last_date_cons :
    (o : Occurrence) (os : List Occurrence)
    → All (λ x. o.occurrence_date < x.occurrence_date) os
    → (o.occurrence_date ≤ last_date (o ∷ os)) × (last_date os ≤ last_date (o ∷ os))
last_date_cons o [] h = (omega arith, omega arith)
last_date_cons o (x ∷ os) h = (omega (arith, last_date_later o.occurrence_date x os h), omega arith)

up_to :
    (p : Occurrence → Bool) (m n : ℕ) (os : List Occurrence)
    → m ≤ n
    → All (λ o. p o ≡ true → o.occurrence_date ≤ m) os
    → All (λ o. p o ≡ true → o.occurrence_date ≤ n) os
up_to p m n [] h a = tt
up_to p m n (o ∷ os) h a = (λ e. omega (arith, a.0 e), up_to p m n os h a.1)

-- No occurrence of the selection is after its last one.
last_of_selection :
    (p : Occurrence → Bool) (os : List Occurrence)
    → IsIncreasing os
    → All (λ o. p o ≡ true → o.occurrence_date ≤ last_date (select p os)) os
last_of_selection p [] h = tt
last_of_selection p (o ∷ os) h =
    let later = last_date_cons o (select p os) (select_later p o.occurrence_date os h.0) in
    (
      λ e. ground (arith, e, later),
      up_to p (last_date (select p os)) (last_date (select p (o ∷ os))) os (ground (arith, later))
          (last_of_selection p os h.1),
    )

-- Every one after the last of those within reach, or before the old watermark, is not within reach
-- of the new one.
nothing_left :
    (through cutoff m : ℕ) (os : List Occurrence)
    → through ≤ m
    → All (λ o. is_within_reach through cutoff o ≡ true → o.occurrence_date ≤ m) os
    → select (is_within_reach m cutoff) os ≡ []
nothing_left through cutoff m [] h a = refl
nothing_left through cutoff m (o ∷ os) h a =
    ground (arith, a.0, nothing_left through cutoff m os h a.1)

All-beyond :
    (through cutoff : ℕ) (os : List Occurrence)
    → All (λ o. through < o.occurrence_date) (select (is_within_reach through cutoff) os)
All-beyond through cutoff [] = tt
All-beyond through cutoff (o ∷ os) = ground (arith, All-beyond through cutoff os)

abbrev pub is_empty : List Occurrence → Bool
is_empty [] = true
is_empty (o ∷ os) = false

before_last :
    (through : ℕ) (os : List Occurrence)
    → is_empty os ≡ false
    → All (λ o. through < o.occurrence_date) os
    → through ≤ last_date os
before_last through [] some_left h = absurd (cc some_left)
before_last through (o ∷ os) some_left h = omega (arith, last_date_later through o os h)

abbrev pub row_id : ℕ → RecurringSeries → Bool
row_id id r = r.id == id

abbrev pub same_row : RecurringSeries → RecurringSeries → Bool
same_row a b = b.id == a.id

module _ (tz : Tzdata) (now : ℕ) where
  abbrev pub occurrences_of : RecurringSeries → List Occurrence
  occurrences_of r = occurrences_from (weekly_of tz r) 0 r.occurrence_count

  abbrev pub pending : RecurringSeries → List Occurrence
  pending r = to_materialize now r (occurrences_of r)

  abbrev pub is_settled : RecurringSeries → Bool
  is_settled r = leb (theoretical_last_date r) r.materialized_through || is_empty (pending r)

  -- What one run makes of an active row.
  abbrev pub advance : RecurringSeries → RecurringSeries
  advance r = if is_settled r then r else with_materialized_through (last_date (pending r)) r

  pub advance-is_settled : (r : RecurringSeries) → is_settled (advance r) ≡ true
  advance-is_settled r = elim (Bool-cases (is_settled r)) [
    | inl done ↦ ground (arith, done)
    | inr open_row ↦
        let cutoff = now + max_advance_horizon_days * day in
        let reach = is_within_reach r.materialized_through cutoff in
        let os = occurrences_of r in
        let left =
          nothing_left r.materialized_through cutoff (last_date (pending r)) os
            (before_last r.materialized_through (pending r) (ground (arith, open_row))
              (All-beyond r.materialized_through cutoff os))
            (last_of_selection reach os
              (occurrences_from-IsIncreasing (weekly_of tz r) 0 r.occurrence_count)) in
        let next = with_materialized_through (last_date (pending r)) r in
        let moved : advance r ≡ next = rw open_row refl in
        subst (λ x. is_settled x ≡ true) (sym moved) (rw left (ground arith))
  ]

  -- The write for one row, and those of one run, in the order of its list.
  abbrev pub write_one : RecurringSeries → List RecurringSeries → List RecurringSeries
  write_one r rows =
      if is_settled r
      then rows
      else update_where (row_id r.id) (with_materialized_through (last_date (pending r))) rows

  abbrev pub write_all : List RecurringSeries → List RecurringSeries → List RecurringSeries
  write_all [] rows = rows
  write_all (r ∷ rs) rows = write_all rs (write_one r rows)

  write_one_skip :
      (r x : RecurringSeries) (rows : List RecurringSeries)
      → (r.id == x.id) ≡ false
      → write_one r (x ∷ rows) ≡ x ∷ write_one r rows
  write_one_skip r x rows h = elim (Bool-cases (is_settled r)) [
    | inl done ↦ rw done refl
    | inr open_row ↦ rw open_row (ground arith)
  ]

  write_one_head :
      (x : RecurringSeries) (rows : List RecurringSeries)
      → any (same_row x) rows ≡ false
      → write_one x (x ∷ rows) ≡ advance x ∷ rows
  write_one_head x rows h = elim (Bool-cases (is_settled x)) [
    | inl done ↦ rw done refl
    | inr open_row ↦
        let moved = with_materialized_through (last_date (pending x)) in
        rw open_row (ground (arith, ==_refl x.id, update_where_none (row_id x.id) moved rows h))
  ]

  write_all_skip :
      (rs : List RecurringSeries) (x : RecurringSeries) (rows : List RecurringSeries)
      → any (same_row x) rs ≡ false
      → write_all rs (x ∷ rows) ≡ x ∷ write_all rs rows
  write_all_skip [] x rows h = refl
  write_all_skip (r ∷ rs) x rows h =
      ap (write_all rs) (write_one_skip r x rows (ground arith))
      ∙ write_all_skip rs x (write_one r rows) (ground arith)

  advance-id : (r : RecurringSeries) → (advance r).id ≡ r.id
  advance-id r = elim (Bool-cases (is_settled r)) [
    | inl done ↦ rw done refl
    | inr more ↦ rw more refl
  ]

  pub write_all_active :
      (rows : List RecurringSeries)
      → distinct_by same_row rows ≡ true
      → write_all (active_series rows) rows
        ≡ update_where (λ r. is_active_series r.status) advance rows
  write_all_active [] h = refl
  write_all_active (x ∷ rows) h = elim (Bool-cases (is_active_series x.status)) [
    | inl active ↦
        let apart : any (same_row x) (active_series rows) ≡ false =
          any-select-false (same_row x) (λ r. is_active_series r.status) rows (ground arith) in
        rw active (
          ap (write_all (active_series rows)) (write_one_head x rows (ground arith))
          ∙ write_all_skip (active_series rows) (advance x) rows (
              subst (λ i. any (λ b. b.id == i) (active_series rows) ≡ false) (sym (advance-id x))
                apart)
          ∙ ap (λ rest. advance x ∷ rest) (write_all_active rows (ground arith)))
    | inr idle ↦
        let apart : any (same_row x) (active_series rows) ≡ false =
          any-select-false (same_row x) (λ r. is_active_series r.status) rows (ground arith) in
        rw idle (
          write_all_skip (active_series rows) x rows apart
          ∙ ap (λ rest. x ∷ rest) (write_all_active rows (ground arith)))
  ]

  advance-status : (r : RecurringSeries) → (advance r).status ≡ r.status
  advance-status r = elim (Bool-cases (is_settled r)) [
    | inl done ↦ rw done refl
    | inr more ↦ rw more refl
  ]

  -- After the writes of a run, each active row is settled.
  pub settled_after :
      (rows : List RecurringSeries)
      → All
          (λ r. is_settled r ≡ true)
          (active_series (update_where (λ r. is_active_series r.status) advance rows))
  settled_after [] = tt
  settled_after (x ∷ rows) = elim (Bool-cases (is_active_series x.status)) [
    | inl active ↦ rw (active, advance-status x, active) (advance-is_settled x, settled_after rows)
    | inr idle ↦ rw (idle, idle) (settled_after rows)
  ]
