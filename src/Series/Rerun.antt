-- ===== src/Series/Rerun.antt =====
-- Two runs of `rolling_materialize_series` of backend/kairos/bookings/tasks.py at the same time.
use kairos_booking_engine.Base.{
  ℕ, suc, ◌≡◌, refl, sym, ap, subst, ◌∙◌, String, Bool, true, List, [], ◌∷◌, arith, if◌then◌else◌,
  all, All, distinct_by, update_where, Bool-cases, inl, inr, all-update, all-select,
}
use kairos_booking_engine.Errors.{ok}
use kairos_booking_engine.Schema.{Booking, RecurringSeries, is_active_series}
use kairos_booking_engine.Recurrence.{Tzdata, Occurrence, expand_occurrences}
use kairos_booking_engine.Store.{Tables, State, Env, resume}
use kairos_booking_engine.Store.Runs.{resume_cases}
use kairos_booking_engine.Store.Bookings.{insert_booking, delete_bookings, get_booking}
use kairos_booking_engine.Store.Keeps.{Keeps, keeps_rules, Keeps-pure}
use kairos_booking_engine.Bookings.{
  BookingCreateRequest, create_booking, handle_write_database_error,
}
use kairos_booking_engine.Waitlist.Cascade.{Envs}
use kairos_booking_engine.Series.Table.{active_series, update_series, series_check}
use kairos_booking_engine.Series.Invariant.{Keeps-try_create}
use kairos_booking_engine.Series.Confirm.{last_date}
use kairos_booking_engine.Series.Rolling.{
  Rolled, nothing_rolled, roll_occurrences, roll_pending, roll_series, roll_all,
  rolling_materialize_series, next_series, with_rolled_conflict, with_occurrence, with_extension,
  with_materialized_through,
}
use kairos_booking_engine.Series.Settled.{
  is_empty, row_id, is_settled, pending, advance, same_row, write_one, write_all, write_all_active,
  settled_after,
}

abbrev HasSeries : List RecurringSeries → Tables → Type 0
HasSeries rows t = t.series ≡ rows

module _ (rows : List RecurringSeries) where
  Same-insert_booking : (b : Booking) → Keeps (HasSeries rows) (insert_booking b)
  unfolding insert_booking
  Same-insert_booking b = record { at = λ s h. ground arith }

  Same-delete_bookings : (p : Booking → Bool) → Keeps (HasSeries rows) (delete_bookings p)
  unfolding delete_bookings
  Same-delete_bookings p = record { at = λ s h. h }

  Same-get_booking : (id : ℕ) → Keeps (HasSeries rows) (get_booking id)
  unfolding get_booking
  Same-get_booking id = record { at = λ s h. ground arith }

  Same-create_booking :
      (e : Env) (req : BookingCreateRequest) → Keeps (HasSeries rows) (create_booking e req)
  unfolding create_booking handle_write_database_error
  Same-create_booking e req =
      search (keeps_rules, Same-insert_booking, Same-delete_bookings, Same-get_booking) depth 12

  Same-roll_occurrences :
      (envs : Envs) (r : RecurringSeries) (request_id : String) (os : List Occurrence) (x : Rolled)
      → Keeps (HasSeries rows) (roll_occurrences envs r request_id os x)
  unfolding roll_occurrences
  Same-roll_occurrences envs r request_id [] x = Keeps-pure x
  Same-roll_occurrences envs r request_id (o ∷ os) x =
      Keeps-try_create _ _ _ (Same-create_booking _ _)
        (λ b. Same-roll_occurrences (λ n. envs (suc n)) r request_id os (with_occurrence x))
        (Same-roll_occurrences (λ n. envs (suc n)) r request_id os (with_rolled_conflict r o x))

roll_pending-series :
    (envs : Envs) (r : RecurringSeries) (request_id : String) (os : List Occurrence) (x y : Rolled)
    (s : State)
    → (roll_pending envs r request_id os x s).0 ≡ ok y
    → (roll_pending envs r request_id os x s).1.series ≡ (
        if is_empty os
        then s.series
        else update_where (row_id r.id) (with_materialized_through (last_date os)) s.series)
unfolding roll_pending update_series
roll_pending-series envs r request_id [] x y s done = refl
roll_pending-series envs r request_id (o ∷ os) x y s done = ground (
  arith,
  (Same-roll_occurrences s.series (λ n. envs (suc n)) r request_id (o ∷ os) (with_extension x)).at s
      refl,
)

roll_pending-none :
    (envs : Envs) (r : RecurringSeries) (request_id : String) (os : List Occurrence) (x : Rolled)
    (s : State)
    → is_empty os ≡ true
    → roll_pending envs r request_id os x s ≡ (ok x, s)
unfolding roll_pending
roll_pending-none envs r request_id [] x s h = refl
roll_pending-none envs r request_id (o ∷ os) x s h = absurd (cc h)

module _ (tz : Tzdata) (now : ℕ) (request_id : String) where
  roll_series-write_one :
      (envs : Envs) (r : RecurringSeries) (x y : Rolled) (s : State)
      → (roll_series tz envs now request_id r x s).0 ≡ ok y
      → (roll_series tz envs now request_id r x s).1.series ≡ write_one tz now r s.series
  unfolding roll_series expand_occurrences
  roll_series-write_one envs r x y s done =
      ground (arith, roll_pending-series envs r request_id (pending tz now r) x y s)

  roll_all-write_all :
      (envs : ℕ → Envs) (rs : List RecurringSeries) (x y : Rolled) (s : State)
      → (roll_all tz envs now request_id rs x s).0 ≡ ok y
      → (roll_all tz envs now request_id rs x s).1.series ≡ write_all tz now rs s.series
  unfolding roll_all
  roll_all-write_all envs [] x y s done = refl
  roll_all-write_all envs (r ∷ rs) x y s done =
      let m = roll_series tz (envs 0) now request_id r x s in
      resume_cases
        (λ end. (z : Rolled) → end.0 ≡ ok z → end.1.series ≡ write_all tz now (r ∷ rs) s.series)
        (λ z. roll_all tz (next_series envs) now request_id rs z) m.0 m.1
        (λ z went w h.
          roll_all-write_all (next_series envs) rs z w m.1 h
          ∙ ap (write_all tz now rs) (roll_series-write_one (envs 0) r x z s went))
        (λ e w h. absurd (cc h)) y done

  -- A settled row that meets its constraints is passed over.
  roll_series-settled :
      (envs : Envs) (r : RecurringSeries) (x : Rolled) (s : State)
      → series_check r ≡ true
      → is_settled tz now r ≡ true
      → roll_series tz envs now request_id r x s ≡ (ok x, s)
  unfolding roll_series expand_occurrences
  roll_series-settled envs r x s checked settled =
      ground (arith, roll_pending-none envs r request_id (pending tz now r) x s)

  roll_all-settled :
      (envs : ℕ → Envs) (rs : List RecurringSeries) (x : Rolled) (s : State)
      → all series_check rs ≡ true
      → All (λ r. is_settled tz now r ≡ true) rs
      → roll_all tz envs now request_id rs x s ≡ (ok x, s)
  unfolding roll_all
  roll_all-settled envs [] x s checked settled = refl
  roll_all-settled envs (r ∷ rs) x s checked settled =
      ap (λ end. resume (λ z. roll_all tz (next_series envs) now request_id rs z) end)
        (roll_series-settled (envs 0) r x s (ground (arith, checked)) settled.0)
      ∙ roll_all-settled (next_series envs) rs x s (ground (arith, checked)) settled.1

  advance-checked :
      (r : RecurringSeries) → series_check r ≡ true → series_check (advance tz now r) ≡ true
  advance-checked r h = elim (Bool-cases (is_settled tz now r)) [
    | inl done ↦ rw done h
    | inr open_row ↦ rw open_row h
  ]

  run-advances :
      (envs : ℕ → Envs) (s : State) (x : Rolled)
      → distinct_by same_row s.series ≡ true
      → (rolling_materialize_series tz envs now request_id s).0 ≡ ok x
      → (rolling_materialize_series tz envs now request_id s).1.series
        ≡ update_where (λ r. is_active_series r.status) (advance tz now) s.series
  unfolding rolling_materialize_series
  run-advances envs s x apart done = ground (
    arith,
    roll_all-write_all envs (active_series s.series) nothing_rolled x s,
    write_all_active tz now s.series apart,
  )

  settled_run :
      (envs : ℕ → Envs) (t : State)
      → all series_check (active_series t.series) ≡ true
      → All (λ r. is_settled tz now r ≡ true) (active_series t.series)
      → ((rolling_materialize_series tz envs now request_id t).0 ≡ ok nothing_rolled)
        × ((rolling_materialize_series tz envs now request_id t).1.bookings ≡ t.bookings)
        × ((rolling_materialize_series tz envs now request_id t).1.series ≡ t.series)
  unfolding rolling_materialize_series
  settled_run envs t sound settled =
      rw (roll_all-settled envs (active_series t.series) nothing_rolled t sound settled)
        (refl, refl, refl)

  -- After a run of the rolling materialization that ended without an exception, on series with
  -- distinct identifiers that meet their constraints, another run at the same time, whatever
  -- the world decides about it, extends no series, creates nothing, meets no conflict and
  -- leaves every booking and series as it was.
  pub rolling_materialize_series_twice :
      (envs later : ℕ → Envs) (s : State) (x : Rolled)
      → distinct_by same_row s.series ≡ true
      → all series_check s.series ≡ true
      → (rolling_materialize_series tz envs now request_id s).0 ≡ ok x
      → let t = (rolling_materialize_series tz envs now request_id s).1 in
        let u = (rolling_materialize_series tz later now request_id t).1 in
        ((rolling_materialize_series tz later now request_id t).0 ≡ ok nothing_rolled)
        × (u.bookings ≡ t.bookings)
        × (u.series ≡ t.series)
  rolling_materialize_series_twice envs later s x apart checked done =
      let t = (rolling_materialize_series tz envs now request_id s).1 in
      let is_active = λ (r : RecurringSeries). is_active_series r.status in
      let first = run-advances envs s x apart done in
      let settled : All (λ r. is_settled tz now r ≡ true) (active_series t.series) =
        subst (λ rows. All (λ r. is_settled tz now r ≡ true) (active_series rows)) (sym first)
          (settled_after tz now s.series) in
      let kept : all series_check (update_where is_active (advance tz now) s.series) ≡ true =
        all-update series_check is_active (advance tz now) s.series
          (λ r h active. advance-checked r h) checked in
      let sound : all series_check (active_series t.series) ≡ true =
        all-select series_check is_active t.series
          (subst (λ rows. all series_check rows ≡ true) (sym first) kept) in
      settled_run later t sound settled
