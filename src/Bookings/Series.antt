-- ===== src/Bookings/Series.antt =====
-- `cancel_recurring_series` of backend/kairos/bookings/services.py.
use kairos_booking_engine.Base.{
  ℕ, String, ◌≡◌, refl, sym, subst, Bool, true, false, Option, none, List, [], ◌∷◌, map, arith,
  ==_refl, any, select, distinct_by, update_where, count_where, Bool-cases, inl, inr,
}
use kairos_booking_engine.Errors.{ok}
use kairos_booking_engine.Schema.{Booking}
use kairos_booking_engine.Store.{State, Env, atomic}
use kairos_booking_engine.Store.Bookings.{update_bookings}
use kairos_booking_engine.Store.Consistent.{IsConsistent, same_id}
use kairos_booking_engine.Bookings.{
  RecurringSeriesCancelRequest, cancel_recurring_series, is_future_occurrence, is_past_occurrence,
  id_in, has_id, cancel_row,
}
use kairos_booking_engine.Bookings.Cancel.{cancel_row_fine}

abbrev pub ids_of : (Booking → Bool) → List Booking → List ℕ
ids_of p rows = map (λ b. b.id) (select p rows)

-- A row whose identifier no other has is named exactly where it was selected.
foreign_id :
    (p : Booking → Bool) (x : Booking) (rows : List Booking)
    → any (same_id x) rows ≡ false
    → id_in (ids_of p rows) x ≡ false
foreign_id p x [] h = refl
foreign_id p x (y ∷ rows) h = ground (arith, foreign_id p x rows)

skip_id :
    (i : ℕ) (ids : List ℕ) (f : Booking → Booking) (rows : List Booking)
    → any (has_id i) rows ≡ false
    → update_where (id_in (i ∷ ids)) f rows ≡ update_where (id_in ids) f rows
skip_id i ids f [] h = refl
skip_id i ids f (x ∷ rows) h = ground (arith, skip_id i ids f rows)

-- Updating the rows whose identifiers were selected updates the selected rows.
named_rows :
    (p : Booking → Bool) (f : Booking → Booking) (rows : List Booking)
    → distinct_by same_id rows ≡ true
    → update_where (id_in (ids_of p rows)) f rows ≡ update_where p f rows
named_rows p f [] d = refl
named_rows p f (x ∷ rows) d = elim (Bool-cases (p x)) [
  | inl hit ↦
      let named : ids_of p (x ∷ rows) ≡ x.id ∷ ids_of p rows = rw hit in
      subst (λ ids. update_where (id_in ids) f (x ∷ rows) ≡ update_where p f (x ∷ rows)) (sym named)
        (ground
          (arith, hit, ==_refl x.id, named_rows p f rows, skip_id x.id (ids_of p rows) f rows))
  | inr miss ↦
      let named : ids_of p (x ∷ rows) ≡ ids_of p rows = rw miss in
      subst (λ ids. update_where (id_in ids) f (x ∷ rows) ≡ update_where p f (x ∷ rows)) (sym named)
        (ground (arith, miss, named_rows p f rows, foreign_id p x rows))
]

-- Cancelled occurrences are future ones: the past ones are counted alike before and after.
past_unchanged :
    (series now actor : ℕ) (reason : Option String) (rows : List Booking)
    → count_where
        (is_past_occurrence series now)
        (update_where (is_future_occurrence series now) (cancel_row now actor reason) rows)
      ≡ count_where (is_past_occurrence series now) rows
past_unchanged series now actor reason [] = refl
past_unchanged series now actor reason (x ∷ rows) =
    ground (arith, past_unchanged series now actor reason rows)

-- Inside a transaction on consistent tables, with no server failure, cancelling a series
-- answers the identifiers of its confirmed occurrences from now on and the number of its past
-- ones, and cancels exactly those occurrences.
pub cancel_recurring_series_answer :
    (e : Env) (req : RecurringSeriesCancelRequest) (s : State)
    → IsConsistent s.tables
    → s.in_atomic ≡ true
    → e.fault ≡ none
    → ((cancel_recurring_series e req s).0
        ≡ ok (record {
          cancelled_booking_ids = ids_of (is_future_occurrence req.series e.now) s.bookings;
          occurrences_already_past = count_where (is_past_occurrence req.series e.now) s.bookings;
        }))
      × ((cancel_recurring_series e req s).1.bookings
          ≡ update_where
              (is_future_occurrence req.series e.now)
              (cancel_row e.now req.actor req.reason)
              s.bookings)
unfolding cancel_recurring_series atomic update_bookings
cancel_recurring_series_answer e req s c nested quiet =
    let fine =
      cancel_row_fine e.now req.actor req.reason (is_future_occurrence req.series e.now) s.tables
        (λ b. ground arith) c in
    let rows =
      named_rows (is_future_occurrence req.series e.now) (cancel_row e.now req.actor req.reason)
        s.bookings c.ids in
    let past = past_unchanged req.series e.now req.actor req.reason s.bookings in
    (ground arith, ground arith)
