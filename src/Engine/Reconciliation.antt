-- ===== src/Engine/Reconciliation.antt =====
-- `find_overlapping_active_bookings` and `check_reconciliation` of
-- backend/kairos/core/reconciliation.py.
use kairos_booking_engine.Base.{
  ℕ, ◌≡◌, ◌↔◌, refl, sym, ◌∙◌, Bool, true, false, not, ◌&&◌, ◌||◌, List, [], ◌∷◌, ◌++◌, map, arith,
  ltb, ◌==◌, any, select, length, distinct_by,
}
use kairos_booking_engine.Range.{overlaps}
use kairos_booking_engine.Errors.{ok}
use kairos_booking_engine.Schema.{Booking, CheckName, CheckStatus}
use kairos_booking_engine.Store.{State, M, ◌>>=◌, ◌>>◌, pure, gets, record_check}
use kairos_booking_engine.Store.Bookings.{occupies, conflicts, no_overlapping_bookings}
use kairos_booking_engine.Store.Consistent.{IsConsistent, same_id}
use kairos_booking_engine.Engine.{Reach, Reach-IsConsistent}

pub record Pair : Type 0 where
  pub booking_id_1 : ℕ
  pub booking_id_2 : ℕ
  pub resource_id : ℕ

-- The join condition and the two status tests.
abbrev pub is_overlapping_pair : Booking → Booking → Bool
is_overlapping_pair b1 b2 =
    ((b1.resource == b2.resource && ltb b1.id b2.id) && overlaps b1.time_range b2.time_range)
    && (occupies b1 && occupies b2)

pairs_of : Booking → List Booking → List Pair
pairs_of b1 rows =
    map (λ b2. record { booking_id_1 = b1.id; booking_id_2 = b2.id; resource_id = b1.resource })
      (select (is_overlapping_pair b1) rows)

self_join : List Booking → List Booking → List Pair
unfolding pairs_of
self_join [] rows = []
self_join (b1 ∷ bs) rows = pairs_of b1 rows ++ self_join bs rows

unfoldable pub find_overlapping_active_bookings : List Booking → List Pair
unfolding self_join
find_overlapping_active_bookings rows = self_join rows rows

abbrev pub status_of : List Pair → CheckStatus
status_of [] = CheckStatus.passed
status_of (p ∷ ps) = CheckStatus.failed

-- The job: a heartbeat row in any case, failed where a pair was found.
unfoldable pub check_reconciliation : ℕ → M (List Pair)
check_reconciliation now = do
  pairs ← gets (λ t. find_overlapping_active_bookings t.bookings)
  record_check (record {
    check_name = CheckName.reconciliation;
    status = status_of pairs;
    run_at = now;
    findings = length pairs ∷ [];
  })
  pure pairs

abbrev meets_any : List Booking → List Booking → Bool
meets_any bs rows = any (λ b. any (is_overlapping_pair b) rows) bs

abbrev is_empty : List Pair → Bool
is_empty [] = true
is_empty (p ∷ ps) = false

is_empty-append : (xs ys : List Pair) → is_empty (xs ++ ys) ≡ (is_empty xs && is_empty ys)
is_empty-append [] ys = refl
is_empty-append (x ∷ xs) ys = refl

pairs_of-is_empty :
    (b : Booking) (rows : List Booking)
    → is_empty (pairs_of b rows) ≡ not (any (is_overlapping_pair b) rows)
unfolding pairs_of
pairs_of-is_empty b [] = refl
pairs_of-is_empty b (x ∷ rows) = ground (arith, pairs_of-is_empty b rows)

self_join-is_empty :
    (bs rows : List Booking) → is_empty (self_join bs rows) ≡ not (meets_any bs rows)
unfolding self_join
self_join-is_empty [] rows = refl
self_join-is_empty (b ∷ bs) rows = ground (
  arith,
  is_empty-append (pairs_of b rows) (self_join bs rows),
  pairs_of-is_empty b rows,
  self_join-is_empty bs rows,
)

meets_any_cons :
    (x : Booking) (bs rows : List Booking)
    → meets_any bs (x ∷ rows) ≡ (any (λ b. is_overlapping_pair b x) bs || meets_any bs rows)
meets_any_cons x [] rows = refl
meets_any_cons x (b ∷ bs) rows = ground (arith, meets_any_cons x bs rows)

-- Of two rows with different identifiers the smaller comes first in the pair.
either_way :
    (x : Booking) (rows : List Booking)
    → any (same_id x) rows ≡ false
    → (any (λ b. is_overlapping_pair b x) rows || any (is_overlapping_pair x) rows)
      ≡ any (conflicts x) rows
either_way x [] h = refl
either_way x (y ∷ rows) h = ground (arith, either_way x rows)

meets_any_lem :
    (rows : List Booking)
    → distinct_by same_id rows ≡ true
    → meets_any rows rows ≡ not (no_overlapping_bookings rows)
meets_any_lem [] d = refl
meets_any_lem (x ∷ rows) d =
    ground (arith, meets_any_cons x rows rows, either_way x rows, meets_any_lem rows)

empty_of : (ps : List Pair) → is_empty ps ≡ true → ps ≡ []
empty_of [] h = refl
empty_of (p ∷ ps) h = cc

empty_iff :
    (rows : List Booking)
    → distinct_by same_id rows ≡ true
    → is_empty (find_overlapping_active_bookings rows) ≡ no_overlapping_bookings rows
unfolding find_overlapping_active_bookings
empty_iff rows d = ground (arith, self_join-is_empty rows rows, meets_any_lem rows d)

-- On rows with distinct identifiers, the query of the reconciliation finds no pair exactly
-- where the exclusion constraint holds of the rows.
pub find_overlapping_active_bookings_iff :
    (rows : List Booking)
    → distinct_by same_id rows ≡ true
    → (find_overlapping_active_bookings rows ≡ []) ↔ (no_overlapping_bookings rows ≡ true)
find_overlapping_active_bookings_iff rows d = (
  λ e. sym (empty_iff rows d) ∙ rw e,
  λ h. empty_of (find_overlapping_active_bookings rows) (empty_iff rows d ∙ h),
)

-- From tables that meet the constraints, the reconciliation job finds nothing after any
-- sequence of the writes.
pub Reach-check_reconciliation :
    {s u : State} (now : ℕ)
    → IsConsistent s.tables
    → Reach s u
    → (check_reconciliation now u).0 ≡ ok []
unfolding check_reconciliation
Reach-check_reconciliation {s} {u} now c r =
    let c' = Reach-IsConsistent c r in
    rw ((find_overlapping_active_bookings_iff u.bookings c'.ids).1 c'.apart)
