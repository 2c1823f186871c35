-- ===== src/Series/Jobs.antt =====
-- The two background jobs of backend/kairos/bookings/tasks.py: what they keep, and which occurrence
-- a re-materialization moves a booking to.
use kairos_booking_engine.Base.{
  ℕ, suc, ◌≤◌, String, Bool, true, false, Option, none, some, List, [], ◌∷◌, arith, All,
}
use kairos_booking_engine.Schema.{Booking, RecurringSeries, ResourceAdmin}
use kairos_booking_engine.Recurrence.{Tzdata, Occurrence}
use kairos_booking_engine.Store.{Env}
use kairos_booking_engine.Store.Keeps.{Keeps, Keeps-pure, Keeps-bind, Keeps-send, Keeps-serve}
use kairos_booking_engine.Store.Consistent.{IsConsistent}
use kairos_booking_engine.Bookings.Invariant.{Consistent-create_booking, Consistent-edit_booking}
use kairos_booking_engine.Waitlist.Cascade.{Envs}
use kairos_booking_engine.Series.Invariant.{
  Keeps-try_create, Consistent-update_series, series_rules,
}
use kairos_booking_engine.Series.Rolling.{
  Rolled, with_occurrence, with_rolled_conflict, roll_occurrences, roll_pending, roll_series,
  roll_all, rolling_materialize_series,
}
use kairos_booking_engine.Series.Rematerialization.{
  Rematerialized, distance, closest, nearer, notify_all, move_booking, move_bookings, mark_current,
  rematerialize_series, rematerialize_all, rematerialize_stale_series,
}

roll_occurrences-Keeps :
    (envs : Envs) (r : RecurringSeries) (request_id : String) (os : List Occurrence) (x : Rolled)
    → Keeps IsConsistent (roll_occurrences envs r request_id os x)
unfolding roll_occurrences
roll_occurrences-Keeps envs r request_id [] x = Keeps-pure x
roll_occurrences-Keeps envs r request_id (o ∷ os) x =
    Keeps-try_create _ _ _ (Consistent-create_booking _ _)
      (λ b. roll_occurrences-Keeps (λ n. envs (suc n)) r request_id os (with_occurrence x))
      (roll_occurrences-Keeps (λ n. envs (suc n)) r request_id os (with_rolled_conflict r o x))

roll_pending-Keeps :
    (envs : Envs) (r : RecurringSeries) (request_id : String) (os : List Occurrence) (x : Rolled)
    → Keeps IsConsistent (roll_pending envs r request_id os x)
unfolding roll_pending
roll_pending-Keeps envs r request_id [] x = Keeps-pure x
roll_pending-Keeps envs r request_id (o ∷ os) x =
    search (series_rules, roll_occurrences-Keeps) depth 12

roll_series-Keeps :
    (tz : Tzdata) (envs : Envs) (now : ℕ) (request_id : String) (r : RecurringSeries) (x : Rolled)
    → Keeps IsConsistent (roll_series tz envs now request_id r x)
unfolding roll_series
roll_series-Keeps tz envs now request_id r x = search (series_rules, roll_pending-Keeps) depth 12

roll_all-Keeps :
    (tz : Tzdata) (envs : ℕ → Envs) (now : ℕ) (request_id : String) (rs : List RecurringSeries)
    (x : Rolled)
    → Keeps IsConsistent (roll_all tz envs now request_id rs x)
unfolding roll_all
roll_all-Keeps tz envs now request_id [] x = Keeps-pure x
roll_all-Keeps tz envs now request_id (r ∷ rs) x =
    Keeps-bind _ _ (roll_series-Keeps tz (envs 0) now request_id r x)
      (λ y. roll_all-Keeps tz (λ n. envs (suc n)) now request_id rs y)

pub Consistent-rolling_materialize_series :
    (tz : Tzdata) (envs : ℕ → Envs) (now : ℕ) (request_id : String)
    → Keeps IsConsistent (rolling_materialize_series tz envs now request_id)
unfolding rolling_materialize_series
Consistent-rolling_materialize_series tz envs now request_id =
    search (series_rules, roll_all-Keeps) depth 12

notify_all-Keeps :
    (r : RecurringSeries) (date : ℕ) (request_id : String) (us : List ℕ)
    → Keeps IsConsistent (notify_all r date request_id us)
unfolding notify_all
notify_all-Keeps r date request_id [] = Keeps-pure tt
notify_all-Keeps r date request_id (u ∷ us) =
    Keeps-bind _ _ (Keeps-send _) (λ _. notify_all-Keeps r date request_id us)

module _ (grants : List ResourceAdmin) where
  move_booking-Keeps :
      (e : Env) (r : RecurringSeries) (request_id : String) (b : Booking) (o : Option Occurrence)
      (x : Rematerialized)
      → Keeps IsConsistent (move_booking grants e r request_id b o x)
  unfolding move_booking
  move_booking-Keeps e r request_id b none x = Keeps-pure x
  move_booking-Keeps e r request_id b (some o) x =
      search (series_rules, Consistent-edit_booking, notify_all-Keeps) depth 12

  move_bookings-Keeps :
      (envs : Envs) (r : RecurringSeries) (request_id : String) (os : List Occurrence)
      (bs : List Booking) (x : Rematerialized)
      → Keeps IsConsistent (move_bookings grants envs r request_id os bs x)
  unfolding move_bookings
  move_bookings-Keeps envs r request_id os [] x = Keeps-pure x
  move_bookings-Keeps envs r request_id os (b ∷ bs) x =
      Keeps-bind _ _ (move_booking-Keeps (envs 0) r request_id b _ x)
        (λ y. move_bookings-Keeps (λ n. envs (suc n)) r request_id os bs y)

  mark_current-Keeps :
      (tz : Tzdata) (e : Env) (r : RecurringSeries) (c : Bool)
      → Keeps IsConsistent (mark_current tz e r c)
  unfolding mark_current
  mark_current-Keeps tz e r true = Keeps-pure tt
  mark_current-Keeps tz e r false =
      Keeps-bind _ _ (Keeps-serve e) (λ _. Consistent-update_series _ _)

  rematerialize_series-Keeps :
      (tz : Tzdata) (envs : Envs) (now : ℕ) (request_id : String) (r : RecurringSeries)
      (x : Rematerialized)
      → Keeps IsConsistent (rematerialize_series tz grants envs now request_id r x)
  unfolding rematerialize_series
  rematerialize_series-Keeps tz envs now request_id r x =
      search (series_rules, move_bookings-Keeps, mark_current-Keeps) depth 12

  rematerialize_all-Keeps :
      (tz : Tzdata) (envs : ℕ → Envs) (now : ℕ) (request_id : String) (rs : List RecurringSeries)
      (x : Rematerialized)
      → Keeps IsConsistent (rematerialize_all tz grants envs now request_id rs x)
  unfolding rematerialize_all
  rematerialize_all-Keeps tz envs now request_id [] x = Keeps-pure x
  rematerialize_all-Keeps tz envs now request_id (r ∷ rs) x =
      Keeps-bind _ _ (rematerialize_series-Keeps tz (envs 0) now request_id r x)
        (λ y. rematerialize_all-Keeps tz (λ n. envs (suc n)) now request_id rs y)

  pub Consistent-rematerialize_stale_series :
      (tz : Tzdata) (envs : ℕ → Envs) (now : ℕ) (request_id : String)
      → Keeps IsConsistent (rematerialize_stale_series tz grants envs now request_id)
  unfolding rematerialize_stale_series
  Consistent-rematerialize_stale_series tz envs now request_id =
      search (series_rules, rematerialize_all-Keeps) depth 12

closest-leq :
    (lower : ℕ) (o : Occurrence) (os : List Occurrence)
    → distance (closest lower o os).start lower ≤ distance o.start lower
unfolding closest
closest-leq lower o [] = ground arith
closest-leq lower o (p ∷ os) = ground (arith, closest-leq lower (nearer lower o p) os)

-- The occurrence that re-materialization matches a booking with is, of a list that is not
-- empty, one whose start no other start is nearer to the stored one than.
pub closest-nearest :
    (lower : ℕ) (o : Occurrence) (os : List Occurrence)
    → All (λ p. distance (closest lower o os).start lower ≤ distance p.start lower) (o ∷ os)
unfolding closest
closest-nearest lower o [] = (ground arith, tt)
closest-nearest lower o (p ∷ os) =
    let all_rest = closest-nearest lower (nearer lower o p) os in
    let least = closest-leq lower (nearer lower o p) os in
    (ground arith, (ground arith, all_rest.1))
