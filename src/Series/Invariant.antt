-- ===== src/Series/Invariant.antt =====
-- The constraints of the schema hold after every confirmation of a series.
use kairos_booking_engine.Base.{ℕ, suc, String, Option, List, [], ◌∷◌, arith}
use kairos_booking_engine.Errors.{Error, Result, ok, err}
use kairos_booking_engine.Schema.{Booking, RecurringSeries, Resource}
use kairos_booking_engine.Recurrence.{Tzdata, Occurrence}
use kairos_booking_engine.Store.{Tables, State, M}
use kairos_booking_engine.Store.Bookings.{or_missing}
use kairos_booking_engine.Store.Keeps.{Keeps, Keeps-bind, Keeps-pure, Keeps-if}
use kairos_booking_engine.Store.Consistent.{IsConsistent, consistent_rules}
use kairos_booking_engine.Bookings.Invariant.{Consistent-create_booking}
use kairos_booking_engine.Waitlist.Cascade.{Envs}
use kairos_booking_engine.Series.Table.{of_result, insert_series, save_series, update_series}
use kairos_booking_engine.Series.Token.{DecodedPreview}
use kairos_booking_engine.Series.Confirm.{
  try_create, unless_unavailable, attempt_occurrences, confirm_occurrences,
  confirm_recurring_series,
}

pub Keeps-of_result : {A : Type 0} {P : Tables → Type 0} (r : Result A) → Keeps P (of_result r)
Keeps-of_result r = record { at = λ s h. h }

pub Keeps-or_missing : {A : Type 0} {P : Tables → Type 0} (o : Option A) → Keeps P (or_missing o)
Keeps-or_missing o = record { at = λ s h. ground arith }

unless_unavailable_keeps :
    {A B : Type 0} {P : Tables → Type 0} (r : Result A) (s : State) (done : A → M B) (taken : M B)
    → ((a : A) → Keeps P (done a))
    → Keeps P taken
    → P s.tables
    → P (unless_unavailable (r, s) done taken).1.tables
unless_unavailable_keeps (ok a) s done taken kd kt h = (kd a).at s h
unless_unavailable_keeps (err Error.slot_unavailable) s done taken kd kt h = kt.at s h
unless_unavailable_keeps (err _) s done taken kd kt h = h

pub Keeps-try_create :
    {B : Type 0} {P : Tables → Type 0} (m : M Booking) (done : Booking → M B) (taken : M B)
    → Keeps P m
    → ((b : Booking) → Keeps P (done b))
    → Keeps P taken
    → Keeps P (try_create m done taken)
Keeps-try_create m done taken km kd kt = record {
  at = λ s h. unless_unavailable_keeps (m s).0 (m s).1 done taken kd kt (km.at s h);
}

pub Consistent-insert_series : (r : RecurringSeries) → Keeps IsConsistent (insert_series r)
unfolding insert_series
Consistent-insert_series r = record { at = λ s h. ground arith }

pub Consistent-update_series :
    (id : ℕ) (f : RecurringSeries → RecurringSeries) → Keeps IsConsistent (update_series id f)
unfolding update_series
Consistent-update_series id f = record { at = λ s h. ground arith }

pub ruleset series_rules = (
  consistent_rules, Keeps-of_result, Keeps-or_missing, Keeps-try_create, Consistent-insert_series,
  Consistent-update_series, Consistent-create_booking,
)

Consistent-attempt_occurrences :
    (envs : Envs) (resource user series : ℕ) (request_id : String) (known : List ℕ)
    (os : List Occurrence)
    → Keeps IsConsistent (attempt_occurrences envs resource user series request_id known os)
unfolding attempt_occurrences
Consistent-attempt_occurrences envs resource user series request_id known [] = Keeps-pure _
Consistent-attempt_occurrences envs resource user series request_id known (o ∷ os) =
    let rest =
      Consistent-attempt_occurrences (λ n. envs (suc n)) resource user series request_id known os in
    Keeps-if _ _ _ (Keeps-bind _ _ rest (λ r. Keeps-pure _)) (
      Keeps-try_create _ _ _ (Consistent-create_booking _ _)
        (λ b. Keeps-bind _ _ rest (λ r. Keeps-pure _)) (Keeps-bind _ _ rest (λ r. Keeps-pure _)))

pub Consistent-confirm_recurring_series :
    (tz : Tzdata) (resources : List Resource) (envs : Envs) (user : ℕ) (decoded : DecodedPreview)
    (request_id : String)
    → Keeps IsConsistent (confirm_recurring_series tz resources envs user decoded request_id)
unfolding confirm_recurring_series confirm_occurrences save_series
Consistent-confirm_recurring_series tz resources envs user decoded request_id =
    search (series_rules, Consistent-attempt_occurrences) depth 14
