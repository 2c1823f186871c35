-- ===== src/Series/Outcome.antt =====
-- What `confirm_recurring_series` of backend/kairos/bookings/recurring_series.py reports, against
-- the rows that it leaves.
use kairos_booking_engine.Base.{
  ℕ, ◌≡◌, refl, sym, subst, String, Bool, true, false, ◌&&◌, List, [], ◌∷◌, map, arith, ◌==◌,
  if◌then◌else◌, ==_refl, any, select, find?, find?-holds, All, Option-cases, ==_iff, inl, inr,
}
use kairos_booking_engine.Range.{same_range}
use kairos_booking_engine.Errors.{Error, Result, ok, err}
use kairos_booking_engine.Schema.{Booking, AuditActorType, is_confirmed, Resource}
use kairos_booking_engine.Recurrence.{Tzdata, Occurrence, expand_occurrences}
use kairos_booking_engine.Store.{Tables, State, Env, M, resume, pure, serve}
use kairos_booking_engine.Store.Runs.{resume_cases}
use kairos_booking_engine.Bookings.{create_booking, of_series}
use kairos_booking_engine.Waitlist.Cascade.{Envs}
use kairos_booking_engine.Series.{date_in, weekly}
use kairos_booking_engine.Series.Table.{save_series}
use kairos_booking_engine.Series.Token.{DecodedPreview}
use kairos_booking_engine.Series.Confirm.{
  CreatedOccurrence, ConflictedOccurrence, Attempts, ConfirmOutcome, attempt_occurrences,
  confirm_recurring_series, confirm_occurrences, occurrence_request, unless_unavailable,
  with_created, with_conflict, created_entry, next_env, new_series, last_date,
}
use kairos_booking_engine.Series.Confirmed.{
  HasConfirmed, Confirmed-attempt_occurrences, create_booking_row,
}

-- The row that a reported creation speaks of.
abbrev pub is_reported_row : ℕ → ℕ → ℕ → CreatedOccurrence → Booking → Bool
is_reported_row resource user series c b =
    ((b.id == c.booking_id && b.resource == resource) && (b.user == user && of_series series b))
    && same_range b.time_range (record { lower = c.start; upper = c.end })

abbrev pub acknowledged_dates : List ConflictedOccurrence → List ℕ
acknowledged_dates conflicts = map (λ c. c.occurrence_date) (select (λ c. c.acknowledged) conflicts)

-- The report of one occurrence after the other: an acknowledged one and a conflict that was met are
-- each an entry of its date, a creation is one of its date, its start and its end.
pub data IsAccount (known : List ℕ)
    : List Occurrence → List CreatedOccurrence → List ConflictedOccurrence → Type 0 where
  nothing_left : IsAccount known [] [] []
  conflicted :
      {os : List Occurrence} {cs : List CreatedOccurrence} {xs : List ConflictedOccurrence}
      (o : Occurrence) (x : ConflictedOccurrence)
      → x.occurrence_date ≡ o.occurrence_date
      → x.acknowledged ≡ date_in o.occurrence_date known
      → IsAccount known os cs xs
      → IsAccount known (o ∷ os) cs (x ∷ xs)
  created :
      {os : List Occurrence} {cs : List CreatedOccurrence} {xs : List ConflictedOccurrence}
      (o : Occurrence) (c : CreatedOccurrence)
      → date_in o.occurrence_date known ≡ false
      → c.occurrence_date ≡ o.occurrence_date
      → c.start ≡ o.start
      → c.end ≡ o.end
      → IsAccount known os cs xs
      → IsAccount known (o ∷ os) (c ∷ cs) xs

-- Each occurrence is reported once; the acknowledged ones are those that the preview knew; each
-- creation that is reported is a confirmed row.
pub record IsReport (resource user series : ℕ) (known : List ℕ) (os : List Occurrence)
    (r : Attempts) (t : Tables) : Type 0 where
  pub account : IsAccount known os r.created r.conflicts
  pub acknowledged :
      acknowledged_dates r.conflicts
      ≡ map (λ o. o.occurrence_date) (select (λ o. date_in o.occurrence_date known) os)
  pub rows :
      All
        (λ c.
          any (λ b. is_confirmed b.status && is_reported_row resource user series c b) t.bookings
          ≡ true)
        r.created

-- Two ways to go on after an attempt.
unless_unavailable_cases :
    {A B : Type 0} (P : Result B × State → Type 0) (r : Result A) (s : State) (done : A → M B)
    (taken : M B)
    → ((a : A) → r ≡ ok a → P (done a s))
    → P (taken s)
    → ((e : Error) → P (err e, s))
    → P (unless_unavailable (r, s) done taken)
unless_unavailable_cases P (ok a) s done taken kd kt ke = kd a refl
unless_unavailable_cases P (err Error.slot_unavailable) s done taken kd kt ke = kt
unless_unavailable_cases P (err e) s done taken kd kt ke = ke e

then_pure :
    {A B : Type 0} (P : A → Tables → Type 0) (Q : B → Tables → Type 0) (f : A → B) (r : Result A)
    (s : State)
    → ((a : A) → r ≡ ok a → P a s.tables)
    → ((a : A) → P a s.tables → Q (f a) s.tables)
    → (b : B) → (resume (λ a. pure (f a)) (r, s)).0 ≡ ok b
    → Q b (resume (λ a. pure (f a)) (r, s)).1.tables
then_pure P Q f (ok a) s from step b done =
    subst (λ x. Q x s.tables) (cc done) (step a (from a refl))
then_pure P Q f (err e) s from step b done = absurd (cc done)

if_case :
    {A : Type 0} (P : Result A × State → Type 0) (c : Bool) (m n : M A) (s : State)
    → (c ≡ true → P (m s))
    → (c ≡ false → P (n s))
    → P ((if c then m else n) s)
if_case P true m n s kt kf = kt refl
if_case P false m n s kt kf = kf refl

module _ (resource user series : ℕ) (request_id : String) (known : List ℕ) where
  abbrev Reports : List Occurrence → Result Attempts × State → Type 0
  Reports os out =
      (r : Attempts) → out.0 ≡ ok r → IsReport resource user series known os r out.1.tables

  reported_creation :
      (e : Env) (o : Occurrence) (s : State) (b : Booking)
      → let req = occurrence_request resource user series request_id AuditActorType.user o in
        (create_booking e req s).0 ≡ ok b
        → HasConfirmed
            (is_reported_row resource user series (created_entry o b))
            (create_booking e req s).1.tables
  reported_creation e o s b made =
      let req = occurrence_request resource user series request_id AuditActorType.user o in
      let id = (create_booking_row e req s b (λ x. true) made refl refl).1 in
      let (row, same) =
        create_booking_row e req s b (is_reported_row resource user series (created_entry o b)) made
          refl
          (ground (
            arith,
            ==_refl resource,
            ==_refl user,
            ==_refl series,
            ==_refl o.start,
            ==_refl o.end,
          )) in
      row

  reported_conflict :
      (o : Occurrence) (acknowledged : Bool) {os : List Occurrence} (a : Attempts) (t : Tables)
      → date_in o.occurrence_date known ≡ acknowledged
      → IsReport resource user series known os a t
      → IsReport resource user series known (o ∷ os) (with_conflict o acknowledged a) t
  reported_conflict o acknowledged a t known_or_not h = record {
    account =
        conflicted o (record { occurrence_date = o.occurrence_date; acknowledged = acknowledged })
          refl (sym known_or_not) h.account;
    acknowledged = ground (arith, h.acknowledged);
    rows = h.rows;
  }

  pub attempt_occurrences-IsReport :
      (envs : Envs) (os : List Occurrence) (s : State) (r : Attempts)
      → (attempt_occurrences envs resource user series request_id known os s).0 ≡ ok r
      → IsReport resource user series known os r
          (attempt_occurrences envs resource user series request_id known os s).1.tables
  unfolding attempt_occurrences
  attempt_occurrences-IsReport envs [] s r done =
      subst (λ (a : Attempts). IsReport resource user series known [] a s.tables)
        {x = record { created = []; conflicts = [] }} {y = r} (cc done)
        (record { account = nothing_left; acknowledged = refl; rows = tt })
  attempt_occurrences-IsReport envs (o ∷ os) s r done =
      let req = occurrence_request resource user series request_id AuditActorType.user o in
      let rest = attempt_occurrences (next_env envs) resource user series request_id known os in
      let ih = attempt_occurrences-IsReport (next_env envs) os in
      if_case (Reports (o ∷ os)) (date_in o.occurrence_date known) _ _ s
        (λ hit.
          then_pure (IsReport resource user series known os)
            (IsReport resource user series known (o ∷ os)) (with_conflict o true) (rest s).0
            (rest s).1 (ih s) (λ a h. (reported_conflict o true a _ hit h)))
        (λ miss.
          unless_unavailable_cases (Reports (o ∷ os)) (create_booking (envs 0) req s).0
            (create_booking (envs 0) req s).1 _ _
            (λ b made.
              let row = reported_creation (envs 0) o s b made in
              then_pure (IsReport resource user series known os)
                (IsReport resource user series known (o ∷ os)) (with_created o b)
                (rest (create_booking (envs 0) req s).1).0
                (rest (create_booking (envs 0) req s).1).1 (ih (create_booking (envs 0) req s).1)
                (λ a h. record {
                  account = created o (created_entry o b) miss refl refl refl h.account;
                  acknowledged = ground (arith, miss, h.acknowledged);
                  rows = (
                    (Confirmed-attempt_occurrences
                          (is_reported_row resource user series (created_entry o b)) (next_env envs)
                          resource user series request_id known os).at
                        (create_booking (envs 0) req s).1 row,
                    h.rows,
                  );
                }))
            (then_pure (IsReport resource user series known os)
              (IsReport resource user series known (o ∷ os)) (with_conflict o false)
              (rest (create_booking (envs 0) req s).1).0 (rest (create_booking (envs 0) req s).1).1
              (ih (create_booking (envs 0) req s).1)
              (λ a h. (reported_conflict o false a _ miss h)))
            (λ e r impossible. absurd (cc impossible)))
        r done

module _ (resource user : ℕ) (known : List ℕ) (os : List Occurrence) where
  abbrev Confirms : Result ConfirmOutcome × State → Type 0
  Confirms end =
      (out : ConfirmOutcome)
      → end.0 ≡ ok out
      → IsReport resource user out.series_id known os out.attempts end.1.tables

confirm_occurrences-IsReport :
    (tz : Tzdata) (envs : Envs) (user : ℕ) (decoded : DecodedPreview) (request_id : String)
    (resource : ℕ) (os : List Occurrence) (s : State)
    → Confirms resource user decoded.conflict_dates os
        (confirm_occurrences tz envs user decoded request_id resource os s)
unfolding confirm_occurrences
confirm_occurrences-IsReport tz envs user decoded request_id resource os s =
    let id = (envs 0).uuid in
    let known = decoded.conflict_dates in
    let P = Confirms resource user known os in
    let row = new_series tz id user decoded.definition (last_date os) in
    let attempts = attempt_occurrences (next_env envs) resource user id request_id known os in
    resume_cases P _ (serve (envs 0) s).0 (serve (envs 0) s).1
      (λ _ up.
        resume_cases P _ (save_series tz row (serve (envs 0) s).1).0
          (save_series tz row (serve (envs 0) s).1).1
          (λ _ saved.
            let t = (save_series tz row (serve (envs 0) s).1).1 in
            then_pure (IsReport resource user id known os)
              (λ out. IsReport resource user out.series_id known os out.attempts)
              (λ r. record { series_id = id; attempts = r }) (attempts t).0 (attempts t).1
              (attempt_occurrences-IsReport resource user id request_id known (next_env envs) os t)
              (λ r h. h))
          (λ e out h. absurd (cc h)))
      (λ e out h. absurd (cc h))

module _ (tz : Tzdata) (resources : List Resource) (envs : Envs) (user : ℕ) where
  -- Where the confirmation of a decoded preview answers, on any tables and whatever the world
  -- decides, its report accounts for the occurrences of the expansion in their order and for
  -- nothing else: each one is an entry of its date among the conflicts, acknowledged exactly if
  -- the preview named it, or is one that the preview did not name and an entry of its date,
  -- start and end among the creations; and each creation is a confirmed booking of the series,
  -- the user and the resource, at the range that is reported.
  pub confirm_recurring_series-IsReport :
      (decoded : DecodedPreview) (request_id : String) (s : State) (out : ConfirmOutcome)
      (os : List Occurrence)
      → (confirm_recurring_series tz resources envs user decoded request_id s).0 ≡ ok out
      → expand_occurrences (weekly tz decoded.definition) decoded.definition.occurrence_count
        ≡ ok os
      → IsReport decoded.definition.resource user out.series_id decoded.conflict_dates os
          out.attempts
          (confirm_recurring_series tz resources envs user decoded request_id s).1.tables
  unfolding confirm_recurring_series
  confirm_recurring_series-IsReport decoded request_id s out os done expanded =
      let def = decoded.definition in
      elim (Option-cases (find? (λ r. r.id == def.resource) resources)) [
        | inl missing ↦ absurd (ground arith)
        | inr (resource, found) ↦
            let same : resource.id ≡ def.resource =
              (==_iff resource.id def.resource).0
                (find?-holds (λ r. r.id == def.resource) resources resource found) in
            let run = confirm_occurrences tz envs user decoded request_id resource.id os s in
            let whole : confirm_recurring_series tz resources envs user decoded request_id s ≡ run =
              rw (found, expanded) refl in
            let known = decoded.conflict_dates in
            let here : Confirms resource.id user known os
                (confirm_recurring_series tz resources envs user decoded request_id s) =
              subst (λ end. Confirms resource.id user known os end) (sym whole)
                (confirm_occurrences-IsReport tz envs user decoded request_id resource.id os s) in
            subst
              (λ i.
                IsReport i user out.series_id known os out.attempts
                  (confirm_recurring_series tz resources envs user decoded request_id s).1.tables)
              same (here out done)
      ]
