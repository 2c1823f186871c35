-- ===== src/Waitlist/Reaper/Sweep.antt =====
-- A sweep of the reaper (backend/kairos/waitlist/services.py) leaves no expired hold.
use kairos_booking_engine.Base.{
  ℕ, suc, ◌-◌, ◌*◌, ◌≤◌, String, ◌≡◌, refl, Bool, true, false, not, ◌&&◌, ◌||◌, none, some, List,
  [], ◌∷◌, map, arith, ltb, ◌==◌, ==_refl, any, all, select,
}
use kairos_booking_engine.Range.{second}
use kairos_booking_engine.Errors.{Result, ok, err}
use kairos_booking_engine.Schema.{Booking, is_held}
use kairos_booking_engine.Store.{Tables, State, M, resume}
use kairos_booking_engine.Waitlist.Cascade.{Envs}
use kairos_booking_engine.Waitlist.Reaper.{
  stuck_held_bookings, is_expired, Findings, reclaim, cascade_after, reap_holds, reap_expired_holds,
}
use kairos_booking_engine.Waitlist.Reaper.Covered.{Covered, Covered-cascade_after, reclaim-Covered}

-- What holds after the second part of a run holds after the whole run, if that gave a result.
resume_then :
    {A B : Type 0} (P : State → Type 0) (k : A → M B) (p : Result A × State) (b : B)
    → (resume k p).0 ≡ ok b
    → ((a : A) → p.0 ≡ ok a → (k a p.1).0 ≡ ok b → P (k a p.1).1)
    → P (resume k p).1
resume_then P k (ok a, s) b h q = q a refl h
resume_then P k (err e, s) b h q = absurd (ground arith)

reap-Covered :
    (envs : ℕ → Envs) (now : ℕ) (request_id : String) (f g : Findings) (holds : List Booking)
    (s : State)
    → ((n m : ℕ) → now ≤ (envs n m).now)
    → Covered now holds s.tables
    → (reap_holds envs now request_id f holds s).0 ≡ ok g
    → Covered now [] (reap_holds envs now request_id f holds s).1.tables
unfolding reap_holds
reap-Covered envs now request_id f g [] s q c h = c
reap-Covered envs now request_id f g (hold ∷ rest) s q c h =
    resume_then (λ u. Covered now [] u.tables) _ (reclaim (envs 0 0) now request_id hold s) g h
      λ r hr h'.
        let c' = reclaim-Covered (envs 0 0) now request_id hold rest s r hr c in
        resume_then (λ u. Covered now [] u.tables) _
          (cascade_after (λ n. envs 0 (suc n)) request_id hold f r
            (reclaim (envs 0 0) now request_id hold s).1)
          g h'
          λ f' hf h''.
            reap-Covered (λ n. envs (suc n)) now request_id f' g rest _ (λ n. q (suc n))
              ((Covered-cascade_after now rest (λ n. envs 0 (suc n)) request_id hold f r
                  (λ n. q 0 (suc n))).at
                _ c')
              h''

all_imply :
    (p q : Booking → Bool) (rows : List Booking)
    → ((b : Booking) → p b ≡ true → q b ≡ true)
    → all p rows ≡ true
    → all q rows ≡ true
all_imply p q [] imp h = refl
all_imply p q (b ∷ rows) imp h = ground (arith, imp b, all_imply p q rows imp)

self_covered :
    (now : ℕ) (rows list : List Booking) (x : Booking)
    → all (λ b. not (is_expired now b) || any (λ h. h.id == b.id) list) rows ≡ true
    → all (λ b. not (is_expired now b) || any (λ h. h.id == b.id) (x ∷ list)) rows ≡ true
self_covered now rows list x h =
    all_imply _ _ rows
      (λ b. any_more (not (is_expired now b)) (x.id == b.id) (any (λ h. h.id == b.id) list)) h
  where
    any_more : (p q r : Bool) → p || r ≡ true → p || (q || r) ≡ true
    any_more true q r h = refl
    any_more false true r h = refl
    any_more false false r h = h

select_covered :
    (now : ℕ) (rows : List Booking)
    → all
        (λ b. not (is_expired now b) || any (λ h. h.id == b.id) (select (is_expired now) rows))
        rows
      ≡ true
select_covered now [] = refl
select_covered now (b ∷ rows) = ground (
  arith,
  select_covered now rows,
  ==_refl b.id,
  self_covered now rows (select (is_expired now) rows) b (select_covered now rows),
)

none_expired : (now : ℕ) (t : Tables) → Covered now [] t → any (is_expired now) t.bookings ≡ false
none_expired now t h = none_expired_rows t.bookings h
  where
    none_expired_rows :
        (rows : List Booking)
        → all (λ b. not (is_expired now b) || false) rows ≡ true
        → any (is_expired now) rows ≡ false
    none_expired_rows [] h = refl
    none_expired_rows (b ∷ rows) h = ground (arith, none_expired_rows rows)

-- A sweep that ends without an exception, while no clock that it reads is behind the `now` of
-- its query, leaves no hold that had expired by then, the holds of its own cascades included.
pub reap_expired_holds_complete :
    (envs : ℕ → Envs) (now : ℕ) (request_id : String) (g : Findings) (s : State)
    → ((n m : ℕ) → now ≤ (envs n m).now)
    → (reap_expired_holds envs now request_id s).0 ≡ ok g
    → any (is_expired now) (reap_expired_holds envs now request_id s).1.bookings ≡ false
unfolding reap_expired_holds
reap_expired_holds_complete envs now request_id g s q h =
    none_expired now (reap_expired_holds envs now request_id s).1.tables (
      resume_then (λ u. Covered now [] u.tables) _
        (reap_holds envs now request_id
          (record { holds_reclaimed = 0; cascades_triggered = 0; entries_returned_to_waiting = 0 })
          (select (is_expired now) s.bookings) s)
        g h
        λ f hf h'. reap-Covered envs now request_id _ f _ s q (select_covered now s.bookings) hf)

none_stuck :
    (now grace : ℕ) (rows : List Booking)
    → any (is_expired now) rows ≡ false
    → map
        (λ b. b.id)
        (select
          (λ b.
            is_held b.status
            && elim b.expires_at [ none ↦ false | some x ↦ ltb x (now - grace * second) ])
          rows)
      ≡ []
none_stuck now grace [] h = refl
none_stuck now grace (b ∷ rows) h = ground (arith, none_stuck now grace rows)

-- Under the conditions of a complete sweep, the alert condition for stuck holds, at the time of
-- the sweep and with any grace, names no booking afterwards.
pub stuck_held_bookings-reap_expired_holds :
    (envs : ℕ → Envs) (now grace_seconds : ℕ) (request_id : String) (g : Findings) (s : State)
    → ((n m : ℕ) → now ≤ (envs n m).now)
    → (reap_expired_holds envs now request_id s).0 ≡ ok g
    → stuck_held_bookings now grace_seconds (reap_expired_holds envs now request_id s).1.tables ≡ []
unfolding stuck_held_bookings
stuck_held_bookings-reap_expired_holds envs now grace_seconds request_id g s q h =
    none_stuck now grace_seconds (reap_expired_holds envs now request_id s).1.bookings
      (reap_expired_holds_complete envs now request_id g s q h)
