-- ===== src/Offboarding/Queue.antt =====
-- What `deactivate_user` of backend/kairos/identity/services.py leaves in the waitlist.
use kairos_booking_engine.Base.{
  ℕ, suc, ◌≡◌, refl, sym, subst, Bool, true, false, not, ◌||◌, List, [], ◌∷◌, arith, ◌==◌, ==_refl,
  if◌then◌else◌, any, all, select, update_where, ltb, count_where,
}
use kairos_booking_engine.Errors.{Result, ok}
use kairos_booking_engine.Schema.{WaitlistEntry, WaitlistEntryStatus, AuditActorType, AppUser}
use kairos_booking_engine.Store.{State, Env, ◌>>=◌, pure, atomic}
use kairos_booking_engine.Store.Runs.{resume_cases}
use kairos_booking_engine.Store.Waitlist.{update_entries, get_entry}
use kairos_booking_engine.Waitlist.Entries.{
  WaitlistCancelRequest, WaitlistCancelResult, cancel_waitlist_entry, with_entry_status,
  is_waiting_row,
}
use kairos_booking_engine.Waitlist.Cascade.{Envs}
use kairos_booking_engine.Authorization.{Directory}
use kairos_booking_engine.Offboarding.Invariant.{flag_series-Keeps}
use kairos_booking_engine.Offboarding.Rows.{
  DeactivateUserRequest, DeactivateUserResult, is_one_off, is_active_row, flip_status,
  deactivate_row, get_user, zeroed, with_entry_cancelled,
}
use kairos_booking_engine.Offboarding.Cascade.{
  is_waiting_entry_of, cancel_entries, flag_series, offboard, offboard_bookings, release_offers,
  after_flip, close_out, is_offer_of, deactivate_user, is_active_series_of,
}

abbrev named_in : List WaitlistEntry → WaitlistEntry → Bool
named_in ws x = any (λ w. w.id == x.id) ws

-- Each waiting entry of the user is still to come in the list.
abbrev all_to_come : ℕ → List WaitlistEntry → List WaitlistEntry → Bool
all_to_come u ws rows = all (λ x. not (is_waiting_entry_of u x) || named_in ws x) rows

more_to_come :
    (u : ℕ) (w : WaitlistEntry) (ws rows : List WaitlistEntry)
    → all_to_come u ws rows ≡ true
    → all_to_come u (w ∷ ws) rows ≡ true
more_to_come u w ws [] h = refl
more_to_come u w ws (x ∷ rows) h = ground (arith, more_to_come u w ws rows)

selected_to_come :
    (u : ℕ) (rows : List WaitlistEntry)
    → all_to_come u (select (is_waiting_entry_of u) rows) rows ≡ true
selected_to_come u [] = refl
selected_to_come u (x ∷ rows) = ground (
  arith,
  ==_refl x.id,
  selected_to_come u rows,
  more_to_come u x (select (is_waiting_entry_of u) rows) rows,
)

one_less :
    (u : ℕ) (w : WaitlistEntry) (ws rows : List WaitlistEntry)
    → all_to_come u (w ∷ ws) rows ≡ true
    → all_to_come u ws
        (update_where (is_waiting_row w.id) (with_entry_status WaitlistEntryStatus.cancelled) rows)
      ≡ true
one_less u w ws [] h = refl
one_less u w ws (x ∷ rows) h = ground (arith, one_less u w ws rows)

cancelled_entry :
    (e : Env) (req : WaitlistCancelRequest) (s : State) (r : WaitlistCancelResult)
    → (cancel_waitlist_entry e req s).0 ≡ ok r
    → (cancel_waitlist_entry e req s).1.entries
      ≡ update_where
          (is_waiting_row req.entry.id)
          (with_entry_status WaitlistEntryStatus.cancelled)
          s.entries
unfolding cancel_waitlist_entry atomic update_entries get_entry
cancelled_entry e req s r done = ground arith

nobody_waits :
    (u : ℕ) (rows : List WaitlistEntry)
    → all_to_come u [] rows ≡ true
    → any (is_waiting_entry_of u) rows ≡ false
nobody_waits u [] h = refl
nobody_waits u (x ∷ rows) h = ground (arith, nobody_waits u rows)

count_positive :
    (p : AppUser → Bool) (rows : List AppUser)
    → any p rows ≡ true
    → ltb 0 (count_where p rows) ≡ true
count_positive p [] h = cc
count_positive p (u ∷ rows) h = ground (arith, count_positive p rows)

flipped_count :
    (e : Env) (req : DeactivateUserRequest) (s : State) (p : ℕ × AppUser)
    → (flip_status e req s).0 ≡ ok p
    → any (is_active_row req.target) s.users ≡ true
    → ltb 0 p.0 ≡ true
unfolding flip_status atomic deactivate_row get_user
flipped_count e req s p went active =
    let positive = count_positive (is_active_row req.target) s.users active in ground arith

module _ (req : DeactivateUserRequest) where
  abbrev Leaves : List WaitlistEntry → Result DeactivateUserResult × State → Type 0
  Leaves ws end =
      (y : DeactivateUserResult) → end.0 ≡ ok y → all_to_come req.target ws end.1.entries ≡ true

  cancel_entries-Leaves :
      (envs : Envs) (ws : List WaitlistEntry) (x : DeactivateUserResult) (s : State)
      → all_to_come req.target ws s.entries ≡ true
      → Leaves [] (cancel_entries envs req ws x s)
  unfolding cancel_entries
  cancel_entries-Leaves envs [] x s h y done = h
  cancel_entries-Leaves envs (w ∷ ws) x s h y done =
      let cancel : WaitlistCancelRequest = record {
        entry = w;
        actor = req.target;
        request_id = req.request_id;
        actor_type = AuditActorType.system;
      } in
      let end = cancel_waitlist_entry (envs 0) cancel s in
      resume_cases (Leaves [])
        (λ _. cancel_entries (λ n. envs (suc n)) req ws (with_entry_cancelled x)) end.0 end.1
        (λ r went.
          cancel_entries-Leaves (λ n. envs (suc n)) ws (with_entry_cancelled x) end.1
            (subst (λ rows. all_to_come req.target ws rows ≡ true)
              (sym (cancelled_entry (envs 0) cancel s r went))
              (one_less req.target w ws s.entries h)))
        (λ e z impossible. absurd (cc impossible)) y done

  module _ (d : Directory) where
    close_out-Leaves :
        (envs : Envs) (now : ℕ) (z : DeactivateUserResult) (s : State)
        → Leaves [] (close_out d envs req now z s)
    unfolding close_out
    close_out-Leaves envs now z s y done =
        let waiting = select (is_waiting_entry_of req.target) s.entries in
        let end = cancel_entries envs req waiting z s in
        let series = select (is_active_series_of req.target) end.1.series in
        resume_cases (Leaves [])
          (λ v t. flag_series d req now (select (is_active_series_of req.target) t.series) v t)
          end.0 end.1
          (λ v went w flagged.
            (flag_series-Keeps d req {P = λ t. all_to_come req.target [] t.entries ≡ true} now
                series v).at
              end.1
              (cancel_entries-Leaves envs waiting z s (selected_to_come req.target s.entries) v
                went))
          (λ e v impossible. absurd (cc impossible)) y done

    offboard-Leaves :
        (envs : ℕ → Envs) (now : ℕ) (x : DeactivateUserResult) (s : State)
        → Leaves [] (offboard d envs req now x s)
    unfolding offboard
    offboard-Leaves envs now x s y done =
        let bookings = select (is_one_off req.target now) s.bookings in
        let first = offboard_bookings d (envs 1) req bookings x s in
        resume_cases (Leaves [])
          (λ z t.
            (release_offers (envs 2) req (select (is_offer_of req.target t.entries) t.offers) z
                >>= close_out d (envs 3) req now)
              t)
          first.0 first.1
          (λ z went.
            let second =
              release_offers (envs 2) req
                (select (is_offer_of req.target first.1.entries) first.1.offers) z first.1 in
            resume_cases (Leaves []) (close_out d (envs 3) req now) second.0 second.1
              (λ v gone. close_out-Leaves (envs 3) now v second.1)
              (λ e v impossible. absurd (cc impossible)))
          (λ e v impossible. absurd (cc impossible)) y done

    after_flip-Leaves :
        (envs : ℕ → Envs) (n : ℕ) (u : AppUser) (s : State)
        → ltb 0 n ≡ true
        → Leaves [] (after_flip d envs req (n, u) s)
    unfolding after_flip
    after_flip-Leaves envs n u s flipped =
        subst
          (λ b.
            Leaves []
              ((if b then offboard d envs req (envs 0 0).now (zeroed u) else pure (zeroed u)) s))
          (sym flipped) (offboard-Leaves envs (envs 0 0).now (zeroed u) s)

    -- Where the deactivation of an active user returns, in or outside a transaction and
    -- whatever the world decides of its statements, none of the user's waitlist entries is
    -- waiting afterwards.
    pub deactivate_user-queue :
        (envs : ℕ → Envs) (s : State) (y : DeactivateUserResult)
        → any (is_active_row req.target) s.users ≡ true
        → (deactivate_user d envs req s).0 ≡ ok y
        → any (is_waiting_entry_of req.target) (deactivate_user d envs req s).1.entries ≡ false
    unfolding deactivate_user
    deactivate_user-queue envs s y active done =
        let flip = flip_status (envs 0 0) req s in
        nobody_waits req.target (deactivate_user d envs req s).1.entries (
          resume_cases (Leaves []) (after_flip d envs req) flip.0 flip.1
            (λ p went.
              after_flip-Leaves envs p.0 p.1 flip.1 (flipped_count (envs 0 0) req s p went active))
            (λ e z impossible. absurd (cc impossible)) y done)
