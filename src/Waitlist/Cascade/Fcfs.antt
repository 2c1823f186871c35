-- ===== src/Waitlist/Cascade/Fcfs.antt =====
-- First come, first served: whom `create_offer_for_freed_range` of
-- backend/kairos/waitlist/services.py makes the offer.
use kairos_booking_engine.Base.{
  ℕ, suc, ap, subst, String, ◌+◌, ◌*◌, ◌<◌, ◌≡◌, refl, Bool, true, false, none, some, List, [], ◌∷◌,
  ◌++◌, arith, any, length, update_where, distinct_by,
}
use kairos_booking_engine.Errors.{ok}
use kairos_booking_engine.Schema.{
  Booking, WaitlistEntry, WaitlistEntryStatus, WaitlistOffer, CheckName, CheckStatus,
}
use kairos_booking_engine.Store.{Tables, State, Env}
use kairos_booking_engine.Store.Keeps.{Keeps, keeps_rules}
use kairos_booking_engine.Range.{Range, minute}
use kairos_booking_engine.Store.Bookings.{conflicts, insert_booking, delete_bookings, get_booking}
use kairos_booking_engine.Store.Waitlist.{same_slot, offer_clash, insert_offer, update_entries}
use kairos_booking_engine.Bookings.{
  BookingCreateRequest, offer_window_minutes, new_booking, create_booking,
  handle_write_database_error,
}
use kairos_booking_engine.Bookings.Outcome.{IsProper, remaining, create_booking_conflict}
use kairos_booking_engine.Waitlist.Entries.{entry_id, with_entry_status}
use kairos_booking_engine.Waitlist.Cascade.{
  Envs, later, hold_request, new_offer, make_offer, offer_for_hold, try_candidates,
  create_offer_for_freed_range,
}
use kairos_booking_engine.Waitlist.Eligibility.{find_eligible_entries}

-- A booking of the candidate's range would overlap another one.
abbrev pub is_blocked : Env → ℕ → String → State → WaitlistEntry → Bool
is_blocked e resource request_id s entry =
    any (conflicts (new_booking e (hold_request resource request_id entry)))
      (remaining e (hold_request resource request_id entry) s.bookings)

-- Each of the candidates is blocked when its turn comes, and the server fails none of them.
unfoldable pub AllBlocked : Envs → ℕ → String → State → List WaitlistEntry → Type 0
AllBlocked envs resource request_id s [] = Unit
AllBlocked envs resource request_id s (entry ∷ rest) =
    (IsProper (envs 0) (hold_request resource request_id entry) s
      × (is_blocked (envs 0) resource request_id s entry ≡ true))
    × AllBlocked (later envs) resource request_id s rest

-- The environment from the turn of the next candidate on.
abbrev pub after_all : List WaitlistEntry → Envs → Envs
after_all [] envs = envs
after_all (entry ∷ rest) envs = after_all rest (later envs)

pub try_candidates_skip :
    (envs : Envs) (resource : ℕ) (request_id : String) (tried : ℕ) (ahead rest : List WaitlistEntry)
    (s : State)
    → AllBlocked envs resource request_id s ahead
    → try_candidates envs resource request_id tried (ahead ++ rest) s
      ≡ try_candidates (after_all ahead envs) resource request_id (length ahead + tried) rest s
unfolding try_candidates AllBlocked
try_candidates_skip envs resource request_id tried [] rest s h =
    ap (λ n. try_candidates envs resource request_id n rest s) (omega arith)
try_candidates_skip envs resource request_id tried (entry ∷ ahead) rest s ((proper, blocked), h) =
    rw
      (
        create_booking_conflict (envs 0) (hold_request resource request_id entry) s proper blocked,
        try_candidates_skip (later envs) resource request_id (suc tried) ahead rest s h,
      )
      (ap (λ n. try_candidates (after_all ahead (later envs)) resource request_id n rest s)
        (omega arith))

module _ (os : List WaitlistOffer) (es : List WaitlistEntry) where
  abbrev pub Unrelated : Tables → Type 0
  Unrelated t = (t.offers ≡ os) × (t.entries ≡ es)

  Unrelated-insert_booking : (b : Booking) → Keeps Unrelated (insert_booking b)
  unfolding insert_booking
  Unrelated-insert_booking b = record { at = λ s h. (ground arith, ground arith) }

  Unrelated-delete_bookings : (p : Booking → Bool) → Keeps Unrelated (delete_bookings p)
  unfolding delete_bookings
  Unrelated-delete_bookings p = record { at = λ s h. h }

  Unrelated-get_booking : (id : ℕ) → Keeps Unrelated (get_booking id)
  unfolding get_booking
  Unrelated-get_booking id = record { at = λ s h. (ground arith, ground arith) }

  pub Unrelated-create_booking :
      (e : Env) (req : BookingCreateRequest) → Keeps Unrelated (create_booking e req)
  unfolding create_booking handle_write_database_error
  Unrelated-create_booking e req =
      search
        (keeps_rules, Unrelated-insert_booking, Unrelated-delete_bookings, Unrelated-get_booking)
        depth 12

-- The offer that the candidate gets, with the world as it is at its turn.
abbrev pub offer_of : Envs → ℕ → String → WaitlistEntry → WaitlistOffer
offer_of envs resource request_id entry =
    new_offer (envs 1) resource entry
      (new_booking (envs 0) (hold_request resource request_id entry))
      ((envs 0).now + offer_window_minutes * minute)

-- The two statements after the hold meet no constraint and no failure.
pub record IsOfferable (envs : Envs) (resource : ℕ) (request_id : String) (entry : WaitlistEntry)
    (s : State) : Type 0 where
  pub quiet : (envs 1).fault ≡ none
  pub quiet' : (envs 2).fault ≡ none
  pub unclaimed : any (offer_clash (offer_of envs resource request_id entry)) s.offers ≡ false
  pub slots :
      distinct_by same_slot
        (update_where (entry_id entry.id) (with_entry_status WaitlistEntryStatus.offered) s.entries)
      ≡ true

pub try_candidates_head :
    (envs : Envs) (resource : ℕ) (request_id : String) (tried : ℕ) (entry : WaitlistEntry)
    (rest : List WaitlistEntry) (s : State)
    → (create_booking (envs 0) (hold_request resource request_id entry) s).0
      ≡ ok (new_booking (envs 0) (hold_request resource request_id entry))
    → entry.time_range.lower < entry.time_range.upper
    → IsOfferable envs resource request_id entry s
    → ((try_candidates envs resource request_id tried (entry ∷ rest) s).0
        ≡ ok (some (offer_of envs resource request_id entry)))
      × ((try_candidates envs resource request_id tried (entry ∷ rest) s).1.offers
          ≡ offer_of envs resource request_id entry ∷ s.offers)
      × ((try_candidates envs resource request_id tried (entry ∷ rest) s).1.entries
          ≡ update_where
              (entry_id entry.id)
              (with_entry_status WaitlistEntryStatus.offered)
              s.entries)
unfolding try_candidates offer_for_hold make_offer insert_offer update_entries
try_candidates_head envs resource request_id tried entry rest s held proper fine =
    let kept =
      (Unrelated-create_booking s.offers s.entries (envs 0)
          (hold_request resource request_id entry)).at
        s (refl, refl) in
    let kept_offers = kept.0 in
    let kept_entries = kept.1 in
    let quiet = fine.quiet in
    let quiet' = fine.quiet' in
    let unclaimed = fine.unclaimed in
    let slots = fine.slots in (ground arith, ground arith, ground arith)

-- Where each candidate ahead in the order of joining is blocked by another booking, and the
-- hold of the next one can be made and meets no constraint afterwards, that one gets the offer:
-- the answer is its offer, one offer row is added, and its entry becomes offered.
pub create_offer_for_freed_range_first :
    (envs : Envs) (resource : ℕ) (freed : Range) (request_id : String)
    (ahead rest : List WaitlistEntry) (entry : WaitlistEntry) (s : State)
    → find_eligible_entries resource freed s.tables ≡ ahead ++ entry ∷ rest
    → AllBlocked envs resource request_id s ahead
    → (create_booking (after_all ahead envs 0) (hold_request resource request_id entry) s).0
      ≡ ok (new_booking (after_all ahead envs 0) (hold_request resource request_id entry))
    → entry.time_range.lower < entry.time_range.upper
    → IsOfferable (after_all ahead envs) resource request_id entry s
    → ((create_offer_for_freed_range envs resource freed request_id s).0
        ≡ ok (some (offer_of (after_all ahead envs) resource request_id entry)))
      × ((create_offer_for_freed_range envs resource freed request_id s).1.offers
          ≡ offer_of (after_all ahead envs) resource request_id entry ∷ s.offers)
      × ((create_offer_for_freed_range envs resource freed request_id s).1.entries
          ≡ update_where
              (entry_id entry.id)
              (with_entry_status WaitlistEntryStatus.offered)
              s.entries)
unfolding create_offer_for_freed_range
create_offer_for_freed_range_first envs resource freed request_id ahead rest entry s listed blocked
      held proper fine =
    rw (listed, try_candidates_skip envs resource request_id 0 ahead (entry ∷ rest) s blocked)
      (try_candidates_head (after_all ahead envs) resource request_id (length ahead + 0) entry rest
        s held proper fine)

append_nil : {A : Type 0} (xs : List A) → xs ++ [] ≡ xs
append_nil [] = refl
append_nil (x ∷ xs) = ap (λ ys. x ∷ ys) (append_nil xs)

-- Where every candidate is blocked by another booking, the cascade makes no offer and leaves
-- all as it was, but for one heartbeat row that says how many candidates were tried.
pub create_offer_for_freed_range-none :
    (envs : Envs) (resource : ℕ) (freed : Range) (request_id : String) (s : State)
    → AllBlocked envs resource request_id s (find_eligible_entries resource freed s.tables)
    → create_offer_for_freed_range envs resource freed request_id s ≡ (
      ok none,
      record s {
        tables = record s.tables {
          checks =
              record {
                check_name = CheckName.offer_cascade;
                status = CheckStatus.passed;
                run_at = (after_all (find_eligible_entries resource freed s.tables) envs 0).now;
                findings = 0 ∷ (length (find_eligible_entries resource freed s.tables) + 0) ∷ [];
              }
              ∷ s.checks;
        };
      },
    )
unfolding create_offer_for_freed_range try_candidates
create_offer_for_freed_range-none envs resource freed request_id s blocked =
    let candidates = find_eligible_entries resource freed s.tables in
    subst
      (λ xs.
        try_candidates envs resource request_id 0 xs s
        ≡ try_candidates (after_all candidates envs) resource request_id (length candidates + 0) []
            s)
      (append_nil candidates)
      (try_candidates_skip envs resource request_id 0 candidates [] s blocked)
