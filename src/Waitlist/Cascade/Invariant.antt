-- ===== src/Waitlist/Cascade/Invariant.antt =====
-- The cascade of backend/kairos/waitlist/services.py leaves the constraints of the schema true.
use kairos_booking_engine.Base.{ℕ, suc, String, Bool, Option, none, some, List, [], ◌∷◌}
use kairos_booking_engine.Errors.{Error, Result, ok, err}
use kairos_booking_engine.Range.{Range}
use kairos_booking_engine.Schema.{Booking, WaitlistEntry, WaitlistOffer, SystemCheckRun}
use kairos_booking_engine.Store.{Tables, State, Env, M, record_check}
use kairos_booking_engine.Store.Keeps.{Keeps, keeps_rules}
use kairos_booking_engine.Store.Consistent.{
  IsConsistent, Consistent-insert_offer, Consistent-update_entries, Consistent-record_check,
}
use kairos_booking_engine.Store.Waitlist.{insert_offer, update_entries}
use kairos_booking_engine.Bookings.{BookingCreateRequest, create_booking}
use kairos_booking_engine.Bookings.Invariant.{Consistent-create_booking}
use kairos_booking_engine.Waitlist.Cascade.{
  Envs, later, assert_some, try_hold, hold_request, make_offer, try_candidates,
  create_offer_for_freed_range,
}

module _ {P : Tables → Type 0} where
  try_hold_keeps :
      (r : Result Booking) (s : State) (k : Booking → M (Option WaitlistOffer))
      (skip : M (Option WaitlistOffer))
      → ((b : Booking) → Keeps P (k b))
      → Keeps P skip
      → P s.tables
      → P (try_hold (r, s) k skip).1.tables
  try_hold_keeps (ok b) s k skip kk ks h = (kk b).at s h
  try_hold_keeps (err Error.slot_unavailable) s k skip kk ks h = ks.at s h
  try_hold_keeps (err _) s k skip kk ks h = h

  -- An invariant of the attempt, of what follows it and of the next candidates.
  pub Keeps-try_hold :
      (m : M Booking) (k : Booking → M (Option WaitlistOffer)) (skip : M (Option WaitlistOffer))
      → Keeps P m
      → ((b : Booking) → Keeps P (k b))
      → Keeps P skip
      → Keeps P (λ s. try_hold (m s) k skip)
  Keeps-try_hold m k skip km kk ks = record {
    at = λ s h. try_hold_keeps (m s).0 (m s).1 k skip kk ks (km.at s h);
  }

-- An invariant of the four statements is one of the cascade. `Q` is what it asks of the world.
module _ {P : Tables → Type 0} (Q : Env → Type 0)
    (creates : (e : Env) (req : BookingCreateRequest) → Q e → Keeps P (create_booking e req))
    (inserts : (o : WaitlistOffer) → Keeps P (insert_offer o))
    (updates : (p : WaitlistEntry → Bool) (f : WaitlistEntry → WaitlistEntry)
      → Keeps P (update_entries p f))
    (checks : (c : SystemCheckRun) → Keeps P (record_check c)) where
  Keeps-make_offer :
      (envs : Envs) (resource : ℕ) (request_id : String) (tried : ℕ) (entry : WaitlistEntry)
      (hold : Booking) (expires : ℕ)
      → Keeps P (make_offer envs resource request_id tried entry hold expires)
  unfolding make_offer
  Keeps-make_offer envs resource request_id tried entry hold expires =
      search (keeps_rules, inserts, updates, checks) depth 14

  Keeps-assert :
      (o : Option ℕ) (f : ℕ → M (Option WaitlistOffer))
      → ((n : ℕ) → Keeps P (f n))
      → Keeps P (assert_some o f)
  Keeps-assert none f k = search keeps_rules
  Keeps-assert (some n) f k = k n

  Keeps-try_candidates :
      (envs : Envs) (resource : ℕ) (request_id : String) (tried : ℕ) (entries : List WaitlistEntry)
      → ((n : ℕ) → Q (envs n))
      → Keeps P (try_candidates envs resource request_id tried entries)
  unfolding try_candidates
  Keeps-try_candidates envs resource request_id tried [] q = search (keeps_rules, checks) depth 10
  Keeps-try_candidates envs resource request_id tried (entry ∷ rest) q =
      Keeps-try_hold (create_booking (envs 0) (hold_request resource request_id entry)) _ _
        (creates (envs 0) (hold_request resource request_id entry) (q 0))
        (λ hold.
          Keeps-assert hold.expires_at _
            (Keeps-make_offer envs resource request_id tried entry hold))
        (Keeps-try_candidates (later envs) resource request_id (suc tried) rest
          (λ n. q (suc (suc (suc n)))))

  pub Keeps-create_offer_for_freed_range :
      (envs : Envs) (resource : ℕ) (freed : Range) (request_id : String)
      → ((n : ℕ) → Q (envs n))
      → Keeps P (create_offer_for_freed_range envs resource freed request_id)
  unfolding create_offer_for_freed_range
  Keeps-create_offer_for_freed_range envs resource freed request_id q =
      search (keeps_rules, Keeps-try_candidates)

pub Consistent-create_offer_for_freed_range :
    (envs : Envs) (resource : ℕ) (freed : Range) (request_id : String)
    → Keeps IsConsistent (create_offer_for_freed_range envs resource freed request_id)
Consistent-create_offer_for_freed_range envs resource freed request_id =
    Keeps-create_offer_for_freed_range (λ e. Unit {0}) (λ e req q. Consistent-create_booking e req)
      Consistent-insert_offer Consistent-update_entries Consistent-record_check envs resource freed
      request_id (λ n. tt)
