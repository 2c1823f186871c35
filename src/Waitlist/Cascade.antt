-- ===== src/Waitlist/Cascade.antt =====
-- `create_offer_for_freed_range` of backend/kairos/waitlist/services.py.
pub mod Invariant
pub mod Fcfs
pub mod Attribution
use kairos_booking_engine.Base.{
  ℕ, suc, String, Bool, true, false, Option, none, some, List, [], ◌∷◌, ◌==◌,
}
use kairos_booking_engine.Range.{Range}
use kairos_booking_engine.Errors.{Error, Result, ok, err}
use kairos_booking_engine.Schema.{
  Booking, BookingStatus, WaitlistEntry, WaitlistEntryStatus, WaitlistOffer, WaitlistOfferStatus,
  AuditActorType, CheckName, CheckStatus, SystemCheckRun,
}
use kairos_booking_engine.Store.{
  State, Env, M, Message, ◌>>=◌, ◌>>◌, pure, raise, gets, serve, send, record_check,
}
use kairos_booking_engine.Store.Waitlist.{insert_offer, update_entries}
use kairos_booking_engine.Bookings.{BookingCreateRequest, create_booking}
use kairos_booking_engine.Waitlist.Entries.{entry_id, with_entry_status}
use kairos_booking_engine.Waitlist.Eligibility.{find_eligible_entries}

-- What the world decides, call after call.
abbrev pub Envs : Type 0
Envs = ℕ → Env

abbrev pub later : Envs → Envs
later envs n = envs (suc (suc (suc n)))

abbrev pub flag : Bool → ℕ
flag true = 1
flag false = 0

-- `_record_offer_cascade_heartbeat`
abbrev pub record_offer_cascade_heartbeat : ℕ → Bool → ℕ → M (Unit {0})
record_offer_cascade_heartbeat now offer_created candidates_tried = record_check (record {
  check_name = CheckName.offer_cascade;
  status = CheckStatus.passed;
  run_at = now;
  findings = flag offer_created ∷ candidates_tried ∷ [];
})

abbrev pub hold_request : ℕ → String → WaitlistEntry → BookingCreateRequest
hold_request resource request_id entry = record {
  resource = resource;
  user = entry.user;
  start = entry.time_range.lower;
  end = entry.time_range.upper;
  request_id = request_id;
  series = none;
  actor_type = AuditActorType.system;
  status = BookingStatus.held;
}

abbrev pub new_offer : Env → ℕ → WaitlistEntry → Booking → ℕ → WaitlistOffer
new_offer e resource entry hold expires = record {
  id = e.uuid;
  waitlist_entry = entry.id;
  hold_booking = hold.id;
  resource = resource;
  time_range = entry.time_range;
  status = WaitlistOfferStatus.active;
  expires_at = expires;
  created_at = e.transaction_time;
}

-- The two statements after the hold commit each on its own, outside any transaction.
make_offer : Envs → ℕ → String → ℕ → WaitlistEntry → Booking → ℕ → M (Option WaitlistOffer)
make_offer envs resource request_id tried entry hold expires = do
  let offer = new_offer (envs 1) resource entry hold expires
  serve (envs 1)
  insert_offer offer
  serve (envs 2)
  _ ← update_entries (entry_id entry.id) (with_entry_status WaitlistEntryStatus.offered)
  send (
      Message.notify_offer_created entry.user resource entry.time_range.lower entry.time_range.upper
        expires request_id)
  record_offer_cascade_heartbeat (envs 2).now true (suc tried)
  pure (some offer)

-- assert value is not None
abbrev pub assert_some : Option ℕ → (ℕ → M (Option WaitlistOffer)) → M (Option WaitlistOffer)
assert_some none k = raise Error.assertion_error
assert_some (some n) k = k n

offer_for_hold : Envs → ℕ → String → ℕ → WaitlistEntry → Booking → M (Option WaitlistOffer)
unfolding make_offer
offer_for_hold envs resource request_id tried entry hold =
    assert_some hold.expires_at (make_offer envs resource request_id tried entry hold)

-- try: hold = ... except SlotUnavailableError: continue
abbrev pub try_hold :
    Result Booking × State
    → (Booking → M (Option WaitlistOffer))
    → M (Option WaitlistOffer)
    → Result (Option WaitlistOffer) × State
try_hold (ok hold, s) k skip = k hold s
try_hold (err Error.slot_unavailable, s) k skip = skip s
try_hold (err e, s) k skip = (err e, s)

unfoldable pub try_candidates :
    Envs → ℕ → String → ℕ → List WaitlistEntry → M (Option WaitlistOffer)
unfolding offer_for_hold
try_candidates envs resource request_id tried [] = do
  record_offer_cascade_heartbeat (envs 0).now false tried
  pure none
try_candidates envs resource request_id tried (entry ∷ rest) = λ s.
    try_hold (create_booking (envs 0) (hold_request resource request_id entry) s)
      (offer_for_hold envs resource request_id tried entry)
      (try_candidates (later envs) resource request_id (suc tried) rest)

unfoldable pub create_offer_for_freed_range : Envs → ℕ → Range → String → M (Option WaitlistOffer)
create_offer_for_freed_range envs resource freed request_id = do
  candidates ← gets (find_eligible_entries resource freed)
  try_candidates envs resource request_id 0 candidates
