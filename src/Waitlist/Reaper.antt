-- ===== src/Waitlist/Reaper.antt =====
-- `reap_expired_holds` and `count_stuck_held_bookings` of backend/kairos/waitlist/services.py.
pub mod Invariant
pub mod Covered
pub mod Sweep
use kairos_booking_engine.Base.{
  ℕ, suc, ◌+◌, ◌-◌, ◌*◌, String, Bool, true, false, not, ◌&&◌, Option, none, some, List, [], ◌∷◌,
  map, ltb, leb, ◌==◌, if◌then◌else◌, find?, select, length, is_some,
}
use kairos_booking_engine.Range.{Range, second}
use kairos_booking_engine.Schema.{
  Booking, WaitlistEntryStatus, WaitlistOffer, WaitlistOfferStatus, AuditActorType, CheckName,
  CheckStatus, SystemCheckRun, is_held, is_active_offer,
}
use kairos_booking_engine.Store.{
  State, Tables, Env, M, ◌>>=◌, ◌>>◌, pure, gets, serve, atomic, record_check,
  apply_write_path_session_settings,
}
use kairos_booking_engine.Store.Bookings.{update_bookings}
use kairos_booking_engine.Store.Waitlist.{update_entries, update_offers}
use kairos_booking_engine.Waitlist.Entries.{entry_id, with_entry_status}
use kairos_booking_engine.Waitlist.Offers.{release_row, with_offer_status}
use kairos_booking_engine.Waitlist.Offers.Decline.{offer_id}
use kairos_booking_engine.Waitlist.Cascade.{Envs, flag, create_offer_for_freed_range}

-- status=HELD, expires_at__lte=now
abbrev pub is_expired : ℕ → Booking → Bool
is_expired now b = is_held b.status && elim b.expires_at [ none ↦ false | some t ↦ leb t now ]

abbrev pub is_expired_row : ℕ → ℕ → Booking → Bool
is_expired_row id now b = b.id == id && is_expired now b

abbrev pub is_offer_of : ℕ → WaitlistOffer → Bool
is_offer_of hold o = o.hold_booking == hold && is_active_offer o.status

-- What became of one hold: lost to an acceptance, released without an offer, or released with one.
pub data Reclaimed : Type 0 where
  lost : Reclaimed
  bare : Reclaimed
  with_offer : Range → Reclaimed

expire_offer : Option WaitlistOffer → M Reclaimed
expire_offer none = pure bare
expire_offer (some o) = do
  _ ← update_offers (offer_id o.id) (with_offer_status WaitlistOfferStatus.expired)
  _ ← update_entries (entry_id o.waitlist_entry) (with_entry_status WaitlistEntryStatus.expired)
  pure (with_offer o.time_range)

release_offer : ℕ → Bool → M Reclaimed
unfolding expire_offer
release_offer hold false = pure lost
release_offer hold true = do
  offer ← gets (λ t. find? (is_offer_of hold) t.offers)
  expire_offer offer

reclaim_body : Env → ℕ → String → Booking → M Reclaimed
unfolding release_offer
reclaim_body e now request_id hold = do
  apply_write_path_session_settings none AuditActorType.system request_id none
  serve e
  updated ← update_bookings (is_expired_row hold.id now) (release_row now)
  release_offer hold.id (ltb 0 updated)

unfoldable pub reclaim : Env → ℕ → String → Booking → M Reclaimed
unfolding reclaim_body
reclaim e now request_id hold = atomic (reclaim_body e now request_id hold)

pub record Findings : Type 0 where
  pub holds_reclaimed : ℕ
  pub cascades_triggered : ℕ
  pub entries_returned_to_waiting : ℕ

-- The cascade for a freed range, outside the transaction that freed it.
pub cascade_after : Envs → String → Booking → Findings → Reclaimed → M Findings
cascade_after envs request_id hold f lost = pure f
cascade_after envs request_id hold f bare =
    pure (record f { holds_reclaimed = suc f.holds_reclaimed })
cascade_after envs request_id hold f (with_offer freed) = do
  offer ← create_offer_for_freed_range envs hold.resource freed request_id
  pure (record {
    holds_reclaimed = suc f.holds_reclaimed;
    cascades_triggered = f.cascades_triggered + flag (is_some offer);
    entries_returned_to_waiting = suc f.entries_returned_to_waiting;
  })

unfoldable pub reap_holds : (ℕ → Envs) → ℕ → String → Findings → List Booking → M Findings
unfolding cascade_after
reap_holds envs now request_id f [] = pure f
reap_holds envs now request_id f (hold ∷ rest) = do
  outcome ← reclaim (envs 0 0) now request_id hold
  f' ← cascade_after (λ n. envs 0 (suc n)) request_id hold f outcome
  reap_holds (λ n. envs (suc n)) now request_id f' rest

unfoldable pub reap_expired_holds : (ℕ → Envs) → ℕ → String → M Findings
reap_expired_holds envs now request_id = do
  expired_holds ← gets (λ t. select (is_expired now) t.bookings)
  findings ←
      reap_holds envs now request_id
        (record { holds_reclaimed = 0; cascades_triggered = 0; entries_returned_to_waiting = 0 })
        expired_holds
  record_check (record {
    check_name = CheckName.hold_reaper;
    status = CheckStatus.passed;
    run_at = now;
    findings =
        findings.holds_reclaimed ∷ findings.cascades_triggered
        ∷ findings.entries_returned_to_waiting ∷ [];
  })
  pure findings

-- OFFER_CASCADE_STUCK_HOLD_GRACE_SECONDS
abbrev pub stuck_hold_grace_seconds : ℕ
stuck_hold_grace_seconds = 300

-- The identifiers of the holds past their expiry by more than the grace.
unfoldable pub stuck_held_bookings : ℕ → ℕ → Tables → List ℕ
stuck_held_bookings now grace_seconds t =
    let cutoff = now - grace_seconds * second in
    map (λ b. b.id)
      (select (λ b. is_held b.status && elim b.expires_at [ none ↦ false | some x ↦ ltb x cutoff ])
        t.bookings)
