-- ===== src/Waitlist/Reaper/Invariant.antt =====
-- The reaper of backend/kairos/waitlist/services.py leaves the constraints of the schema true.
use kairos_booking_engine.Base.{
  ℕ, suc, String, Bool, true, false, Option, none, some, List, [], ◌∷◌,
}
use kairos_booking_engine.Schema.{Booking, WaitlistOffer}
use kairos_booking_engine.Store.{Env}
use kairos_booking_engine.Store.Keeps.{Keeps, Keeps-bind}
use kairos_booking_engine.Store.Consistent.{IsConsistent, consistent_rules}
use kairos_booking_engine.Waitlist.Cascade.{Envs}
use kairos_booking_engine.Waitlist.Cascade.Invariant.{Consistent-create_offer_for_freed_range}
use kairos_booking_engine.Waitlist.Reaper.{
  Findings, Reclaimed, lost, bare, with_offer, expire_offer, release_offer, reclaim, cascade_after,
  reap_holds, reap_expired_holds,
}

Consistent-expire_offer : (o : Option WaitlistOffer) → Keeps IsConsistent (expire_offer o)
unfolding expire_offer
Consistent-expire_offer none = search consistent_rules
Consistent-expire_offer (some o) = search consistent_rules depth 8

Consistent-release_offer : (hold : ℕ) (b : Bool) → Keeps IsConsistent (release_offer hold b)
unfolding release_offer
Consistent-release_offer hold true = search (consistent_rules, Consistent-expire_offer)
Consistent-release_offer hold false = search consistent_rules

pub Consistent-reclaim :
    (e : Env) (now : ℕ) (request_id : String) (hold : Booking)
    → Keeps IsConsistent (reclaim e now request_id hold)
unfolding reclaim
Consistent-reclaim e now request_id hold =
    search (consistent_rules, Consistent-release_offer) depth 12

Consistent-cascade_after :
    (envs : Envs) (request_id : String) (hold : Booking) (f : Findings) (r : Reclaimed)
    → Keeps IsConsistent (cascade_after envs request_id hold f r)
unfolding cascade_after
Consistent-cascade_after envs request_id hold f lost = search consistent_rules
Consistent-cascade_after envs request_id hold f bare = search consistent_rules
Consistent-cascade_after envs request_id hold f (with_offer freed) =
    search (consistent_rules, Consistent-create_offer_for_freed_range)

Consistent-reap_holds :
    (envs : ℕ → Envs) (now : ℕ) (request_id : String) (f : Findings) (holds : List Booking)
    → Keeps IsConsistent (reap_holds envs now request_id f holds)
unfolding reap_holds
Consistent-reap_holds envs now request_id f [] = search consistent_rules
Consistent-reap_holds envs now request_id f (hold ∷ rest) =
    Keeps-bind _ _ (Consistent-reclaim (envs 0 0) now request_id hold) λ outcome.
      Keeps-bind _ _ (Consistent-cascade_after (λ n. envs 0 (suc n)) request_id hold f outcome)
        λ g. Consistent-reap_holds (λ n. envs (suc n)) now request_id g rest

pub Consistent-reap_expired_holds :
    (envs : ℕ → Envs) (now : ℕ) (request_id : String)
    → Keeps IsConsistent (reap_expired_holds envs now request_id)
unfolding reap_expired_holds
Consistent-reap_expired_holds envs now request_id =
    search (consistent_rules, Consistent-reap_holds) depth 8
