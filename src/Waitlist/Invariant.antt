-- ===== src/Waitlist/Invariant.antt =====
-- Every write of backend/kairos/waitlist/services.py leaves the constraints of the schema true.
use kairos_booking_engine.Base.{Bool, true, false}
use kairos_booking_engine.Errors.{Error}
use kairos_booking_engine.Store.{Tables, Env}
use kairos_booking_engine.Store.Keeps.{Keeps, keeps_rules}
use kairos_booking_engine.Store.Consistent.{IsConsistent, consistent_rules}
use kairos_booking_engine.Waitlist.Entries.{
  WaitlistJoinRequest, WaitlistCancelRequest, join_waitlist, cancel_waitlist_entry,
}
use kairos_booking_engine.Waitlist.Offers.{
  AcceptOfferRequest, DeclineOfferRequest, accept_offer, decline_offer, raise_unless,
}

module _ {P : Tables → Type 0} where
  pub Keeps-raise_unless : (b : Bool) (e : Error) → Keeps P (raise_unless b e)
  Keeps-raise_unless true e = search keeps_rules
  Keeps-raise_unless false e = search keeps_rules

pub ruleset waitlist_rules = (consistent_rules, Keeps-raise_unless)

pub Consistent-join_waitlist :
    (e : Env) (req : WaitlistJoinRequest) → Keeps IsConsistent (join_waitlist e req)
unfolding join_waitlist
Consistent-join_waitlist e req = search waitlist_rules depth 12

pub Consistent-cancel_waitlist_entry :
    (e : Env) (req : WaitlistCancelRequest) → Keeps IsConsistent (cancel_waitlist_entry e req)
unfolding cancel_waitlist_entry
Consistent-cancel_waitlist_entry e req = search waitlist_rules depth 12

pub Consistent-accept_offer :
    (e : Env) (req : AcceptOfferRequest) → Keeps IsConsistent (accept_offer e req)
unfolding accept_offer
Consistent-accept_offer e req = search waitlist_rules depth 14

pub Consistent-decline_offer :
    (e : Env) (req : DeclineOfferRequest) → Keeps IsConsistent (decline_offer e req)
unfolding decline_offer
Consistent-decline_offer e req = search waitlist_rules depth 14
