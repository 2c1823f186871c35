-- ===== src/Endpoints/Invariant.antt =====
-- The views of backend/kairos/bookings/views.py and waitlist/views.py leave the constraints of the schema true.
use kairos_booking_engine.Base.{ℕ, String, Option, none, some, List, find?, ◌==◌}
use kairos_booking_engine.Schema.{Booking, Json}
use kairos_booking_engine.Store.{Env}
use kairos_booking_engine.Store.Keeps.{Keeps}
use kairos_booking_engine.Store.Consistent.{IsConsistent}
use kairos_booking_engine.Bookings.{RecurringSeriesCancelResult}
use kairos_booking_engine.Bookings.Invariant.{
  Consistent-create_booking, Consistent-edit_booking, Consistent-cancel_booking,
  Consistent-cancel_recurring_series,
}
use kairos_booking_engine.Waitlist.Cascade.{Envs}
use kairos_booking_engine.Authorization.{UserGroupMembership}
use kairos_booking_engine.Idempotency.Invariant.{
  Consistent-run_idempotent_write, Consistent-run_idempotent_recurring_confirm,
}
use kairos_booking_engine.Recurrence.{Tzdata}
use kairos_booking_engine.Series.Invariant.{series_rules, Consistent-confirm_recurring_series}
use kairos_booking_engine.Series.Token.{Jwt}
use kairos_booking_engine.Series.Confirm.{ConfirmOutcome}
use kairos_booking_engine.Schema.{WaitlistEntry, WaitlistOffer, AppUser}
use kairos_booking_engine.Store.{Tables}
use kairos_booking_engine.Waitlist.Invariant.{
  Consistent-join_waitlist, Consistent-cancel_waitlist_entry, Consistent-accept_offer,
  Consistent-decline_offer,
}
use kairos_booking_engine.Endpoints.Waitlist.{
  join_waitlist_view, cancel_waitlist_entry_view, get_offer_for_owner, confirm_offer_view,
  decline_offer_view,
}
use kairos_booking_engine.Endpoints.{
  Request, or_not_found, find_booking, post_booking_view, patch_booking_view, cancel_booking_view,
  cancel_series_view, confirm_series_view,
}

Consistent-or_not_found : {A : Type 0} (o : Option A) → Keeps IsConsistent (or_not_found o)
Consistent-or_not_found none = record { at = λ s h. h }
Consistent-or_not_found (some a) = record { at = λ s h. h }

Consistent-find_booking : (pk : ℕ) → Keeps IsConsistent (find_booking pk)
Consistent-find_booking pk = record {
  at = λ s h. (Consistent-or_not_found (find? (λ b. b.id == pk) s.bookings)).at s h;
}

ruleset view_rules = (
  series_rules, Consistent-or_not_found, Consistent-find_booking, Consistent-run_idempotent_write,
  Consistent-run_idempotent_recurring_confirm, Consistent-create_booking, Consistent-edit_booking,
  Consistent-cancel_booking, Consistent-cancel_recurring_series,
  Consistent-confirm_recurring_series, Consistent-join_waitlist, Consistent-cancel_waitlist_entry,
  Consistent-accept_offer, Consistent-decline_offer,
)

pub Consistent-post_booking_view :
    (tz : Tzdata) (ms : List UserGroupMembership) (now : ℕ) (claim_env e : Env) (r : Request)
    (resource start end : ℕ) (render : Booking → Json)
    → Keeps IsConsistent (post_booking_view tz ms now claim_env e r resource start end render)
unfolding post_booking_view
Consistent-post_booking_view tz ms now claim_env e r resource start end render =
    search view_rules depth 14

pub Consistent-patch_booking_view :
    (tz : Tzdata) (now : ℕ) (claim_env e : Env) (r : Request) (pk start end : ℕ)
    (render : Booking → Json)
    → Keeps IsConsistent (patch_booking_view tz now claim_env e r pk start end render)
unfolding patch_booking_view
Consistent-patch_booking_view tz now claim_env e r pk start end render = search view_rules depth 14

pub Consistent-cancel_booking_view :
    (ms : List UserGroupMembership) (claim_env e : Env) (r : Request) (pk : ℕ)
    (reason : Option String) (render : Booking → Json)
    → Keeps IsConsistent (cancel_booking_view ms claim_env e r pk reason render)
unfolding cancel_booking_view
Consistent-cancel_booking_view ms claim_env e r pk reason render = search view_rules depth 14

pub Consistent-cancel_series_view :
    (ms : List UserGroupMembership) (claim_env e : Env) (r : Request) (pk : ℕ)
    (reason : Option String) (render : RecurringSeriesCancelResult → Json)
    → Keeps IsConsistent (cancel_series_view ms claim_env e r pk reason render)
unfolding cancel_series_view
Consistent-cancel_series_view ms claim_env e r pk reason render = search view_rules depth 14

pub Consistent-confirm_series_view :
    {Token : Type 0} (j : Jwt Token) (tz : Tzdata) (now : ℕ) (claim_env after : Env) (envs : Envs)
    (r : Request) (token : Token) (conflicts adjustments : List ℕ) (render : ConfirmOutcome → Json)
    → Keeps IsConsistent
        (confirm_series_view j tz now claim_env after envs r token conflicts adjustments render)
unfolding confirm_series_view
Consistent-confirm_series_view j tz now claim_env after envs r token conflicts adjustments render =
    search view_rules depth 14

pub Consistent-join_waitlist_view :
    (ms : List UserGroupMembership) (claim_env e : Env) (r : Request) (resource start end : ℕ)
    (render : WaitlistEntry → Tables → Json)
    → Keeps IsConsistent (join_waitlist_view ms claim_env e r resource start end render)
unfolding join_waitlist_view
Consistent-join_waitlist_view ms claim_env e r resource start end render =
    search view_rules depth 14

pub Consistent-cancel_waitlist_entry_view :
    (claim_env e : Env) (r : Request) (pk : ℕ) (render : WaitlistEntry → Tables → Json)
    → Keeps IsConsistent (cancel_waitlist_entry_view claim_env e r pk render)
unfolding cancel_waitlist_entry_view
Consistent-cancel_waitlist_entry_view claim_env e r pk render = search view_rules depth 14

Consistent-get_offer_for_owner :
    (pk : ℕ) (user : AppUser) → Keeps IsConsistent (get_offer_for_owner pk user)
unfolding get_offer_for_owner
Consistent-get_offer_for_owner pk user = search view_rules depth 14

pub Consistent-confirm_offer_view :
    (claim_env e : Env) (r : Request) (pk : ℕ) (render : Booking → WaitlistOffer → Json)
    → Keeps IsConsistent (confirm_offer_view claim_env e r pk render)
unfolding confirm_offer_view
Consistent-confirm_offer_view claim_env e r pk render =
    search (view_rules, Consistent-get_offer_for_owner) depth 14

pub Consistent-decline_offer_view :
    (claim_env e : Env) (r : Request) (pk : ℕ) (render : WaitlistOffer → Json)
    → Keeps IsConsistent (decline_offer_view claim_env e r pk render)
unfolding decline_offer_view
Consistent-decline_offer_view claim_env e r pk render =
    search (view_rules, Consistent-get_offer_for_owner) depth 14
