-- ===== src/Offboarding/Cascade.antt =====
-- The cascade of `deactivate_user` of backend/kairos/identity/services.py over the bookings, offers,
-- entries and series of the user, and the whole of it.
use kairos_booking_engine.Base.{
  ℕ, suc, String, Bool, ◌&&◌, Option, none, some, List, [], ◌∷◌, ltb, ◌==◌, if◌then◌else◌, any,
  select, count_where,
}
use kairos_booking_engine.Schema.{
  Booking, WaitlistEntry, WaitlistOffer, RecurringSeries, AppUser, AuditActorType, is_waiting,
  is_active_offer, is_active_series, ResourceOffboardingPolicy,
}
use kairos_booking_engine.Store.{Env, M, Message, ◌>>=◌, ◌>>◌, pure, gets, on_commit}
use kairos_booking_engine.Bookings.{
  BookingCancelRequest, cancel_booking, transfer_booking_ownership, is_future_occurrence,
}
use kairos_booking_engine.Waitlist.Entries.{cancel_waitlist_entry}
use kairos_booking_engine.Waitlist.Offers.{decline_offer}
use kairos_booking_engine.Waitlist.Cascade.{Envs}
use kairos_booking_engine.Authorization.{Directory}
use kairos_booking_engine.Offboarding.Rows.{
  resource_admin_for, DeactivateUserRequest, DeactivateUserResult, zeroed, flip_status, is_one_off,
  policy_of, with_transferred, with_cancelled, with_retained, with_released, with_entry_cancelled,
  with_flagged,
}

unfoldable pub transfer_or_retain :
    Env → DeactivateUserRequest → Booking → Option ℕ → DeactivateUserResult → M DeactivateUserResult
transfer_or_retain e req b none x = pure (with_retained x)
transfer_or_retain e req b (some new_owner) x = do
  _ ←
      transfer_booking_ownership e
        (record { booking = b; new_owner = new_owner; request_id = req.request_id })
  pure (with_transferred x)

abbrev pub offboarding_cancel : DeactivateUserRequest → Booking → BookingCancelRequest
offboarding_cancel req b = record {
  booking = b;
  actor = req.actor;
  actor_type = AuditActorType.system;
  reason = some req.reason;
  request_id = req.request_id;
}

-- The policy of the booking's resource.
unfoldable pub apply_policy :
    Directory
    → Env
    → DeactivateUserRequest
    → Booking
    → ResourceOffboardingPolicy
    → DeactivateUserResult
    → M DeactivateUserResult
unfolding transfer_or_retain
apply_policy d e req b ResourceOffboardingPolicy.transfer x =
    transfer_or_retain e req b (resource_admin_for d b.resource) x
apply_policy d e req b ResourceOffboardingPolicy.cancel_and_notify x = do
  _ ← cancel_booking e (offboarding_cancel req b)
  on_commit (
      Message.notify_admin_cancellation req.target b.resource b.time_range.lower b.time_range.upper
        req.reason req.request_id)
  pure (with_cancelled x)
apply_policy d e req b ResourceOffboardingPolicy.retain x = pure (with_retained x)

unfoldable pub offboard_bookings :
    Directory
    → Envs
    → DeactivateUserRequest
    → List Booking
    → DeactivateUserResult
    → M DeactivateUserResult
unfolding apply_policy
offboard_bookings d envs req [] x = pure x
offboard_bookings d envs req (b ∷ bs) x = do
  y ← apply_policy d (envs 0) req b (policy_of d b.resource) x
  offboard_bookings d (λ n. envs (suc n)) req bs y

-- waitlist_entry__user=target, status=ACTIVE
abbrev pub is_offer_of : ℕ → List WaitlistEntry → WaitlistOffer → Bool
is_offer_of target entries o =
    is_active_offer o.status && any (λ w. w.id == o.waitlist_entry && w.user == target) entries

unfoldable pub release_offers :
    Envs
    → DeactivateUserRequest
    → List WaitlistOffer
    → DeactivateUserResult
    → M DeactivateUserResult
release_offers envs req [] x = pure x
release_offers envs req (o ∷ os) x = do
  _ ← decline_offer (envs 0) (record {
    offer = o;
    user = req.target;
    request_id = req.request_id;
    actor_type = AuditActorType.system;
  })
  release_offers (λ n. envs (suc n)) req os (with_released x)

abbrev pub is_waiting_entry_of : ℕ → WaitlistEntry → Bool
is_waiting_entry_of target w = w.user == target && is_waiting w.status

unfoldable pub cancel_entries :
    Envs
    → DeactivateUserRequest
    → List WaitlistEntry
    → DeactivateUserResult
    → M DeactivateUserResult
cancel_entries envs req [] x = pure x
cancel_entries envs req (w ∷ ws) x = do
  _ ← cancel_waitlist_entry (envs 0) (record {
    entry = w;
    actor = req.target;
    request_id = req.request_id;
    actor_type = AuditActorType.system;
  })
  cancel_entries (λ n. envs (suc n)) req ws (with_entry_cancelled x)

unfoldable pub notify_admin_of_series : Option ℕ → RecurringSeries → ℕ → String → M (Unit {0})
notify_admin_of_series none r remaining request_id = pure tt
notify_admin_of_series (some admin) r remaining request_id =
    on_commit (Message.notify_series_owner_deactivated admin r.resource r.id remaining request_id)

unfoldable pub flag_series :
    Directory
    → DeactivateUserRequest
    → ℕ
    → List RecurringSeries
    → DeactivateUserResult
    → M DeactivateUserResult
unfolding notify_admin_of_series
flag_series d req now [] x = pure x
flag_series d req now (r ∷ rs) x = do
  remaining ← gets (λ t. count_where (is_future_occurrence r.id now) t.bookings)
  notify_admin_of_series (resource_admin_for d r.resource) r remaining req.request_id
  flag_series d req now rs (
      with_flagged
        (record { series_id = r.id; resource_id = r.resource; occurrences_remaining = remaining })
        x)

abbrev pub is_active_series_of : ℕ → RecurringSeries → Bool
is_active_series_of target r = r.created_by == target && is_active_series r.status

-- The last two loops: the waiting entries, and the series.
unfoldable pub close_out :
    Directory → Envs → DeactivateUserRequest → ℕ → DeactivateUserResult → M DeactivateUserResult
unfolding cancel_entries flag_series
close_out d envs req now z = do
  waiting ← gets (λ t. select (is_waiting_entry_of req.target) t.entries)
  v ← cancel_entries envs req waiting z
  series ← gets (λ t. select (is_active_series_of req.target) t.series)
  flag_series d req now series v

-- What follows a flip that took effect. Each query runs when its loop begins.
unfoldable pub offboard :
    Directory
    → (ℕ → Envs)
    → DeactivateUserRequest
    → ℕ
    → DeactivateUserResult
    → M DeactivateUserResult
unfolding offboard_bookings release_offers close_out
offboard d envs req now x = do
  bookings ← gets (λ t. select (is_one_off req.target now) t.bookings)
  y ← offboard_bookings d (envs 1) req bookings x
  offers ← gets (λ t. select (is_offer_of req.target t.entries) t.offers)
  z ← release_offers (envs 2) req offers y
  close_out d (envs 3) req now z

-- `if not updated:` a replay, with nothing to do
unfoldable pub after_flip :
    Directory → (ℕ → Envs) → DeactivateUserRequest → ℕ × AppUser → M DeactivateUserResult
unfolding offboard
after_flip d envs req (updated, target) =
    if ltb 0 updated
    then offboard d envs req (envs 0 0).now (zeroed target)
    else pure (zeroed target)

unfoldable pub deactivate_user :
    Directory → (ℕ → Envs) → DeactivateUserRequest → M DeactivateUserResult
unfolding flip_status after_flip
deactivate_user d envs req = flip_status (envs 0 0) req >>= after_flip d envs req
