-- ===== src/Offboarding/Invariant.antt =====
-- The constraints of the schema hold after `deactivate_user` of
-- backend/kairos/identity/services.py.
use kairos_booking_engine.Base.{
  ℕ, suc, String, Option, none, some, List, [], ◌∷◌, arith, count_where,
}
use kairos_booking_engine.Schema.{
  Booking, WaitlistEntry, WaitlistOffer, RecurringSeries, AppUser, ResourceOffboardingPolicy,
}
use kairos_booking_engine.Store.{Tables, Env}
use kairos_booking_engine.Store.Keeps.{Keeps, Keeps-pure, Keeps-bind, Keeps-gets, Keeps-on_commit}
use kairos_booking_engine.Store.Consistent.{IsConsistent, consistent_rules}
use kairos_booking_engine.Bookings.{is_future_occurrence}
use kairos_booking_engine.Bookings.Invariant.{
  Consistent-cancel_booking, Consistent-transfer_booking_ownership,
}
use kairos_booking_engine.Waitlist.Invariant.{
  Consistent-cancel_waitlist_entry, Consistent-decline_offer,
}
use kairos_booking_engine.Waitlist.Cascade.{Envs}
use kairos_booking_engine.Authorization.{Directory}
use kairos_booking_engine.Offboarding.Rows.{
  DeactivateUserRequest, DeactivateUserResult, deactivate_row, get_user, flip_status,
  resource_admin_for, with_flagged,
}
use kairos_booking_engine.Offboarding.Cascade.{
  transfer_or_retain, apply_policy, offboard_bookings, release_offers, cancel_entries,
  notify_admin_of_series, flag_series, close_out, offboard, after_flip, deactivate_user,
}

Consistent-deactivate_row : (id now : ℕ) → Keeps IsConsistent (deactivate_row id now)
unfolding deactivate_row
Consistent-deactivate_row id now = record { at = λ s h. ground arith }

Consistent-get_user : (id : ℕ) → Keeps IsConsistent (get_user id)
unfolding get_user
Consistent-get_user id = record { at = λ s h. ground arith }

ruleset offboarding_rules = (
  consistent_rules, Consistent-deactivate_row, Consistent-get_user, Consistent-cancel_booking,
  Consistent-transfer_booking_ownership, Consistent-cancel_waitlist_entry, Consistent-decline_offer,
)

flip_status-Keeps : (e : Env) (req : DeactivateUserRequest) → Keeps IsConsistent (flip_status e req)
unfolding flip_status
flip_status-Keeps e req = search offboarding_rules depth 12

module _ (d : Directory) (req : DeactivateUserRequest) where
  transfer_or_retain-Keeps :
      (e : Env) (b : Booking) (admin : Option ℕ) (x : DeactivateUserResult)
      → Keeps IsConsistent (transfer_or_retain e req b admin x)
  unfolding transfer_or_retain
  transfer_or_retain-Keeps e b none x = Keeps-pure _
  transfer_or_retain-Keeps e b (some u) x = search offboarding_rules depth 12

  apply_policy-Keeps :
      (e : Env) (b : Booking) (p : ResourceOffboardingPolicy) (x : DeactivateUserResult)
      → Keeps IsConsistent (apply_policy d e req b p x)
  unfolding apply_policy
  apply_policy-Keeps e b ResourceOffboardingPolicy.transfer x = transfer_or_retain-Keeps e b _ x
  apply_policy-Keeps e b ResourceOffboardingPolicy.cancel_and_notify x =
      search offboarding_rules depth 12
  apply_policy-Keeps e b ResourceOffboardingPolicy.retain x = Keeps-pure _

  offboard_bookings-Keeps :
      (envs : Envs) (bs : List Booking) (x : DeactivateUserResult)
      → Keeps IsConsistent (offboard_bookings d envs req bs x)
  unfolding offboard_bookings
  offboard_bookings-Keeps envs [] x = Keeps-pure x
  offboard_bookings-Keeps envs (b ∷ bs) x =
      Keeps-bind _ _ (apply_policy-Keeps (envs 0) b _ x)
        (λ y. offboard_bookings-Keeps (λ n. envs (suc n)) bs y)

  release_offers-Keeps :
      (envs : Envs) (os : List WaitlistOffer) (x : DeactivateUserResult)
      → Keeps IsConsistent (release_offers envs req os x)
  unfolding release_offers
  release_offers-Keeps envs [] x = Keeps-pure x
  release_offers-Keeps envs (o ∷ os) x =
      Keeps-bind _ _ (Consistent-decline_offer _ _)
        (λ _. release_offers-Keeps (λ n. envs (suc n)) os _)

  cancel_entries-Keeps :
      (envs : Envs) (ws : List WaitlistEntry) (x : DeactivateUserResult)
      → Keeps IsConsistent (cancel_entries envs req ws x)
  unfolding cancel_entries
  cancel_entries-Keeps envs [] x = Keeps-pure x
  cancel_entries-Keeps envs (w ∷ ws) x =
      Keeps-bind _ _ (Consistent-cancel_waitlist_entry _ _)
        (λ _. cancel_entries-Keeps (λ n. envs (suc n)) ws _)

  notify_admin-Keeps :
      {P : Tables → Type 0} (admin : Option ℕ) (r : RecurringSeries) (n : ℕ) (request_id : String)
      → Keeps P (notify_admin_of_series admin r n request_id)
  unfolding notify_admin_of_series
  notify_admin-Keeps none r n request_id = Keeps-pure tt
  notify_admin-Keeps (some u) r n request_id = Keeps-on_commit _

  -- Flagging writes no table.
  pub flag_series-Keeps :
      {P : Tables → Type 0} (now : ℕ) (rs : List RecurringSeries) (x : DeactivateUserResult)
      → Keeps P (flag_series d req now rs x)
  unfolding flag_series
  flag_series-Keeps now [] x = Keeps-pure x
  flag_series-Keeps now (r ∷ rs) x =
      Keeps-bind _ _ (Keeps-gets (λ t. count_where (is_future_occurrence r.id now) t.bookings))
        (λ n.
          Keeps-bind _ _ (notify_admin-Keeps (resource_admin_for d r.resource) r n req.request_id)
            (λ _. flag_series-Keeps now rs (
              with_flagged
                (record { series_id = r.id; resource_id = r.resource; occurrences_remaining = n })
                x)))

  close_out-Keeps :
      (envs : Envs) (now : ℕ) (x : DeactivateUserResult)
      → Keeps IsConsistent (close_out d envs req now x)
  unfolding close_out
  close_out-Keeps envs now x =
      search (offboarding_rules, cancel_entries-Keeps, flag_series-Keeps) depth 12

  offboard-Keeps :
      (envs : ℕ → Envs) (now : ℕ) (x : DeactivateUserResult)
      → Keeps IsConsistent (offboard d envs req now x)
  unfolding offboard
  offboard-Keeps envs now x =
      search (offboarding_rules, offboard_bookings-Keeps, release_offers-Keeps, close_out-Keeps)
        depth 16

  after_flip-Keeps :
      (envs : ℕ → Envs) (flip : ℕ × AppUser) → Keeps IsConsistent (after_flip d envs req flip)
  unfolding after_flip
  after_flip-Keeps envs (n, u) = search (offboarding_rules, offboard-Keeps) depth 12

  pub Consistent-deactivate_user :
      (envs : ℕ → Envs) → Keeps IsConsistent (deactivate_user d envs req)
  unfolding deactivate_user
  Consistent-deactivate_user envs =
      search (offboarding_rules, flip_status-Keeps, after_flip-Keeps) depth 12
