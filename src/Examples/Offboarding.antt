-- ===== src/Examples/Offboarding.antt =====
-- The theorems about backend/kairos/identity/services.py and resources/services.py at one user and
-- one grant.
use kairos_booking_engine.Base.{true, false, ◌≡◌, refl, none, [], ◌∷◌, any}
use kairos_booking_engine.Errors.{Error, ok, err}
use kairos_booking_engine.Schema.{AppUser, AppUserPlatformRole, AppUserStatus, WaitlistEntryStatus}
use kairos_booking_engine.Store.{State, atomic}
use kairos_booking_engine.Store.Waitlist.{update_entries, get_entry}
use kairos_booking_engine.Waitlist.Entries.{cancel_waitlist_entry}
use kairos_booking_engine.Authorization.{Directory}
use kairos_booking_engine.Offboarding.Rows.{DeactivateUserRequest, DeactivateUserResult, zeroed}
use kairos_booking_engine.Offboarding.Cascade.{is_waiting_entry_of, deactivate_user}
use kairos_booking_engine.Offboarding.Queue.{deactivate_user-queue}
use kairos_booking_engine.Resources.{
  GrantResourceAdminRequest, grant_resource_admin, revoke_resource_admin,
}
use kairos_booking_engine.Resources.Grants.{revocation_of, revoke-grant}
use kairos_booking_engine.Examples.Data.{calm, entry_row, tables, state, booked}

abbrev directory : Directory
directory = record { admin_grants = []; memberships = []; resources = [] }

abbrev user : AppUserStatus → AppUser
user status = record {
  id = 4;
  platform_role = AppUserPlatformRole.booker;
  status = status;
  deactivated_at = none;
}

abbrev request : DeactivateUserRequest
request = record { target = 4; actor = 1; reason = "left"; request_id = "r" }

-- The user waits for a slot of room 7.
abbrev queued : State
queued = state false (record (tables [] (entry_row 21 4 2 WaitlistEntryStatus.waiting ∷ []) []) {
  users = user AppUserStatus.active ∷ [];
})

abbrev answer : DeactivateUserResult
answer = record (zeroed (user AppUserStatus.deactivated)) { waitlist_entries_cancelled = 1 }

deactivate_user-queue_example :
    any
      (is_waiting_entry_of 4)
      (deactivate_user directory (λ m n. calm 10 n) request queued).1.entries
    ≡ false
unfolding deactivate_user atomic cancel_waitlist_entry update_entries get_entry
deactivate_user-queue_example =
    deactivate_user-queue request directory (λ m n. calm 10 n) queued answer refl refl

abbrev grant : GrantResourceAdminRequest
grant = record { resource = 7; grantee = 4; actor = 1; request_id = "r" }

revoke-grant_example :
    let t = (grant_resource_admin (calm 10 100) grant (state true booked)).1 in
    let back = revocation_of grant in
    ((revoke_resource_admin (calm 11 0) back t).0 ≡ ok tt)
    × ((revoke_resource_admin (calm 11 0) back t).1.admin_grants ≡ [])
    × ((revoke_resource_admin (calm 11 0) back (state true booked)).0 ≡ err Error.not_found)
    × ((revoke_resource_admin (calm 11 0) back (state true booked)).1.admin_grants ≡ [])
revoke-grant_example =
    revoke-grant (calm 10 100) (calm 11 0) grant (state true booked) refl refl refl refl refl
