-- ===== src/Endpoints/Revoked.antt =====
-- What an administrator can do after `revoke_resource_admin` of backend/kairos/resources/services.py,
-- through the views of backend/kairos/bookings/views.py.
use kairos_booking_engine.Base.{
  ℕ, String, ◌≡◌, refl, false, not, Option, some, List, [], ◌∷◌, arith, any, select, find?, ◌==◌,
}
use kairos_booking_engine.Errors.{Error, ok, err}
use kairos_booking_engine.Schema.{Booking, Json, ResourceAdmin}
use kairos_booking_engine.Store.{State, Env, atomic}
use kairos_booking_engine.Authorization.{
  UserGroupMembership, is_system_admin, can_administer_resource, can_cancel_booking,
}
use kairos_booking_engine.Resources.{
  RevokeResourceAdminRequest, is_grant, delete_grants, revoke_resource_admin,
}
use kairos_booking_engine.Endpoints.{Request, uuid, cancel_booking_view}

nobody_left :
    (resource user : ℕ) (rows : List ResourceAdmin)
    → any (is_grant resource user) (select (λ g. not (is_grant resource user g)) rows) ≡ false
nobody_left resource user [] = refl
nobody_left resource user (g ∷ rows) = ground (arith, nobody_left resource user rows)

revoked :
    (f : Env) (req : RevokeResourceAdminRequest) (s : State)
    → (revoke_resource_admin f req s).0 ≡ ok tt
    → any (is_grant req.resource req.user_id) (revoke_resource_admin f req s).1.admin_grants ≡ false
unfolding revoke_resource_admin delete_grants atomic
revoked f req s done = ground (arith, nobody_left req.resource req.user_id s.admin_grants)

-- After a revocation that succeeded, a request of that user, who is no system administrator, to
-- cancel another user's booking of that resource raises `not_found` and changes nothing,
-- neither the key nor a booking.
pub cancel_booking_view-revoke_resource_admin :
    (f : Env) (req : RevokeResourceAdminRequest) (ms : List UserGroupMembership) (claim_env e : Env)
    (r : Request) (key : ℕ) (b : Booking) (reason : Option String) (render : Booking → Json)
    (s : State)
    → (revoke_resource_admin f req s).0 ≡ ok tt
    → r.header ≡ uuid key
    → r.user.id ≡ req.user_id
    → is_system_admin r.user ≡ false
    → let t = (revoke_resource_admin f req s).1 in
      find? (λ x. x.id == b.id) t.bookings ≡ some b
      → b.resource ≡ req.resource
      → (b.user == r.user.id) ≡ false
      → cancel_booking_view ms claim_env e r b.id reason render t ≡ (err Error.not_found, t)
unfolding cancel_booking_view can_cancel_booking can_administer_resource
cancel_booking_view-revoke_resource_admin f req ms claim_env e r key b reason render s done named
      who plain found there other =
    let gone = revoked f req s done in ground (arith, found)
