-- ===== src/Resources/Grants.antt =====
-- Grants and revocations of backend/kairos/resources/services.py.
use kairos_booking_engine.Base.{
  ℕ, ◌≡◌, refl, true, false, not, ◌||◌, none, List, [], ◌∷◌, arith, ◌==◌, ==_refl, if◌then◌else◌,
  any, select, length,
}
use kairos_booking_engine.Errors.{Error, ok, err}
use kairos_booking_engine.Schema.{ResourceAdmin}
use kairos_booking_engine.Store.{State, Env, atomic}
use kairos_booking_engine.Resources.{
  GrantResourceAdminRequest, RevokeResourceAdminRequest, new_grant, is_grant, insert_grant,
  delete_grants, grant_resource_admin, revoke_resource_admin,
}

-- The request that takes a grant back.
abbrev pub revocation_of : GrantResourceAdminRequest → RevokeResourceAdminRequest
revocation_of req = record {
  resource = req.resource;
  user_id = req.grantee;
  actor = req.actor;
  request_id = req.request_id;
}

-- Nobody but the pair's rows goes.
kept_apart :
    (resource user : ℕ) (rows : List ResourceAdmin)
    → any (is_grant resource user) rows ≡ false
    → select (λ g. not (is_grant resource user g)) rows ≡ rows
kept_apart resource user [] h = refl
kept_apart resource user (g ∷ rows) h = ground (arith, kept_apart resource user rows)

none_selected :
    (resource user : ℕ) (rows : List ResourceAdmin)
    → any (is_grant resource user) rows ≡ false
    → length (select (is_grant resource user) rows) ≡ 0
none_selected resource user [] h = refl
none_selected resource user (g ∷ rows) h = ground (arith, none_selected resource user rows)

fresh_or_pair :
    (id resource user : ℕ) (rows : List ResourceAdmin)
    → any (λ x. x.id == id) rows ≡ false
    → any (λ x. x.id == id || is_grant resource user x) rows ≡ any (is_grant resource user) rows
fresh_or_pair id resource user [] h = refl
fresh_or_pair id resource user (g ∷ rows) h = ground (arith, fresh_or_pair id resource user rows)

-- Inside a transaction, with no server failure and a new identifier, granting the administration of
-- a resource answers `already_resource_admin` exactly where the user has it, and the new grant
-- otherwise; in both cases the user has it afterwards.
pub grant_resource_admin_answer :
    (e : Env) (req : GrantResourceAdminRequest) (s : State)
    → s.in_atomic ≡ true
    → e.fault ≡ none
    → any (λ g. g.id == e.uuid) s.admin_grants ≡ false
    → ((grant_resource_admin e req s).0 ≡ (
        if any (is_grant req.resource req.grantee) s.admin_grants
        then err Error.already_resource_admin
        else ok (new_grant e req)))
      × (any (is_grant req.resource req.grantee) (grant_resource_admin e req s).1.admin_grants
          ≡ true)
unfolding grant_resource_admin insert_grant atomic
grant_resource_admin_answer e req s nested quiet fresh =
    let same = fresh_or_pair e.uuid req.resource req.grantee s.admin_grants fresh in
    (ground arith, ground (arith, ==_refl req.resource, ==_refl req.grantee))

-- Inside a transaction, a grant that was made and is then revoked, with no server failure in
-- either, is gone again: the revocation answers without an exception and the grants are those
-- of before, and where the user never had it a revocation raises `not_found` and changes no
-- grant.
pub revoke-grant :
    (e f : Env) (req : GrantResourceAdminRequest) (s : State)
    → s.in_atomic ≡ true
    → e.fault ≡ none
    → f.fault ≡ none
    → any (λ g. g.id == e.uuid) s.admin_grants ≡ false
    → any (is_grant req.resource req.grantee) s.admin_grants ≡ false
    → let t = (grant_resource_admin e req s).1 in
      let back = revocation_of req in
      ((revoke_resource_admin f back t).0 ≡ ok tt)
      × ((revoke_resource_admin f back t).1.admin_grants ≡ s.admin_grants)
      × ((revoke_resource_admin f back s).0 ≡ err Error.not_found)
      × ((revoke_resource_admin f back s).1.admin_grants ≡ s.admin_grants)
unfolding grant_resource_admin revoke_resource_admin insert_grant delete_grants atomic
revoke-grant e f req s nested quiet calm fresh nobody =
    let alone = fresh_or_pair e.uuid req.resource req.grantee s.admin_grants fresh in
    let kept = kept_apart req.resource req.grantee s.admin_grants nobody in
    let nothing = none_selected req.resource req.grantee s.admin_grants nobody in
    let own_resource = ==_refl req.resource in
    let own_user = ==_refl req.grantee in (ground arith, ground arith, ground arith, ground arith)
