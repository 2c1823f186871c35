-- ===== src/Authorization.antt =====
-- `AuthorizationService` of backend/kairos/identity/authorization.py, with the rows it reads from
-- backend/kairos/identity/models.py and backend/kairos/resources/models.py.
pub mod Visibility
use kairos_booking_engine.Base.{
  ℕ, Bool, true, false, ◌&&◌, ◌||◌, Option, none, some, List, ◌==◌, if◌then◌else◌, any, select, map,
  is_none,
}
use kairos_booking_engine.Schema.{
  Booking, RecurringSeries, AppUser, AppUserPlatformRole, Resource, ResourceAdmin,
}

pub record UserGroupMembership : Type 0 where
  pub group : ℕ
  pub user : ℕ

-- The tables `resource_admin`, `user_group_membership` and `resource`.
pub record Directory : Type 0 where
  pub admin_grants : List ResourceAdmin
  pub memberships : List UserGroupMembership
  pub resources : List Resource

abbrev pub is_system_admin : AppUser → Bool
is_system_admin user = elim user.platform_role [
  | AppUserPlatformRole.system_admin ↦ true
  | _ ↦ false
]

abbrev pub is_operations : AppUser → Bool
is_operations user = elim user.platform_role [ AppUserPlatformRole.operations ↦ true | _ ↦ false ]

abbrev pub is_resource_admin : Directory → AppUser → ℕ → Bool
is_resource_admin d user resource =
    any (λ g. g.resource == resource && g.user == user.id) d.admin_grants

unfoldable pub can_administer_resource : Directory → AppUser → ℕ → Bool
can_administer_resource d user resource = is_system_admin user || is_resource_admin d user resource

unfoldable pub can_view_booking : Directory → AppUser → Booking → Bool
unfolding can_administer_resource
can_view_booking d user booking =
    booking.user == user.id
    || (can_administer_resource d user booking.resource || is_operations user)

abbrev pub can_edit_booking : AppUser → Booking → Bool
can_edit_booking user booking = booking.user == user.id

-- (allowed, is_override)
unfoldable pub can_cancel_booking : Directory → AppUser → Booking → Bool × Bool
unfolding can_administer_resource
can_cancel_booking d user booking =
    if booking.user == user.id
    then (true, false)
    else if can_administer_resource d user booking.resource
    then (true, true)
    else (false, false)

unfoldable pub can_cancel_series : Directory → AppUser → RecurringSeries → Bool × Bool
unfolding can_administer_resource
can_cancel_series d user series =
    if series.created_by == user.id
    then (true, false)
    else if can_administer_resource d user series.resource
    then (true, true)
    else (false, false)

abbrev pub is_group_member : Directory → AppUser → ℕ → Bool
is_group_member d user group = any (λ m. m.group == group && m.user == user.id) d.memberships

unfoldable pub can_view_resource : Directory → AppUser → Resource → Bool
unfolding can_administer_resource
can_view_resource d user resource = elim resource.restricted_group [
  | none ↦ true
  | some group ↦
      can_administer_resource d user resource.id
      || (is_operations user || is_group_member d user group)
]

-- column IN (SELECT ...)
abbrev pub is_in : ℕ → List ℕ → Bool
is_in n list = any (λ m. m == n) list

-- What the filter of `visible_resources_queryset` says of one row.
abbrev pub is_listed : Directory → AppUser → Resource → Bool
is_listed d user r =
    let member_group_ids = map (λ m. m.group) (select (λ m. m.user == user.id) d.memberships) in
    let administered_resource_ids =
      map (λ g. g.resource) (select (λ g. g.user == user.id) d.admin_grants) in
    is_none r.restricted_group
    || (elim r.restricted_group [ none ↦ false | some group ↦ is_in group member_group_ids ]
        || is_in r.id administered_resource_ids)

unfoldable pub visible_resources_queryset : Directory → AppUser → List Resource
visible_resources_queryset d user =
    if is_system_admin user || is_operations user
    then d.resources
    else select (is_listed d user) d.resources
