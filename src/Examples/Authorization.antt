-- ===== src/Examples/Authorization.antt =====
-- The theorems about backend/kairos/identity/authorization.py at a concrete directory.
use kairos_booking_engine.Base.{ℕ, Option, ◌≡◌, none, some, [], ◌∷◌}
use kairos_booking_engine.Schema.{
  AppUser, AppUserPlatformRole, AppUserStatus, Resource, ResourceOffboardingPolicy, ResourceStatus,
}
use kairos_booking_engine.Authorization.{Directory, can_view_resource, visible_resources_queryset}
use kairos_booking_engine.Authorization.Visibility.{visible_resources_queryset_lem}

abbrev pub resource_row : ℕ → Option ℕ → Resource
resource_row id group = record {
  id = id;
  name = "room";
  category = "room";
  timezone = "UTC";
  bookable_start_time = 0;
  bookable_end_time = 100;
  max_booking_duration_minutes = none;
  offboarding_policy = ResourceOffboardingPolicy.retain;
  restricted_group = group;
  status = ResourceStatus.active;
  created_by = 1;
}

abbrev directory : Directory
directory = record {
  admin_grants = record { id = 1; resource = 7; user = 4; granted_at = 1; granted_by = 1 } ∷ [];
  memberships = record { group = 2; user = 4 } ∷ [];
  resources =
      resource_row 7 (some 1)
      ∷ resource_row 8 (some 2)
      ∷ resource_row 9 (some 3)
      ∷ resource_row 6 (none)
      ∷ [];
}

abbrev member : AppUser
member = record {
  id = 4;
  platform_role = AppUserPlatformRole.booker;
  status = AppUserStatus.active;
  deactivated_at = none;
}

visible_resources_queryset_lem_example :
    visible_resources_queryset directory member
    ≡ resource_row 7 (some 1) ∷ resource_row 8 (some 2) ∷ resource_row 6 (none) ∷ []
unfolding can_view_resource
visible_resources_queryset_lem_example = visible_resources_queryset_lem directory member
