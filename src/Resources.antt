-- ===== src/Resources.antt =====
-- backend/kairos/resources/services.py: the writes of the tables `resource` and `resource_admin`.
pub mod Grants
use kairos_booking_engine.Base.{
  ℕ, String, Bool, true, false, not, ◌&&◌, ◌||◌, Option, none, some, List, [], ◌∷◌, ◌++◌, map, ltb,
  ◌==◌, if◌then◌else◌, is_some, any, all, select, find?, update_where, length,
}
use kairos_booking_engine.Errors.{Sqlstate, Error, ok, is_unique_violation}
use kairos_booking_engine.Schema.{
  Resource, ResourceAdmin, ResourceOffboardingPolicy, ResourceStatus, AuditActorType, AuditAction,
  AuditedTable,
}
use kairos_booking_engine.Recurrence.{Tzdata, validate_iana_zone}
use kairos_booking_engine.Store.{
  State, Env, M, ◌>>=◌, ◌>>◌, pure, raise, when, serve, catch_database_error, atomic,
  write_audit_log, apply_write_path_session_settings,
}
use kairos_booking_engine.Store.Bookings.{verdict, or_missing}
use kairos_booking_engine.Series.Table.{of_result}

-- A statement on the table `resource`, with the rows of its audit trigger.
abbrev pub write_resources : State → List Resource → AuditAction → List Resource → State
write_resources s rows action touched = record s {
  tables = record s.tables {
    resources = rows;
    audit_log =
        map (λ r. write_audit_log s.session AuditedTable.resource action r.id) touched
        ++ s.audit_log;
  };
}

-- CHECK (bookable_end_time > bookable_start_time)
abbrev pub resource_check : Resource → Bool
resource_check r = ltb r.bookable_start_time r.bookable_end_time

abbrev pub resource_error : Bool → Bool → Option Sqlstate
resource_error holds taken =
    if holds
    then if taken then some Sqlstate.unique_violation else none
    else some Sqlstate.check_violation

-- INSERT, after the check of the zone that `Resource.save` makes
unfoldable pub insert_resource : Tzdata → Resource → M (Unit {0})
insert_resource tz r = of_result (validate_iana_zone tz r.timezone) >> λ s.
    verdict s (resource_error (resource_check r) (any (λ x. x.id == r.id) s.resources)) tt
      (write_resources s (r ∷ s.resources) AuditAction.insert (r ∷ []))

abbrev pub resource_id : ℕ → Resource → Bool
resource_id id r = r.id == id

-- Resource.objects.filter(id=..).update(..)
unfoldable pub update_resources : ℕ → (Resource → Resource) → M (Unit {0})
update_resources id f s =
    let rows = update_where (resource_id id) f s.resources in
    verdict s (resource_error (all resource_check rows) false) tt
      (write_resources s rows AuditAction.update (select (resource_id id) s.resources))

unfoldable pub get_resource : ℕ → M Resource
get_resource id s = or_missing (find? (resource_id id) s.resources) s

pub record ResourceCreateRequest : Type 0 where
  pub actor : ℕ
  pub request_id : String
  pub name : String
  pub category : String
  pub timezone : String
  pub bookable_start_time : ℕ
  pub bookable_end_time : ℕ
  pub max_booking_duration_minutes : Option ℕ
  pub offboarding_policy : ResourceOffboardingPolicy
  pub restricted_group_id : Option ℕ

abbrev pub new_resource : Env → ResourceCreateRequest → Resource
new_resource e req = record {
  id = e.uuid;
  name = req.name;
  category = req.category;
  timezone = req.timezone;
  bookable_start_time = req.bookable_start_time;
  bookable_end_time = req.bookable_end_time;
  max_booking_duration_minutes = req.max_booking_duration_minutes;
  offboarding_policy = req.offboarding_policy;
  restricted_group = req.restricted_group_id;
  status = ResourceStatus.active;
  created_by = req.actor;
}

create_resource_body : Tzdata → Env → ResourceCreateRequest → M Resource
create_resource_body tz e req = do
  apply_write_path_session_settings (some req.actor) AuditActorType.admin req.request_id none
  serve e
  insert_resource tz (new_resource e req)
  pure (new_resource e req)

unfoldable pub create_resource : Tzdata → Env → ResourceCreateRequest → M Resource
unfolding create_resource_body
create_resource tz e req = atomic (create_resource_body tz e req)

-- `none` leaves a field unchanged. The cap on the duration, for which `none` means no cap, is an
-- option of its own: `max_booking_duration_minutes_set` with the value.
pub record ResourceUpdateRequest : Type 0 where
  pub resource : Resource
  pub actor : ℕ
  pub request_id : String
  pub name : Option String
  pub bookable_start_time : Option ℕ
  pub bookable_end_time : Option ℕ
  pub max_booking_duration_minutes : Option (Option ℕ)
  pub offboarding_policy : Option ResourceOffboardingPolicy
  pub status : Option ResourceStatus

abbrev pub or_same : {A : Type 0} → Option A → A → A
or_same none a = a
or_same (some b) a = b

abbrev pub updated_resource : ResourceUpdateRequest → Resource → Resource
updated_resource req r = record r {
  name = or_same req.name r.name;
  bookable_start_time = or_same req.bookable_start_time r.bookable_start_time;
  bookable_end_time = or_same req.bookable_end_time r.bookable_end_time;
  max_booking_duration_minutes =
      or_same req.max_booking_duration_minutes r.max_booking_duration_minutes;
  offboarding_policy = or_same req.offboarding_policy r.offboarding_policy;
  status = or_same req.status r.status;
}

-- `if fields:`
abbrev pub has_fields : ResourceUpdateRequest → Bool
has_fields req =
    ((is_some req.name || is_some req.bookable_start_time)
      || (is_some req.bookable_end_time || is_some req.max_booking_duration_minutes))
    || (is_some req.offboarding_policy || is_some req.status)

update_resource_body : Env → ResourceUpdateRequest → M Resource
update_resource_body e req = do
  apply_write_path_session_settings (some req.actor) AuditActorType.admin req.request_id none
  serve e
  when (has_fields req) (update_resources req.resource.id (updated_resource req))
  get_resource req.resource.id

unfoldable pub update_resource : Env → ResourceUpdateRequest → M Resource
unfolding update_resource_body
update_resource e req = atomic (update_resource_body e req)

abbrev pub write_grants : State → List ResourceAdmin → AuditAction → List ResourceAdmin → State
write_grants s rows action touched = record s {
  tables = record s.tables {
    admin_grants = rows;
    audit_log =
        map (λ g. write_audit_log s.session AuditedTable.resource_admin action g.id) touched
        ++ s.audit_log;
  };
}

-- resource_id=.., user_id=..
abbrev pub is_grant : ℕ → ℕ → ResourceAdmin → Bool
is_grant resource user g = g.resource == resource && g.user == user

-- INSERT under `resource_admin_unique_grant`
unfoldable pub insert_grant : ResourceAdmin → M (Unit {0})
insert_grant g s =
    verdict s
      (if any (λ x. x.id == g.id || is_grant g.resource g.user x) s.admin_grants
        then some Sqlstate.unique_violation
        else none)
      tt (write_grants s (g ∷ s.admin_grants) AuditAction.insert (g ∷ []))

-- DELETE, with the number of rows
unfoldable pub delete_grants : ℕ → ℕ → M ℕ
delete_grants resource user s = (
  ok (length (select (is_grant resource user) s.admin_grants)),
  write_grants s (select (λ g. not (is_grant resource user g)) s.admin_grants) AuditAction.delete
      (select (is_grant resource user) s.admin_grants),
)

pub record GrantResourceAdminRequest : Type 0 where
  pub resource : ℕ
  pub grantee : ℕ
  pub actor : ℕ
  pub request_id : String

abbrev pub new_grant : Env → GrantResourceAdminRequest → ResourceAdmin
new_grant e req = record {
  id = e.uuid;
  resource = req.resource;
  user = req.grantee;
  granted_at = e.now;
  granted_by = req.actor;
}

grant_body : Env → GrantResourceAdminRequest → M ResourceAdmin
grant_body e req = do
  apply_write_path_session_settings (some req.actor) AuditActorType.admin req.request_id none
  serve e
  insert_grant (new_grant e req)
  pure (new_grant e req)

abbrev pub grant_error : Option Sqlstate → Error
grant_error sqlstate =
    if is_unique_violation sqlstate
    then Error.already_resource_admin
    else Error.database_error sqlstate

unfoldable pub grant_resource_admin : Env → GrantResourceAdminRequest → M ResourceAdmin
unfolding grant_body
grant_resource_admin e req =
    catch_database_error (atomic (grant_body e req)) (λ st. raise (grant_error st))

pub record RevokeResourceAdminRequest : Type 0 where
  pub resource : ℕ
  pub user_id : ℕ
  pub actor : ℕ
  pub request_id : String

revoke_body : Env → RevokeResourceAdminRequest → M ℕ
revoke_body e req = do
  apply_write_path_session_settings (some req.actor) AuditActorType.admin req.request_id none
  serve e
  delete_grants req.resource req.user_id

-- `if not deleted: raise NotFoundError`, after the transaction
unfoldable pub revoke_resource_admin : Env → RevokeResourceAdminRequest → M (Unit {0})
unfolding revoke_body
revoke_resource_admin e req = do
  deleted ← atomic (revoke_body e req)
  when (not (ltb 0 deleted)) (raise Error.not_found)
