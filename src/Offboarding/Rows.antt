-- ===== src/Offboarding/Rows.antt =====
-- The requests and results of `deactivate_user` of backend/kairos/identity/services.py, and the
-- flip of the status that it starts with.
use kairos_booking_engine.Base.{
  ℕ, ◌+◌, String, Bool, ◌&&◌, ◌||◌, Option, none, some, List, [], ◌∷◌, ◌++◌, ltb, leb, ◌==◌,
  if◌then◌else◌, select, find?, update_where, count_where, is_none,
}
use kairos_booking_engine.Schema.{
  Booking, AppUser, AppUserStatus, AuditActorType, starts_at, is_confirmed, is_active_user,
  ResourceAdmin, ResourceOffboardingPolicy,
}
use kairos_booking_engine.Errors.{ok}
use kairos_booking_engine.Store.{
  Env, M, ◌>>=◌, ◌>>◌, pure, serve, atomic, apply_write_path_session_settings,
}
use kairos_booking_engine.Store.Bookings.{or_missing}
use kairos_booking_engine.Authorization.{Directory}

-- order_by("granted_at", "id").first()
abbrev pub granted_before : ResourceAdmin → ResourceAdmin → Bool
granted_before g h =
    ltb g.granted_at h.granted_at || (g.granted_at == h.granted_at && ltb g.id h.id)

abbrev pub earlier_grant : ResourceAdmin → Option ResourceAdmin → ResourceAdmin
earlier_grant g none = g
earlier_grant g (some h) = if granted_before h g then h else g

abbrev pub earliest_grant : List ResourceAdmin → Option ResourceAdmin
earliest_grant [] = none
earliest_grant (g ∷ gs) = some (earlier_grant g (earliest_grant gs))

-- `_resource_admin_for`
unfoldable pub resource_admin_for : Directory → ℕ → Option ℕ
resource_admin_for d resource =
    elim (earliest_grant (select (λ g. g.resource == resource) d.admin_grants)) [
      | none ↦ none
      | some g ↦ some g.user
    ]

pub record DeactivateUserRequest : Type 0 where
  pub target : ℕ
  pub actor : ℕ
  pub reason : String
  pub request_id : String

pub record FlaggedSeries : Type 0 where
  pub series_id : ℕ
  pub resource_id : ℕ
  pub occurrences_remaining : ℕ

pub record DeactivateUserResult : Type 0 where
  pub user_id : ℕ
  pub status : AppUserStatus
  pub bookings_transferred : ℕ
  pub bookings_cancelled : ℕ
  pub bookings_retained : ℕ
  pub waitlist_entries_cancelled : ℕ
  pub offers_released : ℕ
  pub series_flagged_for_admin : List FlaggedSeries

abbrev pub zeroed : AppUser → DeactivateUserResult
zeroed u = record {
  user_id = u.id;
  status = u.status;
  bookings_transferred = 0;
  bookings_cancelled = 0;
  bookings_retained = 0;
  waitlist_entries_cancelled = 0;
  offers_released = 0;
  series_flagged_for_admin = [];
}

-- AppUser.objects.filter(id=.., status='active').update(..)
abbrev pub is_active_row : ℕ → AppUser → Bool
is_active_row id u = u.id == id && is_active_user u.status

abbrev pub deactivated_row : ℕ → AppUser → AppUser
deactivated_row now u = record u { status = AppUserStatus.deactivated; deactivated_at = some now }

unfoldable pub deactivate_row : ℕ → ℕ → M ℕ
deactivate_row id now s = (
  ok (count_where (is_active_row id) s.users),
  record s {
    tables = record s.tables {
      users = update_where (is_active_row id) (deactivated_row now) s.users;
    };
  },
)

unfoldable pub get_user : ℕ → M AppUser
get_user id s = or_missing (find? (λ u. u.id == id) s.users) s

-- The first transaction: the guarded flip, and the row as it is then.
unfoldable pub flip_status : Env → DeactivateUserRequest → M (ℕ × AppUser)
unfolding deactivate_row get_user
flip_status e req = atomic (do
  apply_write_path_session_settings (some req.actor) AuditActorType.admin req.request_id
      (some req.reason)
  serve e
  updated ← deactivate_row req.target e.now
  target ← get_user req.target
  pure (updated, target))

-- user=target, status=CONFIRMED, series__isnull=True, starts_at__gte=now
abbrev pub is_one_off : ℕ → ℕ → Booking → Bool
is_one_off target now b =
    (b.user == target && is_confirmed b.status) && (is_none b.series && leb now (starts_at b))

abbrev pub policy_of : Directory → ℕ → ResourceOffboardingPolicy
policy_of d resource = elim (find? (λ r. r.id == resource) d.resources) [
  | none ↦ ResourceOffboardingPolicy.retain
  | some r ↦ r.offboarding_policy
]

-- `result.x += 1`
abbrev pub with_transferred : DeactivateUserResult → DeactivateUserResult
with_transferred x = record x { bookings_transferred = x.bookings_transferred + 1 }

abbrev pub with_cancelled : DeactivateUserResult → DeactivateUserResult
with_cancelled x = record x { bookings_cancelled = x.bookings_cancelled + 1 }

abbrev pub with_retained : DeactivateUserResult → DeactivateUserResult
with_retained x = record x { bookings_retained = x.bookings_retained + 1 }

abbrev pub with_released : DeactivateUserResult → DeactivateUserResult
with_released x = record x { offers_released = x.offers_released + 1 }

abbrev pub with_entry_cancelled : DeactivateUserResult → DeactivateUserResult
with_entry_cancelled x = record x { waitlist_entries_cancelled = x.waitlist_entries_cancelled + 1 }

abbrev pub with_flagged : FlaggedSeries → DeactivateUserResult → DeactivateUserResult
with_flagged f x = record x { series_flagged_for_admin = x.series_flagged_for_admin ++ f ∷ [] }
