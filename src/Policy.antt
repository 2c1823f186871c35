-- ===== src/Policy.antt =====
-- The policies that backend/kairos/bookings/serializers.py checks before a write.
pub mod Hours
use kairos_booking_engine.Base.{
  ℕ, ◌+◌, ◌-◌, ◌*◌, String, str_eq, Bool, true, false, not, ◌&&◌, ◌||◌, Option, none, some, List,
  ltb, leb, ◌==◌, if◌then◌else◌, find?,
}
use kairos_booking_engine.Range.{minute, day}
use kairos_booking_engine.Errors.{Error, Result, ok, err}
use kairos_booking_engine.Schema.{AppUser, Booking, Resource, ResourceStatus}
use kairos_booking_engine.Recurrence.{Tzdata, Zone, time_of, validate_iana_zone}
use kairos_booking_engine.Authorization.{Directory, can_view_resource}
use kairos_booking_engine.Series.{SeriesDefinition}
use kairos_booking_engine.Series.Preview.{max_advance_horizon_days}

-- if condition: raise e
abbrev pub refuse_if : {A : Type 0} → Bool → Error → Result A → Result A
refuse_if true e r = err e
refuse_if false e r = r

-- bookable_start_time <= local_start_time and local_end_time <= bookable_end_time
abbrev pub within_bookable_hours : Zone → Resource → ℕ → ℕ → Bool
within_bookable_hours zone r start end =
    leb r.bookable_start_time (time_of (zone.to_local start))
    && leb (time_of (zone.to_local end)) r.bookable_end_time

abbrev pub exceeds_duration : Option ℕ → ℕ → ℕ → Bool
exceeds_duration none start end = false
exceeds_duration (some minutes) start end = ltb (minutes * minute) (end - start)

-- `_validate_range_policy`
unfoldable pub validate_range_policy : Tzdata → ℕ → Resource → ℕ → ℕ → Result (Unit {0})
validate_range_policy tz now r start end =
    refuse_if (leb end start) (Error.policy_validation "end" "must be after start") (
      refuse_if (not (within_bookable_hours (tz.zone_info r.timezone) r start end))
        (Error.policy_validation "start" "outside the resource's bookable hours")
        (refuse_if (exceeds_duration r.max_booking_duration_minutes start end)
          (Error.policy_validation "end" "exceeds the resource's maximum booking duration")
          (refuse_if (ltb start now) (Error.policy_validation "start" "must not be in the past") (
            refuse_if (ltb (now + max_advance_horizon_days * day) start)
              (Error.policy_validation "start" "must be within 365 days") (ok tt)))))

abbrev pub is_active_resource : ResourceStatus → Bool
is_active_resource ResourceStatus.active = true
is_active_resource ResourceStatus.inactive = false

-- The resource that a body names: one that does not exist, is inactive or is hidden from the user
-- is not found, all alike.
abbrev pub visible_resource : Directory → AppUser → Option Resource → Result Resource
visible_resource d user none = err Error.not_found
visible_resource d user (some r) =
    refuse_if (not (is_active_resource r.status)) Error.not_found
      (refuse_if (not (can_view_resource d user r)) Error.not_found (ok r))

abbrev pub and_then : {A B : Type 0} → Result A → (A → Result B) → Result B
and_then (ok a) f = f a
and_then (err e) f = err e

abbrev pub resource_of : Directory → ℕ → Option Resource
resource_of d id = find? (λ r. r.id == id) d.resources

-- `BookingCreateSerializer.validate`: resource, start, end
unfoldable pub validate_booking_create :
    Tzdata → Directory → AppUser → ℕ → ℕ → ℕ → ℕ → Result Resource
unfolding validate_range_policy
validate_booking_create tz d user now resource start end =
    and_then (visible_resource d user (resource_of d resource))
      (λ r. and_then (validate_range_policy tz now r start end) (λ _. ok r))

-- `BookingEditSerializer.validate`, with the resource of the booking that is edited
unfoldable pub validate_booking_edit : Tzdata → ℕ → Resource → ℕ → ℕ → Result (Unit {0})
validate_booking_edit tz now r start end = validate_range_policy tz now r start end

-- `not attrs.get("reason")`: absent, null and blank alike
abbrev pub is_blank : Option String → Bool
is_blank none = true
is_blank (some t) = str_eq t ""

-- `BookingCancelSerializer.validate` and `RecurringSeriesCancelSerializer.validate`
unfoldable pub validate_cancel : Bool → Option String → Result (Unit {0})
validate_cancel is_owner reason =
    refuse_if (not is_owner && is_blank reason)
      (Error.policy_validation "reason" "required for an administrative override") (ok tt)

-- `RecurringSeriesPreviewSerializer.validate`
unfoldable pub validate_series_preview :
    Tzdata → Directory → AppUser → SeriesDefinition → Result Resource
validate_series_preview tz d user def =
    and_then (visible_resource d user (resource_of d def.resource)) (λ r.
      and_then (validate_iana_zone tz def.timezone) (λ _.
        refuse_if (leb def.local_end_time def.local_start_time)
          (Error.policy_validation "local_end_time" "must be after local_start_time") (ok r)))
