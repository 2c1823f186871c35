-- ===== src/Examples/Policy.antt =====
-- The theorem about backend/kairos/bookings/serializers.py at a room that closes in the evening.
use kairos_booking_engine.Base.{◌≡◌, refl, none, arith}
use kairos_booking_engine.Errors.{ok}
use kairos_booking_engine.Schema.{Resource}
use kairos_booking_engine.Policy.{validate_range_policy}
use kairos_booking_engine.Policy.Hours.{validate_range_policy_overnight}
use kairos_booking_engine.Examples.Authorization.{resource_row}
use kairos_booking_engine.Examples.Series.{tz}

-- Open from nine to five.
abbrev office : Resource
office = record (resource_row 7 none) {
  bookable_start_time = 32_400_000_000;
  bookable_end_time = 61_200_000_000;
}

-- From four in the afternoon to midnight.
validate_range_policy_overnight_example :
    validate_range_policy tz 0 office 57_600_000_000 86_400_000_000 ≡ ok tt
validate_range_policy_overnight_example =
    validate_range_policy_overnight tz 0 office 57_600_000_000 86_400_000_000 (omega arith)
      (omega arith) (omega arith) refl (ground arith) refl
