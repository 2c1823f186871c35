-- ===== src/Policy/Hours.antt =====
-- What the bookable hours of backend/kairos/bookings/serializers.py rule out, and what they do not.
use kairos_booking_engine.Base.{ℕ, ◌+◌, ◌*◌, ◌≤◌, ◌<◌, ◌≡◌, false, none, arith}
use kairos_booking_engine.Range.{day}
use kairos_booking_engine.Errors.{ok}
use kairos_booking_engine.Schema.{Resource}
use kairos_booking_engine.Recurrence.{Tzdata, time_of}
use kairos_booking_engine.Series.Preview.{max_advance_horizon_days}
use kairos_booking_engine.Policy.{exceeds_duration, validate_range_policy}

-- The range policy accepts a range exactly if it ends after it starts, starts and ends at local
-- times of day within the bookable hours, is no longer than the cap where there is one, and starts
-- neither in the past nor beyond the horizon.
pub record IsBookable (tz : Tzdata) (now : ℕ) (r : Resource) (start end : ℕ) : Type 0 where
  pub forward : start < end
  pub opens : r.bookable_start_time ≤ time_of ((tz.zone_info r.timezone).to_local start)
  pub closes : time_of ((tz.zone_info r.timezone).to_local end) ≤ r.bookable_end_time
  pub capped : exceeds_duration r.max_booking_duration_minutes start end ≡ false
  pub future : now ≤ start
  pub near : start ≤ now + max_advance_horizon_days * day

pub validate_range_policy-IsBookable :
    (tz : Tzdata) (now : ℕ) (r : Resource) (start end : ℕ)
    → validate_range_policy tz now r start end ≡ ok tt
    → IsBookable tz now r start end
unfolding validate_range_policy
validate_range_policy-IsBookable tz now r start end accepted = record {
  forward = ground arith;
  opens = ground arith;
  closes = ground arith;
  capped = ground arith;
  future = ground arith;
  near = ground arith;
}

-- On a resource with no cap on the duration, a range that ends after it starts, whose start is
-- not in the past, within the horizon and no earlier in its day than the resource opens, passes
-- the policy whenever it ends at a local midnight, however early the resource closes.
pub validate_range_policy_overnight :
    (tz : Tzdata) (now : ℕ) (r : Resource) (start end : ℕ)
    → start < end
    → now ≤ start
    → start ≤ now + max_advance_horizon_days * day
    → r.max_booking_duration_minutes ≡ none
    → r.bookable_start_time ≤ time_of ((tz.zone_info r.timezone).to_local start)
    → time_of ((tz.zone_info r.timezone).to_local end) ≡ 0
    → validate_range_policy tz now r start end ≡ ok tt
unfolding validate_range_policy
validate_range_policy_overnight tz now r start end forward future near uncapped opens midnight =
    ground arith
