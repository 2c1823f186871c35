-- ===== src/RateLimit.antt =====
-- backend/kairos/core/rate_limit.py: the token bucket and the two throttles that stand on it. The
-- doubles of the script are exact here: tokens are counted in parts, as many to a token as its
-- window has microseconds, and times are in microseconds.
pub mod Admission
use kairos_booking_engine.Base.{
  ℕ, ◌+◌, ◌-◌, ◌*◌, ◌/◌, String, str_eq, Bool, true, false, not, ◌&&◌, ◌||◌, Option, none, some,
  ltb, leb, ◌==◌, if◌then◌else◌,
}
use kairos_booking_engine.Range.{second}

-- TokenBucket(capacity=.., window_seconds=..)
pub record TokenBucket : Type 0 where
  pub capacity : ℕ
  pub window_seconds : ℕ

-- The parts of one token. In a microsecond `capacity` parts are refilled.
abbrev pub parts : TokenBucket → ℕ
parts b = b.window_seconds * second

-- The hash of a key in Redis.
pub record Bucket : Type 0 where
  pub tokens : ℕ
  pub last_refill : ℕ

abbrev pub min : ℕ → ℕ → ℕ
min a b = if leb a b then a else b

-- `if tokens == nil then ...`
abbrev pub stored_or_full : TokenBucket → ℕ → Option Bucket → Bucket
stored_or_full b now none = record { tokens = b.capacity * parts b; last_refill = now }
stored_or_full b now (some k) = k

-- math.min(capacity, tokens + elapsed * refill_rate), with a negative time elapsed set to 0
unfoldable pub refilled : TokenBucket → ℕ → Bucket → ℕ
refilled b now k = min (b.capacity * parts b) (k.tokens + (now - k.last_refill) * b.capacity)

-- math.ceil of a quotient
abbrev pub ceil_div : ℕ → ℕ → ℕ
ceil_div a b = (a + (b - 1)) / b

pub record Verdict : Type 0 where
  pub allowed : Bool
  pub bucket : Bucket
  pub retry_after : ℕ

-- The second half of the script, from the tokens after the refill on.
abbrev pub verdict_of : TokenBucket → ℕ → ℕ → ℕ → Verdict
verdict_of b now requested tokens =
    let wanted = requested * parts b in
    let allowed = leb wanted tokens in
    record {
      allowed = allowed;
      bucket = record { tokens = if allowed then tokens - wanted else tokens; last_refill = now };
      retry_after =
          if not allowed && ltb 0 b.capacity
          then ceil_div (wanted - tokens) (b.capacity * second)
          else 0;
    }

-- The script.
unfoldable pub token_bucket : TokenBucket → ℕ → ℕ → Option Bucket → Verdict
unfolding refilled
token_bucket b now requested stored =
    verdict_of b now requested (refilled b now (stored_or_full b now stored))

-- `TokenBucket.check`: what Redis answered, or `none` where it raised, which lets the request pass.
abbrev pub check : Option Verdict → Bool × ℕ
check none = (true, 0)
check (some v) = (v.allowed, v.retry_after)

-- RATE_LIMIT_* of backend/kairos/core/constants.py.
abbrev pub booking_create_bucket : TokenBucket
booking_create_bucket = record { capacity = 10; window_seconds = 60 }

abbrev pub per_ip_bucket : TokenBucket
per_ip_bucket = record { capacity = 60; window_seconds = 60 }

-- `allow_request` of both throttles, with the key of the principal or of the address, if there is
-- one, and the wait that is answered with a refusal.
unfoldable pub allow_request : Bool → String → Option ℕ → (ℕ → Option Verdict) → Bool × Option ℕ
allow_request enabled method key ask =
    if not enabled || not (str_eq method "POST") then (true, none) else elim key [
      | none ↦ (true, none)
      | some k ↦
          let (allowed, retry_after) = check (ask k) in
          if allowed then (true, none) else (false, some retry_after)
    ]
