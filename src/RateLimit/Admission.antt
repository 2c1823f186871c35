-- ===== src/RateLimit/Admission.antt =====
-- How many requests the token bucket of backend/kairos/core/rate_limit.py lets pass.
use kairos_booking_engine.Base.{
  ℕ, suc, ◌+◌, ◌-◌, ◌*◌, ◌≤◌, ◌<◌, ◌≡◌, refl, sym, ap, subst, ◌∙◌, Bool, true, false, Option, none,
  some, List, [], ◌∷◌, arith, leb, ltb, if◌then◌else◌, Bool-cases, inl, inr,
}
use native.Mathlib.Nat.{
  add-mul, zero-mul, one-mul, suc-mul, mul-le-mul_right, mul_comm, mul_assoc, div-add-mod', mod-lt,
}
use kairos_booking_engine.Range.{second}
use kairos_booking_engine.RateLimit.{
  TokenBucket, Bucket, parts, refilled, token_bucket, stored_or_full, ceil_div, verdict_of,
}

-- The requests of one key that pass, one token each, at the times of a list, and the last time.
unfoldable pub admitted : TokenBucket → List ℕ → Bucket → ℕ
admitted b [] k = 0
admitted b (now ∷ times) k =
    let v = token_bucket b now 1 (some k) in
    let rest = admitted b times v.bucket in if v.allowed then suc rest else rest

abbrev pub last_time : ℕ → List ℕ → ℕ
last_time t [] = t
last_time t (now ∷ times) = last_time now times

-- Each time is no earlier than the one before it.
abbrev pub IsOrdered : ℕ → List ℕ → Type 0
IsOrdered t [] = Unit
IsOrdered t (now ∷ times) = (t ≤ now) × IsOrdered now times

last_time-leq : (t : ℕ) (times : List ℕ) → IsOrdered t times → t ≤ last_time t times
last_time-leq t [] h = omega arith
last_time-leq t (now ∷ times) h = omega (arith, h.0, last_time-leq now times h.1)

spans : (a b c rate : ℕ) → a ≤ b → b ≤ c → (b - a) * rate + (c - b) * rate ≡ (c - a) * rate
spans a b c rate h k = sym (add-mul (b - a) (c - b) rate) ∙ ap (λ d. d * rate) (omega arith)

-- A request costs its tokens, and the bucket gains no more than the time that has passed.
cost :
    (b : TokenBucket) (now : ℕ) (k : Bucket)
    → let v = token_bucket b now 1 (some k) in
      (if v.allowed then parts b else 0) + v.bucket.tokens
      ≤ k.tokens + (now - k.last_refill) * b.capacity
unfolding token_bucket refilled
cost b now k = ground (arith, one-mul (parts b))

add_up :
    (passes : Bool) (n p t u g g' whole : ℕ)
    → (if passes then p else 0) + u ≤ t + g
    → n * p ≤ u + g'
    → g + g' ≡ whole
    → (if passes then suc n else n) * p ≤ t + whole
add_up true n p t u g g' whole first rest split = rw (suc-mul n p) (omega arith)
add_up false n p t u g g' whole first rest split = omega arith

-- Whenever requests for one token each come at times that do not go back, the bucket admits no
-- more of them than the tokens that it held and those that its rate refills until the last of
-- them.
pub admitted_bound :
    (b : TokenBucket) (times : List ℕ) (k : Bucket)
    → IsOrdered k.last_refill times
    → admitted b times k * parts b
      ≤ k.tokens + (last_time k.last_refill times - k.last_refill) * b.capacity
unfolding admitted token_bucket
admitted_bound b [] k h = rw (zero-mul (parts b)) (omega arith)
admitted_bound b (now ∷ times) k h =
    let v = token_bucket b now 1 (some k) in
    let end = last_time now times in
    add_up v.allowed (admitted b times v.bucket) (parts b) k.tokens v.bucket.tokens
      ((now - k.last_refill) * b.capacity) ((end - now) * b.capacity)
      ((end - k.last_refill) * b.capacity) (cost b now k) (admitted_bound b times v.bucket h.1)
      (spans k.last_refill now end b.capacity h.0 (last_time-leq now times h.1))

full_again :
    (b : TokenBucket) (now : ℕ) (k : Bucket)
    → k.last_refill + parts b ≤ now
    → refilled b now k ≡ b.capacity * parts b
unfolding refilled
full_again b now k idle =
    let refill : parts b * b.capacity ≤ (now - k.last_refill) * b.capacity =
      mul-le-mul_right b.capacity (omega arith) in
    ground (arith, mul_comm b.capacity (parts b))

still_full :
    (b : TokenBucket) (now : ℕ) → refilled b now (stored_or_full b now none) ≡ b.capacity * parts b
unfolding refilled
still_full b now = ground arith

-- After the window of its bucket has passed without a request, the stored bucket answers as one
-- that Redis no longer has.
pub expired_bucket :
    (b : TokenBucket) (now requested : ℕ) (k : Bucket)
    → k.last_refill + parts b ≤ now
    → token_bucket b now requested (some k) ≡ token_bucket b now requested none
unfolding token_bucket
expired_bucket b now requested k idle =
    ap (verdict_of b now requested) (full_again b now k idle ∙ sym (still_full b now))

ceil_div-covers : (a b : ℕ) → 0 < b → a ≤ ceil_div a b * b
ceil_div-covers a b h = omega (arith, div-add-mod' (a + (b - 1)) b, mod-lt (a + (b - 1)) {m = b} h)

regroup : (n rate : ℕ) → n * (rate * second) ≡ n * second * rate
regroup n rate = ap (λ x. n * x) (mul_comm rate second) ∙ sym (mul_assoc n second rate)

refilled_by_then :
    (b : TokenBucket) (now later wanted tokens : ℕ)
    → 0 < b.capacity
    → wanted ≤ b.capacity * parts b
    → now + ceil_div (wanted - tokens) (b.capacity * second) * second ≤ later
    → wanted ≤ refilled b later (record { tokens = tokens; last_refill = now })
unfolding refilled
refilled_by_then b now later wanted tokens some_rate fits waited =
    let wait = ceil_div (wanted - tokens) (b.capacity * second) in
    let covered = ceil_div-covers (wanted - tokens) (b.capacity * second) (omega arith) in
    let gained : wait * second * b.capacity ≤ (later - now) * b.capacity =
      mul-le-mul_right b.capacity (omega arith) in
    let same = regroup wait b.capacity in ground arith

retried :
    (b : TokenBucket) (now later requested tokens : ℕ)
    → let v = verdict_of b now requested tokens in
      v.allowed ≡ false
      → requested ≤ b.capacity
      → requested * parts b ≤ b.capacity * parts b
      → now + v.retry_after * second ≤ later
      → leb (requested * parts b) (refilled b later v.bucket) ≡ true
retried b now later requested tokens refused fits room waited =
    elim (Bool-cases (ltb 0 b.capacity)) [
      | inl some_rate ↦
          let enough =
            refilled_by_then b now later (requested * parts b) tokens (ground (arith, some_rate))
              room in
          let kept : (verdict_of b now requested tokens).bucket
              ≡ record { tokens = tokens; last_refill = now } =
            rw refused refl in
          let full_enough = enough (ground (arith, some_rate, refused, waited)) in
          subst (λ k. leb (requested * parts b) (refilled b later k) ≡ true) (sym kept)
            (ground (arith, full_enough))
      | inr no_rate ↦
          let none_left : b.capacity ≡ 0 = ground (arith, no_rate) in
          let nothing : b.capacity * parts b ≡ 0 =
            ap (λ c. c * parts b) none_left ∙ zero-mul (parts b) in
          absurd (ground (arith, refused, room, nothing))
    ]

-- A refused request for no more tokens than the bucket can hold is admitted where it is
-- repeated, with no other in between, after the seconds that the refusal gave.
pub retry_after_suffices :
    (b : TokenBucket) (now later requested : ℕ) (stored : Option Bucket)
    → let v = token_bucket b now requested stored in
      v.allowed ≡ false
      → requested ≤ b.capacity
      → now + v.retry_after * second ≤ later
      → (token_bucket b later requested (some v.bucket)).allowed ≡ true
unfolding token_bucket
retry_after_suffices b now later requested stored refused fits waited =
    let wanted = requested * parts b in
    let tokens = refilled b now (stored_or_full b now stored) in
    let room : wanted ≤ b.capacity * parts b = mul-le-mul_right (parts b) fits in
    retried b now later requested tokens refused fits room waited
