-- ===== src/Relay/RateLimit.antt =====
-- The token buckets: src/relay/rate-limit/buckets.ts. A rate is a fraction of tokens in a
-- millisecond, and the arithmetic is exact where the code rounds to doubles.
use open_dating.Prelude.{
  ℕ, suc, ◌+◌, ◌-◌, ◌*◌, ◌/◌, min, Bool, true, false, List, ltb, if◌then◌else◌, String, none, some,
  lookup, insert,
}

-- `RateLimiter`: `rate_tokens` tokens in `suc rate_ms` milliseconds.
pub record RateLimiter : Type 0 where
  pub tokens : ℕ
  pub last_refill_time : ℕ
  pub capacity : ℕ
  pub rate_tokens : ℕ
  pub rate_ms : ℕ

-- The constructor, at a time.
abbrev pub new_limiter : ℕ → ℕ → ℕ → ℕ → RateLimiter
new_limiter rate_tokens rate_ms capacity now = record {
  tokens = capacity;
  last_refill_time = now;
  capacity = capacity;
  rate_tokens = rate_tokens;
  rate_ms = rate_ms;
}

-- `Math.floor(elapsedTime * this.fillRate)`.
abbrev pub tokens_to_add : ℕ → RateLimiter → ℕ
tokens_to_add now r = (now - r.last_refill_time) * r.rate_tokens / suc r.rate_ms

-- `refill`, for a clock that does not go back.
unfoldable pub refill : ℕ → RateLimiter → RateLimiter
refill now r = record r {
  tokens = min r.capacity (r.tokens + tokens_to_add now r);
  last_refill_time = now;
}

-- Whether a token was available, and the limiter.
unfoldable pub remove_token : ℕ → RateLimiter → Bool × RateLimiter
remove_token now r =
    let filled = refill now r in
    if ltb filled.tokens 1
    then (false, filled)
    else (true, record filled { tokens = filled.tokens - 1 })

unfoldable pub get_tokens : ℕ → RateLimiter → ℕ × RateLimiter
get_tokens now r = let filled = refill now r in (filled.tokens, filled)

-- The configuration of a bucket: its rate and capacity.
pub record BucketConfig : Type 0 where
  pub rate_tokens : ℕ
  pub rate_ms : ℕ
  pub capacity : ℕ

-- `MultiRateLimiter`, with the buckets under their names.
abbrev pub Buckets : Type 0
Buckets = List (String × RateLimiter)

unfoldable pub check : (String → BucketConfig) → ℕ → String → Buckets → Bool × Buckets
check config now bucket buckets = elim (lookup bucket buckets) [
  | some limiter ↦
      (let (allowed, limiter') = remove_token now limiter in
        (allowed, insert bucket limiter' buckets))
  | none ↦
      (let cfg = config bucket in
        let (allowed, limiter') =
          remove_token now (new_limiter cfg.rate_tokens cfg.rate_ms cfg.capacity now) in
        (allowed, insert bucket limiter' buckets))
]

unfoldable pub get_bucket_tokens : (String → BucketConfig) → ℕ → String → Buckets → ℕ
get_bucket_tokens config now bucket buckets = elim (lookup bucket buckets) [
  | some limiter ↦ (get_tokens now limiter).0
  | none ↦ (config bucket).capacity
]
