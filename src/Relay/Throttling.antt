-- ===== src/Relay/Throttling.antt =====
-- How many actions a token bucket lets through: src/relay/rate-limit/buckets.ts.
use native.Mathlib.Nat.{div-mul-le_self, add-mul, mul-le-mul_right}
use open_dating.Prelude.{
  ℕ, suc, ◌+◌, ◌-◌, ◌*◌, ◌/◌, ◌≤◌, List, [], ◌∷◌, ◌≡◌, if◌then◌else◌, All, arith,
}
use open_dating.Relay.RateLimit.{RateLimiter, refill, remove_token}

-- The tokens never exceed the capacity.
pub remove_token-le :
    (now : ℕ) (r : RateLimiter) → (remove_token now r).1.tokens ≤ (remove_token now r).1.capacity
unfolding remove_token refill
remove_token-le now r = ground arith

-- A sequence of attempts by a clock that shows `now` at first, each after a number of milliseconds:
-- how many pass, and the limiter.
unfoldable pub attempts : ℕ → List ℕ → RateLimiter → ℕ × RateLimiter
attempts now [] r = (0, r)
attempts now (gap ∷ gaps) r =
    let (passed, r') = remove_token (now + gap) r in
    let (count, r'') = attempts (now + gap) gaps r' in (if passed then suc count else count, r'')

abbrev pub total : List ℕ → ℕ
total [] = 0
total (gap ∷ gaps) = gap + total gaps

-- One attempt with its refill, in tokens times `suc rate_ms`: what passes and what is left is paid
-- for by what was there and by the time.
step-le :
    (now : ℕ) (r : RateLimiter)
    → (let p = remove_token now r in
        (if p.0 then 1 else 0) + p.1.tokens
        ≤ r.tokens + (now - r.last_refill_time) * r.rate_tokens / suc r.rate_ms)
unfolding remove_token refill
step-le now r = ground arith

-- An attempt keeps the rate, and the time of the last refill is its own.
step-fields :
    (now : ℕ) (r : RateLimiter)
    → (let r' = (remove_token now r).1 in
        (r'.rate_tokens ≡ r.rate_tokens) × (r'.rate_ms ≡ r.rate_ms) × (r'.last_refill_time ≡ now))
unfolding remove_token refill
step-fields now r = (ground arith, ground arith, ground arith)

budget_step :
    (b n t' t f g c p rest : ℕ)
    → b + t' ≤ t + f
    → f * c ≤ g * p
    → n * c ≤ t' * c + rest * p
    → (b + n) * c ≤ t * c + (g + rest) * p
budget_step b n t' t f g c p rest h k l =
    let m = mul-le-mul_right c h in
    let e1 = add-mul b t' c in
    let e2 = add-mul t f c in let e3 = add-mul b n c in let e4 = add-mul g rest p in omega arith

attempts-cons :
    (now gap : ℕ) (gaps : List ℕ) (r : RateLimiter)
    → (let p = remove_token (now + gap) r in
        (attempts now (gap ∷ gaps) r).0
        ≡ (if p.0 then 1 else 0) + (attempts (now + gap) gaps p.1).0)
unfolding attempts
attempts-cons now gap gaps r = ground arith

-- In a sequence of attempts by a clock that does not go back, at most as many pass as there were
-- tokens at first and as the rate yields in the time from the last refill before the sequence to the
-- last attempt, however the attempts are spread.
pub attempts-le :
    (now : ℕ) (gaps : List ℕ) (r : RateLimiter)
    → r.last_refill_time ≤ now
    → (attempts now gaps r).0 * suc r.rate_ms
      ≤ r.tokens * suc r.rate_ms + ((now - r.last_refill_time) + total gaps) * r.rate_tokens
unfolding attempts
attempts-le now [] r h = omega arith
attempts-le now (gap ∷ gaps) r h =
    let at_time = now + gap in
    let p = remove_token at_time r in
    let elapsed = at_time - r.last_refill_time in
    let (et, em, el) = step-fields at_time r in
    let ih = attempts-le at_time gaps p.1 (omega arith) in
    let none_left : at_time - p.1.last_refill_time + total gaps ≡ total gaps = omega arith in
    let d = div-mul-le_self (elapsed * r.rate_tokens) (suc r.rate_ms) in
    let spent : now - r.last_refill_time + (gap + total gaps) ≡ elapsed + total gaps =
      omega arith in
    rw (attempts-cons now gap gaps r, spent)
      (budget_step (if p.0 then 1 else 0) (attempts at_time gaps p.1).0 p.1.tokens r.tokens
        (elapsed * r.rate_tokens / suc r.rate_ms) elapsed (suc r.rate_ms) r.rate_tokens (total gaps)
        (step-le at_time r) d (rw (none_left, et, em) at ih))

-- No attempt finds a new token where every attempt comes before the rate has yielded a whole one
-- since the attempt before: the times between do not add up. Then at most as many attempts pass as
-- there were tokens at first, however long the sequence lasts.
pub attempts_starved :
    (now : ℕ) (gaps : List ℕ) (r : RateLimiter)
    → r.last_refill_time ≡ now
    → All (λ gap. gap * r.rate_tokens / suc r.rate_ms ≡ 0) gaps
    → (attempts now gaps r).0 ≤ r.tokens
unfolding attempts
attempts_starved now [] r e h = omega arith
attempts_starved now (gap ∷ gaps) r e (h, hs) =
    let at_time = now + gap in
    let p = remove_token at_time r in
    let (et, em, el) = step-fields at_time r in
    let ih = attempts_starved at_time gaps p.1 el (rw (et, em) hs) in
    let waited : at_time - r.last_refill_time ≡ gap = omega arith in
    let s = rw waited at (step-le at_time r) in
    rw (attempts-cons now gap gaps r) (ground (arith, ih, s, h))
