-- ===== src/Tests/Relaying.antt =====
-- Examples of the relay's limits and classes: src/relay.
use open_dating.Prelude.{◌-◌, arith, ℕ, suc, ◌+◌, ◌*◌, ◌≤◌, false, some, List, [], ◌∷◌}
use open_dating.Relay.RateLimit.{RateLimiter, new_limiter}
use open_dating.Relay.Throttling.{attempts, total, attempts-le}
use open_dating.Relay.Extensions.{denied, Extension}

-- Ten events in a minute, one attempt every five seconds.
abbrev limiter : RateLimiter
limiter = new_limiter 10 59999 10 0

abbrev gaps : List ℕ
gaps = 5000 ∷ 5000 ∷ 5000 ∷ []

attempts-le_example :
    (attempts 1000 gaps limiter).0 * suc 59999 ≤ 10 * suc 59999 + ((1000 - 0) + total gaps) * 10
attempts-le_example = attempts-le 1000 gaps limiter (omega arith)

abbrev strict : Extension ℕ ℕ
strict = record {
  name = "strict";
  can_handle_event = λ e. false;
  authorize_query = some (λ q. denied (some "private"));
}
