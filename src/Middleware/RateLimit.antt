-- ===== src/Middleware/RateLimit.antt =====
-- internal/middleware/ratelimit.go. The mutex makes each call one step; the monotonic clock is an
-- argument. `rate` enters only through the partial refill, a float64 expression of Go:
-- int(elapsed.Seconds() / window.Seconds() * float64(rate)) is the parameter `refill`.
-- Tokens are natural numbers, which they are for a burst of at least 1.
pub mod Bounds
pub mod Sweep
use jira_bot.Base.{
  ℕ, zero, suc, ◌+◌, ◌-◌, ◌*◌, Bool, true, false, List, [], ◌∷◌, Option, none, some, ltb, leb, not,
  if◌then◌else◌, Text, text_eq, lookup, insert, sift,
}

pub record Bucket : Type 0 where
  pub tokens : ℕ
  pub last_reset : ℕ

pub record RateLimiter : Type 0 where
  pub visitors : List (Text × Bucket)
  pub burst : ℕ
  pub window : ℕ

unfoldable pub new_rate_limiter : ℕ → ℕ → RateLimiter
new_rate_limiter burst window = record { visitors = []; burst = burst; window = window }

-- One tick of `cleanup`: `time.Since(b.lastReset) > rl.window*2` deletes.
pub cleanup : RateLimiter → ℕ → RateLimiter
cleanup rl now = record rl {
  visitors = sift (λ b. not (ltb (rl.window * 2) (now - b.last_reset))) rl.visitors;
}

-- `if b.tokens <= 0 { return false }; b.tokens--; return true`
abbrev pub spend : Bucket → Bucket × Bool
spend b = if leb b.tokens 0 then (b, false) else (record b { tokens = b.tokens - 1 }, true)

abbrev pub cap_tokens : ℕ → ℕ → ℕ
cap_tokens burst tokens = if ltb burst tokens then burst else tokens

module _ (refill : (elapsed window : ℕ) → ℕ) where
  -- The refill that precedes the spending.
  pub replenish : RateLimiter → Bucket → ℕ → Bucket
  replenish rl b now =
      let elapsed = now - b.last_reset in
      if leb rl.window elapsed
      then record { tokens = rl.burst; last_reset = now }
      else if ltb 0 (refill elapsed rl.window)
      then record {
        tokens = cap_tokens rl.burst (b.tokens + refill elapsed rl.window);
        last_reset = now;
      }
      else b

  -- What a visitor's bucket becomes, and the answer.
  pub visit : RateLimiter → Option Bucket → ℕ → Bucket × Bool
  visit rl none now = (record { tokens = rl.burst - 1; last_reset = now }, true)
  visit rl (some b) now = spend (replenish rl b now)

  pub allow : RateLimiter → Text → ℕ → RateLimiter × Bool
  allow rl ip now =
      let (b, ok) = visit rl (lookup ip rl.visitors) now in
      (record rl { visitors = insert ip b rl.visitors }, ok)

  -- `Wrap`: 429 for a refused request, otherwise the handler's answer.
  pub wrap {ℓ} : {R : Type ℓ} → R → R → RateLimiter → Text → ℕ → RateLimiter × R
  wrap too_many served rl ip now =
      let (rl', ok) = allow rl ip now in (rl', if ok then served else too_many)

  -- The requests of one address at the given times, and how many of them are let through.
  pub serve : RateLimiter → Text → List ℕ → RateLimiter × ℕ
  serve rl ip [] = (rl, 0)
  serve rl ip (t ∷ ts) =
      let (rl', ok) = allow rl ip t in
      let (rl'', n) = serve rl' ip ts in (rl'', if ok then suc n else n)
