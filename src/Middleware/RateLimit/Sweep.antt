-- ===== src/Middleware/RateLimit/Sweep.antt =====
-- The background sweep forgets only visitors whom the limiter would treat as new.
use jira_bot.Base.{
  ℕ, ◌*◌, ◌-◌, ◌≤◌, ◌<◌, ◌≡◌, refl, ap, ◌∙◌, sym, only_if, arith, ltb, not, Option, none, some,
  Text, text_eq, lookup, lookup-sift, HasUniqueKeys,
}
use jira_bot.Middleware.RateLimit.Bounds.{lookup-allow}
use jira_bot.Middleware.RateLimit.{Bucket, RateLimiter, cleanup, replenish, visit, allow}

module _ (refill : (elapsed window : ℕ) → ℕ) where
  visit-stale :
      (rl : RateLimiter) (b : Bucket) (tick now : ℕ)
      → 0 < rl.burst
      → tick ≤ now
      → rl.window * 2 < tick - b.last_reset
      → visit refill rl (some b) now ≡ visit refill rl none now
  unfolding visit replenish
  visit-stale rl b tick now h k stale = ground arith

  visit-cleanup :
      (rl : RateLimiter) (o : Option Bucket) (tick now : ℕ)
      → 0 < rl.burst
      → tick ≤ now
      → visit refill rl (only_if (λ b. not (ltb (rl.window * 2) (tick - b.last_reset))) o) now
        ≡ visit refill rl o now
  visit-cleanup rl none tick now h k = refl
  visit-cleanup rl (some b) tick now h k = ground (arith, visit-stale rl b tick now h k)

  visit-same :
      (rl : RateLimiter) (o : Option Bucket) (tick now : ℕ)
      → visit refill (cleanup rl tick) o now ≡ visit refill rl o now
  unfolding visit replenish cleanup
  visit-same rl none tick now = refl
  visit-same rl (some b) tick now = refl

  -- A sweep before a request changes neither its answer nor the bucket that it leaves, for a burst
  -- of at least 1, a map with no address twice, and a request not before the sweep.
  pub allow_swept :
      (rl : RateLimiter) (ip : Text) (tick now : ℕ)
      → 0 < rl.burst
      → HasUniqueKeys rl.visitors
      → tick ≤ now
      → ((allow refill (cleanup rl tick) ip now).1 ≡ (allow refill rl ip now).1)
        × (lookup ip (allow refill (cleanup rl tick) ip now).0.visitors
            ≡ lookup ip (allow refill rl ip now).0.visitors)
  allow_swept rl ip tick now h u k = (
    unfold allow in ap (λ p. p.1) same,
    lookup-allow refill (cleanup rl tick) ip now
        ∙ ap (λ p. some (p.0)) same
        ∙ sym (lookup-allow refill rl ip now),
  )
    where
      same :
          visit refill (cleanup rl tick) (lookup ip (cleanup rl tick).visitors) now
          ≡ visit refill rl (lookup ip rl.visitors) now
      same =
          unfold cleanup in
          (visit-same rl _ tick now
            ∙ ap (λ o. visit refill rl o now)
                (lookup-sift (λ b. not (ltb (rl.window * 2) (tick - b.last_reset))) ip rl.visitors
                  u)
            ∙ visit-cleanup rl (lookup ip rl.visitors) tick now h k)
