-- ===== src/Middleware/RateLimit/Bounds.antt =====
-- How many requests the limiter lets through.
use Prim.Native.Nat.{min}
use jira_bot.Base.{
  ℕ, ◌-◌, ◌≤◌, ◌<◌, ◌≡◌, ◌≢◌, ap, ◌∙◌, refl, true, List, [], ◌∷◌, Option, none, some, arith, All,
  Text, text_eq, length, lookup, insert, lookup-insert, ==_iff, ==_refl,
}
use jira_bot.Middleware.RateLimit.{Bucket, RateLimiter, spend, replenish, visit, allow, serve}

module _ (refill : (elapsed window : ℕ) → ℕ) where
  -- A request at `t` brings no refill to a bucket that was last reset at `start`.
  abbrev pub IsQuiet : (window start t : ℕ) → Type 0
  IsQuiet window start t = (t - start < window) × (refill (t - start) window ≡ 0)

  abbrev pub IsBounded : ℕ → List (Text × Bucket) → Type 0
  IsBounded burst = All λ v. v.1.tokens ≤ burst

  visit-le-burst :
      (rl : RateLimiter) (o : Option Bucket) (now : ℕ)
      → ((b : Bucket) → o ≡ some b → b.tokens ≤ rl.burst)
      → (visit refill rl o now).0.tokens ≤ rl.burst
  unfolding visit replenish
  visit-le-burst rl none now h = ground arith
  visit-le-burst rl (some b) now h = ground (arith, h b refl)

  insert-IsBounded :
      (burst : ℕ) (ip : Text) (b : Bucket) (m : List (Text × Bucket))
      → b.tokens ≤ burst
      → IsBounded burst m
      → IsBounded burst (insert ip b m)
  unfolding insert
  insert-IsBounded burst ip b [] h k = (h, tt)
  insert-IsBounded burst ip b (v ∷ m) h k = ground (arith, insert-IsBounded burst ip b m h k.1)

  lookup-IsBounded :
      (burst : ℕ) (ip : Text) (m : List (Text × Bucket))
      → IsBounded burst m
      → (b : Bucket) → lookup ip m ≡ some b
      → b.tokens ≤ burst
  unfolding lookup
  lookup-IsBounded burst ip [] k b e = cc
  lookup-IsBounded burst ip (v ∷ m) k b e = ground (arith, lookup-IsBounded burst ip m k.1 b)

  -- If no bucket holds more than `burst` tokens, none does after a request.
  pub allow-IsBounded :
      (rl : RateLimiter) (ip : Text) (now : ℕ)
      → IsBounded rl.burst rl.visitors
      → IsBounded rl.burst (allow refill rl ip now).0.visitors
  unfolding allow
  allow-IsBounded rl ip now k =
      insert-IsBounded rl.burst ip _ rl.visitors
        (visit-le-burst rl (lookup ip rl.visitors) now (lookup-IsBounded rl.burst ip rl.visitors k))
        k

  -- A request of one address neither reads nor changes the bucket of another.
  pub allow-other :
      (rl : RateLimiter) (ip ip' : Text) (now : ℕ)
      → ip ≢ ip'
      → lookup ip' (allow refill rl ip now).0.visitors ≡ lookup ip' rl.visitors
  unfolding allow
  allow-other rl ip ip' now ne = ground (
    arith,
    lookup-insert ip ip' (visit refill rl (lookup ip rl.visitors) now).0 rl.visitors,
    ==_iff ip ip',
  )

  pub lookup-allow :
      (rl : RateLimiter) (ip : Text) (now : ℕ)
      → lookup ip (allow refill rl ip now).0.visitors
        ≡ some (visit refill rl (lookup ip rl.visitors) now).0
  unfolding allow
  lookup-allow rl ip now = ground (
    arith,
    lookup-insert ip ip (visit refill rl (lookup ip rl.visitors) now).0 rl.visitors,
    ==_refl ip,
  )

  visit_quiet :
      (rl : RateLimiter) (b : Bucket) (now : ℕ)
      → IsQuiet rl.window b.last_reset now
      → visit refill rl (some b) now ≡ spend b
  unfolding visit replenish
  visit_quiet rl b now q = ground arith

  serve_quiet_from :
      (rl : RateLimiter) (ip : Text) (ts : List ℕ) (b : Bucket) (window start : ℕ)
      → lookup ip rl.visitors ≡ some b
      → rl.window ≡ window
      → b.last_reset ≡ start
      → All (IsQuiet window start) ts
      → (serve refill rl ip ts).1 ≡ min b.tokens (length ts)
  unfolding serve
  serve_quiet_from rl ip [] b window start e ew es q = omega arith
  serve_quiet_from rl ip (t ∷ ts) b window start e ew es (q, qs) = ground (
    arith,
    answer,
    serve_quiet_from next ip ts (spend b).0 window start stored same_window same_start qs,
  )
    where
      next : RateLimiter
      next = (allow refill rl ip t).0

      visited : visit refill rl (lookup ip rl.visitors) t ≡ spend b
      visited = rw e (visit_quiet rl b t (ground arith))

      answer : (allow refill rl ip t).1 ≡ (spend b).1
      answer = unfold allow in ap (λ p. p.1) visited

      stored : lookup ip next.visitors ≡ some (spend b).0
      stored = lookup-allow rl ip t ∙ ap (λ p. some (p.0)) visited

      same_window : next.window ≡ window
      same_window = unfold allow in ew

      same_start : (spend b).0.last_reset ≡ start
      same_start = ground arith

  -- As long as nothing is refilled, a known address gets exactly as many of its requests through
  -- as its bucket holds tokens.
  pub serve_quiet :
      (rl : RateLimiter) (ip : Text) (ts : List ℕ) (b : Bucket)
      → lookup ip rl.visitors ≡ some b
      → All (IsQuiet rl.window b.last_reset) ts
      → (serve refill rl ip ts).1 ≡ min b.tokens (length ts)
  serve_quiet rl ip ts b e q = serve_quiet_from rl ip ts b rl.window b.last_reset e refl refl q

  -- Of the requests of an address not seen before, none of which brings a refill, exactly the first
  -- `burst` are let through, for a burst of at least 1.
  pub serve_fresh :
      (rl : RateLimiter) (ip : Text) (t : ℕ) (ts : List ℕ)
      → 0 < rl.burst
      → lookup ip rl.visitors ≡ none
      → All (IsQuiet rl.window t) ts
      → (serve refill rl ip (t ∷ ts)).1 ≡ min rl.burst (length (t ∷ ts))
  unfolding serve
  serve_fresh rl ip t ts h e q =
      ground
        (arith, answer, serve_quiet_from next ip ts first rl.window t stored same_window refl q)
    where
      next : RateLimiter
      next = (allow refill rl ip t).0

      first : Bucket
      first = record { tokens = rl.burst - 1; last_reset = t }

      visited : visit refill rl (lookup ip rl.visitors) t ≡ (first, true)
      visited = rw e (unfold visit in refl)

      answer : (allow refill rl ip t).1 ≡ true
      answer = unfold allow in ap (λ p. p.1) visited

      stored : lookup ip next.visitors ≡ some first
      stored = lookup-allow rl ip t ∙ ap (λ p. some (p.0)) visited

      same_window : next.window ≡ rl.window
      same_window = unfold allow in refl
