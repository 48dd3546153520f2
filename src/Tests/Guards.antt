-- ===== src/Tests/Guards.antt =====
-- The dedup guard, the rate limiter and the conversations.
use jira_bot.Base.{
  ℕ, ◌≡◌, refl, List, [], ◌∷◌, none, arith, pos, negsuc, text_eq, int_eq, pair_eq, lookup, codes,
}
use jira_bot.NotifyDedup.Guard as Dedup
use jira_bot.NotifyDedup.Guard.Refinement.{answers, spec_answers, guard-refines}
use jira_bot.Middleware.RateLimit as Limit
use jira_bot.Middleware.RateLimit.Bounds.{serve_fresh}
use jira_bot.Telegram.State as State

abbrev guard : Dedup.Guard
guard = Dedup.new 100

abbrev others : List Dedup.Op
others = Dedup.allows (pos 8) (codes "B-2") 20 20 ∷ Dedup.tick 50 ∷ []

-- A refill of nothing, as for a rate of 0.
abbrev no_refill : ℕ → ℕ → ℕ
no_refill elapsed window = 0

abbrev limiter : Limit.RateLimiter
limiter = Limit.new_rate_limiter 2 60

serve_fresh_example : (Limit.serve no_refill limiter (codes "1.2.3.4") (5 ∷ 6 ∷ 7 ∷ [])).1 ≡ 2
unfolding Limit.new_rate_limiter lookup
serve_fresh_example =
    serve_fresh no_refill limiter (codes "1.2.3.4") 5 (6 ∷ 7 ∷ []) (omega arith) refl
      ((omega arith, refl), ((omega arith, refl), tt))

-- Two users drive a conversation each in one group.
abbrev group : State.StateKey
group = (negsuc 4, pos 7)

abbrev elsewhere : List State.Op
elsewhere = State.sets (negsuc 4, pos 8) (codes "other") none 3 ∷ State.cleans 9 ∷ []

abbrev states : State.States
states = State.set_state State.empty group (codes "wait") none 2

abbrev calls : List Dedup.Op
calls =
    Dedup.allows (pos 7) (codes "A-1") 10 11
    ∷ Dedup.allows (pos 7) (codes "A-1") 20 20
    ∷ Dedup.tick 50
    ∷ Dedup.allows (pos 7) (codes "A-1") 111 111
    ∷ []

guard-refines_example : answers (Dedup.new 100) calls ≡ spec_answers 100 (λ chat issue. 0) calls
guard-refines_example = guard-refines 100 calls (
  omega arith,
  (omega arith, (omega arith, (omega arith, (omega arith, (omega arith, (omega arith, tt)))))),
)
