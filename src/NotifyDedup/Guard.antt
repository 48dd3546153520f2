-- ===== src/NotifyDedup/Guard.antt =====
-- `Guard`, `Allow` and the sweep of `cleanupLoop`.
pub mod Window
pub mod Refinement
use jira_bot.Base.{
  ℕ, ◌+◌, Bool, true, false, List, [], ◌∷◌, Option, none, some, ltb, not, if◌then◌else◌, Text, ℤ,
  text_eq, lookup, insert, sift,
}
use jira_bot.NotifyDedup.Key.{format_key}

pub record Guard : Type 0 where
  pub ttl : ℕ
  -- key → expiry
  pub sent : List (Text × ℕ)

unfoldable pub new : ℕ → Guard
new ttl = record { ttl = ttl; sent = [] }

-- `exp, ok := g.sent[key]; ok && time.Now().Before(exp)`
abbrev pub is_blocked : Option ℕ → ℕ → Bool
is_blocked none now = false
is_blocked (some exp) now = ltb now exp

-- `now` is the reading of the test, `later` that of the record.
unfoldable pub allow : Guard → ℤ → Text → ℕ → ℕ → Guard × Bool
allow g chat issue now later =
    let key = format_key chat issue in
    if is_blocked (lookup key g.sent) now
    then (g, false)
    else (record g { sent = insert key (later + g.ttl) g.sent }, true)

-- One tick of `cleanupLoop`: entries with `now.After(exp)` are deleted.
pub cleanup : Guard → ℕ → Guard
cleanup g now = record g { sent = sift (λ exp. not (ltb exp now)) g.sent }

-- What happens to a guard: calls from the poller and the webhooks, and ticks.
pub data Op : Type 0 where
  allows : ℤ → Text → (now later : ℕ) → Op
  tick : ℕ → Op

pub step : Guard → Op → Guard
step g (allows chat issue now later) = (allow g chat issue now later).0
step g (tick now) = cleanup g now

pub run : Guard → List Op → Guard
run g [] = g
run g (op ∷ ops) = run (step g op) ops
