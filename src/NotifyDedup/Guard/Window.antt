-- ===== src/NotifyDedup/Guard/Window.antt =====
-- Within its window a notification is let through once, and no other call or tick disturbs that.
use jira_bot.Base.{
  ℕ, ◌+◌, ◌≤◌, ◌<◌, ◌≡◌, ◌≢◌, true, false, List, [], ◌∷◌, some, arith, ltb, inl, inr, Bool-cases,
  All, Text, ℤ, text_eq, lookup, lookup-insert, lookup-sift, HasUniqueKeys, insert-HasUniqueKeys,
  sift-HasUniqueKeys, ==_iff, ==_refl, not,
}
use jira_bot.NotifyDedup.Key.{IsInt64, format_key, format_key-injective}
use jira_bot.NotifyDedup.Guard.{Guard, is_blocked, allow, cleanup, Op, allows, tick, step, run}

abbrev pub IsValid : Guard → Type 0
IsValid g = HasUniqueKeys g.sent

-- Every reading of the clock in a step is before `t`.
abbrev pub IsBefore : ℕ → Op → Type 0
IsBefore t (allows chat issue now later) = now < t
IsBefore t (tick now) = now < t

pub step-IsValid : (g : Guard) (op : Op) → IsValid g → IsValid (step g op)
unfolding step allow cleanup
step-IsValid g (allows chat issue now later) v =
    ground (arith, insert-HasUniqueKeys (format_key chat issue) (later + g.ttl) g.sent v)
step-IsValid g (tick now) v = sift-HasUniqueKeys (λ exp. not (ltb exp now)) g.sent v

pub run-IsValid : (g : Guard) (ops : List Op) → IsValid g → IsValid (run g ops)
unfolding run
run-IsValid g [] v = v
run-IsValid g (op ∷ ops) v = run-IsValid (step g op) ops (step-IsValid g op v)

-- An entry stays as it is until it expires.
step-keeps :
    (g : Guard) (op : Op) (key : Text) (exp : ℕ)
    → IsValid g
    → lookup key g.sent ≡ some exp
    → IsBefore exp op
    → lookup key (step g op).sent ≡ some exp
unfolding step allow cleanup
step-keeps g (allows chat issue now later) key exp v e before = ground (
  arith,
  lookup-insert (format_key chat issue) key (later + g.ttl) g.sent,
  ==_iff (format_key chat issue) key,
)
step-keeps g (tick now) key exp v e before =
    ground (arith, lookup-sift (λ x. not (ltb x now)) key g.sent v)

run-keeps :
    (g : Guard) (ops : List Op) (key : Text) (exp : ℕ)
    → IsValid g
    → lookup key g.sent ≡ some exp
    → All (IsBefore exp) ops
    → lookup key (run g ops).sent ≡ some exp
unfolding run
run-keeps g [] key exp v e before = e
run-keeps g (op ∷ ops) key exp v e before =
    run-keeps (step g op) ops key exp (step-IsValid g op v) (step-keeps g op key exp v e before.0)
      before.1

allow-records :
    (g : Guard) (chat : ℤ) (issue : Text) (now later : ℕ)
    → (allow g chat issue now later).1 ≡ true
    → lookup (format_key chat issue) (allow g chat issue now later).0.sent ≡ some (later + g.ttl)
unfolding allow
allow-records g chat issue now later h = ground (
  arith,
  lookup-insert (format_key chat issue) (format_key chat issue) (later + g.ttl) g.sent,
  ==_refl (format_key chat issue),
)

-- In a guard with no key twice, once a notification was let through at `later`, the same one is
-- refused at every time before `later + ttl`, whatever other calls and ticks come in between, with clocks before that time.
pub allow_once :
    (g : Guard) (chat : ℤ) (issue : Text) (now later : ℕ) (ops : List Op) (now' later' : ℕ)
    → IsValid g
    → (allow g chat issue now later).1 ≡ true
    → All (IsBefore (later + g.ttl)) ops
    → now' < later + g.ttl
    → (allow (run (allow g chat issue now later).0 ops) chat issue now' later').1 ≡ false
allow_once g chat issue now later ops now' later' v sent before inside = blocked (
    run-keeps _ ops (format_key chat issue) (later + g.ttl)
      (unfold step in step-IsValid g (allows chat issue now later) v)
      (allow-records g chat issue now later sent) before)
  where
    blocked :
        lookup (format_key chat issue) (run (allow g chat issue now later).0 ops).sent
          ≡ some (later + g.ttl)
        → (allow (run (allow g chat issue now later).0 ops) chat issue now' later').1 ≡ false
    blocked e = unfold allow in ground arith

-- A call about one pair of chat and issue does not change the answer about another pair.
pub allow_independent :
    (g : Guard) (chat chat' : ℤ) (issue issue' : Text) (now later now' later' : ℕ)
    → IsInt64 chat
    → IsInt64 chat'
    → ((chat ≡ chat') × (issue ≡ issue') → ⊥)
    → (allow (allow g chat issue now later).0 chat' issue' now' later').1
      ≡ (allow g chat' issue' now' later').1
unfolding allow
allow_independent g chat chat' issue issue' now later now' later' h h' other =
    elim (Bool-cases (is_blocked (lookup (format_key chat issue) g.sent) now)) [
      | inl e ↦ rw e
      | inr e ↦ rw e (
          ground (
            arith,
            lookup-insert (format_key chat issue) (format_key chat' issue') (later + g.ttl) g.sent,
            ==_iff (format_key chat issue) (format_key chat' issue'),
            other_key,
          ))
    ]
  where
    other_key : format_key chat issue ≢ format_key chat' issue'
    other_key e = other (format_key-injective chat chat' issue issue' h h' e)

-- The background sweep cannot be observed: in a guard with no key twice, it changes no answer that is
-- given at its own time or later.
pub allow-cleanup :
    (g : Guard) (tick_time : ℕ) (chat : ℤ) (issue : Text) (now later : ℕ)
    → IsValid g
    → tick_time ≤ now
    → (allow (cleanup g tick_time) chat issue now later).1 ≡ (allow g chat issue now later).1
unfolding allow cleanup
allow-cleanup g tick_time chat issue now later v h =
    ground (arith, lookup-sift (λ x. not (ltb x tick_time)) (format_key chat issue) g.sent v)
