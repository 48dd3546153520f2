-- ===== src/Telegram/Kanban/Counters.antt =====
-- The counters that `computeKanbanMetrics` raises.
use jira_bot.Base.{
  ℕ, zero, suc, ◌+◌, ◌-◌, ◌/◌, ◌<◌, ◌≡◌, refl, ap, ltb, leb, List, [], ◌∷◌, some, if◌then◌else◌,
  Text, text_eq, ◌==◌, lookup, insert, length, arith, Bool-cases, inl, inr,
}
use jira_bot.Telegram.Kanban.Metrics.{
  FlowStats, Stats, Metrics, Board, week, week_count, bump, stats_or_new, one_done, one_cycle,
  update, week_of, increment, count_or_zero,
}

abbrev pub sum : List ℕ → ℕ
sum [] = 0
sum (n ∷ ns) = n + sum ns

abbrev pub sum_done : Stats → ℕ
sum_done [] = 0
sum_done ((k, s) ∷ stats) = s.done + sum_done stats

abbrev pub sum_counts : List (Text × ℕ) → ℕ
sum_counts [] = 0
sum_counts ((k, n) ∷ counts) = n + sum_counts counts

-- The period has a list of weeks, and each completed issue is counted once in its week, once under its type and once
-- under its assignee; each issue in progress once under its status.
pub record IsBalanced (b : Board) (m : Metrics) : Type 0 where
  pub weeks : length m.weekly ≡ week_count b
  pub by_week : sum m.weekly ≡ m.throughput
  pub by_type : sum_done m.by_type ≡ m.throughput
  pub by_assignee : sum_done m.by_assignee ≡ m.throughput
  pub by_status : sum_counts m.wip_by_status ≡ m.wip_total

pub bump-some :
    (n : ℕ) (counts : List ℕ)
    → n < length counts
    → (counts' : List ℕ) × ((bump n counts ≡ some counts')
        × ((length counts' ≡ length counts) × (sum counts' ≡ suc (sum counts))))
unfolding bump
bump-some n [] h = absurd (none_below h)
  where
    none_below : n < 0 → ⊥
    none_below h = omega arith
bump-some zero (c ∷ counts) h = (suc c ∷ counts, (refl, (refl, omega arith)))
bump-some (suc n) (c ∷ counts) h =
    let (counts', (e, (same, more))) = bump-some n counts (omega arith) in
    (c ∷ counts', (rw e refl, (ap suc same, omega arith)))

pub insert-done :
    (k : Text) (v : FlowStats) (stats : Stats)
    → sum_done (insert k v stats) + (stats_or_new (lookup k stats)).done ≡ sum_done stats + v.done
unfolding insert lookup
insert-done k v [] = omega arith
insert-done k v ((j, s) ∷ stats) = elim (Bool-cases (j == k)) [
  | inl e ↦ rw e (omega arith)
  | inr e ↦ let ih = insert-done k v stats in rw e (omega arith)
]

pub insert-count :
    (k : Text) (v : ℕ) (counts : List (Text × ℕ))
    → sum_counts (insert k v counts) + count_or_zero (lookup k counts) ≡ sum_counts counts + v
unfolding insert lookup
insert-count k v [] = omega arith
insert-count k v ((j, s) ∷ counts) = elim (Bool-cases (j == k)) [
  | inl e ↦ rw e (omega arith)
  | inr e ↦ let ih = insert-count k v counts in rw e (omega arith)
]

pub update-one_done :
    (k : Text) (stats : Stats) → sum_done (update one_done k stats) ≡ suc (sum_done stats)
unfolding update
update-one_done k stats =
    let step = insert-done k (one_done (stats_or_new (lookup k stats))) stats in omega arith

pub update-one_cycle :
    (cycle : ℕ) (k : Text) (stats : Stats)
    → sum_done (update (one_cycle cycle) k stats) ≡ sum_done stats
unfolding update
update-one_cycle cycle k stats =
    let step = insert-done k (one_cycle cycle (stats_or_new (lookup k stats))) stats in omega arith

pub increment-count :
    (k : Text) (counts : List (Text × ℕ))
    → sum_counts (increment k counts) ≡ suc (sum_counts counts)
unfolding increment
increment-count k counts =
    let step = insert-count k (suc (count_or_zero (lookup k counts))) counts in omega arith

pub week_of-lt : (b : Board) (t : ℕ) → week_of b t < week_count b
week_of-lt b t =
    let one : 0 < week_count b = at_least_one (((b.now - b.period_start) + (week - 1)) / week) in
    bounded ((t - b.period_start) / week) (week_count b) one
  where
    at_least_one : (n : ℕ) → 0 < (if ltb n 1 then 1 else n)
    at_least_one n = ground arith

    bounded : (w n : ℕ) → 0 < n → (if leb n w then n - 1 else w) < n
    bounded w n h = ground arith
