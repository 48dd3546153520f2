-- ===== src/Telegram/Kanban/Metrics.antt =====
-- `computeKanbanMetrics`.
use jira_bot.Base.{
  ℕ, zero, suc, ◌+◌, ◌-◌, ◌*◌, ◌/◌, Bool, not, ◌&&◌, ltb, leb, List, [], ◌∷◌, ◌++◌, Option, none,
  some, if◌then◌else◌, Text, codes, text_eq, ◌==◌, lookup, insert, take, is_some,
}
use jira_bot.Base.Sorting.{sort}
use jira_bot.Jira.Models.{Status, Issue}
use jira_bot.Telegram.Statuses.{
  Letters, status_category, histories_of, type_name, passes_filter, issue_assignee_name,
}
use jira_bot.Telegram.Kanban.{
  issue_done_time, first_in_progress_time, Span, is_positive, sum_hold_hours,
}

pub record FlowStats : Type 0 where
  pub done : ℕ
  pub cycle_sum : ℕ
  pub cycle_count : ℕ

pub record AgedItem : Type 0 where
  pub key : Text
  pub age : ℕ

abbrev pub Stats : Type 0
Stats = List (Text × FlowStats)

-- With the two sums for the flow efficiency; `flow_eff_pct` is `none` for -1.
pub record Metrics : Type 0 where
  pub throughput : ℕ
  pub weekly : List ℕ
  pub cycle_times : List ℕ
  pub lead_times : List ℕ
  pub wip_by_status : List (Text × ℕ)
  pub wip_total : ℕ
  pub ages : List ℕ
  pub oldest : List AgedItem
  pub total_blocked : ℕ
  pub blocked_count : ℕ
  pub by_type : Stats
  pub by_assignee : Stats
  pub cycle_sum : ℕ
  pub cycle_blocked : Span
  pub flow_eff_pct : Option ℕ

-- The arguments of `computeKanbanMetrics` but for the issues.
pub record Board : Type 0 where
  pub letters : Letters
  pub period_start : ℕ
  pub now : ℕ
  pub filter : List Text
  pub done_statuses : List Text
  pub hold_statuses : List Text
  pub use_custom_assignee : Bool

abbrev pub week : ℕ
week = 7 * 24 * 3600000

-- `ceil` of the weeks of the period, at least 1.
abbrev pub week_count : Board → ℕ
week_count b =
    let weeks = ((b.now - b.period_start) + (week - 1)) / week in if ltb weeks 1 then 1 else weeks

-- `m.weekly[week]++`; `none` is a panic.
unfoldable pub bump : ℕ → List ℕ → Option (List ℕ)
bump n [] = none
bump zero (c ∷ counts) = some (suc c ∷ counts)
bump (suc n) (c ∷ counts) = elim (bump n counts) [ none ↦ none | some counts' ↦ some (c ∷ counts') ]

unfoldable pub zeros : ℕ → List ℕ
zeros zero = []
zeros (suc n) = 0 ∷ zeros n

abbrev pub stats_or_new : Option FlowStats → FlowStats
stats_or_new none = record { done = 0; cycle_sum = 0; cycle_count = 0 }
stats_or_new (some s) = s

abbrev pub one_done : FlowStats → FlowStats
one_done s = record s { done = suc s.done }

abbrev pub one_cycle : ℕ → FlowStats → FlowStats
one_cycle cycle s = record s { cycle_sum = s.cycle_sum + cycle; cycle_count = suc s.cycle_count }

-- `f` on the entry of a key, which is made where there is none.
unfoldable pub update : (FlowStats → FlowStats) → Text → Stats → Stats
update f k stats = insert k (f (stats_or_new (lookup k stats))) stats

abbrev pub week_of : Board → ℕ → ℕ
week_of b done_time =
    let w = (done_time - b.period_start) / week in
    if leb (week_count b) w then week_count b - 1 else w

abbrev plus_span : Span → Span → Span
plus_span a b = record { ends = a.ends + b.ends; starts = a.starts + b.starts }

-- `if blockedH > cycleH { blockedH = cycleH }`
abbrev pub capped : ℕ → Span → Span
capped cycle s = if ltb (s.starts + cycle) s.ends then record { ends = cycle; starts = 0 } else s

abbrev pub with_blocked : Span → Metrics → Metrics
with_blocked s m =
    if is_positive s
    then record m {
      total_blocked = m.total_blocked + (s.ends - s.starts);
      blocked_count = suc m.blocked_count;
    }
    else m

unfoldable pub count_lead : (done_time : ℕ) → Option ℕ → Metrics → Metrics
count_lead done_time none m = m
count_lead done_time (some created) m =
    if ltb created done_time
    then record m { lead_times = m.lead_times ++ (done_time - created) ∷ [] }
    else m

infixl 5 ◌>>=◌
abbrev pub ◌>>=◌ : Option Metrics → (Metrics → Option Metrics) → Option Metrics
none >>= f = none
some m >>= f = f m

abbrev pub status_name : Option Status → Text
status_name none = codes "Other"
status_name (some s) = s.name

abbrev pub count_or_zero : Option ℕ → ℕ
count_or_zero none = 0
count_or_zero (some n) = n

-- `wipByStatus[name]++`
unfoldable pub increment : Text → List (Text × ℕ) → List (Text × ℕ)
increment name counts = insert name (suc (count_or_zero (lookup name counts))) counts

abbrev pub started_or_created : Option ℕ → Option ℕ → Option ℕ
started_or_created none created = created
started_or_created (some t) created = some t

module _ (b : Board) where
  abbrev pub hold_until : Issue → ℕ → Span
  hold_until issue until = sum_hold_hours b.letters (histories_of issue) b.hold_statuses until

  -- The cycle of a done issue, where it was started before it was done.
  unfoldable pub count_cycle : Issue → (done_time : ℕ) → Option ℕ → Metrics → Metrics
  count_cycle issue done_time none m = m
  count_cycle issue done_time (some started) m =
      let cycle = done_time - started in
      if ltb started done_time
      then record m {
        cycle_times = m.cycle_times ++ cycle ∷ [];
        cycle_sum = m.cycle_sum + cycle;
        by_type = update (one_cycle cycle) (type_name issue) m.by_type;
        by_assignee =
            update (one_cycle cycle) (issue_assignee_name issue.fields b.use_custom_assignee)
              m.by_assignee;
        cycle_blocked =
            if is_some issue.changelog
            then plus_span m.cycle_blocked (capped cycle (hold_until issue done_time))
            else m.cycle_blocked;
      }
      else m

  -- Without a changelog there is no hold, and nothing is added.
  unfoldable pub count_blocked : Issue → (until : ℕ) → Metrics → Metrics
  count_blocked issue until m =
      if is_some issue.changelog then with_blocked (hold_until issue until) m else m

  -- The counters, once the week was counted.
  unfoldable pub count_done : Issue → (weekly : List ℕ) → Metrics → Metrics
  count_done issue weekly m = record m {
    throughput = suc m.throughput;
    weekly = weekly;
    by_type = update one_done (type_name issue) m.by_type;
    by_assignee =
        update one_done (issue_assignee_name issue.fields b.use_custom_assignee) m.by_assignee;
  }

  abbrev pub count_rest : Issue → (done_time : ℕ) → Metrics → Metrics
  count_rest issue done_time m = count_blocked issue done_time (
      count_lead done_time issue.fields.created
        (count_cycle issue done_time (first_in_progress_time b.letters issue) m))

  unfoldable pub with_week : Issue → (done_time : ℕ) → Metrics → Option (List ℕ) → Option Metrics
  with_week issue done_time m none = none
  with_week issue done_time m (some weekly) =
      some (count_rest issue done_time (count_done issue weekly m))

  abbrev pub is_in_period : ℕ → Bool
  is_in_period t = not (ltb t b.period_start) && not (ltb b.now t)

  -- From the instant on at which a done issue was done.
  unfoldable pub count_at : Issue → Metrics → Option ℕ → Option Metrics
  count_at issue m none = some m
  count_at issue m (some t) =
      if is_in_period t then with_week issue t m (bump (week_of b t) m.weekly) else some m

  abbrev pub is_done_now : Issue → Bool
  is_done_now issue =
      status_category b.letters issue b.done_statuses b.hold_statuses == codes "done"

  unfoldable pub done_step : Issue → Metrics → Option Metrics
  done_step issue m =
      if passes_filter b.filter issue && is_done_now issue
      then count_at issue m (issue_done_time b.letters issue b.done_statuses)
      else some m

  unfoldable pub done_loop : List Issue → Metrics → Option Metrics
  done_loop [] m = some m
  done_loop (issue ∷ issues) m = done_step issue m >>= done_loop issues

  -- The age since the start of the work, or else since the issue was created.
  unfoldable pub count_age : Issue → Option ℕ → Metrics → Metrics
  count_age issue none m = m
  count_age issue (some started) m =
      let age = b.now - started in
      if ltb started b.now
      then record m {
        ages = m.ages ++ age ∷ [];
        oldest = m.oldest ++ record { key = issue.key; age = age } ∷ [];
      }
      else m

  unfoldable pub wip_step : Issue → Metrics → Metrics
  wip_step issue m =
      if passes_filter b.filter issue && not (is_done_now issue)
      then count_blocked issue b.now (
          count_age issue
            (started_or_created (first_in_progress_time b.letters issue) issue.fields.created)
            (record m {
              wip_by_status = increment (status_name issue.fields.status) m.wip_by_status;
              wip_total = suc m.wip_total;
            }))
      else m

  unfoldable pub wip_loop : List Issue → Metrics → Metrics
  wip_loop [] m = m
  wip_loop (issue ∷ issues) m = wip_loop issues (wip_step issue m)

-- The rounded percentage of the cycle time that was not blocked, at least 0.
abbrev pub flow_efficiency : ℕ → Span → Option ℕ
flow_efficiency cycle blocked =
    if ltb 0 cycle
    then some ((200 * ((cycle + blocked.starts) - blocked.ends) + cycle) / (2 * cycle))
    else none

unfoldable pub reverse_onto : {A : Type 0} → List A → List A → List A
reverse_onto [] ys = ys
reverse_onto (x ∷ xs) ys = reverse_onto xs (x ∷ ys)

abbrev pub oldest_max : ℕ
oldest_max = 5

-- The oldest first; the order of equal ages is not promised in Go.
unfoldable pub keep_oldest : List AgedItem → List AgedItem
keep_oldest items = take oldest_max (reverse_onto (sort (λ i. i.age) items) [])

abbrev pub no_metrics : ℕ → Metrics
no_metrics weeks = record {
  throughput = 0;
  weekly = zeros weeks;
  cycle_times = [];
  lead_times = [];
  wip_by_status = [];
  wip_total = 0;
  ages = [];
  oldest = [];
  total_blocked = 0;
  blocked_count = 0;
  by_type = [];
  by_assignee = [];
  cycle_sum = 0;
  cycle_blocked = record { ends = 0; starts = 0 };
  flow_eff_pct = none;
}

abbrev pub with_wip : Board → List Issue → Option Metrics → Option Metrics
with_wip b wip_issues none = none
with_wip b wip_issues (some m) =
    let m' =
      wip_loop b wip_issues
        (record m { flow_eff_pct = flow_efficiency m.cycle_sum m.cycle_blocked }) in
    some (record m' { oldest = keep_oldest m'.oldest })

-- `none` is a panic.
unfoldable pub compute_kanban_metrics :
    (done_issues wip_issues : List Issue) → Board → Option Metrics
compute_kanban_metrics done_issues wip_issues b =
    with_wip b wip_issues (done_loop b done_issues (no_metrics (week_count b)))
