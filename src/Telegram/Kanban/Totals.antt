-- ===== src/Telegram/Kanban/Totals.antt =====
-- The counters of a board's metrics agree.
use jira_bot.Base.{
  ℕ, zero, suc, ◌-◌, ◌≤◌, ◌<◌, ◌≡◌, refl, sym, ap, subst, ◌∙◌, not, ◌&&◌, ltb, List, [], ◌∷◌,
  Option, none, some, text_eq, length, length-take-le, arith, if_either, is_some,
}
use jira_bot.Jira.Models.{Issue}
use jira_bot.Telegram.Statuses.{type_name, issue_assignee_name, passes_filter}
use jira_bot.Telegram.Kanban.{issue_done_time, first_in_progress_time, Span, is_positive}
use jira_bot.Telegram.Kanban.Metrics.{
  Metrics, Board, week_count, zeros, week_of, with_blocked, count_cycle, count_lead, count_blocked,
  count_done, with_week, is_in_period, count_at, is_done_now, done_step, done_loop, count_age,
  wip_step, wip_loop, keep_oldest, oldest_max, no_metrics, compute_kanban_metrics, hold_until,
  status_name, started_or_created,
}
use jira_bot.Telegram.Kanban.Counters.{
  sum, sum_done, sum_counts, IsBalanced, bump-some, update-one_done, update-one_cycle,
  increment-count, week_of-lt,
}

module _ (b : Board) where
  count_cycle-IsBalanced :
      (issue : Issue) (t : ℕ) (o : Option ℕ) (m : Metrics)
      → IsBalanced b m
      → IsBalanced b (count_cycle b issue t o m)
  unfolding count_cycle
  count_cycle-IsBalanced issue t none m ok = ok
  count_cycle-IsBalanced issue t (some started) m ok =
      if_either (IsBalanced b) (ltb started t)
        (record {
          weeks = ok.weeks;
          by_week = ok.by_week;
          by_type = update-one_cycle (t - started) (type_name issue) m.by_type ∙ ok.by_type;
          by_assignee =
              update-one_cycle (t - started)
                (issue_assignee_name issue.fields b.use_custom_assignee) m.by_assignee
              ∙ ok.by_assignee;
          by_status = ok.by_status;
        })
        ok

  same_counters :
      (m m' : Metrics)
      → IsBalanced b m
      → m'.throughput ≡ m.throughput
      → m'.weekly ≡ m.weekly
      → m'.by_type ≡ m.by_type
      → m'.by_assignee ≡ m.by_assignee
      → m'.wip_by_status ≡ m.wip_by_status
      → m'.wip_total ≡ m.wip_total
      → IsBalanced b m'
  same_counters m m' ok t w bt ba ws wt = record {
    weeks = ap length w ∙ ok.weeks;
    by_week = ap sum w ∙ ok.by_week ∙ sym t;
    by_type = ap sum_done bt ∙ ok.by_type ∙ sym t;
    by_assignee = ap sum_done ba ∙ ok.by_assignee ∙ sym t;
    by_status = ap sum_counts ws ∙ ok.by_status ∙ sym wt;
  }

  count_lead-IsBalanced :
      (t : ℕ) (o : Option ℕ) (m : Metrics) → IsBalanced b m → IsBalanced b (count_lead t o m)
  unfolding count_lead
  count_lead-IsBalanced t none m ok = ok
  count_lead-IsBalanced t (some created) m ok =
      if_either (IsBalanced b) (ltb created t) (same_counters m _ ok refl refl refl refl refl refl)
        ok

  with_blocked-IsBalanced :
      (s : Span) (m : Metrics) → IsBalanced b m → IsBalanced b (with_blocked s m)
  with_blocked-IsBalanced s m ok =
      if_either (IsBalanced b) (is_positive s) (same_counters m _ ok refl refl refl refl refl refl)
        ok

  count_blocked-IsBalanced :
      (issue : Issue) (t : ℕ) (m : Metrics)
      → IsBalanced b m
      → IsBalanced b (count_blocked b issue t m)
  unfolding count_blocked
  count_blocked-IsBalanced issue t m ok =
      if_either (IsBalanced b) (is_some issue.changelog)
        (with_blocked-IsBalanced (hold_until b issue t) m ok) ok

  count_done-IsBalanced :
      (issue : Issue) (weekly : List ℕ) (m : Metrics)
      → length weekly ≡ length m.weekly
      → sum weekly ≡ suc (sum m.weekly)
      → IsBalanced b m
      → IsBalanced b (count_done b issue weekly m)
  unfolding count_done
  count_done-IsBalanced issue weekly m same more ok = record {
    weeks = same ∙ ok.weeks;
    by_week = more ∙ ap suc ok.by_week;
    by_type = update-one_done (type_name issue) m.by_type ∙ ap suc ok.by_type;
    by_assignee =
        update-one_done (issue_assignee_name issue.fields b.use_custom_assignee) m.by_assignee
        ∙ ap suc ok.by_assignee;
    by_status = ok.by_status;
  }

  -- A step returns, with counters that agree.
  abbrev Returns : Option Metrics → Type 0
  Returns o = (m : Metrics) × ((o ≡ some m) × IsBalanced b m)

  count_at-Returns :
      (issue : Issue) (m : Metrics) (o : Option ℕ) → IsBalanced b m → Returns (count_at b issue m o)
  unfolding count_at with_week
  count_at-Returns issue m none ok = (m, (refl, ok))
  count_at-Returns issue m (some t) ok =
      let (weekly, (e, (same, more))) =
        bump-some (week_of b t) m.weekly
          (subst (λ n. week_of b t < n) (sym ok.weeks) (week_of-lt b t)) in
      if_either Returns (is_in_period b t)
        (rw e (
          _,
          (
            refl,
            count_blocked-IsBalanced issue t _ (
                count_lead-IsBalanced t issue.fields.created _ (
                  count_cycle-IsBalanced issue t (first_in_progress_time b.letters issue) _
                    (count_done-IsBalanced issue weekly m same more ok))),
          ),
        ))
        (m, (refl, ok))

  done_loop-Returns :
      (issues : List Issue) (m : Metrics) → IsBalanced b m → Returns (done_loop b issues m)
  unfolding done_loop done_step
  done_loop-Returns [] m ok = (m, (refl, ok))
  done_loop-Returns (issue ∷ issues) m ok =
      let (m', (e, ok')) =
        if_either Returns (passes_filter b.filter issue && is_done_now b issue)
          (count_at-Returns issue m (issue_done_time b.letters issue b.done_statuses) ok)
          (m, (refl, ok)) in
      rw e (done_loop-Returns issues m' ok')

  count_age-IsBalanced :
      (issue : Issue) (o : Option ℕ) (m : Metrics)
      → IsBalanced b m
      → IsBalanced b (count_age b issue o m)
  unfolding count_age
  count_age-IsBalanced issue none m ok = ok
  count_age-IsBalanced issue (some t) m ok =
      if_either (IsBalanced b) (ltb t b.now) (same_counters m _ ok refl refl refl refl refl refl) ok

  wip_loop-IsBalanced :
      (issues : List Issue) (m : Metrics) → IsBalanced b m → IsBalanced b (wip_loop b issues m)
  unfolding wip_loop wip_step
  wip_loop-IsBalanced [] m ok = ok
  wip_loop-IsBalanced (issue ∷ issues) m ok = wip_loop-IsBalanced issues _ (
      if_either (IsBalanced b) (passes_filter b.filter issue && not (is_done_now b issue))
        (count_blocked-IsBalanced issue b.now _ (
          count_age-IsBalanced issue
            (started_or_created (first_in_progress_time b.letters issue) issue.fields.created) _
            (record {
              weeks = ok.weeks;
              by_week = ok.by_week;
              by_type = ok.by_type;
              by_assignee = ok.by_assignee;
              by_status =
                  increment-count (status_name issue.fields.status) m.wip_by_status
                  ∙ ap suc ok.by_status;
            })))
        ok)

sum-zeros : (n : ℕ) → sum (zeros n) ≡ 0
unfolding zeros
sum-zeros zero = refl
sum-zeros (suc n) = let ih = sum-zeros n in omega arith

length-zeros : (n : ℕ) → length (zeros n) ≡ n
unfolding zeros
length-zeros zero = refl
length-zeros (suc n) = ap suc (length-zeros n)

-- The metrics of a board are always computed: no issue falls outside the weeks of the period. The throughput is the
-- sum of the weeks, the sum over the types and the sum over the assignees, the number of issues in progress is the sum
-- over the statuses, and at most five oldest issues are listed.
pub compute_kanban_metrics-IsBalanced :
    (done_issues wip_issues : List Issue) (b : Board)
    → (m : Metrics) × ((compute_kanban_metrics done_issues wip_issues b ≡ some m)
        × (IsBalanced b m × (length m.oldest ≤ oldest_max)))
unfolding compute_kanban_metrics keep_oldest
compute_kanban_metrics-IsBalanced done_issues wip_issues b =
    let (m, (e, ok)) = done_loop-Returns b done_issues (no_metrics (week_count b)) (record {
      weeks = length-zeros (week_count b);
      by_week = sum-zeros (week_count b);
      by_type = refl;
      by_assignee = refl;
      by_status = refl;
    }) in
    let ok' =
      wip_loop-IsBalanced b wip_issues _ (same_counters b m _ ok refl refl refl refl refl refl) in
    rw e (
      _,
      (refl, (same_counters b _ _ ok' refl refl refl refl refl refl, length-take-le oldest_max _)),
    )
