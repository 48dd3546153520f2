-- ===== src/Telegram/Sprint/Tallies.antt =====
-- The counters of a sprint's report agree.
use jira_bot.Base.{
  keep, ◌+◌, ◌≡◌, refl, sym, ap, ◌∙◌, List, [], ◌∷◌, Option, none, some, Text, text_eq, lookup,
  arith, if_either, All, All-insert, All-lookup, length,
}
use jira_bot.Jira.Models.{Issue}
use jira_bot.Telegram.Statuses.{type_name, passes_filter}
use jira_bot.Telegram.Sprint.{
  IssueStats, StatsMap, count_total, count_if_done, stats_or_none, update, Tally, Report,
  assignee_of, priority_name, category, count_filtered, count_issue, count_issues, no_tally, tally,
  points, issue_time_spent, no_stats,
}
use jira_bot.Telegram.Sprint.Summary.{
  is_passed, is_assigned, stats-overall, stats-assignee, summary, stats_of_lem,
}
use jira_bot.Telegram.Sprint.Sums.{
  sum_of, IsSplit, IsTallied, count-IsSplit, update-sum, one_if_done, category-done, category-total,
  if_done-done, if_done-total,
}

no_stats-IsSplit : IsSplit no_stats
no_stats-IsSplit = record { categories = refl }

abbrev Splits : Text × IssueStats → Type 0
Splits p = IsSplit p.1

lookup-IsSplit :
    (k : Text) (stats : StatsMap) → All Splits stats → IsSplit (stats_or_none (lookup k stats))
lookup-IsSplit k stats ok = by_lookup (lookup k stats) (λ s e. All-lookup Splits k s stats ok e)
  where
    by_lookup :
        (o : Option IssueStats)
        → ((s : IssueStats) → o ≡ some s → IsSplit s)
        → IsSplit (stats_or_none o)
    by_lookup none h = no_stats-IsSplit
    by_lookup (some s) h = h s refl

update-IsSplit :
    (g : IssueStats → IssueStats) (k : Text) (stats : StatsMap)
    → ((s : IssueStats) → IsSplit s → IsSplit (g s))
    → All Splits stats
    → All Splits (update g k stats)
unfolding update
update-IsSplit g k stats keeps ok =
    All-insert Splits k (g (stats_or_none (lookup k stats))) stats
      (keeps (stats_or_none (lookup k stats)) (lookup-IsSplit k stats ok)) ok

count_filtered-IsTallied :
    (r : Report) (issue : Issue) (t : Tally) → IsTallied t → IsTallied (count_filtered r issue t)
unfolding count_filtered
count_filtered-IsTallied r issue t ok =
    let c = category r issue in
    let sp = points issue.fields.story_points in
    let spent = issue_time_spent issue.fields in
    let a = assignee_of r issue.fields in
    let p = priority_name issue.fields.priority in
    record {
      overall = count-IsSplit c sp spent t.overall ok.overall;
      assignees = update-IsSplit _ a t.by_assignee (count-IsSplit c sp spent) ok.assignees;
      total_by_assignee =
          update-sum (λ s. s.total) _ 1 a t.by_assignee refl (category-total sp spent c)
          ∙ ap (λ n. n + 1) ok.total_by_assignee
          ∙ sym (category-total sp spent c t.overall);
      done_by_assignee =
          update-sum (λ s. s.done) _ (one_if_done c) a t.by_assignee refl (category-done sp spent c)
          ∙ ap (λ n. n + one_if_done c) ok.done_by_assignee
          ∙ sym (category-done sp spent c t.overall);
      total_by_priority =
          update-sum (λ s. s.total) _ 1 p t.by_priority refl (if_done-total sp spent c)
          ∙ ap (λ n. n + 1) ok.total_by_priority
          ∙ sym (category-total sp spent c t.overall);
      done_by_priority =
          update-sum (λ s. s.done) _ (one_if_done c) p t.by_priority refl (if_done-done sp spent c)
          ∙ ap (λ n. n + one_if_done c) ok.done_by_priority
          ∙ sym (category-done sp spent c t.overall);
    }

count_issues-IsTallied :
    (r : Report) (issues : List Issue) (t : Tally)
    → IsTallied t
    → IsTallied (count_issues r issues t)
unfolding count_issues count_issue
count_issues-IsTallied r [] t ok = ok
count_issues-IsTallied r (issue ∷ issues) t ok =
    let typed : Tally = record t {
      by_type =
          update
            (λ s.
              count_if_done (category r issue) (points issue.fields.story_points)
                (issue_time_spent issue.fields)
                (count_total (points issue.fields.story_points) (issue_time_spent issue.fields) s))
            (type_name issue) t.by_type;
    } in
    let same : IsTallied typed = record {
      overall = ok.overall;
      assignees = ok.assignees;
      total_by_assignee = ok.total_by_assignee;
      done_by_assignee = ok.done_by_assignee;
      total_by_priority = ok.total_by_priority;
      done_by_priority = ok.done_by_priority;
    } in
    count_issues-IsTallied r issues _ (
      if_either IsTallied (passes_filter r.filter issue)
        (count_filtered-IsTallied r issue typed same) same)

-- The type map counts every issue, also those that the filter leaves out.
count_issues-total :
    (r : Report) (issues : List Issue) (t : Tally)
    → sum_of (λ s. s.total) (count_issues r issues t).by_type
      ≡ sum_of (λ s. s.total) t.by_type + length issues
unfolding count_issues count_issue count_filtered
count_issues-total r [] t = omega arith
count_issues-total r (issue ∷ issues) t =
    let c = category r issue in
    let sp = points issue.fields.story_points in
    let spent = issue_time_spent issue.fields in
    let ih = count_issues-total r issues (count_issue r issue t) in
    let step =
      update-sum (λ s. s.total) (λ s. count_if_done c sp spent (count_total sp spent s)) 1
        (type_name issue) t.by_type refl (if_done-total sp spent c) in
    let same : sum_of (λ s. s.total) (count_issue r issue t).by_type
        ≡ sum_of (λ s. s.total) t.by_type + 1 =
      if_either
        (λ (u : Tally). sum_of (λ s. s.total) u.by_type ≡ sum_of (λ s. s.total) t.by_type + 1)
        (passes_filter r.filter issue) step step in
    omega (arith, ih, same)

-- In the counters of a sprint's report every issue counts in exactly one category, overall and for each assignee; the
-- issues and the done issues of the assignees add up to those of the sprint, as do those of the priorities; and the types
-- count every issue, filtered or not. The counters of the sprint, with its points and hours in the order of the
-- operations, are those of the issues that pass the filter, and those of an assignee are those of the assignee's own
-- issues among them.
pub tally-IsTallied :
    (r : Report) (issues : List Issue)
    → IsTallied (tally r issues)
      × (sum_of (λ s. s.total) (tally r issues).by_type ≡ length issues)
      × ((tally r issues).overall ≡ summary r (keep (is_passed r) issues) no_stats)
      × ((a : Text)
          → stats_or_none (lookup a (tally r issues).by_assignee)
            ≡ summary r (keep (is_assigned r a) issues) no_stats)
unfolding tally lookup
tally-IsTallied r issues = (
  count_issues-IsTallied r issues no_tally (record {
    overall = no_stats-IsSplit;
    assignees = tt;
    total_by_assignee = refl;
    done_by_assignee = refl;
    total_by_priority = refl;
    done_by_priority = refl;
  }),
  (let h = count_issues-total r issues no_tally in omega arith),
  stats-overall r issues no_tally ∙ stats_of_lem r (keep (is_passed r) issues) no_stats,
  λ a. stats-assignee r a issues no_tally ∙ stats_of_lem r (keep (is_assigned r a) issues) no_stats,
)
