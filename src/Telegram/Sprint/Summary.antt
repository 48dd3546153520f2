-- ===== src/Telegram/Sprint/Summary.antt =====
-- The counters of a sprint's report, each from the issues that it counts.
use jira_bot.Base.{
  ==_iff, Bool, true, false, ◌&&◌, ◌==◌, keep, Bool-cases, inl, inr, lookup-insert, ◌≡◌, refl, ap,
  ◌∙◌, List, [], ◌∷◌, Text, text_eq, lookup,
}
use jira_bot.Jira.Models.{Issue}
use jira_bot.Telegram.Statuses.{passes_filter}
use jira_bot.Telegram.Sprint.{
  Category, done, in_progress, hold, todo, IssueStats, count_category, count_total, stats_or_none,
  update, Tally, Report, assignee_of, category, count_filtered, count_issue, count_issues, points,
  issue_time_spent,
}
use jira_bot.Telegram.Sprint.Sums.{count_if, sum_if}

-- The counters of the issues in a list, one after the other.
abbrev pub stats_of : Report → List Issue → IssueStats → IssueStats
stats_of r [] s = s
stats_of r (issue ∷ issues) s = stats_of r issues (
    count_category (category r issue) (points issue.fields.story_points)
      (issue_time_spent issue.fields)
      (count_total (points issue.fields.story_points) (issue_time_spent issue.fields) s))

abbrev pub is_passed : Report → Issue → Bool
is_passed r issue = passes_filter r.filter issue

abbrev pub is_assigned : Report → Text → Issue → Bool
is_assigned r a issue = passes_filter r.filter issue && assignee_of r issue.fields == a

pub stats-overall :
    (r : Report) (issues : List Issue) (t : Tally)
    → (count_issues r issues t).overall ≡ stats_of r (keep (is_passed r) issues) t.overall
unfolding count_issues count_issue count_filtered
stats-overall r [] t = refl
stats-overall r (issue ∷ issues) t = elim (Bool-cases (passes_filter r.filter issue)) [
  | inl e ↦ rw (stats-overall r issues (count_issue r issue t), e) refl
  | inr e ↦ rw (stats-overall r issues (count_issue r issue t), e) refl
]

pub stats-assignee :
    (r : Report) (a : Text) (issues : List Issue) (t : Tally)
    → stats_or_none (lookup a (count_issues r issues t).by_assignee)
      ≡ stats_of r (keep (is_assigned r a) issues) (stats_or_none (lookup a t.by_assignee))
unfolding count_issues count_issue count_filtered update
stats-assignee r a [] t = refl
stats-assignee r a (issue ∷ issues) t =
    let ih = stats-assignee r a issues (count_issue r issue t) in
    let k = assignee_of r issue.fields in
    let g : IssueStats → IssueStats = λ s.
      count_category (category r issue) (points issue.fields.story_points)
        (issue_time_spent issue.fields)
        (count_total (points issue.fields.story_points) (issue_time_spent issue.fields) s) in
    let inserted = lookup-insert k a (g (stats_or_none (lookup k t.by_assignee))) t.by_assignee in
    elim (Bool-cases (passes_filter r.filter issue)) [
      | inr e ↦ rw (ih, e) refl
      | inl e ↦ elim (Bool-cases (k == a)) [
        | inl same ↦
            rw (ih, e, inserted, same)
              (ap
                (λ n.
                  stats_of r (keep (is_assigned r a) issues)
                    (g (stats_or_none (lookup n t.by_assignee))))
                ((==_iff k a).0 same))
        | inr other ↦ rw (ih, e, inserted, other) refl
      ]
    ]

abbrev same_category : Category → Category → Bool
same_category done done = true
same_category in_progress in_progress = true
same_category hold hold = true
same_category todo todo = true
same_category _ _ = false

-- The counters of a list of issues, each on its own: numbers of issues, and points and hours in the order of the list.
abbrev pub summary : Report → List Issue → IssueStats → IssueStats
summary r issues s =
    let is_in = λ (c : Category) (issue : Issue). same_category c (category r issue) in
    let sp = λ (issue : Issue). points issue.fields.story_points in
    let spent = λ (issue : Issue). issue_time_spent issue.fields in
    record {
      total = count_if (λ issue. true) issues s.total;
      done = count_if (is_in done) issues s.done;
      in_progress = count_if (is_in in_progress) issues s.in_progress;
      hold = count_if (is_in hold) issues s.hold;
      todo = count_if (is_in todo) issues s.todo;
      sp = sum_if (λ issue. true) sp issues s.sp;
      sp_done = sum_if (is_in done) sp issues s.sp_done;
      time_spent = sum_if (λ issue. true) spent issues s.time_spent;
      time_spent_done = sum_if (is_in done) spent issues s.time_spent_done;
    }

pub stats_of_lem :
    (r : Report) (issues : List Issue) (s : IssueStats) → stats_of r issues s ≡ summary r issues s
stats_of_lem r [] s = refl
stats_of_lem r (issue ∷ issues) s =
    let next = λ (c : Category).
      count_category c (points issue.fields.story_points) (issue_time_spent issue.fields)
        (count_total (points issue.fields.story_points) (issue_time_spent issue.fields) s) in
    stats_of_lem r issues (next (category r issue)) ∙ step (category r issue) refl
  where
    step :
        (c : Category)
        → category r issue ≡ c
        → summary r issues (
            count_category c
              (points issue.fields.story_points)
              (issue_time_spent issue.fields)
              (count_total (points issue.fields.story_points) (issue_time_spent issue.fields) s))
          ≡ summary r (issue ∷ issues) s
    step done e = rw e refl
    step in_progress e = rw e refl
    step hold e = rw e refl
    step todo e = rw e refl
