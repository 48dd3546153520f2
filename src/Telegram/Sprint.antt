-- ===== src/Telegram/Sprint.antt =====
-- internal/telegram/handler_sprint.go: the counters of a sprint's report. Story points and hours are floats
-- (`Base.Floats`); a due date is the instant that is read from it.
pub mod Changes
pub mod Sums
pub mod Summary
pub mod Tallies
pub mod Boards
use jira_bot.Base.{
  ℕ, zero, suc, ◌+◌, ◌-◌, ◌*◌, ◌/◌, Bool, true, false, not, ◌&&◌, ltb, List, [], ◌∷◌, ◌++◌, Option,
  none, some, if◌then◌else◌, Text, codes, text_eq, list_beq, ◌==◌, lookup, insert,
}
use jira_bot.Base.Floats.{Float64, whole, plus, quotient}
use jira_bot.Jira.Models.{JiraUser, IssueFields, Issue}
use jira_bot.Telegram.Statuses.{Letters, status_category, type_name, passes_filter}

pub record IssueStats : Type 0 where
  pub total : ℕ
  pub done : ℕ
  pub in_progress : ℕ
  pub hold : ℕ
  pub todo : ℕ
  pub sp : Float64
  pub sp_done : Float64
  pub time_spent : Float64
  pub time_spent_done : Float64

abbrev pub no_stats : IssueStats
no_stats = record {
  total = 0;
  done = 0;
  in_progress = 0;
  hold = 0;
  todo = 0;
  sp = whole 0;
  sp_done = whole 0;
  time_spent = whole 0;
  time_spent_done = whole 0;
}

abbrev pub StatsMap : Type 0
StatsMap = List (Text × IssueStats)

abbrev hours_of : ℕ → Float64
hours_of zero = whole 0
hours_of (suc secs) = quotient (whole (suc secs)) (whole 3600)

unfoldable pub issue_time_spent : IssueFields → Float64
issue_time_spent f =
    hours_of
      (if ltb f.aggregate_time_spent f.time_spent then f.time_spent else f.aggregate_time_spent)

abbrev pub points : Option Float64 → Float64
points none = whole 0
points (some sp) = sp

pub data Category : Type 0 where
  done in_progress hold todo : Category

-- The cases of `switch cat`.
abbrev pub category_of : Text → Category
category_of cat =
    if cat == codes "done"
    then done
    else if cat == codes "indeterminate"
    then in_progress
    else if cat == codes "hold"
    then hold
    else todo

abbrev pub count_category : Category → (sp spent : Float64) → IssueStats → IssueStats
count_category done sp spent s = record s {
  done = suc s.done;
  sp_done = plus s.sp_done sp;
  time_spent_done = plus s.time_spent_done spent;
}
count_category in_progress sp spent s = record s { in_progress = suc s.in_progress }
count_category hold sp spent s = record s { hold = suc s.hold }
count_category todo sp spent s = record s { todo = suc s.todo }

abbrev pub count_total : (sp spent : Float64) → IssueStats → IssueStats
count_total sp spent s = record s {
  total = suc s.total;
  sp = plus s.sp sp;
  time_spent = plus s.time_spent spent;
}

-- By type and by priority only what is done is told apart.
abbrev pub count_if_done : Category → (sp spent : Float64) → IssueStats → IssueStats
count_if_done done sp spent s = count_category done sp spent s
count_if_done in_progress sp spent s = s
count_if_done hold sp spent s = s
count_if_done todo sp spent s = s

abbrev pub stats_or_none : Option IssueStats → IssueStats
stats_or_none none = no_stats
stats_or_none (some s) = s

unfoldable pub update : (IssueStats → IssueStats) → Text → StatsMap → StatsMap
update f k stats = insert k (f (stats_or_none (lookup k stats))) stats

pub record Tally : Type 0 where
  pub overall : IssueStats
  pub by_type : StatsMap
  pub by_assignee : StatsMap
  pub by_priority : StatsMap
  pub bug_total : ℕ
  pub unestimated : List Text
  pub overdue : List Text

-- The arguments of `formatSprintReport` that the counters depend on; `unassigned` is the text for no assignee.
pub record Report : Type 0 where
  pub letters : Letters
  pub filter : List Text
  pub use_custom_assignee : Bool
  pub done_statuses : List Text
  pub hold_statuses : List Text
  pub today : ℕ
  pub unassigned : Text

abbrev name_or : Text → Option JiraUser → Text
name_or text none = text
name_or text (some u) = u.display_name

abbrev pub assignee_of : Report → IssueFields → Text
assignee_of r f =
    name_or r.unassigned (if r.use_custom_assignee then f.custom_assignee else f.assignee)

abbrev pub priority_name : Option Text → Text
priority_name none = codes "None"
priority_name (some name) = name

abbrev is_past : ℕ → Option ℕ → Bool
is_past today none = false
is_past today (some due) = ltb due today

abbrev is_done : Category → Bool
is_done done = true
is_done in_progress = false
is_done hold = false
is_done todo = false

abbrev is_estimated : Option Float64 → Bool
is_estimated none = false
is_estimated (some sp) = true

abbrev pub category : Report → Issue → Category
category r issue = category_of (status_category r.letters issue r.done_statuses r.hold_statuses)

-- An issue that passes the filter.
unfoldable pub count_filtered : Report → Issue → Tally → Tally
count_filtered r issue t =
    let cat = category r issue in
    let sp = points issue.fields.story_points in
    let spent = issue_time_spent issue.fields in
    record t {
      overall = count_category cat sp spent (count_total sp spent t.overall);
      bug_total =
          if r.letters.equal_fold (type_name issue) (codes "Bug")
          then suc t.bug_total
          else t.bug_total;
      by_priority =
          update (λ s. count_if_done cat sp spent (count_total sp spent s))
            (priority_name issue.fields.priority) t.by_priority;
      unestimated =
          if is_estimated issue.fields.story_points
          then t.unestimated
          else t.unestimated ++ issue.key ∷ [];
      overdue =
          if not (is_done cat) && is_past r.today issue.fields.due_date
          then t.overdue ++ issue.key ∷ []
          else t.overdue;
      by_assignee =
          update (λ s. count_category cat sp spent (count_total sp spent s))
            (assignee_of r issue.fields) t.by_assignee;
    }

unfoldable pub count_issue : Report → Issue → Tally → Tally
count_issue r issue t =
    let cat = category r issue in
    let sp = points issue.fields.story_points in
    let spent = issue_time_spent issue.fields in
    let typed = record t {
      by_type =
          update (λ s. count_if_done cat sp spent (count_total sp spent s)) (type_name issue)
            t.by_type;
    } in
    if passes_filter r.filter issue then count_filtered r issue typed else typed

unfoldable pub count_issues : Report → List Issue → Tally → Tally
count_issues r [] t = t
count_issues r (issue ∷ issues) t = count_issues r issues (count_issue r issue t)

abbrev pub no_tally : Tally
no_tally = record {
  overall = no_stats;
  by_type = [];
  by_assignee = [];
  by_priority = [];
  bug_total = 0;
  unestimated = [];
  overdue = [];
}

-- The counters that `formatSprintReport` prints.
unfoldable pub tally : Report → List Issue → Tally
tally r issues = count_issues r issues no_tally
