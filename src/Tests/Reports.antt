-- ===== src/Tests/Reports.antt =====
-- The reports of a board and a sprint, the scheduled reports, and long messages.
use jira_bot.Base.{
  keep, lookup, ◌/◌, ℕ, ◌+◌, ◌*◌, ◌≤◌, ◌≡◌, true, false, List, [], ◌∷◌, none, some, ◌⊎◌, ◌↔◌, Text,
  codes, pos, int_eq, text_eq, ◌==◌, length, All, arith,
}
use jira_bot.Jira.Models.{ChangeItem, ChangeHistory, IssueFields, Issue}
use jira_bot.Storage.{User, ScheduledReport}
use jira_bot.Locale.{Lang, en}
use jira_bot.Identity.Lease.{found}
use jira_bot.Telegram.Statuses.{Letters}
use jira_bot.Telegram.Kanban.{percentile}
use jira_bot.Telegram.Kanban.Metrics.{Metrics, Board, week, compute_kanban_metrics, oldest_max}
use jira_bot.Telegram.Kanban.Totals.{compute_kanban_metrics-IsBalanced}
use jira_bot.Telegram.Kanban.Counters.{IsBalanced}
use jira_bot.Telegram.Kanban.Durations.{IsRank, percentile-IsNearestRank}
use jira_bot.Telegram.Sprint.{Report, tally, stats_or_none, no_stats}
use jira_bot.Telegram.Sprint.Tallies.{tally-IsTallied}
use jira_bot.Telegram.Sprint.Summary.{summary, is_passed, is_assigned}
use jira_bot.Telegram.Sprint.Sums.{IsTallied, sum_of}
use jira_bot.Telegram.Sprint.Changes.{SprintArgs}
use jira_bot.Base.Floats.{whole}
use jira_bot.Telegram.Messages.{split_from, split, split_message}
use jira_bot.Telegram.Messages.Limits.{split_message-IsWithinLimit}
use jira_bot.Telegram.Messages.Content.{plain, flat, split_message-plain}
use jira_bot.Poller.Jql.{has_prefix}
use jira_bot.Daily.{Search, max_results, build_with_jql}
use jira_bot.Daily.Failure.{build_with_jql-none_iff}
use jira_bot.Scheduler.{Env, publish, send, execute_report}
use jira_bot.Scheduler.Outcome.{IsLanguage, Outcome, message, due, execute_report-Outcome}

-- Texts that are in lower case already.
abbrev letters : Letters
letters = record { to_lower = λ s. s; equal_fold = λ s t. s == t }

abbrev move : (from to : Text) → ChangeItem
move from to = record {
  field = codes "status";
  field_id = [];
  from = [];
  from_string = from;
  to = [];
  to_string = to;
}

abbrev change_at : ℕ → ChangeItem → ChangeHistory
change_at t item = record { author = none; created = some t; items = item ∷ [] }

abbrev to_hold : ChangeItem
to_hold = move (codes "open") (codes "blocked")

abbrev within_hold : ChangeItem
within_hold = move (codes "blocked") (codes "on hold")

-- What exact arithmetic gives.
abbrev ceil_share : ℕ → ℕ → ℕ
ceil_share p n = (p * n + 99) / 100

percentile-IsNearestRank_example :
    IsRank 50 (9 ∷ 3 ∷ 5 ∷ []) (percentile ceil_share (9 ∷ 3 ∷ 5 ∷ []) 50)
percentile-IsNearestRank_example =
    percentile-IsNearestRank ceil_share 9 (3 ∷ 5 ∷ []) 50 (omega arith) (omega arith, omega arith)

abbrev fields : IssueFields
fields = record {
  summary = codes "Bug";
  status = some (record { name = codes "done"; category = some (codes "done") });
  priority = none;
  assignee = none;
  reporter = none;
  issue_type = none;
  created = some 5;
  updated = some (week + 7);
  story_points = some (whole 3);
  custom_assignee = none;
  due_date = none;
  time_spent = 60;
  aggregate_time_spent = 0;
}

abbrev done_issue : Issue
done_issue = record { key = codes "A-1"; fields = fields; changelog = none }

abbrev open_issue : Issue
open_issue = record {
  key = codes "A-2";
  fields = record fields { status = some (record { name = codes "in progress"; category = none }) };
  changelog = some (change_at 9 to_hold ∷ []);
}

abbrev board : Board
board = record {
  letters = letters;
  period_start = 7;
  now = 2 * week + 7;
  filter = [];
  done_statuses = [];
  hold_statuses = [];
  use_custom_assignee = false;
}

compute_kanban_metrics-IsBalanced_example :
    (m : Metrics) × ((compute_kanban_metrics (done_issue ∷ []) (open_issue ∷ []) board ≡ some m)
      × (IsBalanced board m × (length m.oldest ≤ oldest_max)))
compute_kanban_metrics-IsBalanced_example =
    compute_kanban_metrics-IsBalanced (done_issue ∷ []) (open_issue ∷ []) board

abbrev sprint : Report
sprint = record {
  letters = letters;
  filter = [];
  use_custom_assignee = false;
  done_statuses = [];
  hold_statuses = [];
  today = 100;
  unassigned = codes "nobody";
}

abbrev both_issues : List Issue
both_issues = done_issue ∷ open_issue ∷ []

tally-IsTallied_example :
    IsTallied (tally sprint both_issues)
    × (sum_of (λ s. s.total) (tally sprint both_issues).by_type ≡ 2)
    × ((tally sprint both_issues).overall
        ≡ summary sprint (keep (is_passed sprint) both_issues) no_stats)
    × ((a : Text)
        → stats_or_none (lookup a (tally sprint both_issues).by_assignee)
          ≡ summary sprint (keep (is_assigned sprint a) both_issues) no_stats)
tally-IsTallied_example = tally-IsTallied sprint both_issues

abbrev args : SprintArgs
args = record {
  letters = letters;
  sprint_name = codes "S1";
  sprint_start = 50;
  filter = [];
  done_statuses = [];
  hold_statuses = [];
  now = 100;
}

abbrev long_text : Text
long_text = 97 ∷ 98 ∷ 10 ∷ 10 ∷ 99 ∷ 10 ∷ 100 ∷ 101 ∷ 10 ∷ 102 ∷ []

split_message-IsWithinLimit_example : All (λ part. length part ≤ 3) (split_message long_text 3)
unfolding split split_from has_prefix
split_message-IsWithinLimit_example =
    split_message-IsWithinLimit long_text 3
      ((omega arith, tt), ((omega arith, (omega arith, (omega arith, tt))), tt))

split_message-plain_example :
    plain (flat (split_message long_text 3)) ≡ 97 ∷ 98 ∷ 99 ∷ 100 ∷ 101 ∷ 102 ∷ []
split_message-plain_example = split_message-plain long_text 3

abbrev reader : User
reader = record {
  telegram_user_id = pos 7;
  access_token = codes "t";
  refresh_token = [];
  token_expires_at = 0;
  jira_cloud_id = [];
  jira_site_url = [];
  jira_account_id = [];
  jira_display_name = [];
  language = codes "en";
  calendar_url = [];
  calendar_reminder_minutes = 0;
  calendar_last_fetched_at = 0;
  daily_done_jql = [];
  daily_doing_jql = [];
  daily_plan_jql = [];
  default_project = [];
  default_board_id = pos 0;
  default_issue_type_id = [];
  default_issue_type_name = [];
  sprint_issue_types = [];
  assignee_field_id = [];
  story_points_field_id = [];
  done_statuses = [];
  hold_statuses = [];
}

abbrev no_search : Search
no_search user jql n = none

abbrev no_plan : Text
no_plan = []

build_with_jql-none_iff_example :
    (build_with_jql (λ l key. key) no_search reader en [] (codes "a") (codes "b") no_plan ≡ none)
    ↔ ((no_search reader (codes "a") max_results ≡ none)
        × ((no_search reader (codes "b") max_results ≡ none)
            × ((no_plan ≡ []) ⊎ (no_search reader no_plan max_results ≡ none))))
build_with_jql-none_iff_example =
    build_with_jql-none_iff (λ l key. key) no_search reader en [] (codes "a") (codes "b") no_plan

abbrev schedule : ScheduledReport
schedule = record {
  id = codes "r";
  telegram_chat_id = pos 7;
  telegram_user_id = pos 7;
  cron_expression = codes "* * * * *";
  jql = codes "x";
  report_name = codes "Open";
  kind = codes "jql";
  timezone = [];
  is_active = true;
}

abbrev fire : Env
fire = record {
  t = λ l key args. key;
  search = no_search;
  first_read = found reader;
  second_read = found reader;
  yesterday = [];
  now = 5;
}

execute_report-Outcome_example :
    (lang : Lang) × (text : Text) × (what : Text) × (reason : Text) × IsLanguage (found reader) lang
    × Outcome fire schedule lang text what reason
    × (execute_report fire schedule
        ≡ publish (due fire schedule) ∷ send (message fire schedule text what reason) ∷ [])
execute_report-Outcome_example = execute_report-Outcome fire schedule
