-- ===== src/Tests/Polling.antt =====
-- The poll of a user's subscriptions, and the scan of comments.
use jira_bot.Base.{
  zero, suc, ◌≢◌, All, take, inr, ℕ, ◌+◌, ◌≡◌, refl, false, List, [], ◌∷◌, Option, none, some,
  arith, Text, pos, text_eq, nat_beq, if◌then◌else◌, int_eq, lookup, codes,
}
use jira_bot.Jira.Adf.{node, Nodes, nil, cons}
use jira_bot.Jira.Models.{IssueFields, Issue, Comment}
use jira_bot.Storage.{my_new_issues, Subscription, User}
use jira_bot.Poller.Changes.{comment_activity_time}
use jira_bot.Poller.Pending.{pending_key}
use jira_bot.Poller.Mentions.{
  CommentsResponse, in_window, any_in_window, matches, find_recent_mention_comments,
}
use jira_bot.Poller.Mentions.Pages.{find-run}
use jira_bot.Poller.Cycle.{SearchAnswer, poll_subs, found, Cycle, no_counts, process_issues}
use jira_bot.Poller.Cycle.Accounting.{total, process_issues-total, overflow_is_lost}

abbrev fields : IssueFields
fields = record {
  summary = codes "Fix";
  status = none;
  priority = none;
  assignee = none;
  reporter = none;
  issue_type = none;
  created = none;
  updated = some 5000;
  story_points = none;
  custom_assignee = none;
  due_date = none;
  time_spent = 0;
  aggregate_time_spent = 0;
}

abbrev issue : Text → Issue
issue key = record { key = key; fields = fields; changelog = none }

abbrev user : User
user = record {
  telegram_user_id = pos 7;
  access_token = codes "t";
  refresh_token = codes "r";
  token_expires_at = 0;
  jira_cloud_id = [];
  jira_site_url = codes "https://x";
  jira_account_id = codes "u1";
  jira_display_name = codes "Me";
  language = codes "en";
  calendar_url = [];
  calendar_reminder_minutes = 0;
  calendar_last_fetched_at = 0;
  daily_done_jql = [];
  daily_doing_jql = [];
  daily_plan_jql = [];
  default_project = [];
  default_board_id = pos 0;
  default_issue_type_id = [];
  default_issue_type_name = [];
  sprint_issue_types = [];
  assignee_field_id = [];
  story_points_field_id = [];
  done_statuses = [];
  hold_statuses = [];
}

abbrev sub : Subscription
sub = record {
  id = codes "s1";
  telegram_chat_id = pos 7;
  telegram_user_id = pos 7;
  subscription_type = my_new_issues;
  jira_project_key = [];
  jira_issue_key = [];
  jira_filter_jql = [];
  last_polled_at = 3;
}

abbrev no_mentions : Text → ℕ → List Comment
no_mentions key since = []

abbrev start : Cycle
start = record { pending = []; notified = []; emitted = []; polled = []; disconnected = false }

process_issues-total_example :
    total
      (process_issues user no_mentions 10000 sub 3
        (issue (codes "A-1") ∷ issue (codes "A-1") ∷ [])
        (start, no_counts)).1
    ≡ 0 + 2
process_issues-total_example =
    process_issues-total user no_mentions 10000 sub 3
      (issue (codes "A-1") ∷ issue (codes "A-1") ∷ []) (start, no_counts)

-- As many copies of one issue, and then another.
abbrev and_then : ℕ → Issue → Issue → List Issue
and_then zero i j = j ∷ []
and_then (suc n) i j = i ∷ and_then n i j

take-and_then : (P : Issue → Type 0) (n : ℕ) (i j : Issue) → P i → All P (take n (and_then n i j))
take-and_then P zero i j p = tt
take-and_then P (suc n) i j p = (p, take-and_then P n i j p)

abbrev many : List Issue
many = and_then 50 (issue (codes "A-1")) (issue (codes "B-2"))

abbrev first_of : List Issue → Subscription → ℕ → ℕ → SearchAnswer
first_of issues s since max = found (take max issues)

abbrev any_query : Subscription → Text
any_query s = codes "x"

overflow_is_lost_example :
    (first : Cycle) × (second : Cycle) × (first
      ≡ poll_subs user no_mentions 10000 (first_of many) any_query 5 9 (sub ∷ []) start)
    × (second
        ≡ poll_subs user no_mentions 10000
            (first_of (issue (codes "B-2") ∷ []))
            any_query
            5
            20
            (record sub { last_polled_at = 9 } ∷ [])
            first)
    × (lookup (codes "s1") first.polled ≡ some 9)
    × (lookup (pending_key (pos 7) (codes "B-2")) first.pending
        ≡ lookup (pending_key (pos 7) (codes "B-2")) start.pending)
    × (lookup (pending_key (pos 7) (codes "B-2")) second.pending
        ≡ lookup (pending_key (pos 7) (codes "B-2")) start.pending)
overflow_is_lost_example =
    overflow_is_lost user no_mentions 10000 (first_of many) (first_of (issue (codes "B-2") ∷ []))
      any_query 5 9 20 sub many (issue (codes "B-2") ∷ []) start (codes "B-2") (omega arith) refl
      refl (λ since max. refl) (λ since. refl)
      (take-and_then (λ i. i.key ≢ codes "B-2") 50 (issue (codes "A-1")) (issue (codes "B-2"))
        (λ e. ground arith))
      (inr (5000, refl, omega arith), tt)

abbrev mention_of_me : Nodes
mention_of_me = cons (node (codes "mention") [] (some (codes "u1")) none nil) nil

abbrev comment : Text → ℕ → ℕ → Comment
comment id created updated = record {
  id = id;
  body = some mention_of_me;
  author = none;
  created = some created;
  updated = some updated;
}

abbrev page : ℕ → ℕ → List Comment → CommentsResponse
page start_at total comments = record { start_at = start_at; total = total; comments = comments }

-- One page with two comments, one of them in the window.
abbrev one_page : ℕ → Option CommentsResponse
one_page n =
    if nat_beq n 0
    then some (page 0 2 (comment (codes "2") 6000 6000 ∷ comment (codes "1") 1000 1000 ∷ []))
    else none

find-run_example :
    find_recent_mention_comments one_page 5 (codes "u1")
    ≡ matches 5 (codes "u1") (comment (codes "2") 6000 6000 ∷ comment (codes "1") 1000 1000 ∷ [])
unfolding any_in_window in_window comment_activity_time
find-run_example =
    find-run one_page 5 (codes "u1")
      (page 0 2 (comment (codes "2") 6000 6000 ∷ comment (codes "1") 1000 1000 ∷ []) ∷ [])
      (λ e. ground arith) (omega arith) (refl, refl, omega arith)

-- A quiet first page, and an edited comment on the second.
abbrev two_pages : ℕ → Option CommentsResponse
two_pages n =
    if nat_beq n 0
    then some (page 0 51 (comment (codes "9") 2000 2000 ∷ []))
    else if nat_beq n 50
    then some (page 50 51 (comment (codes "1") 1000 7000 ∷ []))
    else none
