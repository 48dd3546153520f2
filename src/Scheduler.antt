-- ===== src/Scheduler.antt =====
-- internal/scheduler/scheduler.go: what happens when the cron fires. The messages' tables, `fmt.Sprintf`,
-- and what Mongo, Jira and the clock answer are arguments; the clock is in seconds.
pub mod Outcome
use jira_bot.Base.{
  ℕ, zero, suc, ◌+◌, ◌-◌, Bool, true, false, ltb, List, [], ◌∷◌, ◌++◌, Option, none, some,
  if◌then◌else◌, Text, codes, ℤ, pos, text_eq, list_beq, ◌==◌, length,
}
use jira_bot.Base.Decimal.{decimal}
use jira_bot.Format.{escape_markdown}
use jira_bot.Jira.Models.{Issue, Status}
use jira_bot.Locale.{Lang, default_lang, from_text}
use jira_bot.Notifier.{Request}
use jira_bot.Storage.{User, ScheduledReport}
use jira_bot.Identity.Lease.{Read, read_error, no_user, found}
use jira_bot.Jira.Webhooks.Manager.{connected}
use jira_bot.Daily.{SearchResult, Search, build}

abbrev pub report_max_results : ℕ
report_max_results = 20

-- `eventsv1.ScheduleDue`
pub record ScheduleDue : Type 0 where
  pub report_id : Text
  pub telegram_id : ℤ
  pub chat_id : ℤ
  pub jql : Text
  pub report_name : Text
  pub fired_at : ℕ

-- `pub.Publish` and `notifier.Send`, whose errors change nothing.
pub data Call : Type 0 where
  publish : ScheduleDue → Call
  send : Request → Call

-- `locale.T`, the searches, the user at the two reads, the quoted date of the day before, and the clock.
pub record Env : Type 0 where
  pub t : Lang → Text → List Text → Text
  pub search : Search
  pub first_read : Read
  pub second_read : Read
  pub yesterday : Text
  pub now : ℕ

unfoldable pub get_lang : Read → Lang
get_lang read_error = default_lang
get_lang no_user = default_lang
get_lang (found user) = from_text user.language

abbrev number : ℕ → Text
number n = decimal (pos n) []

abbrev status_text : Option Status → Text
status_text none = codes "?"
status_text (some s) = s.name

abbrev priority_text : Option Text → Text
priority_text none = []
priority_text (some name) = name ++ codes " "

unfoldable pub report_line : ℕ → Issue → Text
report_line i issue =
    number (suc i)
    ++ codes ". `"
    ++ issue.key
    ++ codes "` \\["
    ++ escape_markdown (status_text issue.fields.status)
    ++ codes "] "
    ++ escape_markdown (priority_text issue.fields.priority)
    ++ escape_markdown issue.fields.summary
    ++ codes "\n"

unfoldable pub report_lines : ℕ → List Issue → Text
report_lines i [] = []
report_lines i (issue ∷ issues) = report_line i issue ++ report_lines (suc i) issues

abbrev or_name : Text → Text → Text
or_name [] name = name
or_name (c ∷ s) name = c ∷ s

abbrev pub scheduler_key : Text → Text → ℕ → Text
scheduler_key what id now = codes "scheduler:" ++ what ++ codes ":" ++ id ++ codes ":" ++ number now

module _ (env : Env) where
  abbrev report_body : Lang → SearchResult → List Issue → Text
  report_body lang result [] = env.t lang (codes "report.no_issues") []
  report_body lang result (issue ∷ issues) =
      report_lines 0 (issue ∷ issues)
      ++ (if ltb (length (issue ∷ issues)) result.total
          then env.t lang (codes "report.more")
              (number (result.total - length (issue ∷ issues)) ∷ [])
          else [])

  -- U+1F4CA is the sign before the name.
  unfoldable pub format_report : Lang → ScheduledReport → SearchResult → Text
  format_report lang report result =
      (128202 ∷ codes " *")
      ++ escape_markdown (or_name report.report_name (env.t lang (codes "report.default_name") []))
      ++ codes "*\n"
      ++ env.t lang (codes "report.found") (number result.total ∷ [])
      ++ codes "\n\n"
      ++ report_body lang result result.issues

  abbrev request : ScheduledReport → (text key reason : Text) → Request
  request report text key reason = record {
    chat_id = report.telegram_chat_id;
    telegram_id = some report.telegram_user_id;
    text = text;
    markdown = true;
    dedup_key = key;
    reason = reason;
  }

  abbrev failure : Lang → ScheduledReport → (reason : Text) → Request
  failure lang report reason =
      request report
        (env.t lang (codes "report.failed")
          (escape_markdown report.report_name ∷ codes "Jira query failed" ∷ []))
        (scheduler_key (codes "failed") report.id env.now) reason

  abbrev success : ScheduledReport → Text → Request
  success report text =
      request report text (scheduler_key (codes "report") report.id env.now)
        (codes "scheduler:report")

  unfoldable pub daily_sends : Lang → ScheduledReport → Option Text → List Call
  daily_sends lang report none = send (failure lang report (codes "scheduler:daily_failed")) ∷ []
  daily_sends lang report (some text) = send (success report text) ∷ []

  unfoldable pub query_sends : Lang → ScheduledReport → Option SearchResult → List Call
  query_sends lang report none = send (failure lang report (codes "scheduler:query_failed")) ∷ []
  query_sends lang report (some result) =
      send (success report (format_report lang report result)) ∷ []

  unfoldable pub user_sends : Lang → ScheduledReport → Option User → List Call
  user_sends lang report none =
      send (
        request report
          (env.t lang (codes "report.not_connected") (escape_markdown report.report_name ∷ []))
          (scheduler_key (codes "not_connected") report.id env.now)
          (codes "scheduler:not_connected"))
      ∷ []
  user_sends lang report (some user) =
      if report.kind == codes "daily"
      then daily_sends lang report
          (build (λ l key. env.t l key []) env.search env.yesterday user lang [])
      else query_sends lang report (env.search user report.jql report_max_results)

  -- The calls of the publisher and the notifier, in order.
  unfoldable pub execute_report : ScheduledReport → List Call
  execute_report report =
      publish (record {
        report_id = report.id;
        telegram_id = report.telegram_user_id;
        chat_id = report.telegram_chat_id;
        jql = report.jql;
        report_name = report.report_name;
        fired_at = env.now;
      })
      ∷ user_sends (get_lang env.first_read) report (connected env.second_read)
