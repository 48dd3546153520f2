-- ===== src/Scheduler/Outcome.antt =====
-- What a report's chat is told.
use jira_bot.Base.{
  ◌≡◌, ◌≢◌, ◌⊎◌, inl, inr, refl, ap, true, [], ◌∷◌, List, Option, none, some, Text, codes, text_eq,
  ◌==◌, ==_iff, Bool-cases, arith,
}
use jira_bot.Format.{escape_markdown}
use jira_bot.Locale.{Lang, default_lang, from_text}
use jira_bot.Notifier.{Request}
use jira_bot.Storage.{User, ScheduledReport}
use jira_bot.Identity.Lease.{Read, read_error, no_user, found}
use jira_bot.Jira.Webhooks.Manager.{connected}
use jira_bot.Poller.Changes.{is_empty}
use jira_bot.Daily.{SearchResult, build}
use jira_bot.Scheduler.{
  Env, Call, publish, send, ScheduleDue, get_lang, format_report, daily_sends, query_sends,
  user_sends, execute_report, scheduler_key,
}

-- The user is not known, or has no token.
abbrev pub IsDisconnected : Read → Type 0
IsDisconnected read =
    (read ≡ read_error) ⊎ (read ≡ no_user) ⊎ ((u : User) × (read ≡ found u) × (u.access_token ≡ []))

abbrev pub IsConnected : Read → User → Type 0
IsConnected read u = (read ≡ found u) × (u.access_token ≢ [])

-- The language of the user, or else the default.
abbrev pub IsLanguage : Read → Lang → Type 0
IsLanguage read lang =
    (((read ≡ read_error) ⊎ (read ≡ no_user)) × (lang ≡ default_lang))
    ⊎ ((u : User) × (read ≡ found u) × (lang ≡ from_text u.language))

abbrev failed_text : Env → Lang → ScheduledReport → Text
failed_text env lang report =
    env.t lang (codes "report.failed")
      (escape_markdown report.report_name ∷ codes "Jira query failed" ∷ [])

-- Why the chat is told a text, with a key and a reason.
pub data Outcome (env : Env) (report : ScheduledReport) (lang : Lang)
    : (text what reason : Text) → Type 0 where
  not_connected :
      IsDisconnected env.second_read
      → Outcome env report lang
          (env.t lang (codes "report.not_connected") (escape_markdown report.report_name ∷ []))
          (codes "not_connected")
          (codes "scheduler:not_connected")
  daily_failed :
      (user : User)
      → IsConnected env.second_read user
      → report.kind ≡ codes "daily"
      → build (λ l key. env.t l key []) env.search env.yesterday user lang [] ≡ none
      → Outcome env report lang
          (failed_text env lang report)
          (codes "failed")
          (codes "scheduler:daily_failed")
  daily :
      (user : User) (text : Text)
      → IsConnected env.second_read user
      → report.kind ≡ codes "daily"
      → build (λ l key. env.t l key []) env.search env.yesterday user lang [] ≡ some text
      → Outcome env report lang text (codes "report") (codes "scheduler:report")
  query_failed :
      (user : User)
      → IsConnected env.second_read user
      → report.kind ≢ codes "daily"
      → env.search user report.jql 20 ≡ none
      → Outcome env report lang
          (failed_text env lang report)
          (codes "failed")
          (codes "scheduler:query_failed")
  reported :
      (user : User) (result : SearchResult)
      → IsConnected env.second_read user
      → report.kind ≢ codes "daily"
      → env.search user report.jql 20 ≡ some result
      → Outcome env report lang
          (format_report env lang report result)
          (codes "report")
          (codes "scheduler:report")

-- The message with a text, under the key of a fire and for a reason.
abbrev pub message : Env → ScheduledReport → (text what reason : Text) → Request
message env report text what reason = record {
  chat_id = report.telegram_chat_id;
  telegram_id = some report.telegram_user_id;
  text = text;
  markdown = true;
  dedup_key = scheduler_key what report.id env.now;
  reason = reason;
}

abbrev pub due : Env → ScheduledReport → ScheduleDue
due env report = record {
  report_id = report.id;
  telegram_id = report.telegram_user_id;
  chat_id = report.telegram_chat_id;
  jql = report.jql;
  report_name = report.report_name;
  fired_at = env.now;
}

get_lang-IsLanguage : (read : Read) → IsLanguage read (get_lang read)
unfolding get_lang
get_lang-IsLanguage read_error = inl (inl refl, refl)
get_lang-IsLanguage no_user = inl (inr refl, refl)
get_lang-IsLanguage (found u) = inr (u, refl, refl)

is_empty_iff : (s : Text) → is_empty s ≡ true → s ≡ []
is_empty_iff s h = ground arith

connected-cases :
    (read : Read)
    → (IsDisconnected read × (connected read ≡ none))
      ⊎ ((u : User) × IsConnected read u × (connected read ≡ some u))
connected-cases read_error = inl (inl refl, refl)
connected-cases no_user = inl (inr (inl refl), refl)
connected-cases (found u) = elim (Bool-cases (is_empty u.access_token)) [
  | inl e ↦ inl (inr (inr (u, refl, is_empty_iff u.access_token e)), rw e refl)
  | inr e ↦ inr (u, (refl, λ h. ground arith), rw e refl)
]

-- Some outcome and the one message that it asks for.
abbrev Sends : Env → ScheduledReport → Lang → List Call → Type 0
Sends env report lang calls =
    (text : Text) × (what : Text) × (reason : Text) × Outcome env report lang text what reason
    × (calls ≡ send (message env report text what reason) ∷ [])

module _ (env : Env) (report : ScheduledReport) (lang : Lang) (user : User)
    (there : IsConnected env.second_read user) where
  daily_sends-Sends :
      (o : Option Text)
      → report.kind ≡ codes "daily"
      → build (λ l key. env.t l key []) env.search env.yesterday user lang [] ≡ o
      → Sends env report lang (daily_sends env lang report o)
  unfolding daily_sends
  daily_sends-Sends none k e = (_, _, _, daily_failed user there k e, refl)
  daily_sends-Sends (some text) k e = (_, _, _, daily user text there k e, refl)

  query_sends-Sends :
      (o : Option SearchResult)
      → report.kind ≢ codes "daily"
      → env.search user report.jql 20 ≡ o
      → Sends env report lang (query_sends env lang report o)
  unfolding query_sends
  query_sends-Sends none k e = (_, _, _, query_failed user there k e, refl)
  query_sends-Sends (some result) k e = (_, _, _, reported user result there k e, refl)

  user_sends-Sends : Sends env report lang (user_sends env lang report (some user))
  unfolding user_sends
  user_sends-Sends = elim (Bool-cases (report.kind == codes "daily")) [
    | inl k ↦ rw k (daily_sends-Sends _ ((==_iff report.kind (codes "daily")).0 k) refl)
    | inr k ↦ rw k (
        query_sends-Sends _ (λ e. let h = (==_iff report.kind (codes "daily")).1 e in ground arith)
          refl)
  ]

-- A fire of a report publishes its event and then sends exactly one message, to the chat of the report
-- in the language of its user: that the user is not connected, where the user is not known or has no
-- token; that the daily text or the search for 20 issues failed; or the daily text or the report itself.
pub execute_report-Outcome :
    (env : Env) (report : ScheduledReport)
    → (lang : Lang) × (text : Text) × (what : Text) × (reason : Text) × IsLanguage env.first_read
        lang
      × Outcome env report lang text what reason
      × (execute_report env report
          ≡ publish (due env report) ∷ send (message env report text what reason) ∷ [])
unfolding execute_report
execute_report-Outcome env report =
    let lang = get_lang env.first_read in
    let (text, what, reason, outcome, e) = sends in
    (
      lang,
      text,
      what,
      reason,
      get_lang-IsLanguage env.first_read,
      outcome,
      ap (λ calls. publish (due env report) ∷ calls) e,
    )
  where
    sends :
        Sends env report
          (get_lang env.first_read)
          (user_sends env (get_lang env.first_read) report (connected env.second_read))
    sends = elim (connected-cases env.second_read) [
      | inl (out, e) ↦ rw e (_, _, _, not_connected out, unfold user_sends in refl)
      | inr (user, there, e) ↦
          rw e (user_sends-Sends env report (get_lang env.first_read) user there)
    ]
