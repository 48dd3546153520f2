-- ===== src/Storage.antt =====
-- internal/storage: the rows that the bot keeps in Mongo. What a query answers is an argument of
-- the code that asks; internal/storage/calendar_event_repo.go is modelled in `CalendarEvents`.
pub mod Registrations
pub mod Settings
use jira_bot.Base.{ℕ, List, Text, ℤ, Bool}

-- `SubType…`; any other text is `unknown`.
pub data SubscriptionType : Type 0 where
  my_new_issues my_mentions my_watched project_updates issue_updates filter_updates :
      SubscriptionType
  unknown : Text → SubscriptionType

pub record Subscription : Type 0 where
  pub id : Text
  pub telegram_chat_id : ℤ
  pub telegram_user_id : ℤ
  pub subscription_type : SubscriptionType
  pub jira_project_key : Text
  pub jira_issue_key : Text
  pub jira_filter_jql : Text
  pub last_polled_at : ℕ

-- Expiry in milliseconds, `calendar_last_fetched_at` in seconds.
pub record User : Type 0 where
  pub telegram_user_id : ℤ
  pub access_token : Text
  pub refresh_token : Text
  pub token_expires_at : ℕ
  pub jira_cloud_id : Text
  pub jira_site_url : Text
  pub jira_account_id : Text
  pub jira_display_name : Text
  pub language : Text
  pub calendar_url : Text
  pub calendar_reminder_minutes : ℕ
  pub calendar_last_fetched_at : ℕ
  pub daily_done_jql : Text
  pub daily_doing_jql : Text
  pub daily_plan_jql : Text
  pub default_project : Text
  pub default_board_id : ℤ
  pub default_issue_type_id : Text
  pub default_issue_type_name : Text
  pub sprint_issue_types : List Text
  pub assignee_field_id : Text
  pub story_points_field_id : Text
  pub done_statuses : List Text
  pub hold_statuses : List Text

-- internal/storage/schedule_repo.go; `kind` is "daily" or anything else.
pub record ScheduledReport : Type 0 where
  pub id : Text
  pub telegram_chat_id : ℤ
  pub telegram_user_id : ℤ
  pub cron_expression : Text
  pub jql : Text
  pub report_name : Text
  pub kind : Text
  pub timezone : Text
  pub is_active : Bool
