-- ===== src/Notifier.antt =====
-- pkg/notifier: what a notification request carries. How it is delivered is not modelled; `Send`
-- answers whether it failed.
use jira_bot.Base.{Bool, Text, ℤ, Option}

pub record Request : Type 0 where
  pub chat_id : ℤ
  pub telegram_id : Option ℤ
  pub text : Text
  pub markdown : Bool
  pub dedup_key : Text
  pub reason : Text
