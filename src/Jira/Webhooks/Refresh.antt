-- ===== src/Jira/Webhooks/Refresh.antt =====
-- `RefreshExpiring`, from the rows that the query for expiring rows returned on.
pub mod Survival
pub mod Forgetting
use jira_bot.Base.{
  ℕ, zero, suc, Bool, true, false, not, ◌||◌, ◌&&◌, List, [], ◌∷◌, ◌++◌, map, Option, none, some,
  if◌then◌else◌, Text, ℤ, int_eq, text_eq, list_beq, ◌==◌, lookup, insert,
}
use jira_bot.Storage.{Subscription, User}
use jira_bot.Storage.Registrations.{
  WebhookRegistration, Rows, delete, update_expiry, get_expiring_before,
}
use jira_bot.Identity.Lease.{Read}
use jira_bot.Jira.Webhooks.Manager.{connected, webhook_ids}
use jira_bot.Jira.Webhooks.Requests.{
  RefreshOutcome, unchanged, extended, http_error, other_error, is_webhook_gone,
}

-- `GetByTelegramID`, the refresh of a user's webhooks, whether a row is deleted or updated, and the clock. The zero
-- time of `RefreshWebhooks` is the instant 0.
pub record RefreshEnv : Type 0 where
  pub get_user : ℤ → Read
  pub refresh : User → List ℤ → RefreshOutcome
  pub delete_ok : Text → Bool
  pub update_ok : Text → Bool
  pub now : ℕ

abbrev pub Groups : Type 0
Groups = List (ℤ × Rows)

abbrev pub rows_or_empty : Option Rows → Rows
rows_or_empty none = []
rows_or_empty (some rows) = rows

-- `byUser[id] = append(byUser[id], reg)` for each row.
unfoldable pub group_by_user : Rows → Groups → Groups
group_by_user [] groups = groups
group_by_user (r ∷ regs) groups =
    group_by_user regs (
      insert r.telegram_user_id (rows_or_empty (lookup r.telegram_user_id groups) ++ r ∷ []) groups)

unfoldable pub drop_rows : RefreshEnv → Rows → Rows → Rows
drop_rows env [] rows = rows
drop_rows env (r ∷ regs) rows =
    drop_rows env regs (if env.delete_ok r.id then delete r.id rows else rows)

unfoldable pub update_rows : RefreshEnv → ℕ → Rows → Rows → Rows
update_rows env expires_at [] rows = rows
update_rows env expires_at (r ∷ regs) rows =
    update_rows env expires_at regs
      (if env.update_ok r.id then update_expiry env.now r.id expires_at rows else rows)

-- From the outcome of the refresh on.
unfoldable pub settle : RefreshEnv → Rows → RefreshOutcome → Rows → Rows
settle env regs unchanged rows = update_rows env 0 regs rows
settle env regs (extended t) rows = update_rows env t regs rows
settle env regs (http_error status) rows =
    if is_webhook_gone (http_error status) then drop_rows env regs rows else rows
settle env regs other_error rows =
    if is_webhook_gone other_error then drop_rows env regs rows else rows

unfoldable pub refresh_user : RefreshEnv → Rows → Option User → Rows → Rows
refresh_user env regs none rows = drop_rows env regs rows
refresh_user env regs (some user) rows = settle env regs (env.refresh user (webhook_ids regs)) rows

unfoldable pub refresh_groups : RefreshEnv → Groups → Rows → Rows
refresh_groups env [] rows = rows
refresh_groups env ((user, regs) ∷ groups) rows =
    refresh_groups env groups (refresh_user env regs (connected (env.get_user user)) rows)

unfoldable pub refresh_expiring : RefreshEnv → (threshold : ℕ) → Rows → Rows
refresh_expiring env threshold rows =
    refresh_groups env (group_by_user (get_expiring_before threshold rows) []) rows
