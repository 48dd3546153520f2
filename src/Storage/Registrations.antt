-- ===== src/Storage/Registrations.antt =====
-- internal/storage/webhook_repo.go: the collection of webhook registrations as the list of its rows.
-- Whether a call to Mongo succeeds is an argument of the code that makes it.
use jira_bot.Base.{
  ℕ, ℤ, int_eq, not, ltb, List, [], ◌∷◌, ◌++◌, map, Text, text_eq, ◌==◌, keep, if◌then◌else◌,
  length,
}

pub record WebhookRegistration : Type 0 where
  pub id : Text
  pub telegram_user_id : ℤ
  pub jira_cloud_id : Text
  pub subscription_id : Text
  pub webhook_id : ℤ
  pub jql_filter : Text
  pub events : List Text
  pub expires_at : ℕ
  pub created_ts : ℕ
  pub modified_ts : ℕ

abbrev pub Rows : Type 0
Rows = List WebhookRegistration

-- `id` is the identifier that Mongo gives to the new row.
unfoldable pub create : (now : ℕ) (id : Text) → WebhookRegistration → Rows → Rows
create now id reg rows = rows ++ record reg { id = id; created_ts = now; modified_ts = now } ∷ []

abbrev pub with_expiry : ℕ → Text → ℕ → WebhookRegistration → WebhookRegistration
with_expiry now id expires_at r =
    if r.id == id then record r { expires_at = expires_at; modified_ts = now } else r

unfoldable pub update_expiry : (now : ℕ) → Text → ℕ → Rows → Rows
update_expiry now id expires_at rows = map (with_expiry now id expires_at) rows

unfoldable pub get_by_user : ℤ → Rows → Rows
get_by_user user rows = keep (λ r. r.telegram_user_id == user) rows

unfoldable pub get_by_subscription : Text → Rows → Rows
get_by_subscription sub rows = keep (λ r. r.subscription_id == sub) rows

unfoldable pub get_expiring_before : ℕ → Rows → Rows
get_expiring_before threshold rows = keep (λ r. ltb r.expires_at threshold) rows

unfoldable pub count_all : Rows → ℕ
count_all rows = length rows

unfoldable pub delete : Text → Rows → Rows
delete id rows = keep (λ r. not (r.id == id)) rows

unfoldable pub delete_by_subscription : Text → Rows → Rows
delete_by_subscription sub rows = keep (λ r. not (r.subscription_id == sub)) rows

unfoldable pub delete_by_user : ℤ → Rows → Rows
delete_by_user user rows = keep (λ r. not (r.telegram_user_id == user)) rows
