-- ===== src/Jira/Webhooks/Refresh/Survival.antt =====
-- Which rows are there after a refresh.
use jira_bot.Base.{
  ℕ, ◌≡◌, ◌≢◌, refl, false, List, some, Text, ℤ, int_eq, text_eq, ◌==◌, All, Has, if_either, ◌⊎◌,
}
use jira_bot.Storage.{User}
use jira_bot.Storage.Registrations.{WebhookRegistration, Rows, with_expiry}
use jira_bot.Jira.Webhooks.Manager.{connected}
use jira_bot.Jira.Webhooks.Requests.{is_webhook_gone}
use jira_bot.Jira.Webhooks.Refresh.{RefreshEnv}

-- A row stands under an identifier.
pub record Survives (id : Text) (rows : Rows) : Type 0 where
  pub row : WebhookRegistration
  pub is_there : Has row rows
  pub same_id : row.id ≡ id

pub with_expiry-id :
    (now : ℕ) (j : Text) (t : ℕ) (r : WebhookRegistration) → (with_expiry now j t r).id ≡ r.id
with_expiry-id now j t r =
    if_either (λ (q : WebhookRegistration). q.id ≡ r.id) (r.id == j) refl refl

abbrev pub Differs : Text → WebhookRegistration → Type 0
Differs id q = q.id ≢ id

module _ (env : RefreshEnv) (id : Text) where
  -- The user is connected, and no refresh says that the webhooks are gone.
  pub record IsKept (user : ℤ) : Type 0 where
    pub owner : User
    pub is_connected : connected (env.get_user user) ≡ some owner
    pub not_gone : (ids : List ℤ) → is_webhook_gone (env.refresh owner ids) ≡ false

  -- A group whose rows have other identifiers, or whose user is kept.
  abbrev Spares : ℤ × Rows → Type 0
  Spares g = All (Differs id) g.1 ⊎ IsKept g.0

  -- A row does not bear the identifier, or its user is kept.
  abbrev pub IsSafe : WebhookRegistration → Type 0
  IsSafe q = Differs id q ⊎ IsKept q.telegram_user_id
