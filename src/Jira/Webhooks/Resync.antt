-- ===== src/Jira/Webhooks/Resync.antt =====
-- `ResyncForUser`. The failures of the three reads at its beginning return an error and change
-- nothing; they are not modelled.
pub mod Adoption
pub mod Stale
use jira_bot.Base.{
  ℕ, zero, suc, Bool, true, false, not, ◌||◌, List, [], ◌∷◌, ◌++◌, map, Option, none, some,
  if◌then◌else◌, Text, ℤ, int_eq, text_eq, list_beq, ◌==◌, lookup, insert, erase, length,
}
use jira_bot.Storage.{Subscription, User}
use jira_bot.Storage.Registrations.{WebhookRegistration, Rows, create, delete}
use jira_bot.Jira.Webhooks.Manager.{Env, expected_jql, webhook_ids}

pub record ListedWebhook : Type 0 where
  pub id : ℤ
  pub jql_filter : Text
  pub events : List Text
  pub expiration_date : Text

pub record ResyncResult : Type 0 where
  pub jira_count : ℕ
  pub local_count : ℕ
  pub adopted : List ℤ
  pub unmatched : List ℤ
  pub dropped_local : List ℤ

abbrev pub Index : Type 0
Index = List (Text × Subscription)

-- The rows, the result so far, and the subscriptions that are not claimed yet.
pub record Resync : Type 0 where
  pub rows : Rows
  pub sub_by_jql : Index
  pub result : ResyncResult

abbrev pub put_first : Text → Subscription → Index → Option Subscription → Index
put_first jql sub index (some old) = index
put_first jql sub index none = insert jql sub index

-- `none` is a panic.
unfoldable pub index_sub : Option Text → Subscription → Index → Option Index
index_sub none sub index = none
index_sub (some []) sub index = some index
index_sub (some (c ∷ jql)) sub index = some (put_first (c ∷ jql) sub index (lookup (c ∷ jql) index))

infixl 5 ◌>>=◌
abbrev pub ◌>>=◌ : {A B : Type 0} → Option A → (A → Option B) → Option B
none >>= f = none
some a >>= f = f a

unfoldable pub index_subs : Env → List Subscription → Index → Option Index
index_subs env [] index = some index
index_subs env (sub ∷ subs) index = do
  index' ← index_sub (expected_jql env sub) sub index
  index_subs env subs index'

abbrev pub is_among : ℤ → List ℤ → Bool
is_among id [] = false
is_among id (k ∷ ids) = k == id || is_among id ids

abbrev pub adopted_row : (Text → ℕ) → ℤ → User → ListedWebhook → Subscription → WebhookRegistration
adopted_row expiration user_id user wh sub = record {
  id = [];
  telegram_user_id = user_id;
  jira_cloud_id = user.jira_cloud_id;
  subscription_id = sub.id;
  webhook_id = wh.id;
  jql_filter = wh.jql_filter;
  events = wh.events;
  expires_at = expiration wh.expiration_date;
  created_ts = 0;
  modified_ts = 0;
}

abbrev with_unmatched : ListedWebhook → ResyncResult → ResyncResult
with_unmatched wh r = record r { unmatched = r.unmatched ++ wh.id ∷ [] }

abbrev with_adopted : ListedWebhook → ResyncResult → ResyncResult
with_adopted wh r = record r { adopted = r.adopted ++ wh.id ∷ [] }

abbrev with_dropped : WebhookRegistration → ResyncResult → ResyncResult
with_dropped reg r = record r { dropped_local = r.dropped_local ++ reg.webhook_id ∷ [] }

module _ (env : Env) (expiration : Text → ℕ) (user_id : ℤ) (user : User) where
  -- From the lookup of a webhook's filter on.
  unfoldable pub adopt : ListedWebhook → Resync → Option Subscription → Resync
  adopt wh s none = record s { result = with_unmatched wh s.result }
  adopt wh s (some sub) =
      if env.create_ok wh.id
      then record s {
        rows =
            create env.now (env.new_id wh.id) (adopted_row expiration user_id user wh sub) s.rows;
        sub_by_jql = erase wh.jql_filter s.sub_by_jql;
        result = with_adopted wh s.result;
      }
      else s

  unfoldable pub adopt_one : List ℤ → ListedWebhook → Resync → Resync
  adopt_one local_ids wh s =
      if is_among wh.id local_ids then s else adopt wh s (lookup wh.jql_filter s.sub_by_jql)

  unfoldable pub adopt_all : List ℤ → List ListedWebhook → Resync → Resync
  adopt_all local_ids [] s = s
  adopt_all local_ids (wh ∷ hooks) s = adopt_all local_ids hooks (adopt_one local_ids wh s)

-- A row whose webhook Jira does not have.
unfoldable pub drop_one : Env → List ℤ → WebhookRegistration → Resync → Resync
drop_one env jira_ids reg s =
    if is_among reg.webhook_id jira_ids
    then s
    else if env.delete_ok reg.id
    then record s { rows = delete reg.id s.rows; result = with_dropped reg s.result }
    else s

unfoldable pub drop_all : Env → List ℤ → Rows → Resync → Resync
drop_all env jira_ids [] s = s
drop_all env jira_ids (reg ∷ local_hooks) s =
    drop_all env jira_ids local_hooks (drop_one env jira_ids reg s)

abbrev pub hook_ids : List ListedWebhook → List ℤ
hook_ids = map λ wh. wh.id

-- `jira_hooks` and `local_hooks` are what the two lists hold; `rows` is the whole collection.
unfoldable pub resync_for_user :
    Env
    → (expiration : Text → ℕ) → ℤ
    → User
    → List ListedWebhook
    → (local_hooks : Rows) → List Subscription
    → Rows
    → Option Resync
resync_for_user env expiration user_id user jira_hooks local_hooks subs rows = do
  index ← index_subs env subs []
  some (
      drop_all env (hook_ids jira_hooks) local_hooks (
        adopt_all env expiration user_id user (webhook_ids local_hooks) jira_hooks (record {
          rows = rows;
          sub_by_jql = index;
          result = record {
            jira_count = length jira_hooks;
            local_count = length local_hooks;
            adopted = [];
            unmatched = [];
            dropped_local = [];
          };
        })))
