-- ===== src/Jira/Webhooks/Manager.antt =====
-- `WebhookManager`: registering and deleting. What Mongo, Jira and the clock answer is an argument.
pub mod Tracking
use jira_bot.Base.{
  ℕ, zero, suc, Bool, true, false, not, ◌||◌, List, [], ◌∷◌, ◌++◌, map, Option, none, some,
  if◌then◌else◌, Text, ℤ, int_eq, text_eq, list_beq, ◌==◌, keep,
}
use jira_bot.Poller.Changes.{is_empty}
use jira_bot.Storage.{Subscription, User}
use jira_bot.Storage.Registrations.{
  WebhookRegistration, Rows, create, get_by_user, get_by_subscription, delete_by_subscription,
  delete_by_user,
}
use jira_bot.Identity.Lease.{Read, read_error, no_user, found}
use jira_bot.Jira.Webhooks.Jql.{subscription_webhook_jql, sanitize_webhook_jql}
use jira_bot.Jira.Webhooks.Requests.{
  WebhookSpec, RegisteredWebhook, Response, Registered, registered, not_registered,
  register_webhook, default_webhook_events,
}

-- The texts' functions, what `GetByTelegramID` and POST /webhook answer, whether a row with a webhook id is
-- created and under which identifier, and whether a row is deleted.
pub record Env : Type 0 where
  pub quote : Text → Text
  pub trim : Text → Text
  pub to_upper : Text → Text
  pub delivery_url : Text
  pub get_user : ℤ → Read
  pub post : User → WebhookSpec → Response (List RegisteredWebhook)
  pub create_ok : ℤ → Bool
  pub new_id : ℤ → Text
  pub delete_ok : Text → Bool
  pub now : ℕ

-- The rows, and the ids that Jira was asked to delete, last call first.
pub record World : Type 0 where
  pub rows : Rows
  pub deletions : List (List ℤ)

-- `err != nil || user == nil || user.AccessToken == ""`
abbrev pub connected : Read → Option User
connected read_error = none
connected no_user = none
connected (found u) = if is_empty u.access_token then none else some u

abbrev pub expected_jql : Env → Subscription → Option Text
expected_jql env sub =
    sanitize_webhook_jql env.trim env.to_upper (subscription_webhook_jql env.quote sub)

abbrev pub registration_of : Subscription → User → Text → ℤ → ℕ → WebhookRegistration
registration_of sub user jql webhook_id expires_at = record {
  id = [];
  telegram_user_id = sub.telegram_user_id;
  jira_cloud_id = user.jira_cloud_id;
  subscription_id = sub.id;
  webhook_id = webhook_id;
  jql_filter = jql;
  events = default_webhook_events;
  expires_at = expires_at;
  created_ts = 0;
  modified_ts = 0;
}

-- From Jira's answer on: the row is stored, or the webhook is deleted again.
unfoldable pub save_registration : Env → Subscription → User → Text → World → Registered → World
save_registration env sub user jql w (not_registered e) = w
save_registration env sub user jql w (registered webhook_id expires_at) =
    if env.create_ok webhook_id
    then record w {
      rows =
          create env.now (env.new_id webhook_id)
            (registration_of sub user jql webhook_id expires_at) w.rows;
    }
    else record w { deletions = (webhook_id ∷ []) ∷ w.deletions }

unfoldable pub register_user : Env → Subscription → Text → World → Option User → World
register_user env sub jql w none = w
register_user env sub jql w (some user) =
    save_registration env sub user jql w
      (register_webhook (env.post user) env.now env.delivery_url jql default_webhook_events)

-- `none` is a panic.
unfoldable pub register_jql : Env → Subscription → World → Option Text → Option World
register_jql env sub w none = none
register_jql env sub w (some []) = some w
register_jql env sub w (some (c ∷ jql)) =
    some (register_user env sub (c ∷ jql) w (connected (env.get_user sub.telegram_user_id)))

unfoldable pub register_for_subscription : Env → Option Subscription → World → Option World
register_for_subscription env none w = some w
register_for_subscription env (some sub) w =
    if is_empty env.delivery_url then some w else register_jql env sub w (expected_jql env sub)

-- `hasReg[id]`
unfoldable pub has_registration : Rows → Text → Bool
has_registration [] id = false
has_registration (r ∷ existing) id = r.subscription_id == id || has_registration existing id

infixl 5 ◌>>=◌
abbrev pub ◌>>=◌ : Option World → (World → Option World) → Option World
none >>= f = none
some w >>= f = f w

unfoldable pub register_missing : Env → Rows → List Subscription → World → Option World
register_missing env existing [] w = some w
register_missing env existing (sub ∷ subs) w = do
  w' ←
      if has_registration existing sub.id
      then some w
      else register_for_subscription env (some sub) w
  register_missing env existing subs w'

-- The rows that were read, none where the query failed.
abbrev rows_or_none : Bool → Rows → Rows
rows_or_none true rows = rows
rows_or_none false rows = []

unfoldable pub register_for_existing_subscriptions :
    Env → (read_ok : Bool) → ℤ → List Subscription → World → Option World
register_for_existing_subscriptions env read_ok user [] w = some w
register_for_existing_subscriptions env read_ok user (sub ∷ subs) w =
    register_missing env (rows_or_none read_ok (get_by_user user w.rows)) (sub ∷ subs) w

abbrev pub webhook_ids : Rows → List ℤ
webhook_ids = map λ r. r.webhook_id

-- The call to Jira, where the user is connected.
unfoldable pub ask_deletion : Option User → List ℤ → World → World
ask_deletion none ids w = w
ask_deletion (some user) ids w = record w { deletions = ids ∷ w.deletions }

-- From the rows that were read on; `drop_rows` deletes them where that succeeds.
unfoldable pub delete_regs : Env → ℤ → (Rows → Rows) → (rows_ok : Bool) → Rows → World → World
delete_regs env user drop_rows rows_ok [] w = w
delete_regs env user drop_rows rows_ok (r ∷ regs) w =
    let asked = ask_deletion (connected (env.get_user user)) (webhook_ids (r ∷ regs)) w in
    if rows_ok then record asked { rows = drop_rows asked.rows } else asked

unfoldable pub delete_for_subscription : Env → (read_ok rows_ok : Bool) → ℤ → Text → World → World
delete_for_subscription env read_ok rows_ok user sub w =
    if read_ok
    then delete_regs env user (delete_by_subscription sub) rows_ok (get_by_subscription sub w.rows)
        w
    else w

unfoldable pub delete_all_for_user : Env → (read_ok rows_ok : Bool) → ℤ → World → World
delete_all_for_user env read_ok rows_ok user w =
    if read_ok
    then delete_regs env user (delete_by_user user) rows_ok (get_by_user user w.rows) w
    else w
