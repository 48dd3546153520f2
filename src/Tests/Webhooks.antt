-- ===== src/Tests/Webhooks.antt =====
-- Registrations of Jira's webhooks, their resync and refresh, and lists in pages.
use jira_bot.Base.{
  ℕ, zero, suc, ◌+◌, ◌≡◌, ◌≢◌, refl, Bool, true, false, List, [], ◌∷◌, some, inl, inr, Text, codes,
  pos, int_eq, text_eq, list_beq, lookup, insert, erase, All, arith,
}
use jira_bot.Storage.{Subscription, User, my_new_issues}
use jira_bot.Storage.Registrations.{
  WebhookRegistration, create, delete, get_by_user, get_by_subscription, get_expiring_before,
}
use jira_bot.Identity.Lease.{Read, read_error, found}
use jira_bot.Poller.Jql.{has_prefix}
use jira_bot.Jira.Paging.{Page, Server, returned, list_webhooks}
use jira_bot.Jira.Paging.Complete.{Holds, Serves, list_webhooks_lem}
use jira_bot.Jira.Webhooks.Jql.{subscription_webhook_jql, sanitize_webhook_jql, first_index}
use jira_bot.Jira.Webhooks.Requests.{
  answered, register_webhook, read_registration, default_webhook_events, webhook_lifetime,
  http_error,
}
use jira_bot.Jira.Webhooks.Manager.{
  Env, World, register_for_subscription, register_jql, register_user, save_registration,
  has_registration, register_missing, register_for_existing_subscriptions,
}
use jira_bot.Jira.Webhooks.Manager.Tracking.{
  IsTracked, register-IsTracked, register_for_existing-others,
}
use jira_bot.Jira.Webhooks.Resync.{
  ListedWebhook, Resync, index_sub, index_subs, adopt, adopt_one, adopt_all, drop_one, drop_all,
  resync_for_user,
}
use jira_bot.Jira.Webhooks.Resync.Adoption.{Justified}
use jira_bot.Jira.Webhooks.Resync.Stale.{resync-Justified}
use jira_bot.Jira.Webhooks.Refresh.{RefreshEnv, refresh_expiring}
use jira_bot.Jira.Webhooks.Refresh.Survival.{Survives}
use jira_bot.Jira.Webhooks.Refresh.Forgetting.{refresh_expiring_forgets}

abbrev user : User
user = record {
  telegram_user_id = pos 7;
  access_token = codes "t";
  refresh_token = [];
  token_expires_at = 0;
  jira_cloud_id = codes "c";
  jira_site_url = [];
  jira_account_id = [];
  jira_display_name = [];
  language = [];
  calendar_url = [];
  calendar_reminder_minutes = 0;
  calendar_last_fetched_at = 0;
  daily_done_jql = [];
  daily_doing_jql = [];
  daily_plan_jql = [];
  default_project = [];
  default_board_id = pos 0;
  default_issue_type_id = [];
  default_issue_type_name = [];
  sprint_issue_types = [];
  assignee_field_id = [];
  story_points_field_id = [];
  done_statuses = [];
  hold_statuses = [];
}

abbrev new_issues : Subscription
new_issues = record {
  id = codes "s1";
  telegram_chat_id = pos 7;
  telegram_user_id = pos 7;
  subscription_type = my_new_issues;
  jira_project_key = [];
  jira_issue_key = [];
  jira_filter_jql = [];
  last_polled_at = 0;
}

abbrev assigned : Text
assigned = codes "assignee = currentUser()"

-- Texts are as they are quoted, trimmed and put in upper case.
abbrev env_with : Bool → Env
env_with create_ok = record {
  quote = λ s. s;
  trim = λ s. s;
  to_upper = λ s. s;
  delivery_url = codes "u";
  get_user = λ id. found user;
  post = λ u spec. answered (record { created_webhook_id = pos 9; errors = [] } ∷ []);
  create_ok = λ id. create_ok;
  new_id = λ id. codes "new";
  delete_ok = λ id. true;
  now = 100;
}

abbrev empty_world : World
empty_world = record { rows = []; deletions = [] }

abbrev rolled : World
rolled = record { rows = []; deletions = (pos 9 ∷ []) ∷ [] }

asked : register_for_subscription (env_with false) (some new_issues) empty_world ≡ some rolled
unfolding register_for_subscription sanitize_webhook_jql first_index has_prefix
    subscription_webhook_jql register_jql register_user save_registration register_webhook
    read_registration
asked = refl

nonempty : {c : ℕ} {s : Text} → (c ∷ s) ≢ []
nonempty h = ground arith

register-IsTracked_example : IsTracked new_issues (pos 9) rolled
unfolding sanitize_webhook_jql first_index has_prefix subscription_webhook_jql register_webhook
    read_registration
register-IsTracked_example =
    register-IsTracked (env_with false) new_issues user assigned (pos 9) (100 + webhook_lifetime)
      empty_world rolled nonempty refl nonempty refl refl asked

abbrev row : WebhookRegistration
row = record {
  id = codes "r1";
  telegram_user_id = pos 7;
  jira_cloud_id = codes "c";
  subscription_id = codes "s1";
  webhook_id = pos 4;
  jql_filter = assigned;
  events = [];
  expires_at = 50;
  created_ts = 0;
  modified_ts = 0;
}

abbrev second_sub : Subscription
second_sub = record new_issues { id = codes "s2" }

abbrev one_row : World
one_row = record { rows = row ∷ []; deletions = [] }

abbrev added_row : WebhookRegistration
added_row = record {
  id = codes "new";
  telegram_user_id = pos 7;
  jira_cloud_id = codes "c";
  subscription_id = codes "s2";
  webhook_id = pos 9;
  jql_filter = assigned;
  events = default_webhook_events;
  expires_at = 100 + webhook_lifetime;
  created_ts = 100;
  modified_ts = 100;
}

abbrev two_rows : World
two_rows = record { rows = row ∷ added_row ∷ []; deletions = [] }

reconnected :
    register_for_existing_subscriptions
      (env_with true)
      true
      (pos 7)
      (new_issues ∷ second_sub ∷ [])
      one_row
    ≡ some two_rows
unfolding register_for_existing_subscriptions register_missing has_registration get_by_user create
    register_for_subscription sanitize_webhook_jql first_index has_prefix subscription_webhook_jql
    register_jql register_user save_registration register_webhook read_registration list_beq
reconnected = refl

register_for_existing-others_example :
    get_by_subscription (codes "s1") two_rows.rows ≡ get_by_subscription (codes "s1") one_row.rows
unfolding has_registration get_by_user list_beq
register_for_existing-others_example =
    register_for_existing-others (env_with true) (pos 7) (codes "s1") (new_issues ∷ second_sub ∷ [])
      one_row two_rows refl reconnected

abbrev hook : ℕ → ListedWebhook
hook n = record { id = pos n; jql_filter = assigned; events = []; expiration_date = [] }

abbrev never : Text → ℕ
never s = 0

abbrev adopted_row : WebhookRegistration
adopted_row = record {
  id = codes "new";
  telegram_user_id = pos 7;
  jira_cloud_id = codes "c";
  subscription_id = codes "s1";
  webhook_id = pos 5;
  jql_filter = assigned;
  events = [];
  expires_at = 0;
  created_ts = 100;
  modified_ts = 100;
}

-- Jira has the webhooks 5 and 6 with the same filter, and has lost 4.
abbrev synced : Resync
synced = record {
  rows = adopted_row ∷ [];
  sub_by_jql = [];
  result = record {
    jira_count = 2;
    local_count = 1;
    adopted = pos 5 ∷ [];
    unmatched = pos 6 ∷ [];
    dropped_local = pos 4 ∷ [];
  };
}

resynced :
    resync_for_user
      (env_with true)
      never
      (pos 7)
      user
      (hook 5 ∷ hook 6 ∷ [])
      (row ∷ [])
      (new_issues ∷ [])
      (row ∷ [])
    ≡ some synced
unfolding resync_for_user index_subs index_sub adopt_all adopt_one adopt drop_all drop_one create
    delete lookup insert erase list_beq sanitize_webhook_jql first_index has_prefix
    subscription_webhook_jql
resynced = refl

resync-Justified_example :
    All
      (Justified (env_with true) (new_issues ∷ []) (hook 5 ∷ hook 6 ∷ []) (pos 4 ∷ []))
      (pos 5 ∷ [])
resync-Justified_example =
    resync-Justified (env_with true) never (pos 7) user (hook 5 ∷ hook 6 ∷ []) (row ∷ [])
      (new_issues ∷ []) (row ∷ []) synced resynced

-- Jira answers 503.
abbrev refresher : Read → RefreshEnv
refresher read = record {
  get_user = λ id. read;
  refresh = λ u ids. http_error 503;
  delete_ok = λ id. true;
  update_ok = λ id. true;
  now = 100;
}

refresh_expiring_forgets_example :
    Survives (codes "r1") (refresh_expiring (refresher read_error) 60 (row ∷ [])) → ⊥
unfolding get_expiring_before
refresh_expiring_forgets_example =
    refresh_expiring_forgets (refresher read_error) 60 (row ∷ []) row (inl refl) refl refl

-- A server of two numbers, one on a page.
abbrev numbers : List ℕ
numbers = 5 ∷ 6 ∷ []

abbrev page_at : ℕ → Page ℕ
page_at zero = record { values = 5 ∷ []; is_last = false }
page_at (suc zero) = record { values = 6 ∷ []; is_last = true }
page_at (suc (suc n)) = record { values = []; is_last = true }

abbrev number_server : Server ℕ
number_server n = some (page_at n)

number_server-Serves : Serves number_server numbers 1
number_server-Serves n = (page_at n, (refl, holds n))
  where
    holds : (n : ℕ) → Holds numbers 1 (page_at n) n
    holds zero = record {
      rest = 6 ∷ [];
      splits = refl;
      last = λ h. ground arith;
      full = inr (omega arith);
    }
    holds (suc zero) = record { rest = []; splits = refl; last = λ h. refl; full = inl refl }
    holds (suc (suc zero)) = record { rest = []; splits = refl; last = λ h. refl; full = inl refl }
    holds (suc (suc (suc n))) = record {
      rest = [];
      splits = refl;
      last = λ h. refl;
      full = inl refl;
    }

list_webhooks_lem_example : list_webhooks number_server 3 ≡ returned numbers
list_webhooks_lem_example =
    list_webhooks_lem number_server numbers 1 3 (omega arith) number_server-Serves (omega arith)
