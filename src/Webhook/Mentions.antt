-- ===== src/Webhook/Mentions.antt =====
-- handler.go: `findMentionSubscriptions`. `users_by_accounts` and `mention_subs` answer the two
-- queries, `none` where one fails.
pub mod Wanted
use jira_bot.Base.{
  Bool, true, false, ◌||◌, List, [], ◌∷◌, Option, none, some, if◌then◌else◌, Text, ℤ, text_eq, ◌==◌,
  map,
}
use jira_bot.Jira.Adf.{extract_mention_ids}
use jira_bot.Poller.Changes.{contains}
use jira_bot.Storage.{Subscription, User}
use jira_bot.Webhook.Models.{EventUser, EventComment}

unfoldable pub is_author : Option EventUser → Text → Bool
is_author none id = false
is_author (some u) id = id == u.account_id

-- The loop that collects `accountIDs`, with the accounts seen so far.
unfoldable pub wanted_ids : Option EventUser → List Text → List Text → List Text
wanted_ids author seen [] = []
wanted_ids author seen (id ∷ ids) =
    let skipped = wanted_ids author seen ids in
    let taken = wanted_ids author (id ∷ seen) ids in
    if is_author author id || contains id seen then skipped else id ∷ taken

unfoldable pub subs_or_none : Option (List Subscription) → List Subscription
subs_or_none none = []
subs_or_none (some subs) = subs

module _ (users_by_accounts : List Text → Option (List User))
    (mention_subs : List ℤ → Option (List Subscription)) where
  unfoldable pub subs_of_users : Option (List User) → List Subscription
  subs_of_users none = []
  subs_of_users (some []) = []
  subs_of_users (some (u ∷ us)) =
      subs_or_none (mention_subs (map (λ (x : User). x.telegram_user_id) (u ∷ us)))

  unfoldable pub subs_of_accounts : List Text → List Subscription
  subs_of_accounts [] = []
  subs_of_accounts (id ∷ ids) = subs_of_users (users_by_accounts (id ∷ ids))

  -- A comment's nil body has no mentions.
  unfoldable pub find_mention_subscriptions : Option EventComment → List Subscription
  find_mention_subscriptions none = []
  find_mention_subscriptions (some c) =
      subs_of_accounts (wanted_ids c.author [] (extract_mention_ids c.body))
