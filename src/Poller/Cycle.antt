-- ===== src/Poller/Cycle.antt =====
-- `pollUser`: one user's subscriptions, polled one after the other. Clock readings are in seconds
-- here; that of `addPending`, in milliseconds, is `clock`. Jira's answers are arguments.
pub mod Accounting
use jira_bot.Base.{
  ℕ, zero, suc, ◌+◌, ◌-◌, ◌*◌, ◌%◌, Bool, true, false, ◌&&◌, ◌||◌, not, List, [], ◌∷◌, ◌++◌, Option,
  none, some, ltb, leb, if◌then◌else◌, Text, ℤ, text_eq, int_eq, pair_eq, ◌==◌, codes, lookup,
  is_some,
}
use jira_bot.Locale.{from_text}
use jira_bot.Jira.Models.{Issue, Comment}
use jira_bot.Storage.{SubscriptionType, my_mentions, Subscription, User}
use jira_bot.Poller.Changes.{is_empty}
use jira_bot.Poller.Pending.{Pendings, pending_key, add_pending, is_nil}
use jira_bot.Poller.Jql.{build_jql}

pub data SearchAnswer : Type 0 where
  found : List Issue → SearchAnswer
  failed token_invalid : SearchAnswer

-- The poll of a query that panics is left out of the model of the loop.
abbrev pub jql_or_empty : Option Text → Text
jql_or_empty none = []
jql_or_empty (some s) = s

-- `pollMaxResults`
abbrev pub poll_max_results : ℕ
poll_max_results = 50

-- The drop counters of one subscription.
pub record Counts : Type 0 where
  pub stale : ℕ
  pub no_mention : ℕ
  pub dup_chat : ℕ
  pub passed : ℕ

-- `emitted` holds the subscription and issue of each `ChangeDetected`, `polled` the calls of
-- `UpdateLastPolled`; both have the latest first.
pub record Cycle : Type 0 where
  pub pending : Pendings
  pub notified : List (ℤ × Text)
  pub emitted : List (Text × Text)
  pub polled : List (Text × ℕ)
  pub disconnected : Bool

abbrev pub no_counts : Counts
no_counts = record { stale = 0; no_mention = 0; dup_chat = 0; passed = 0 }

-- `parseErr == nil && !updatedAt.After(sinceTime)`
unfoldable pub is_stale : ℕ → Option ℕ → Bool
is_stale since none = false
is_stale since (some t) = not (ltb (since * 1000) t)

abbrev pub is_mentions : SubscriptionType → Bool
is_mentions my_mentions = true
is_mentions _ = false

unfoldable pub was_notified : ℤ × Text → List (ℤ × Text) → Bool
was_notified p [] = false
was_notified p (q ∷ qs) = q == p || was_notified p qs

-- `if sub.LastPolledAt > 0 { … }`, else the time an interval ago.
unfoldable pub since_timestamp : Subscription → (now interval : ℕ) → ℕ
since_timestamp sub now interval =
    if ltb 0 sub.last_polled_at then sub.last_polled_at else now - interval

module _ (user : User) (mentions : Text → ℕ → List Comment) (clock : ℕ) where
  -- `addPending`, the counter and `emitChangeDetected`.
  unfoldable pub pass_on : Subscription → ℕ → List Comment → Issue → Cycle × Counts → Cycle × Counts
  pass_on sub since comments issue (c, n) = (
    record c {
      pending =
          add_pending c.pending sub.telegram_chat_id issue user.jira_site_url since
            user.jira_account_id (from_text user.language) (is_mentions sub.subscription_type)
            comments clock;
      emitted = (sub.id, issue.key) ∷ c.emitted;
    },
    record n { passed = n.passed + 1 },
  )

  -- The rest of the loop body for an issue that is neither stale nor without its mention.
  unfoldable pub route : Subscription → ℕ → List Comment → Issue → Cycle × Counts → Cycle × Counts
  route sub since comments issue (c, n) =
      if is_some (lookup (pending_key sub.telegram_chat_id issue.key) c.pending)
      then pass_on sub since comments issue (c, n)
      else if was_notified (sub.telegram_chat_id, issue.key) c.notified
      then (c, record n { dup_chat = n.dup_chat + 1 })
      else pass_on sub since comments issue
          (record c { notified = (sub.telegram_chat_id, issue.key) ∷ c.notified }, n)

  unfoldable pub process_issue : Subscription → ℕ → Issue → Cycle × Counts → Cycle × Counts
  process_issue sub since issue (c, n) =
      let is_mention = is_mentions sub.subscription_type in
      let comments = if is_mention then mentions issue.key since else [] in
      if is_stale since issue.fields.updated
      then (c, record n { stale = n.stale + 1 })
      else if is_mention && is_nil comments
      then (c, record n { no_mention = n.no_mention + 1 })
      else route sub since comments issue (c, n)

  unfoldable pub process_issues : Subscription → ℕ → List Issue → Cycle × Counts → Cycle × Counts
  process_issues sub since [] s = s
  process_issues sub since (i ∷ is') s = process_issues sub since is' (process_issue sub since i s)

  -- What one answer of Jira leads to. `now` is the time at which the poll of the user began.
  unfoldable pub after_search : Subscription → (since now : ℕ) → SearchAnswer → Cycle → Cycle
  after_search sub since now (found issues) c =
      let c' = (process_issues sub since issues (c, no_counts)).0 in
      record c' { polled = (sub.id, now) ∷ c'.polled }
  after_search sub since now failed c = c
  after_search sub since now token_invalid c = record c { disconnected = true }

  -- `search` is given the time and the maximum of results; there is no second page.
  module _ (search : Subscription → ℕ → ℕ → SearchAnswer) (jql : Subscription → Text)
      (interval : ℕ) where
    -- A subscription with no query is passed over. A token that Jira rejects for good ends the loop.
    unfoldable pub poll_subs : (now : ℕ) → List Subscription → Cycle → Cycle
    poll_subs now [] c = c
    poll_subs now (sub ∷ subs) c =
        let since = since_timestamp sub now interval in
        let c' =
          if is_empty (jql sub)
          then c
          else after_search sub since now (search sub (since - since % 60) poll_max_results) c in
        let rest = poll_subs now subs c' in if c'.disconnected then c' else rest

-- `backfillDisplayName`: `myself` is the name that /myself gives, if the call succeeds, and `saved`
-- whether it could be stored.
unfoldable pub backfill_display_name : (myself : Option Text) → (saved : Bool) → User → User
backfill_display_name none saved user = user
backfill_display_name (some []) saved user = user
backfill_display_name (some (c ∷ name)) saved user =
    if saved then record user { jira_display_name = c ∷ name } else user

-- `pollUser` for the row that the repository gives, if any.
unfoldable pub poll_user :
    (quote trim to_upper : Text → Text)
    → (User → Text → ℕ → List Comment)
    → (User → Subscription → ℕ → ℕ → SearchAnswer)
    → (myself : Option Text) → (saved : Bool) → (clock now interval : ℕ) → Option User
    → List Subscription
    → Cycle
    → Cycle
poll_user quote trim to_upper mentions search myself saved clock now interval none subs c = c
poll_user quote trim to_upper mentions search myself saved clock now interval (some user) subs c =
    let u =
      if is_empty user.jira_display_name && not (is_empty user.jira_account_id)
      then backfill_display_name myself saved user
      else user in
    if is_empty user.access_token
    then c
    else poll_subs u (mentions u) clock (search u)
        (λ sub. jql_or_empty (build_jql quote trim to_upper sub u)) interval now subs
        (record c { notified = [] })
