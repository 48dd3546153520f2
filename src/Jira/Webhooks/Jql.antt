-- ===== src/Jira/Webhooks/Jql.antt =====
-- `SubscriptionWebhookJQL` and `SanitizeWebhookJQL`. `quote` is the `%q` of Go's `fmt`, `trim` is
-- `strings.TrimSpace` and `to_upper` is `strings.ToUpper`, on the bytes of a text.
use jira_bot.Base.{ℕ, suc, [], ◌∷◌, ◌++◌, Option, none, some, if◌then◌else◌, Text, codes}
use jira_bot.Storage.{
  my_new_issues, my_mentions, my_watched, project_updates, issue_updates, filter_updates, unknown,
  Subscription,
}
use jira_bot.Poller.Jql.{has_prefix, slice_to, trim_result, order_by}

abbrev with_key : (Text → Text) → Text → Text → Text
with_key quote clause [] = []
with_key quote clause (c ∷ key) = clause ++ quote (c ∷ key)

unfoldable pub subscription_webhook_jql : (quote : Text → Text) → Subscription → Text
subscription_webhook_jql quote sub = elim sub.subscription_type [
  | my_new_issues ↦ codes "assignee = currentUser()"
  | my_watched ↦ []
  | my_mentions ↦ codes "(assignee = currentUser() OR reporter = currentUser())"
  | project_updates ↦ with_key quote (codes "project = ") sub.jira_project_key
  | issue_updates ↦ with_key quote (codes "issuekey = ") sub.jira_issue_key
  | filter_updates ↦ []
  | unknown s ↦ []
]

abbrev after_one : Option ℕ → Option ℕ
after_one none = none
after_one (some i) = some (suc i)

-- `strings.Index(s, sub)` for a nonempty `sub`, `none` for -1.
unfoldable pub first_index : Text → Text → Option ℕ
first_index sub [] = none
first_index sub (c ∷ s) =
    let later = after_one (first_index sub s) in if has_prefix sub (c ∷ s) then some 0 else later

abbrev cut_at : (Text → Text) → Text → Option ℕ → Option Text
cut_at trim jql none = some jql
cut_at trim jql (some idx) = trim_result trim (slice_to jql idx)

-- `none` is a panic: the index in the upper-case text is past the end of the text.
unfoldable pub sanitize_webhook_jql : (trim to_upper : Text → Text) → Text → Option Text
sanitize_webhook_jql trim to_upper raw =
    let jql = trim raw in cut_at trim jql (first_index order_by (to_upper jql))
