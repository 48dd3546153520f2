-- ===== src/Poller/Jql.antt =====
-- `buildJQL` and `stripOrderBy`. `quote` is the `%q` of Go's `fmt`, `trim` is `strings.TrimSpace`,
-- and `to_upper` is `strings.ToUpper`, on the bytes of a text.
pub mod Stripping
use jira_bot.Base.{
  ℕ, zero, suc, ◌+◌, ◌≤◌, ◌≡◌, refl, Bool, true, false, ◌&&◌, List, [], ◌∷◌, ◌++◌, Option, none,
  some, ltb, leb, nat_beq, if◌then◌else◌, take, length, Text, codes,
}
use jira_bot.Storage.{
  SubscriptionType, my_new_issues, my_mentions, my_watched, project_updates, issue_updates,
  filter_updates, unknown, Subscription, User,
}
use jira_bot.Poller.Changes.{is_empty}

unfoldable pub has_prefix : Text → Text → Bool
has_prefix [] s = true
has_prefix (o ∷ old) [] = false
has_prefix (o ∷ old) (c ∷ s) = nat_beq o c && has_prefix old s

-- `strings.LastIndex(s, sub)` for a nonempty `sub`, `none` for -1.
unfoldable pub last_index : Text → Text → Option ℕ
last_index sub [] = none
last_index sub (c ∷ s) = elim (last_index sub s) [
  | some i ↦ some (suc i)
  | none ↦ if has_prefix sub (c ∷ s) then some 0 else none
]

-- `jql[:idx]` panics, `none`, where `idx` is past the end.
abbrev pub slice_to : Text → ℕ → Option Text
slice_to s idx = if leb idx (length s) then some (take idx s) else none

abbrev pub order_by : Text
order_by = codes " ORDER BY "

abbrev pub trim_result : (Text → Text) → Option Text → Option Text
trim_result trim none = none
trim_result trim (some s) = some (trim s)

unfoldable pub strip_order_by : (trim to_upper : Text → Text) → Text → Option Text
strip_order_by trim to_upper raw =
    let jql = trim raw in
    elim (last_index order_by (to_upper jql)) [
      | some idx ↦ trim_result trim (slice_to jql idx)
      | none ↦ if has_prefix (codes "ORDER BY ") (to_upper jql) then some [] else some jql
    ]

abbrev pub relation : Text
relation =
    codes
      "watcher = currentUser() OR assignee = currentUser() OR reporter = currentUser() OR voter = currentUser() OR worklogAuthor = currentUser()"

abbrev pub parenthesised : Text → Text
parenthesised s = codes "(" ++ s ++ codes ")"

abbrev pub in_parentheses : Option Text → Option Text
in_parentheses none = none
in_parentheses (some []) = some []
in_parentheses (some (c ∷ s)) = some (parenthesised (c ∷ s))

abbrev pub unless_empty : Text → Text → Option Text
unless_empty [] s = some []
unless_empty (c ∷ key) s = some s

abbrev mentions_jql : (Text → Text) → Text → Text
mentions_jql quote [] = parenthesised relation
mentions_jql quote (c ∷ name) =
    codes "("
    ++ relation
    ++ codes " OR text ~ "
    ++ quote (codes "\"" ++ (c ∷ name) ++ codes "\"")
    ++ codes ")"

unfoldable pub build_jql : (quote trim to_upper : Text → Text) → Subscription → User → Option Text
build_jql quote trim to_upper sub user = elim sub.subscription_type [
  | my_new_issues ↦ some (codes "assignee = currentUser()")
  | my_mentions ↦ some (mentions_jql quote user.jira_display_name)
  | my_watched ↦ some (codes "watcher = currentUser()")
  | project_updates ↦
      unless_empty sub.jira_project_key (codes "project = " ++ quote sub.jira_project_key)
  | issue_updates ↦ unless_empty sub.jira_issue_key (codes "key = " ++ quote sub.jira_issue_key)
  | filter_updates ↦ elim sub.jira_filter_jql [
    | [] ↦ some []
    | c ∷ s ↦ in_parentheses (strip_order_by trim to_upper (c ∷ s))
  ]
  | unknown s ↦ some []
]
