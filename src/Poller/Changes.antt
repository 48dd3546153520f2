-- ===== src/Poller/Changes.antt =====
-- `changeDisplayValue`, `changeFieldName`, `commentActivityTime` and `recentChanges`.
-- `sinceTS` is in seconds, an instant in milliseconds.
pub mod Window
use jira_bot.Base.{
  ℕ, ◌*◌, Bool, true, false, ◌&&◌, ◌||◌, not, List, [], ◌∷◌, ◌++◌, Option, none, some, ltb, leb,
  if◌then◌else◌, Text, text_eq, ◌==◌,
}
use jira_bot.Jira.Models.{JiraUser, ChangeItem, ChangeHistory, Issue, Comment}

unfoldable pub change_display_value : Text → Text → Text
change_display_value [] raw = raw
change_display_value (c ∷ str) raw = c ∷ str

unfoldable pub change_field_name : Text → Text → Text
change_field_name [] field_id = field_id
change_field_name (c ∷ field) field_id = c ∷ field

abbrev pub later_of : Option ℕ → Option ℕ → Option ℕ
later_of newest none = newest
later_of none (some t) = some t
later_of (some newest) (some t) = if ltb newest t then some t else some newest

-- The zero time is `none`.
unfoldable pub comment_activity_time : Comment → Option ℕ
comment_activity_time c = later_of c.created c.updated

-- `t.After(time.Unix(since, 0))`, false where the text could not be parsed
unfoldable pub is_after : ℕ → Option ℕ → Bool
is_after since none = false
is_after since (some t) = ltb (since * 1000) t

unfoldable pub has_account : Text → Option JiraUser → Bool
has_account id none = false
has_account id (some u) = u.account_id == id

abbrev pub is_empty : Text → Bool
is_empty [] = true
is_empty (c ∷ s) = false

-- `excludeAccountID != "" && h.Author != nil && h.Author.AccountID == excludeAccountID`
unfoldable pub is_own_change : Text → Option JiraUser → Bool
is_own_change exclude author = not (is_empty exclude) && has_account exclude author

-- A history that the loop does not pass over.
unfoldable pub counts : ℕ → Text → ChangeHistory → Bool
counts since exclude h = is_after since h.created && not (is_own_change exclude h.author)

unfoldable pub contains : Text → List Text → Bool
contains id [] = false
contains id (x ∷ xs) = x == id || contains id xs

-- `if h.Author != nil && !seen[h.Author.AccountID] { seen[…] = true; authors = append(…) }`
unfoldable pub new_author : List Text → Option JiraUser → List JiraUser
new_author seen none = []
new_author seen (some u) = if contains u.account_id seen then [] else u ∷ []

unfoldable pub see : List Text → Option JiraUser → List Text
see seen none = seen
see seen (some u) = u.account_id ∷ seen

-- The loop over the histories, with the accounts seen so far.
unfoldable pub collect : ℕ → Text → List Text → List ChangeHistory → List JiraUser × List ChangeItem
collect since exclude seen [] = ([], [])
collect since exclude seen (h ∷ hs) =
    let rest =
      collect since exclude (if counts since exclude h then see seen h.author else seen) hs in
    if counts since exclude h then (new_author seen h.author ++ rest.0, h.items ++ rest.1) else rest

recent_of : ℕ → Text → Option (List ChangeHistory) → List JiraUser × List ChangeItem
recent_of since exclude none = ([], [])
recent_of since exclude (some histories) = collect since exclude [] histories

unfoldable pub recent_changes : Issue → ℕ → Text → List JiraUser × List ChangeItem
unfolding recent_of
recent_changes issue since exclude = recent_of since exclude issue.changelog
