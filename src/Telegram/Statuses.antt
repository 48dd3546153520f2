-- ===== src/Telegram/Statuses.antt =====
-- internal/telegram/handler_sprint.go: which statuses count as done, held or in progress, and the
-- walk over the changes of an issue's status. `strings.ToLower` and `strings.EqualFold` are fields of `Letters`.
use jira_bot.Base.{
  ℕ, Bool, true, false, not, ◌&&◌, ◌||◌, List, [], ◌∷◌, Option, none, some, if◌then◌else◌, Text,
  codes, text_eq, ◌==◌,
}
use jira_bot.Jira.Models.{ChangeItem, ChangeHistory, Status, IssueFields, Issue, JiraUser}

pub record Letters : Type 0 where
  pub to_lower : Text → Text
  pub equal_fold : Text → Text → Bool

-- `switch name { case …: return true }`
unfoldable pub is_one_of : Text → List Text → Bool
is_one_of name [] = false
is_one_of name (s ∷ names) = name == s || is_one_of name names

abbrev pub done_names : List Text
done_names = codes "done" ∷ codes "closed" ∷ codes "resolved" ∷ codes "completed" ∷ []

unfoldable pub is_in_progress_status : Text → Bool
is_in_progress_status name = is_one_of name (
    codes "in progress"
    ∷ codes "in review"
    ∷ codes "in development"
    ∷ codes "review"
    ∷ codes "in testing"
    ∷ [])

unfoldable pub contains_lower : Letters → List Text → Text → Bool
contains_lower l [] name = false
contains_lower l (s ∷ names) name = l.equal_fold s name || contains_lower l names name

unfoldable pub is_done_status : Letters → Text → List Text → Bool
is_done_status l name [] = is_one_of name done_names
is_done_status l name (c ∷ custom) = contains_lower l (c ∷ custom) name

unfoldable pub is_hold_status : Letters → Text → List Text → Bool
is_hold_status l name [] =
    is_one_of name (codes "hold" ∷ codes "on hold" ∷ codes "blocked" ∷ codes "suspended" ∷ [])
is_hold_status l name (c ∷ custom) = contains_lower l (c ∷ custom) name

abbrev pub is_custom : List Text → Bool
is_custom [] = false
is_custom (c ∷ custom) = true

-- The fallback by name.
unfoldable pub category_of_name : List Text → Text → Text
category_of_name done_statuses name =
    if not (is_custom done_statuses) && is_one_of name done_names
    then codes "done"
    else if is_one_of name
        (codes "in progress" ∷ codes "in review" ∷ codes "in development" ∷ codes "review" ∷ [])
    then codes "indeterminate"
    else codes "new"

abbrev category_of_key : List Text → Text → Option Text → Text
category_of_key done_statuses name none = category_of_name done_statuses name
category_of_key done_statuses name (some key) =
    if not (key == codes "done") || not (is_custom done_statuses)
    then key
    else category_of_name done_statuses name

abbrev category_of_status : Letters → List Text → List Text → Option Status → Text
category_of_status l done_statuses hold_statuses none = codes "new"
category_of_status l done_statuses hold_statuses (some status) =
    let name = l.to_lower status.name in
    if is_hold_status l name hold_statuses
    then codes "hold"
    else if is_custom done_statuses && contains_lower l done_statuses name
    then codes "done"
    else category_of_key done_statuses name status.category

unfoldable pub status_category : Letters → Issue → (done_statuses hold_statuses : List Text) → Text
status_category l issue done_statuses hold_statuses =
    category_of_status l done_statuses hold_statuses issue.fields.status

-- `for _, hist := range histories { for _, item := range hist.Items { … } }`; `f` gets the instant of the history.
module _ {S : Type 0} (f : Option ℕ → ChangeItem → S → S) where
  unfoldable pub over_items : Option ℕ → List ChangeItem → S → S
  over_items created [] s = s
  over_items created (item ∷ items) s = over_items created items (f created item s)

  unfoldable pub over_histories : List ChangeHistory → S → S
  over_histories [] s = s
  over_histories (hist ∷ histories) s =
      over_histories histories (over_items hist.created hist.items s)

abbrev pub histories_of : Issue → List ChangeHistory
histories_of issue = elim issue.changelog [ none ↦ [] | some histories ↦ histories ]

-- `item.Field` is "status", in any case of its letters.
abbrev pub is_status_item : Letters → ChangeItem → Bool
is_status_item l item = l.equal_fold item.field (codes "status")

abbrev pub type_name : Issue → Text
type_name issue = elim issue.fields.issue_type [ none ↦ codes "Other" | some name ↦ name ]

-- `isFiltered && !filterSet[typeName]`, negated.
unfoldable pub passes_filter : List Text → Issue → Bool
passes_filter [] issue = true
passes_filter (f ∷ filter) issue = is_one_of (type_name issue) (f ∷ filter)

abbrev name_or_empty : Option JiraUser → Text
name_or_empty none = []
name_or_empty (some u) = u.display_name

unfoldable pub issue_assignee_name : IssueFields → (use_custom_assignee : Bool) → Text
issue_assignee_name f true = name_or_empty f.custom_assignee
issue_assignee_name f false = name_or_empty f.assignee
