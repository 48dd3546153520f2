-- ===== src/Preferences/Rows.antt =====
-- internal/storage/user_repo.go: the rows after a preference was set.
use jira_bot.Base.{
  List, Option, none, some, arith, if◌then◌else◌, ◌≡◌, ap, ◌∙◌, Text, ℤ, text_eq, int_eq, ◌==◌,
  ==_iff, lookup, lookup-insert, Option-cases, inl, inr,
}
use jira_bot.Storage.{User}
use jira_bot.Storage.Settings.{
  Setter, language, defaults, default_issue_type, sprint_issue_types, done_statuses, hold_statuses,
  assignee_field, story_points_field, daily_jql, Arguments, Db, Health, update, new_user,
  update_one, upsert_one, publish, publish_defaults_changed, set_other, written,
}

-- `Option.map` of the update.
abbrev update_row : (User → User) → Option User → Option User
update_row f none = none
update_row f (some u) = some (f u)

-- The row of a user after a setter: without a row only the language makes one.
abbrev pub row_after : (s : Setter) → Arguments s → ℤ → Option User → Option User
row_after language l id none = some (update language l (new_user id))
row_after language l id (some u) = some (update language l u)
row_after defaults a id row = update_row (update defaults a) row
row_after default_issue_type a id row = update_row (update default_issue_type a) row
row_after sprint_issue_types a id row = update_row (update sprint_issue_types a) row
row_after done_statuses a id row = update_row (update done_statuses a) row
row_after hold_statuses a id row = update_row (update hold_statuses a) row
row_after assignee_field a id row = update_row (update assignee_field a) row
row_after story_points_field a id row = update_row (update story_points_field a) row
row_after daily_jql a id row = update_row (update daily_jql a) row

users-publish_defaults_changed :
    (h : Health) (id : ℤ) (db : Db) → (publish_defaults_changed h id db).users ≡ db.users
unfolding publish_defaults_changed publish
users-publish_defaults_changed h id db = ground arith

lookup-update_one :
    (id asked : ℤ) (f : User → User) (users : List (ℤ × User))
    → lookup asked (update_one id f users)
      ≡ (if id == asked then update_row f (lookup id users) else lookup asked users)
unfolding update_one
lookup-update_one id asked f users = elim (Option-cases (lookup id users)) [
  | inl absent ↦ ground (arith, ==_iff id asked)
  | inr (u, found) ↦ ground (arith, lookup-insert id asked (f u) users)
]

lookup-upsert_one :
    (id asked : ℤ) (l : Text) (users : List (ℤ × User))
    → lookup asked (upsert_one id (update language l) users)
      ≡ (if id == asked then row_after language l id (lookup id users) else lookup asked users)
unfolding upsert_one
lookup-upsert_one id asked l users = elim (Option-cases (lookup id users)) [
  | inl absent ↦ ground (arith, lookup-insert id asked (update language l (new_user id)) users)
  | inr (u, found) ↦ ground (arith, lookup-insert id asked (update language l u) users)
]

lookup-set_other :
    (h : Health) (id asked : ℤ) (f : User → User) (db : Db)
    → lookup asked (set_other h id f db).users
      ≡ (if id == asked then update_row f (lookup id db.users) else lookup asked db.users)
lookup-set_other h id asked f db =
    let db2 : Db = record db { users = update_one id f db.users } in
    ap (lookup asked) (users-publish_defaults_changed h id db2)
    ∙ lookup-update_one id asked f db.users

pub row_after_lem :
    (s : Setter) (a : Arguments s) (id asked : ℤ) (h : Health) (db : Db)
    → lookup asked (written h s id a db).users
      ≡ (if id == asked then row_after s a id (lookup id db.users) else lookup asked db.users)
unfolding written publish
row_after_lem language a id asked h db = lookup-upsert_one id asked a db.users
row_after_lem defaults a id asked h db = lookup-set_other h id asked (update defaults a) db
row_after_lem default_issue_type a id asked h db =
    lookup-set_other h id asked (update default_issue_type a) db
row_after_lem sprint_issue_types a id asked h db =
    lookup-set_other h id asked (update sprint_issue_types a) db
row_after_lem done_statuses a id asked h db =
    lookup-set_other h id asked (update done_statuses a) db
row_after_lem hold_statuses a id asked h db =
    lookup-set_other h id asked (update hold_statuses a) db
row_after_lem assignee_field a id asked h db =
    lookup-set_other h id asked (update assignee_field a) db
row_after_lem story_points_field a id asked h db =
    lookup-set_other h id asked (update story_points_field a) db
row_after_lem daily_jql a id asked h db = lookup-set_other h id asked (update daily_jql a) db
