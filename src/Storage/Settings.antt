-- ===== src/Storage/Settings.antt =====
-- internal/storage/user_repo.go: the setters of a user's preferences and the events that they
-- publish. The collection is a map from Telegram ids, which Mongo keeps unique; the time stamps of
-- the rows and of the events are not modelled.
use jira_bot.Base.{
  Bool, List, [], ◌∷◌, ◌++◌, Option, none, some, if◌then◌else◌, Text, ℤ, pos, lookup, insert,
  int_eq,
}
use jira_bot.Storage.{User}

-- The setters of `UserRepo` that store a preference.
pub data Setter : Type 0 where
  language defaults default_issue_type sprint_issue_types done_statuses hold_statuses : Setter
  assignee_field story_points_field daily_jql : Setter

-- What each takes after the Telegram id.
abbrev pub Arguments : Setter → Type 0
Arguments language = Text
Arguments defaults = Text × ℤ
Arguments default_issue_type = Text × Text
Arguments sprint_issue_types = List Text
Arguments done_statuses = List Text
Arguments hold_statuses = List Text
Arguments assignee_field = Text
Arguments story_points_field = Text
Arguments daily_jql = Text × Text × Text

-- `eventsv1.DefaultsChanged` holds the preferences of the row that is read back.
pub data Event : Type 0 where
  language_changed : ℤ → Text → Event
  defaults_changed : ℤ → User → Event

pub record Db : Type 0 where
  pub users : List (ℤ × User)
  pub events : List Event

-- Whether `UpdateOne` and the two reads, `FindOne` after it and in `GetByTelegramID`, succeed.
pub record Health : Type 0 where
  pub can_write : Bool
  pub can_read_back : Bool
  pub can_get : Bool

-- The `$set` document of a setter.
unfoldable pub update : (s : Setter) → Arguments s → User → User
update language l u = record u { language = l }
update defaults (project, board) u = record u {
  default_project = project;
  default_board_id = board;
}
update default_issue_type (id, name) u = record u {
  default_issue_type_id = id;
  default_issue_type_name = name;
}
update sprint_issue_types types u = record u { sprint_issue_types = types }
update done_statuses statuses u = record u { done_statuses = statuses }
update hold_statuses statuses u = record u { hold_statuses = statuses }
update assignee_field field u = record u { assignee_field_id = field }
update story_points_field field u = record u { story_points_field_id = field }
update daily_jql (done, doing, plan) u = record u {
  daily_done_jql = done;
  daily_doing_jql = doing;
  daily_plan_jql = plan;
}

-- The row that an upsert inserts: the fields of its filter, all others absent.
abbrev pub new_user : ℤ → User
new_user id = record {
  telegram_user_id = id;
  access_token = [];
  refresh_token = [];
  token_expires_at = 0;
  jira_cloud_id = [];
  jira_site_url = [];
  jira_account_id = [];
  jira_display_name = [];
  language = [];
  calendar_url = [];
  calendar_reminder_minutes = 0;
  calendar_last_fetched_at = 0;
  daily_done_jql = [];
  daily_doing_jql = [];
  daily_plan_jql = [];
  default_project = [];
  default_board_id = pos 0;
  default_issue_type_id = [];
  default_issue_type_name = [];
  sprint_issue_types = [];
  assignee_field_id = [];
  story_points_field_id = [];
  done_statuses = [];
  hold_statuses = [];
}

-- `UpdateOne` without upsert: no row, no change.
unfoldable pub update_one : ℤ → (User → User) → List (ℤ × User) → List (ℤ × User)
update_one id f users = elim (lookup id users) [ none ↦ users | some u ↦ insert id (f u) users ]

-- `UpdateOne` with `SetUpsert(true)`.
unfoldable pub upsert_one : ℤ → (User → User) → List (ℤ × User) → List (ℤ × User)
upsert_one id f users = elim (lookup id users) [
  | none ↦ insert id (f (new_user id)) users
  | some u ↦ insert id (f u) users
]

unfoldable pub publish : Event → Db → Db
publish e db = record db { events = db.events ++ e ∷ [] }

-- The row is read back; the event is dropped where that fails or finds nothing.
unfoldable pub publish_defaults_changed : Health → ℤ → Db → Db
publish_defaults_changed h id db = elim (lookup id db.users) [
  | none ↦ db
  | some u ↦ if h.can_read_back then publish (defaults_changed id u) db else db
]

abbrev pub set_language : ℤ → Text → Db → Db
set_language id l db =
    publish (language_changed id l)
      (record db { users = upsert_one id (update language l) db.users })

abbrev pub set_other : Health → ℤ → (User → User) → Db → Db
set_other h id f db = publish_defaults_changed h id (record db { users = update_one id f db.users })

-- The write of each setter, and then its event.
unfoldable pub written : Health → (s : Setter) → ℤ → Arguments s → Db → Db
written h language id l db = set_language id l db
written h defaults id a db = set_other h id (update defaults a) db
written h default_issue_type id a db = set_other h id (update default_issue_type a) db
written h sprint_issue_types id a db = set_other h id (update sprint_issue_types a) db
written h done_statuses id a db = set_other h id (update done_statuses a) db
written h hold_statuses id a db = set_other h id (update hold_statuses a) db
written h assignee_field id a db = set_other h id (update assignee_field a) db
written h story_points_field id a db = set_other h id (update story_points_field a) db
written h daily_jql id a db = set_other h id (update daily_jql a) db

-- `none` where the update fails, which leaves the rows alone.
unfoldable pub set : Health → (s : Setter) → ℤ → Arguments s → Db → Option Db
set h s id a db = if h.can_write then some (written h s id a db) else none

-- `GetByTelegramID`: `none` for an error.
unfoldable pub get_by_telegram_id : Health → ℤ → Db → Option (Option User)
get_by_telegram_id h id db = if h.can_get then some (lookup id db.users) else none
