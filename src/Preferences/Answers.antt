-- ===== src/Preferences/Answers.antt =====
-- internal/preferences with internal/storage/user_repo.go: what is read after a preference was set.
use jira_bot.Base.{
  Bool, true, false, Option, none, some, if◌then◌else◌, ◌≡◌, refl, ap, ◌∙◌, ℤ, pos, codes, text_eq,
  int_eq, ◌==◌, lookup,
}
use jira_bot.Storage.{User}
use jira_bot.Preferences.Rows.{row_after, row_after_lem}
use jira_bot.Preferences.Access.{IsAccepted, serve_set-accepted, refusal-none}
use jira_bot.Preferences.Bearer.{HasToken}
use jira_bot.Storage.Settings.{
  Setter, language, defaults, default_issue_type, sprint_issue_types, done_statuses, hold_statuses,
  assignee_field, story_points_field, daily_jql, Arguments, Db, update, new_user, written,
  get_by_telegram_id,
}
use jira_bot.Preferences.{
  Env, Request, Response, not_found, preferences, user_to_preferences, Preferences, serve_get,
  get_parsed, answer_get, found_user, serve_set, provider_get, write_error, write_provider_error,
  status_for_code,
}

-- What GET answers for a row.
abbrev pub answer_for : Option User → Response
answer_for none = write_error 404 not_found
answer_for (some u) = record { status = 200; content = preferences (user_to_preferences u) }

-- A GET that reaches the store.
abbrev pub IsRead : Env → Request → ℤ → Type 0
IsRead env r id =
    (r.method ≡ codes "GET")
    × HasToken env.auth_token r
    × (env.parse_telegram_id r.query ≡ some id)
    × ((id == pos 0) ≡ false)
    × (env.health.can_get ≡ true)

answer_get-found_user : (row : Option User) → answer_get (found_user (some row)) ≡ answer_for row
unfolding write_provider_error status_for_code
answer_get-found_user none = refl
answer_get-found_user (some u) = refl

serve_get-read :
    (env : Env) (r : Request) (id : ℤ) (db : Db)
    → IsRead env r id
    → serve_get env r db ≡ answer_for (lookup id db.users)
unfolding serve_get provider_get get_by_telegram_id get_parsed
serve_get-read env r id db (method, bearer, parsed, nonzero, up) =
    rw
      (
        refusal-none env.auth_token (codes "GET") r method bearer,
        parsed,
        nonzero,
        up,
        serve_get,
        get_parsed,
        answer_get,
        found_user,
        provider_get,
        get_by_telegram_id,
      )
      (answer_get-found_user (lookup id db.users))

-- What a setter means for the preferences that are shown: the fields that its request names.
abbrev pub amend : (s : Setter) → Arguments s → Preferences → Preferences
amend language l p = record p { language = l }
amend defaults (project, board) p = record p { default_project = project; default_board_id = board }
amend default_issue_type (id, name) p = record p {
  default_issue_type_id = id;
  default_issue_type_name = name;
}
amend sprint_issue_types types p = record p { sprint_issue_types = types }
amend done_statuses statuses p = record p { done_statuses = statuses }
amend hold_statuses statuses p = record p { hold_statuses = statuses }
amend assignee_field field p = record p { assignee_field_id = field }
amend story_points_field field p = record p { story_points_field_id = field }
amend daily_jql (done, doing, plan) p = record p {
  daily_done_jql = done;
  daily_doing_jql = doing;
  daily_plan_jql = plan;
}

user_to_preferences-update :
    (s : Setter) (a : Arguments s) (u : User)
    → user_to_preferences (update s a u) ≡ amend s a (user_to_preferences u)
unfolding user_to_preferences update
user_to_preferences-update language l u = refl
user_to_preferences-update defaults (project, board) u = refl
user_to_preferences-update default_issue_type (id, name) u = refl
user_to_preferences-update sprint_issue_types a u = refl
user_to_preferences-update done_statuses a u = refl
user_to_preferences-update hold_statuses a u = refl
user_to_preferences-update assignee_field a u = refl
user_to_preferences-update story_points_field a u = refl
user_to_preferences-update daily_jql (done, doing, plan) u = refl

-- A GET before the setter, and what it answers after it, where the language makes a missing row.
abbrev pub amend_answer : (s : Setter) → Arguments s → ℤ → Option User → Response
amend_answer s a id (some u) = record {
  status = 200;
  content = preferences (amend s a (user_to_preferences u));
}
amend_answer language l id none = record {
  status = 200;
  content = preferences (amend language l (user_to_preferences (new_user id)));
}
amend_answer defaults a id none = write_error 404 not_found
amend_answer default_issue_type a id none = write_error 404 not_found
amend_answer sprint_issue_types a id none = write_error 404 not_found
amend_answer done_statuses a id none = write_error 404 not_found
amend_answer hold_statuses a id none = write_error 404 not_found
amend_answer assignee_field a id none = write_error 404 not_found
amend_answer story_points_field a id none = write_error 404 not_found
amend_answer daily_jql a id none = write_error 404 not_found

answer_for-update :
    (s : Setter) (a : Arguments s) (u : User)
    → answer_for (some (update s a u)) ≡ amend_answer s a (pos 0) (some u)
answer_for-update s a u =
    ap (λ p. record { status = 200; content = preferences p }) (user_to_preferences-update s a u)

answer_for-row_after :
    (s : Setter) (a : Arguments s) (id : ℤ) (row : Option User)
    → answer_for (row_after s a id row) ≡ amend_answer s a id row
answer_for-row_after language l id none = answer_for-update language l (new_user id)
answer_for-row_after language l id (some u) = answer_for-update language l u
answer_for-row_after defaults a id none = refl
answer_for-row_after defaults a id (some u) = answer_for-update defaults a u
answer_for-row_after default_issue_type a id none = refl
answer_for-row_after default_issue_type a id (some u) = answer_for-update default_issue_type a u
answer_for-row_after sprint_issue_types a id none = refl
answer_for-row_after sprint_issue_types a id (some u) = answer_for-update sprint_issue_types a u
answer_for-row_after done_statuses a id none = refl
answer_for-row_after done_statuses a id (some u) = answer_for-update done_statuses a u
answer_for-row_after hold_statuses a id none = refl
answer_for-row_after hold_statuses a id (some u) = answer_for-update hold_statuses a u
answer_for-row_after assignee_field a id none = refl
answer_for-row_after assignee_field a id (some u) = answer_for-update assignee_field a u
answer_for-row_after story_points_field a id none = refl
answer_for-row_after story_points_field a id (some u) = answer_for-update story_points_field a u
answer_for-row_after daily_jql a id none = refl
answer_for-row_after daily_jql a id (some u) = answer_for-update daily_jql a u

-- A POST of a setter that is authorised, read and decoded, with a Telegram id that is not zero and a
-- write that succeeds, is answered 204. An authorised GET afterwards, with an id that is not zero and
-- a read that succeeds, shows that user's preferences as before but with the fields of the setter as
-- the request gives them; without a row the language makes one and after every other setter the
-- answer is 404. For any other user the GET answers as the row before says.
pub serve_set-get :
    (env : Env) (s : Setter) (post read : Request) (id asked : ℤ) (a : Arguments s) (db : Db)
    → IsAccepted env s post id a
    → IsRead env read asked
    → ((serve_set env s post db).0.status ≡ 204)
      × (serve_get env read (serve_set env s post db).1 ≡ (
          if id == asked
          then amend_answer s a id (lookup id db.users)
          else answer_for (lookup asked db.users)))
serve_set-get env s post read id asked a db post_ok read_ok =
    rw (serve_set-accepted env s post id a db post_ok) (
      refl,
      serve_get-read env read asked (written env.health s id a db) read_ok
          ∙ ap answer_for (row_after_lem s a id asked env.health db)
          ∙ answer_for-chosen (id == asked),
    )
  where
    answer_for-chosen :
        (same : Bool)
        → answer_for (if same then row_after s a id (lookup id db.users) else lookup asked db.users)
          ≡ (if same
              then amend_answer s a id (lookup id db.users)
              else answer_for (lookup asked db.users))
    answer_for-chosen true = answer_for-row_after s a id (lookup id db.users)
    answer_for-chosen false = refl
