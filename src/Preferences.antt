-- ===== src/Preferences.antt =====
-- internal/preferences: the provider of the users' preferences and its HTTP server. The store is
-- `Storage.Settings`. `strconv.ParseInt`, the query string and `encoding/json` are fields of `Env`;
-- the texts of the messages and the log are not modelled.
pub mod Bearer
pub mod Access
pub mod Rows
pub mod Answers
use jira_bot.Base.{
  ℕ, Bool, true, false, List, Option, none, some, if◌then◌else◌, not, ◌||◌, Text, ℤ, pos, codes,
  text_eq, int_eq, ◌==◌, drop, length,
}
use jira_bot.Poller.Jql.{has_prefix}
use jira_bot.Storage.{User}
use jira_bot.Storage.Settings.{Setter, Arguments, Db, Health, set, get_by_telegram_id}

-- `ErrCode…`.
pub data ErrorCode : Type 0 where
  not_found invalid_request unauthorized internal : ErrorCode

-- A `ProviderError`, or any other error.
pub data Failure : Type 0 where
  provider_error : ErrorCode → Failure
  store_error : Failure

pub data Result (A : Type 0) : Type 0 where
  ok : A → Result A
  failed : Failure → Result A

pub record Preferences : Type 0 where
  pub telegram_id : ℤ
  pub language : Text
  pub default_project : Text
  pub default_board_id : ℤ
  pub default_issue_type_id : Text
  pub default_issue_type_name : Text
  pub sprint_issue_types : List Text
  pub assignee_field_id : Text
  pub story_points_field_id : Text
  pub done_statuses : List Text
  pub hold_statuses : List Text
  pub daily_done_jql : Text
  pub daily_doing_jql : Text
  pub daily_plan_jql : Text

unfoldable pub user_to_preferences : User → Preferences
user_to_preferences u = record {
  telegram_id = u.telegram_user_id;
  language = u.language;
  default_project = u.default_project;
  default_board_id = u.default_board_id;
  default_issue_type_id = u.default_issue_type_id;
  default_issue_type_name = u.default_issue_type_name;
  sprint_issue_types = u.sprint_issue_types;
  assignee_field_id = u.assignee_field_id;
  story_points_field_id = u.story_points_field_id;
  done_statuses = u.done_statuses;
  hold_statuses = u.hold_statuses;
  daily_done_jql = u.daily_done_jql;
  daily_doing_jql = u.daily_doing_jql;
  daily_plan_jql = u.daily_plan_jql;
}

abbrev pub found_user : Option (Option User) → Result Preferences
found_user none = failed store_error
found_user (some none) = failed (provider_error not_found)
found_user (some (some u)) = ok (user_to_preferences u)

unfoldable pub provider_get : Health → ℤ → Db → Result Preferences
provider_get h id db =
    if id == pos 0
    then failed (provider_error invalid_request)
    else found_user (get_by_telegram_id h id db)

-- The setters of `LocalProvider`, which differ in the setter of the store that they call.
unfoldable pub provider_set : Health → (s : Setter) → ℤ → Arguments s → Db → Result Db
provider_set h s id a db =
    if id == pos 0
    then failed (provider_error invalid_request)
    else elim (set h s id a db) [ none ↦ failed store_error | some db2 ↦ ok db2 ]

pub record Request : Type 0 where
  pub method : Text
  pub authorization : Text
  pub query : Text
  -- What is read of the body up to the limit, `none` where the read fails.
  pub body : Option Text

pub data Body : Type 0 where
  no_body plain_text : Body
  fault : ErrorCode → Body
  preferences : Preferences → Body

pub record Response : Type 0 where
  pub status : ℕ
  pub content : Body

-- `decode` reads the request type of an endpoint, the Telegram id first; `none` for an error.
pub record Env : Type 0 where
  pub auth_token : Text
  pub health : Health
  pub parse_telegram_id : Text → Option ℤ
  pub decode : (s : Setter) → Text → Option (ℤ × Arguments s)

abbrev pub auth_scheme : Text
auth_scheme = codes "Bearer "

unfoldable pub is_authorized : Text → Request → Bool
is_authorized token r =
    if token == codes ""
    then true
    else if has_prefix auth_scheme r.authorization
    then drop (length auth_scheme) r.authorization == token
    else false

unfoldable pub status_for_code : ErrorCode → ℕ
status_for_code not_found = 404
status_for_code invalid_request = 400
status_for_code unauthorized = 401
status_for_code internal = 500

abbrev pub write_error : ℕ → ErrorCode → Response
write_error status code = record { status = status; content = fault code }

unfoldable pub write_provider_error : Failure → Response
write_provider_error (provider_error code) = write_error (status_for_code code) code
write_provider_error store_error = write_error 500 internal

abbrev pub method_not_allowed : Response
method_not_allowed = record { status = 405; content = plain_text }

-- The two guards that all handlers share: the answer where one of them refuses.
unfoldable pub refusal : Text → Text → Request → Option Response
refusal token method r =
    if not (r.method == method)
    then some method_not_allowed
    else if is_authorized token r
    then none
    else some (write_error 401 unauthorized)

abbrev pub answer_get : Result Preferences → Response
answer_get (ok prefs) = record { status = 200; content = preferences prefs }
answer_get (failed e) = write_provider_error e

unfoldable pub get_parsed : Env → Db → Option ℤ → Response
get_parsed env db none = write_error 400 invalid_request
get_parsed env db (some id) =
    if id == pos 0
    then write_error 400 invalid_request
    else answer_get (provider_get env.health id db)

unfoldable pub serve_get : Env → Request → Db → Response
serve_get env r db = elim (refusal env.auth_token (codes "GET") r) [
  | some answer ↦ answer
  | none ↦ get_parsed env db (env.parse_telegram_id r.query)
]

unfoldable pub decode_body : {A : Type 0} → (Text → Option A) → Option Text → Option A
decode_body decode none = none
decode_body decode (some text) = decode text

pub data Decoded (A : Type 0) : Type 0 where
  stop : Response → Decoded A
  proceed : A → Decoded A

unfoldable pub decode_post : {A : Type 0} → (token : Text) → (Text → Option A) → Request → Decoded A
decode_post token decode r = elim (refusal token (codes "POST") r) [
  | some answer ↦ stop answer
  | none ↦ elim (decode_body decode r.body) [
    | none ↦ stop (write_error 400 invalid_request)
    | some a ↦ proceed a
  ]
]

-- The handlers of the setters: the answer and the state afterwards.
unfoldable pub serve_set : Env → Setter → Request → Db → Response × Db
serve_set env s r db = elim (decode_post env.auth_token (env.decode s) r) [
  | stop answer ↦ (answer, db)
  | proceed (id, a) ↦ elim (provider_set env.health s id a db) [
    | failed e ↦ (write_provider_error e, db)
    | ok db2 ↦ (record { status = 204; content = no_body }, db2)
  ]
]
