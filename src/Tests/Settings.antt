-- ===== src/Tests/Settings.antt =====
-- internal/preferences at concrete inputs.
use jira_bot.Base.{
  inr, true, [], ◌∷◌, Option, none, some, if◌then◌else◌, ◌≡◌, refl, Text, ℤ, pos, codes, list_beq,
  text_eq, ◌==◌, lookup, ◌≤◌, ◌⊎◌, int_eq,
}
use jira_bot.Storage.Settings.{
  Setter, language, defaults, default_issue_type, sprint_issue_types, done_statuses, hold_statuses,
  assignee_field, story_points_field, daily_jql, Arguments, Db, new_user, written,
}
use jira_bot.Preferences.{Env, Request, serve_get, serve_set, decode_body}
use jira_bot.Preferences.Access.{IsAccepted, accepted, serve_set-Outcome}
use jira_bot.Preferences.Answers.{amend_answer, serve_set-get}

-- A body is a done status, and of user 7; the other endpoints cannot read it.
abbrev decode_status : (s : Setter) → Text → Option (ℤ × Arguments s)
decode_status done_statuses text = some (pos 7, text ∷ [])
decode_status language text = none
decode_status defaults text = none
decode_status default_issue_type text = none
decode_status sprint_issue_types text = none
decode_status hold_statuses text = none
decode_status assignee_field text = none
decode_status story_points_field text = none
decode_status daily_jql text = none

abbrev service : Env
service = record {
  auth_token = codes "t";
  health = record { can_write = true; can_read_back = true; can_get = true };
  parse_telegram_id = λ s. if s == codes "7" then some (pos 7) else none;
  decode = decode_status;
}

abbrev post_done : Request
post_done = record {
  method = codes "POST";
  authorization = codes "Bearer t";
  query = [];
  body = some (codes "Done");
}

abbrev get_seven : Request
get_seven = record {
  method = codes "GET";
  authorization = codes "Bearer t";
  query = codes "7";
  body = none;
}

abbrev one_user : Db
one_user = record { users = (pos 7, new_user (pos 7)) ∷ []; events = [] }

post_done-IsAccepted : IsAccepted service done_statuses post_done (pos 7) (codes "Done" ∷ [])
unfolding decode_body
post_done-IsAccepted = (refl, inr refl, refl, refl, refl)

seven_parsed : service.parse_telegram_id (codes "7") ≡ some (pos 7)
unfolding list_beq
seven_parsed = refl

serve_set-get_example :
    ((serve_set service done_statuses post_done one_user).0.status ≡ 204)
    × (serve_get service get_seven (serve_set service done_statuses post_done one_user).1
        ≡ amend_answer done_statuses (codes "Done" ∷ []) (pos 7) (some (new_user (pos 7))))
unfolding lookup
serve_set-get_example =
    serve_set-get service done_statuses post_done get_seven (pos 7) (pos 7) (codes "Done" ∷ [])
      one_user post_done-IsAccepted (refl, inr refl, seven_parsed, refl, refl)

serve_set-Outcome_example :
    ((id : ℤ) × (a : Arguments done_statuses) × IsAccepted service done_statuses post_done id a
      × (serve_set service done_statuses post_done one_user
          ≡ (accepted, written service.health done_statuses id a one_user)))
    ⊎ ((400 ≤ (serve_set service done_statuses post_done one_user).0.status)
        × ((serve_set service done_statuses post_done one_user).1 ≡ one_user))
serve_set-Outcome_example = serve_set-Outcome service done_statuses post_done one_user
