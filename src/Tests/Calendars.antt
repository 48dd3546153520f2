-- ===== src/Tests/Calendars.antt =====
-- The expansion of events, and the ticks of the calendar poller.
use jira_bot.Base.{
  ℕ, ◌≤◌, ◌≡◌, refl, true, false, List, [], ◌∷◌, none, some, arith, All, Text, pos, int_eq, nat_eq,
  pair_eq, text_eq, list_beq, codes, lookup,
}
use jira_bot.Calendar.{Event, Instance, Rrule}
use jira_bot.CalendarEvents.{EventState}
use jira_bot.CalendarPoller.{
  World, Outcomes, Env, instance_key, process_instance, process_instances,
}
use jira_bot.CalendarPoller.Notices.{Adds, Justified, process_instance-Justified}
use jira_bot.CalendarPoller.Reminders.{IsReminded, IsOther, process_instances-IsReminded}
use jira_bot.CalendarPoller.Tick.{parsed, Settings, poll_user}
use jira_bot.CalendarPoller.Tick.FirstFetch.{IsNotNew, poll_user-IsNotNew}
use jira_bot.Storage.{User}

-- A meeting at 3600 seconds, weekly or not.
abbrev meeting : Text → Event
meeting rrule = record {
  uid = codes "m1";
  summary = codes "Stand-up";
  description = [];
  location = [];
  start = 3600000;
  end = none;
  all_day = false;
  last_modified = none;
  sequence = 0;
  recurrence_id = none;
  rrule = rrule;
  ex_dates = [];
}

-- A package that finds no occurrence.
abbrev no_occurrence : Rrule
no_occurrence text start from to = some []

no_times :
    (from to : ℕ) (occs : List ℕ)
    → some [] ≡ some occs
    → All (λ (t : ℕ). (from ≤ t) × (t ≤ to)) occs
no_times from to [] e = tt
no_times from to (o ∷ os) e = ground arith

abbrev inst : ℕ → Instance
inst start = record {
  uid = codes "m1";
  summary = codes "Stand-up";
  description = [];
  location = [];
  start = start;
  end = none;
  all_day = false;
  last_modified = none;
  sequence = 0;
  is_recurring = true;
}

abbrev moved : Event
moved = record (meeting []) { start = 9000000; recurrence_id = some 3600000 }

abbrev env : Env
env = record {
  user = pos 7;
  now = 3500000;
  first_fetch = false;
  new_horizon = 3600000;
  reminder_window = 600000;
}

abbrev all_well : Outcomes
all_well = record {
  upsert_ok = true;
  send_new_ok = true;
  mark_new_ok = true;
  send_changed_ok = true;
  send_reminder_ok = true;
  mark_reminder_ok = true;
}

abbrev row : EventState
row = record {
  telegram_user_id = pos 7;
  uid = codes "m1";
  instance_time = 3600;
  summary = codes "Stand-up";
  start = 3600;
  end = 0;
  location = [];
  sequence = 0;
  last_modified = 0;
  reminder_sent = true;
  notified_new = true;
  seen_at = 3400;
}

abbrev reminded : World
reminded = record { rows = (instance_key env (inst 3600000), row) ∷ []; dedup = none; sent = [] }

process_instance-Justified_example :
    Adds
      (Justified env (inst 3600000) (lookup (instance_key env (inst 3600000)) reminded.rows))
      []
      (process_instance env all_well (inst 3600000) reminded).sent
process_instance-Justified_example = process_instance-Justified env all_well (inst 3600000) reminded

process_instances-IsReminded_example :
    Adds
      (IsOther (instance_key env (inst 3600000)))
      []
      (process_instances env ((inst 3600000, all_well) ∷ []) reminded).sent
    × IsReminded
        (instance_key env (inst 3600000))
        (process_instances env ((inst 3600000, all_well) ∷ []) reminded).rows
unfolding lookup list_beq
process_instances-IsReminded_example =
    process_instances-IsReminded env ((inst 3600000, all_well) ∷ []) reminded
      (instance_key env (inst 3600000)) (row, refl, refl)

abbrev user : User
user = record {
  telegram_user_id = pos 7;
  access_token = [];
  refresh_token = [];
  token_expires_at = 0;
  jira_cloud_id = [];
  jira_site_url = [];
  jira_account_id = [];
  jira_display_name = [];
  language = codes "en";
  calendar_url = codes "https://x";
  calendar_reminder_minutes = 10;
  calendar_last_fetched_at = 0;
  daily_done_jql = [];
  daily_doing_jql = [];
  daily_plan_jql = [];
  default_project = [];
  default_board_id = pos 0;
  default_issue_type_id = [];
  default_issue_type_name = [];
  sprint_issue_types = [];
  assignee_field_id = [];
  story_points_field_id = [];
  done_statuses = [];
  hold_statuses = [];
}

abbrev settings : Settings
settings = record { lookahead = 86400000; new_horizon = 3600000; default_reminder_mins = 10 }

abbrev outcomes : Instance → Outcomes
outcomes i = all_well

abbrev empty_world : World
empty_world = record { rows = []; dedup = none; sent = [] }

poll_user-IsNotNew_example :
    Adds IsNotNew []
      (poll_user no_occurrence settings outcomes true true 3500000 user empty_world
        (parsed (meeting [] ∷ []))).1.sent
poll_user-IsNotNew_example =
    poll_user-IsNotNew no_occurrence settings outcomes true true 3500000 user empty_world
      (parsed (meeting [] ∷ [])) refl
