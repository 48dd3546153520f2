-- ===== src/CalendarPoller/Tick.antt =====
-- `pollUser` as a whole: the feed, the window, the loop over the instances, and the marks on the
-- user's row.
pub mod FirstFetch
use jira_bot.Base.{
  ℕ, ◌+◌, ◌-◌, ◌*◌, ◌/◌, Bool, true, false, not, List, [], ◌∷◌, Option, none, some, if◌then◌else◌,
  nat_beq, keep, map, ltb, leb,
}
use jira_bot.Calendar.{Event, Instance, Rrule, expand_all, apply_overrides, is_override}
use jira_bot.CalendarEvents.{delete_stale_by_user}
use jira_bot.CalendarPoller.{World, Outcomes, Env, unix, process_instances}
use jira_bot.Poller.Changes.{is_empty}
use jira_bot.Storage.{User}

-- `Fetch` and `Parse`.
pub data Feed : Type 0 where
  fetch_error parse_error : Feed
  parsed : List Event → Feed

pub record Settings : Type 0 where
  pub lookahead : ℕ
  pub new_horizon : ℕ
  pub default_reminder_mins : ℕ

-- Seven days.
abbrev pub stale_instance_lookback : ℕ
stale_instance_lookback = 604800000

-- `MarkCalendarFetched` on the user's row, where it succeeds: its error is ignored. The error text
-- that it stores is not modelled.
unfoldable pub mark_calendar_fetched : Bool → User → ℕ → User
mark_calendar_fetched marked u now =
    if marked then record u { calendar_last_fetched_at = unix now } else u

abbrev pub reminder_mins : Settings → User → ℕ
reminder_mins settings u =
    if nat_beq u.calendar_reminder_minutes 0
    then settings.default_reminder_mins
    else u.calendar_reminder_minutes

unfoldable pub env_of : Settings → User → ℕ → Env
env_of settings u now = record {
  user = u.telegram_user_id;
  now = now;
  first_fetch = nat_beq u.calendar_last_fetched_at 0;
  new_horizon = settings.new_horizon;
  reminder_window = reminder_mins settings u * 60000;
}

unfoldable pub instances_in : Rrule → Settings → List Event → ℕ → List Instance
instances_in rrule settings events now =
    apply_overrides
      (expand_all rrule (keep (λ ev. not (is_override ev)) events) now (now + settings.lookahead))
      (keep is_override events)

-- The clean-up, where it succeeds.
abbrev pub clean_up : World → User → ℕ → Bool → World
clean_up w u now ok =
    if ok
    then record w {
      rows = delete_stale_by_user w.rows u.telegram_user_id (unix (now - stale_instance_lookback));
    }
    else w

unfoldable pub poll_feed :
    Rrule
    → Settings
    → (outcomes : Instance → Outcomes) → (clean_ok marked : Bool) → ℕ
    → User
    → World
    → Feed
    → User × World
poll_feed rrule settings outcomes clean_ok marked now u w fetch_error =
    (mark_calendar_fetched marked u now, w)
poll_feed rrule settings outcomes clean_ok marked now u w parse_error =
    (mark_calendar_fetched marked u now, w)
poll_feed rrule settings outcomes clean_ok marked now u w (parsed events) =
    let is' = map (λ (i : Instance). (i, outcomes i)) (instances_in rrule settings events now) in
    (
      mark_calendar_fetched marked u now,
      clean_up (process_instances (env_of settings u now) is' w) u now clean_ok,
    )

unfoldable pub poll_user :
    Rrule
    → Settings
    → (outcomes : Instance → Outcomes) → (clean_ok marked : Bool) → ℕ
    → User
    → World
    → Feed
    → User × World
poll_user rrule settings outcomes clean_ok marked now u w feed =
    if is_empty u.calendar_url
    then (u, w)
    else poll_feed rrule settings outcomes clean_ok marked now u w feed
