-- ===== src/CalendarPoller/Tick/FirstFetch.antt =====
-- What the first poll of a calendar suppresses.
use jira_bot.Base.{
  ℕ, ◌≡◌, ◌≢◌, subst, Bool, true, false, List, [], ◌∷◌, arith, if_either, lookup, text_eq, int_eq,
  nat_eq, pair_eq, map,
}
use jira_bot.Calendar.{Instance, Rrule}
use jira_bot.CalendarPoller.{
  is_new, Notice, World, Outcomes, Env, instance_key, process_instance, process_instances,
}
use jira_bot.CalendarPoller.Notices.{
  Adds, same, Adds-trans, Adds-map, IsJustified, Justified, process_instance-Justified,
}
use jira_bot.CalendarPoller.Tick.{
  Feed, fetch_error, parse_error, parsed, Settings, env_of, instances_in, poll_feed, poll_user,
}
use jira_bot.Poller.Changes.{is_empty}
use jira_bot.Storage.{User}

abbrev pub IsNotNew : Notice → Type 0
IsNotNew n = n.kind ≢ is_new

Justified-IsNotNew :
    (env : Env) (inst : Instance) (w : World) (n : Notice)
    → env.first_fetch ≡ true
    → Justified env inst (lookup (instance_key env inst) w.rows) n
    → IsNotNew n
Justified-IsNotNew env inst w n first j k =
    let why = subst (IsJustified env inst (lookup (instance_key env inst) w.rows)) k j.why in
    let later : env.first_fetch ≡ false = why.1 in ground arith

process_instances-IsNotNew :
    (env : Env) (is' : List (Instance × Outcomes)) (w : World)
    → env.first_fetch ≡ true
    → Adds IsNotNew w.sent (process_instances env is' w).sent
unfolding process_instances
process_instances-IsNotNew env [] w first = same
process_instances-IsNotNew env ((inst, out) ∷ is') w first =
    Adds-trans
      (Adds-map (λ n j. Justified-IsNotNew env inst w n first j)
        (process_instance-Justified env out inst w))
      (process_instances-IsNotNew env is' (process_instance env out inst w) first)

poll_feed-IsNotNew :
    (rrule : Rrule) (settings : Settings) (outcomes : Instance → Outcomes) (clean_ok marked : Bool)
    (now : ℕ) (u : User) (w : World) (feed : Feed)
    → u.calendar_last_fetched_at ≡ 0
    → Adds IsNotNew w.sent (poll_feed rrule settings outcomes clean_ok marked now u w feed).1.sent
unfolding poll_feed env_of
poll_feed-IsNotNew rrule settings outcomes clean_ok marked now u w fetch_error never = same
poll_feed-IsNotNew rrule settings outcomes clean_ok marked now u w parse_error never = same
poll_feed-IsNotNew rrule settings outcomes clean_ok marked now u w (parsed events) never =
    let is' : List (Instance × Outcomes) =
      map (λ (i : Instance). (i, outcomes i)) (instances_in rrule settings events now) in
    let polled = process_instances-IsNotNew (env_of settings u now) is' w (ground arith) in
    if_either (λ (x : World). Adds IsNotNew w.sent x.sent) clean_ok polled polled

-- A user whose calendar has no time of a last poll gets no "new event" message from a poll, whatever the feed
-- holds and whatever calls fail.
pub poll_user-IsNotNew :
    (rrule : Rrule) (settings : Settings) (outcomes : Instance → Outcomes) (clean_ok marked : Bool)
    (now : ℕ) (u : User) (w : World) (feed : Feed)
    → u.calendar_last_fetched_at ≡ 0
    → Adds IsNotNew w.sent (poll_user rrule settings outcomes clean_ok marked now u w feed).1.sent
unfolding poll_user
poll_user-IsNotNew rrule settings outcomes clean_ok marked now u w feed never =
    if_either (λ (x : User × World). Adds IsNotNew w.sent x.1.sent) (is_empty u.calendar_url) same
      (poll_feed-IsNotNew rrule settings outcomes clean_ok marked now u w feed never)
