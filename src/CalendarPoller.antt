-- ===== src/CalendarPoller.antt =====
-- internal/calendarpoller/poller.go: `pollUser`, from the instances of the window on. Instants are in
-- milliseconds, rows in seconds. Fetching and parsing the feed are answers given as arguments; the
-- texts of the messages are not modelled, a notice stands for its message.
pub mod Notices
pub mod Reminders
pub mod Tick
use jira_bot.Base.{
  ℕ, ◌+◌, ◌-◌, ◌*◌, ◌/◌, Bool, true, false, ◌&&◌, ◌||◌, not, List, [], ◌∷◌, ◌++◌, Option, none,
  some, ltb, leb, if◌then◌else◌, Text, ℤ, pos, is_some, codes,
}
use jira_bot.Base.Decimal.{decimal}
use jira_bot.Calendar.{Event, Instance, expand_all, apply_overrides, is_override}
use jira_bot.CalendarEvents.{
  EventState, EventKey, Rows, StateChange, upsert_state, mark_reminder_sent, mark_notified_new,
  delete_stale_by_user,
}
use jira_bot.NotifyDedup.Guard.{Guard, allow}
use jira_bot.Storage.{User}

pub data Kind : Type 0 where
  is_new is_changed is_reminder : Kind

abbrev pub kind_text : Kind → Text
kind_text is_new = codes "new"
kind_text is_changed = codes "changed"
kind_text is_reminder = codes "reminder"

-- A message that reached the user.
pub record Notice : Type 0 where
  pub kind : Kind
  pub key : EventKey

-- `dedup` is nil or a guard. `sent` has the latest notice first.
pub record World : Type 0 where
  pub rows : Rows
  pub dedup : Option Guard
  pub sent : List Notice

-- Whether each call that the loop body may make succeeds.
pub record Outcomes : Type 0 where
  pub upsert_ok : Bool
  pub send_new_ok : Bool
  pub mark_new_ok : Bool
  pub send_changed_ok : Bool
  pub send_reminder_ok : Bool
  pub mark_reminder_ok : Bool

pub record Env : Type 0 where
  pub user : ℤ
  pub now : ℕ
  pub first_fetch : Bool
  pub new_horizon : ℕ
  pub reminder_window : ℕ

abbrev pub unix : ℕ → ℕ
unix t = t / 1000

abbrev pub unix_or_zero : Option ℕ → ℕ
unix_or_zero none = 0
unix_or_zero (some t) = unix t

abbrev pub instance_key : Env → Instance → EventKey
instance_key env inst = (env.user, (inst.uid, unix inst.start))

unfoldable pub state_of : Env → Instance → EventState
state_of env inst = record {
  telegram_user_id = env.user;
  uid = inst.uid;
  instance_time = unix inst.start;
  summary = inst.summary;
  start = unix inst.start;
  end = unix_or_zero inst.end;
  location = inst.location;
  sequence = inst.sequence;
  last_modified = unix_or_zero inst.last_modified;
  reminder_sent = false;
  notified_new = env.first_fetch;
  seen_at = 0;
}

-- `cal:kind:uid:start`
unfoldable pub dedup_key : Kind → Instance → Text
dedup_key kind inst =
    codes "cal:"
    ++ kind_text kind
    ++ codes ":"
    ++ inst.uid
    ++ codes ":"
    ++ decimal (pos (unix inst.start)) []

abbrev with_guard : World → Guard × Bool → World × Bool
with_guard w (g, ok) = (record w { dedup = some g }, ok)

ask : World → Option Guard → ℤ → Text → ℕ → World × Bool
ask w none user key now = (w, true)
ask w (some g) user key now = with_guard w (allow g user key now now)

-- `allow`; the guard's clock reads `now`.
unfoldable pub allow_notice : World → Env → Kind → Instance → World × Bool
unfolding ask
allow_notice w env kind inst = ask w w.dedup env.user (dedup_key kind inst) env.now

abbrev pub record_notice : World → Env → Kind → Instance → World
record_notice w env kind inst = record w {
  sent = record { kind = kind; key = instance_key env inst } ∷ w.sent;
}

abbrev pub mark_new : World → Env → Instance → Bool → World
mark_new w env inst ok =
    if ok
    then record w { rows = mark_notified_new w.rows (instance_key env inst) (unix env.now) }
    else w

-- `inst.Start.After(now) && inst.Start.Sub(now) <= p.newHorizon`
abbrev pub is_near : Env → Instance → Bool
is_near env inst = ltb env.now inst.start && leb (inst.start - env.now) env.new_horizon

-- Sending the "new event" message, once it is allowed.
unfoldable pub try_new : Env → Outcomes → Instance → World × Bool → World
try_new env out inst (w, ok) =
    if not ok
    then w
    else if not out.send_new_ok
    then w
    else mark_new (record_notice w env is_new inst) env inst out.mark_new_ok

unfoldable pub handle_new : Env → Outcomes → StateChange → Instance → World → World
handle_new env out change inst w =
    if not env.first_fetch && change.created && is_near env inst
    then try_new env out inst (allow_notice w env is_new inst)
    else if not env.first_fetch && change.created
    then mark_new w env inst out.mark_new_ok
    else w

unfoldable pub try_changed : Env → Outcomes → Instance → World × Bool → World
try_changed env out inst (w, ok) =
    if ok && out.send_changed_ok then record_notice w env is_changed inst else w

unfoldable pub handle_changed : Env → Outcomes → StateChange → Instance → World → World
handle_changed env out change inst w =
    if change.changed && is_some change.prev
    then try_changed env out inst (allow_notice w env is_changed inst)
    else w

abbrev pub was_sent : Option EventState → Bool
was_sent none = false
was_sent (some prev) = prev.reminder_sent

-- `now.After(reminderAt) && inst.Start.After(now)`, with the window moved to the other side.
abbrev pub is_due : Env → Instance → Bool
is_due env inst = ltb inst.start (env.now + env.reminder_window) && ltb env.now inst.start

unfoldable pub try_reminder : Env → Outcomes → Instance → World × Bool → World
try_reminder env out inst (w, ok) =
    if not ok
    then w
    else if not out.send_reminder_ok
    then w
    else if out.mark_reminder_ok
    then record (record_notice w env is_reminder inst) {
      rows = mark_reminder_sent w.rows (instance_key env inst) (unix env.now);
    }
    else record_notice w env is_reminder inst

unfoldable pub handle_reminder : Env → Outcomes → StateChange → Instance → World → World
handle_reminder env out change inst w =
    if is_due env inst && not (was_sent change.prev)
    then try_reminder env out inst (allow_notice w env is_reminder inst)
    else w

-- The loop body. A failed upsert passes the instance over.
unfoldable pub process_instance : Env → Outcomes → Instance → World → World
process_instance env out inst w =
    let up = upsert_state w.rows (state_of env inst) (unix env.now) in
    if out.upsert_ok
    then handle_reminder env out up.1 inst
        (handle_changed env out up.1 inst (handle_new env out up.1 inst (record w { rows = up.0 })))
    else w

unfoldable pub process_instances : Env → List (Instance × Outcomes) → World → World
process_instances env [] w = w
process_instances env ((inst, out) ∷ is') w =
    process_instances env is' (process_instance env out inst w)
