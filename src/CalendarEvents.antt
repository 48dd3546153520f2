-- ===== src/CalendarEvents.antt =====
-- internal/storage/calendar_event_repo.go: the collection `calendar_events` as a map from the
-- unique key (user, event uid, instance time) to the row. Times are in seconds; a clock reading is
-- an argument. A call that fails leaves the collection alone; the caller decides whether it fails.
pub mod Rows
use jira_bot.Base.{
  ℕ, Bool, true, false, ◌&&◌, ◌||◌, not, List, [], ◌∷◌, Option, none, some, ltb, if◌then◌else◌,
  Text, ℤ, text_eq, int_eq, nat_eq, pair_eq, ◌==◌, lookup, insert, sift,
}

pub record EventState : Type 0 where
  pub telegram_user_id : ℤ
  pub uid : Text
  pub instance_time : ℕ
  pub summary : Text
  pub start : ℕ
  pub end : ℕ
  pub location : Text
  pub sequence : ℕ
  pub last_modified : ℕ
  pub reminder_sent : Bool
  pub notified_new : Bool
  pub seen_at : ℕ

abbrev pub EventKey : Type 0
EventKey = ℤ × (Text × ℕ)

abbrev pub Rows : Type 0
Rows = List (EventKey × EventState)

pub record StateChange : Type 0 where
  pub created : Bool
  pub changed : Bool
  pub prev : Option EventState

abbrev pub key_of : EventState → EventKey
key_of s = (s.telegram_user_id, (s.uid, s.instance_time))

abbrev pub differs : Text → Text → Bool
differs a b = not (a == b)

unfoldable pub is_changed : EventState → EventState → Bool
is_changed prev s =
    differs prev.summary s.summary
    || not (prev.start == s.start)
    || not (prev.end == s.end)
    || differs prev.location s.location
    || ltb prev.sequence s.sequence
    || (ltb 0 s.last_modified && ltb prev.last_modified s.last_modified)

abbrev pub change_from : Option EventState → EventState → StateChange
change_from none s = record { created = true; changed = false; prev = none }
change_from (some prev) s = record {
  created = false;
  changed = is_changed prev s;
  prev = some prev;
}

-- `$set` writes a flag only when it is true, so a flag that is set stays set.
abbrev pub written : Option EventState → EventState → ℕ → EventState
written none s now = record s { seen_at = now }
written (some prev) s now = record s {
  reminder_sent = s.reminder_sent || prev.reminder_sent;
  notified_new = s.notified_new || prev.notified_new;
  seen_at = now;
}

unfoldable pub upsert_state : Rows → EventState → ℕ → Rows × StateChange
upsert_state rows s now =
    let prev = lookup (key_of s) rows in
    (insert (key_of s) (written prev s now) rows, change_from prev s)

-- `UpdateOne` without upsert.
abbrev pub update_row : (EventState → EventState) → EventKey → Option EventState → Rows → Rows
update_row f key none rows = rows
update_row f key (some row) rows = insert key (f row) rows

unfoldable pub mark_reminder_sent : Rows → EventKey → ℕ → Rows
mark_reminder_sent rows key now =
    update_row (λ row. record row { reminder_sent = true; seen_at = now }) key (lookup key rows)
      rows

unfoldable pub mark_notified_new : Rows → EventKey → ℕ → Rows
mark_notified_new rows key now =
    update_row (λ row. record row { notified_new = true; seen_at = now }) key (lookup key rows) rows

unfoldable pub delete_stale_by_user : Rows → ℤ → ℕ → Rows
delete_stale_by_user rows user keep_start_ts_after =
    sift (λ row. not (row.telegram_user_id == user && ltb row.start keep_start_ts_after)) rows

unfoldable pub delete_all_by_user : Rows → ℤ → Rows
delete_all_by_user rows user = sift (λ row. not (row.telegram_user_id == user)) rows

unfoldable pub get_by_user_and_instance : Rows → ℤ → Text → ℕ → Option EventState
get_by_user_and_instance rows user uid instance_ts = lookup (user, (uid, instance_ts)) rows
