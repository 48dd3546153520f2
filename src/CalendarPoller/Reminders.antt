-- ===== src/CalendarPoller/Reminders.antt =====
-- A reminder is sent once: the flag of its row is kept by every step.
use jira_bot.Base.{
  ℕ, if_either, ◌≡◌, subst, sym, ◌∙◌, ◌⊎◌, inl, inr, true, false, List, [], ◌∷◌, some, arith,
  text_eq, int_eq, nat_eq, pair_eq, lookup,
}
use jira_bot.Calendar.{Instance}
use jira_bot.CalendarEvents.{
  EventState, EventKey, Rows, StateChange, upsert_state, mark_reminder_sent, mark_notified_new,
}
use jira_bot.CalendarEvents.Rows.{KeepsFlags, upsert_state-KeepsFlags, marks-KeepsFlags}
use jira_bot.CalendarPoller.{
  is_new, is_changed, is_reminder, Notice, World, Outcomes, Env, unix, instance_key, state_of,
  was_sent, handle_new, handle_changed, handle_reminder, try_new, try_changed, try_reminder,
  process_instance, process_instances,
}
use jira_bot.CalendarPoller.Notices.{
  Adds, same, Adds-trans, Adds-map, IsJustified, Justified, process_instance-Justified,
  allow_notice-sent,
}

-- The row under the key has its reminder flag set.
abbrev pub IsReminded : EventKey → Rows → Type 0
IsReminded key rows = (row : EventState) × (lookup key rows ≡ some row) × (row.reminder_sent ≡ true)

KeepsFlags-IsReminded :
    (key : EventKey) (rows : Rows) (row : EventState)
    → row.reminder_sent ≡ true
    → KeepsFlags row (lookup key rows)
    → IsReminded key rows
KeepsFlags-IsReminded key rows row flagged k = (k.row', k.there, k.reminder flagged)

upsert_state-IsReminded :
    (rows : Rows) (s : EventState) (now : ℕ) (key : EventKey)
    → IsReminded key rows
    → IsReminded key (upsert_state rows s now).0
upsert_state-IsReminded rows s now key (row, e, f) =
    KeepsFlags-IsReminded key _ row f (upsert_state-KeepsFlags rows s now key row e)

mark_reminder_sent-IsReminded :
    (rows : Rows) (now : ℕ) (key key' : EventKey)
    → IsReminded key rows
    → IsReminded key (mark_reminder_sent rows key' now)
mark_reminder_sent-IsReminded rows now key key' (row, e, f) =
    KeepsFlags-IsReminded key _ row f (marks-KeepsFlags rows now key key' row e).0

mark_notified_new-IsReminded :
    (rows : Rows) (now : ℕ) (key key' : EventKey)
    → IsReminded key rows
    → IsReminded key (mark_notified_new rows key' now)
mark_notified_new-IsReminded rows now key key' (row, e, f) =
    KeepsFlags-IsReminded key _ row f (marks-KeepsFlags rows now key key' row e).1

-- What a handler may do to the rows.
abbrev Marks : Env → Instance → Rows → Rows → Type 0
Marks env inst old new =
    (new ≡ old)
    ⊎ (new ≡ mark_notified_new old (instance_key env inst) (unix env.now))
    ⊎ (new ≡ mark_reminder_sent old (instance_key env inst) (unix env.now))

Marks-IsReminded :
    (env : Env) (inst : Instance) (old new : Rows) (key : EventKey)
    → Marks env inst old new
    → IsReminded key old
    → IsReminded key new
Marks-IsReminded env inst old new key (inl e) r = subst (IsReminded key) (sym e) r
Marks-IsReminded env inst old new key (inr (inl e)) r =
    subst (IsReminded key) (sym e)
      (mark_notified_new-IsReminded old (unix env.now) key (instance_key env inst) r)
Marks-IsReminded env inst old new key (inr (inr e)) r =
    subst (IsReminded key) (sym e)
      (mark_reminder_sent-IsReminded old (unix env.now) key (instance_key env inst) r)

handle_new-Marks :
    (env : Env) (out : Outcomes) (change : StateChange) (inst : Instance) (w : World)
    → Marks env inst w.rows (handle_new env out change inst w).rows
unfolding handle_new try_new
handle_new-Marks env out change inst w =
    let kept = allow_notice-sent w env is_new inst in ground arith

handle_changed-Marks :
    (env : Env) (out : Outcomes) (change : StateChange) (inst : Instance) (w : World)
    → Marks env inst w.rows (handle_changed env out change inst w).rows
unfolding handle_changed try_changed
handle_changed-Marks env out change inst w =
    let kept = allow_notice-sent w env is_changed inst in ground arith

handle_reminder-Marks :
    (env : Env) (out : Outcomes) (change : StateChange) (inst : Instance) (w : World)
    → Marks env inst w.rows (handle_reminder env out change inst w).rows
unfolding handle_reminder try_reminder
handle_reminder-Marks env out change inst w =
    let kept = allow_notice-sent w env is_reminder inst in ground arith

process_instance-IsReminded :
    (env : Env) (out : Outcomes) (inst : Instance) (w : World) (key : EventKey)
    → IsReminded key w.rows
    → IsReminded key (process_instance env out inst w).rows
unfolding process_instance
process_instance-IsReminded env out inst w key r =
    let ch = (upsert_state w.rows (state_of env inst) (unix env.now)).1 in
    let w1 = record w { rows = (upsert_state w.rows (state_of env inst) (unix env.now)).0 } in
    let w2 = handle_new env out ch inst w1 in
    let w3 = handle_changed env out ch inst w2 in
    if_either (λ (new : World). IsReminded key new.rows) out.upsert_ok
      (Marks-IsReminded env inst w3.rows _ key (handle_reminder-Marks env out ch inst w3) (
        Marks-IsReminded env inst w2.rows _ key (handle_changed-Marks env out ch inst w2) (
          Marks-IsReminded env inst w1.rows _ key (handle_new-Marks env out ch inst w1)
            (upsert_state-IsReminded w.rows (state_of env inst) (unix env.now) key r))))
      r

-- A notice that is no reminder about the key.
abbrev pub IsOther : EventKey → Notice → Type 0
IsOther key n = n.kind ≡ is_reminder → n.key ≡ key → (true ≡ false)

Justified-IsOther :
    (env : Env) (inst : Instance) (rows : Rows) (key : EventKey) (n : Notice)
    → IsReminded key rows
    → Justified env inst (lookup (instance_key env inst) rows) n
    → IsOther key n
Justified-IsOther env inst rows key n (row, e, f) j kd ky =
    let same_key : instance_key env inst ≡ key = sym j.own ∙ ky in
    let found : lookup (instance_key env inst) rows ≡ some row = rw same_key e in
    let why = subst (IsJustified env inst (lookup (instance_key env inst) rows)) kd j.why in
    let unsent : was_sent (some row) ≡ false = subst (λ o. was_sent o ≡ false) found why.2 in
    sym f ∙ unsent

-- Once the reminder flag of a row is set, no pass over any instances sends a reminder about its key
-- again, whatever calls fail on the way, and the flag stays set.
pub process_instances-IsReminded :
    (env : Env) (is' : List (Instance × Outcomes)) (w : World) (key : EventKey)
    → IsReminded key w.rows
    → Adds (IsOther key) w.sent (process_instances env is' w).sent
      × IsReminded key (process_instances env is' w).rows
unfolding process_instances
process_instances-IsReminded env [] w key r = (same, r)
process_instances-IsReminded env ((inst, out) ∷ is') w key r =
    let w' = process_instance env out inst w in
    let (later, kept) =
      process_instances-IsReminded env is' w' key
        (process_instance-IsReminded env out inst w key r) in
    (
      Adds-trans
          (Adds-map (λ n j. Justified-IsOther env inst w.rows key n r j)
            (process_instance-Justified env out inst w))
          later,
      kept,
    )
