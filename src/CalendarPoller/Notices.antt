-- ===== src/CalendarPoller/Notices.antt =====
-- When each kind of notice is sent.
use jira_bot.Base.{
  if_either, ◌+◌, ◌≤◌, ◌<◌, ◌≡◌, refl, subst, sym, ◌⊎◌, inl, inr, Bool, true, false, ◌&&◌, not,
  List, ◌∷◌, Option, none, some, arith, text_eq, int_eq, nat_eq, pair_eq, lookup, is_some,
}
use jira_bot.Calendar.{Instance}
use jira_bot.CalendarEvents.{EventState, StateChange, change_from, upsert_state}
use jira_bot.CalendarPoller.{
  Kind, is_new, is_changed, is_reminder, Notice, World, Outcomes, Env, unix, instance_key, state_of,
  allow_notice, is_near, is_due, was_sent, handle_new, handle_changed, handle_reminder, try_new,
  try_changed, try_reminder, process_instance,
}

-- The notices that were sent since `old`, which are at the front of `new`.
pub data Adds (P : Notice → Type 0) (old : List Notice) : List Notice → Type 0 where
  same : Adds P old old
  more : {n : Notice} {ns : List Notice} → P n → Adds P old ns → Adds P old (n ∷ ns)

pub Adds-trans : {P : Notice → Type 0} {a b c : List Notice} → Adds P a b → Adds P b c → Adds P a c
Adds-trans x same = x
Adds-trans x (more p y) = more p (Adds-trans x y)

pub Adds-map :
    {P Q : Notice → Type 0} {a b : List Notice}
    → ((n : Notice) → P n → Q n)
    → Adds P a b
    → Adds Q a b
Adds-map f same = same
Adds-map f (more p y) = more (f _ p) (Adds-map f y)

-- What has to hold for a notice of each kind about the instance.
abbrev pub IsJustified : Env → Instance → Option EventState → Kind → Type 0
IsJustified env inst prev is_new =
    (prev ≡ none)
    × (env.first_fetch ≡ false)
    × (env.now < inst.start)
    × (inst.start ≤ env.now + env.new_horizon)
IsJustified env inst prev is_changed =
    (is_some prev ≡ true) × ((change_from prev (state_of env inst)).changed ≡ true)
IsJustified env inst prev is_reminder =
    (env.now < inst.start) × (inst.start < env.now + env.reminder_window) × (was_sent prev ≡ false)

pub record Justified (env : Env) (inst : Instance) (prev : Option EventState) (n : Notice)
    : Type 0 where
  pub own : n.key ≡ instance_key env inst
  pub why : IsJustified env inst prev n.kind

-- One handler adds at most the notice of its kind, and only under its condition.
abbrev One : Env → Instance → Kind → Bool → List Notice → List Notice → Type 0
One env inst kind cond old new =
    (new ≡ old)
    ⊎ ((new ≡ record { kind = kind; key = instance_key env inst } ∷ old) × (cond ≡ true))

pub allow_notice-sent :
    (w : World) (env : Env) (kind : Kind) (inst : Instance)
    → ((allow_notice w env kind inst).0.sent ≡ w.sent)
      × ((allow_notice w env kind inst).0.rows ≡ w.rows)
unfolding allow_notice
allow_notice-sent w env kind inst = ground arith

try_new-One :
    (env : Env) (out : Outcomes) (inst : Instance) (p : World × Bool)
    → One env inst is_new true p.0.sent (try_new env out inst p).sent
unfolding try_new
try_new-One env out inst (w, ok) = ground arith

try_changed-One :
    (env : Env) (out : Outcomes) (inst : Instance) (p : World × Bool)
    → One env inst is_changed true p.0.sent (try_changed env out inst p).sent
unfolding try_changed
try_changed-One env out inst (w, ok) = ground arith

try_reminder-One :
    (env : Env) (out : Outcomes) (inst : Instance) (p : World × Bool)
    → One env inst is_reminder true p.0.sent (try_reminder env out inst p).sent
unfolding try_reminder
try_reminder-One env out inst (w, ok) = ground arith

handle_new-One :
    (env : Env) (out : Outcomes) (change : StateChange) (inst : Instance) (w : World)
    → One env inst is_new
        (not env.first_fetch && change.created && is_near env inst)
        w.sent
        (handle_new env out change inst w).sent
unfolding handle_new
handle_new-One env out change inst w =
    let kept = allow_notice-sent w env is_new inst in
    let tried = try_new-One env out inst (allow_notice w env is_new inst) in ground arith

handle_changed-One :
    (env : Env) (out : Outcomes) (change : StateChange) (inst : Instance) (w : World)
    → One env inst is_changed
        (change.changed && is_some change.prev)
        w.sent
        (handle_changed env out change inst w).sent
unfolding handle_changed
handle_changed-One env out change inst w =
    let kept = allow_notice-sent w env is_changed inst in
    let tried = try_changed-One env out inst (allow_notice w env is_changed inst) in ground arith

handle_reminder-One :
    (env : Env) (out : Outcomes) (change : StateChange) (inst : Instance) (w : World)
    → One env inst is_reminder
        (is_due env inst && not (was_sent change.prev))
        w.sent
        (handle_reminder env out change inst w).sent
unfolding handle_reminder
handle_reminder-One env out change inst w =
    let kept = allow_notice-sent w env is_reminder inst in
    let tried = try_reminder-One env out inst (allow_notice w env is_reminder inst) in ground arith

One-Adds :
    {env : Env} {inst : Instance} {prev : Option EventState} {kind : Kind} {cond : Bool}
    {old new : List Notice}
    → One env inst kind cond old new
    → (cond ≡ true → IsJustified env inst prev kind)
    → Adds (Justified env inst prev) old new
One-Adds {env} {inst} {prev} {kind} {cond} {old} {new} (inl e) why =
    subst (Adds (Justified env inst prev) old) (sym e) same
One-Adds {env} {inst} {prev} {kind} {cond} {old} {new} (inr (e, c)) why =
    subst (Adds (Justified env inst prev) old) (sym e)
      (more (record { own = refl; why = why c }) same)

new-IsJustified :
    (env : Env) (inst : Instance) (prev : Option EventState)
    → (not env.first_fetch && (change_from prev (state_of env inst)).created && is_near env inst)
      ≡ true
    → IsJustified env inst prev is_new
new-IsJustified env inst none h = ground arith
new-IsJustified env inst (some prev) h = ground arith

reminder-IsJustified :
    (env : Env) (inst : Instance) (prev : Option EventState)
    → (is_due env inst && not (was_sent prev)) ≡ true
    → IsJustified env inst prev is_reminder
reminder-IsJustified env inst prev h = ground arith

change-prev : (prev : Option EventState) (s : EventState) → (change_from prev s).prev ≡ prev
change-prev none s = refl
change-prev (some row) s = refl

changed-IsJustified :
    (env : Env) (inst : Instance) (prev : Option EventState)
    → ((change_from prev (state_of env inst)).changed
        && is_some (change_from prev (state_of env inst)).prev)
      ≡ true
    → IsJustified env inst prev is_changed
changed-IsJustified env inst none h = ground arith
changed-IsJustified env inst (some prev) h = ground arith

-- Every notice that the body of the loop sends is about the instance it handles and is justified by
-- the row that was there before: "new" only when there was none, on a later fetch than the first and
-- within the horizon; "changed" only when the row differed; a reminder only before the start, inside
-- the reminder window, and when the row's flag was not set.
pub process_instance-Justified :
    (env : Env) (out : Outcomes) (inst : Instance) (w : World)
    → Adds
        (Justified env inst (lookup (instance_key env inst) w.rows))
        w.sent
        (process_instance env out inst w).sent
unfolding process_instance upsert_state state_of
process_instance-Justified env out inst w =
    let prev = lookup (instance_key env inst) w.rows in
    let ch = change_from prev (state_of env inst) in
    let w1 = record w { rows = (upsert_state w.rows (state_of env inst) (unix env.now)).0 } in
    let w2 = handle_new env out ch inst w1 in
    let w3 = handle_changed env out ch inst w2 in
    if_either (λ (new : World). Adds (Justified env inst prev) w.sent new.sent) out.upsert_ok
      (Adds-trans
        (Adds-trans (One-Adds (handle_new-One env out ch inst w1) (new-IsJustified env inst prev))
          (One-Adds (handle_changed-One env out ch inst w2) (changed-IsJustified env inst prev)))
        (One-Adds (handle_reminder-One env out ch inst w3) (λ h.
          reminder-IsJustified env inst prev (
            subst (λ o. (is_due env inst && not (was_sent o)) ≡ true)
              (change-prev prev (state_of env inst)) h))))
      same
