-- ===== src/Telegram/State/Conversations.antt =====
-- A conversation is kept for `stateMaxAge`, and nothing done for others disturbs it.
use jira_bot.Base.{
  ℕ, ◌+◌, ◌≤◌, ◌<◌, ◌≡◌, ◌≢◌, List, [], ◌∷◌, none, some, arith, not, All, Text, int_eq, pair_eq,
  lookup, lookup-insert, lookup-erase, lookup-sift, HasUniqueKeys, insert-HasUniqueKeys,
  erase-HasUniqueKeys, sift-HasUniqueKeys, ==_iff, ==_refl,
}
use jira_bot.Telegram.State.{
  state_max_age, StateKey, StateData, UserState, States, set_state, is_expired, get_state,
  clear_state, clean_expired, Op, sets, clears, cleans, apply, run,
}

abbrev pub IsValid : States → Type 0
IsValid states = HasUniqueKeys states

apply-IsValid : (states : States) (op : Op) → IsValid states → IsValid (apply states op)
unfolding apply set_state clear_state clean_expired
apply-IsValid states (sets key step values now) v =
    insert-HasUniqueKeys key (record { step = step; values = values; created_at = now }) states v
apply-IsValid states (clears key) v = erase-HasUniqueKeys key states v
apply-IsValid states (cleans now) v = sift-HasUniqueKeys (λ st. not (is_expired now st)) states v

pub run-IsValid : (states : States) (ops : List Op) → IsValid states → IsValid (run states ops)
unfolding run
run-IsValid states [] v = v
run-IsValid states (op ∷ ops) v = run-IsValid (apply states op) ops (apply-IsValid states op v)

-- An operation for another conversation, or a cleanup that does not run after `until`.
abbrev pub IsElsewhere : StateKey → ℕ → Op → Type 0
IsElsewhere key until (sets key' step values now) = key' ≢ key
IsElsewhere key until (clears key') = key' ≢ key
IsElsewhere key until (cleans now) = now ≤ until

apply-keeps :
    (states : States) (op : Op) (key : StateKey) (st : UserState)
    → IsValid states
    → lookup key states ≡ some st
    → IsElsewhere key (st.created_at + state_max_age) op
    → lookup key (apply states op) ≡ some st
unfolding apply set_state clear_state clean_expired
apply-keeps states (sets key' step values now) key st v e h = ground (
  arith,
  lookup-insert key' key (record { step = step; values = values; created_at = now }) states,
  ==_iff key' key,
)
apply-keeps states (clears key') key st v e h =
    ground (arith, lookup-erase key' key states, ==_iff key' key)
apply-keeps states (cleans now) key st v e h =
    ground (arith, lookup-sift (λ x. not (is_expired now x)) key states v)

run-keeps :
    (states : States) (ops : List Op) (key : StateKey) (st : UserState)
    → IsValid states
    → lookup key states ≡ some st
    → All (IsElsewhere key (st.created_at + state_max_age)) ops
    → lookup key (run states ops) ≡ some st
unfolding run
run-keeps states [] key st v e h = e
run-keeps states (op ∷ ops) key st v e h =
    run-keeps (apply states op) ops key st (apply-IsValid states op v)
      (apply-keeps states op key st v e h.0) h.1

-- In a store with no key twice, what one user set in a chat is read back until `stateMaxAge` has passed, and never afterwards,
-- whatever happens meanwhile in other conversations and in cleanups up to that moment.
pub get-set :
    (states : States) (key : StateKey) (step : Text) (values : StateData) (now : ℕ) (ops : List Op)
    (now' : ℕ)
    → IsValid states
    → All (IsElsewhere key (now + state_max_age)) ops
    → (now' ≤ now + state_max_age
        → get_state (run (set_state states key step values now) ops) key now' ≡ (step, values))
      × (now + state_max_age < now'
          → get_state (run (set_state states key step values now) ops) key now' ≡ ([], none))
get-set states key step values now ops now' v h = (
  λ fresh. unfold get_state in rw kept (ground arith),
  λ stale. unfold get_state in rw kept (ground arith),
)
  where
    st : UserState
    st = record { step = step; values = values; created_at = now }

    stored : lookup key (set_state states key step values now) ≡ some st
    stored = unfold set_state in ground (arith, lookup-insert key key st states, ==_refl key)

    kept : lookup key (run (set_state states key step values now) ops) ≡ some st
    kept =
        run-keeps _ ops key st (unfold apply in apply-IsValid states (sets key step values now) v)
          stored h

-- In a store with no key twice, the cleanup cannot be observed at its time or later, and a cleared conversation is gone while the others stay.
pub get-clean_clear :
    (states : States) (key key' : StateKey) (tick now : ℕ)
    → IsValid states
    → tick ≤ now
    → (get_state (clean_expired states tick) key now ≡ get_state states key now)
      × (get_state (clear_state states key) key now ≡ ([], none))
      × (key ≢ key' → get_state (clear_state states key) key' now ≡ get_state states key' now)
unfolding get_state clean_expired clear_state
get-clean_clear states key key' tick now v h = (
  ground (arith, lookup-sift (λ x. not (is_expired tick x)) key states v),
  ground (arith, lookup-erase key key states, ==_refl key),
  λ ne. ground (arith, lookup-erase key key' states, ==_iff key key'),
)
