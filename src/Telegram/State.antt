-- ===== src/Telegram/State.antt =====
-- internal/telegram/state.go: where each conversation stands. The mutex makes each call one step;
-- a clock reading, in nanoseconds, is an argument.
pub mod Conversations
use jira_bot.Base.{
  ℕ, ◌-◌, ◌*◌, ◌^◌, List, [], ◌∷◌, Option, none, some, ltb, not, if◌then◌else◌, Bool, Text, ℤ,
  int_eq, pair_eq, lookup, insert, erase, sift,
}

abbrev pub state_max_age : ℕ
state_max_age = 15 * 60 * 10 ^ 9

-- `stateKey`: the chat and the user.
abbrev pub StateKey : Type 0
StateKey = ℤ × ℤ

-- A nil map is `none`.
abbrev pub StateData : Type 0
StateData = Option (List (Text × Text))

pub record UserState : Type 0 where
  pub step : Text
  pub values : StateData
  pub created_at : ℕ

abbrev pub States : Type 0
States = List (StateKey × UserState)

unfoldable pub empty : States
empty = []

unfoldable pub set_state : States → StateKey → Text → StateData → ℕ → States
set_state states key step values now =
    insert key (record { step = step; values = values; created_at = now }) states

-- `time.Since(st.createdAt) > stateMaxAge`
abbrev pub is_expired : ℕ → UserState → Bool
is_expired now st = ltb state_max_age (now - st.created_at)

-- The copy of the map holds what the map holds.
abbrev read_state : Option UserState → ℕ → Text × StateData
read_state none now = ([], none)
read_state (some st) now = if is_expired now st then ([], none) else (st.step, st.values)

pub get_state : States → StateKey → ℕ → Text × StateData
get_state states key now = read_state (lookup key states) now

pub clear_state : States → StateKey → States
clear_state states key = erase key states

pub clean_expired : States → ℕ → States
clean_expired states now = sift (λ st. not (is_expired now st)) states

-- What other handlers and the cleanup goroutine do to the store.
pub data Op : Type 0 where
  sets : StateKey → Text → StateData → ℕ → Op
  clears : StateKey → Op
  cleans : ℕ → Op

pub apply : States → Op → States
apply states (sets key step values now) = set_state states key step values now
apply states (clears key) = clear_state states key
apply states (cleans now) = clean_expired states now

pub run : States → List Op → States
run states [] = states
run states (op ∷ ops) = run (apply states op) ops
