-- ===== src/Telegram/Sprint/Changes.antt =====
-- `computeChangelogMetrics`. Durations are in milliseconds, and the averages are left as a sum and a count; the instants
-- that are read come after the zero time, which is `none`.
pub mod Scope
pub mod Times
pub mod Selection
use jira_bot.Base.{
  ℕ, zero, suc, ◌+◌, ◌-◌, Bool, true, false, not, ◌&&◌, ◌||◌, ltb, List, [], ◌∷◌, ◌++◌, Option,
  none, some, if◌then◌else◌, Text, codes, text_eq, list_beq, ◌==◌, is_some,
}
use jira_bot.Base.Floats.{Float64, whole, plus, minus}
use jira_bot.Jira.Models.{ChangeItem, ChangeHistory, Issue}
use jira_bot.Poller.Changes.{is_empty}
use jira_bot.Poller.Jql.{has_prefix}
use jira_bot.Telegram.Statuses.{
  Letters, status_category, passes_filter, over_histories, histories_of, is_status_item,
  is_in_progress_status, is_done_status,
}
use jira_bot.Telegram.Kanban.{Span, is_positive, sum_hold_hours}
use jira_bot.Telegram.Sprint.{points}

-- `strings.Contains(s, sub)`
unfoldable pub contains : Text → Text → Bool
contains [] sub = has_prefix sub []
contains (c ∷ s) sub = has_prefix sub (c ∷ s) || contains s sub

-- What the walk over the "Sprint" changes finds.
pub record Moves : Type 0 where
  pub is_scope_creep : Bool
  pub is_carry_over : Bool

abbrev note_added : Text → ℕ → ChangeItem → Option ℕ → Moves → Moves
note_added sprint_name sprint_start item none m = m
note_added sprint_name sprint_start item (some ts) m = record {
  is_scope_creep = m.is_scope_creep || ltb sprint_start ts;
  is_carry_over =
      m.is_carry_over
      || (not (is_empty item.from_string) && not (contains item.from_string sprint_name));
}

-- The first start and the last completion, in the order of the changes.
pub record Work : Type 0 where
  pub first_in_progress : Option ℕ
  pub done_time : Option ℕ

abbrev note_work : Bool → Bool → Option ℕ → Work → Work
note_work starts ends none w = w
note_work starts ends (some ts) w = record {
  first_in_progress =
      if starts && not (is_some w.first_in_progress) then some ts else w.first_in_progress;
  done_time = if ends then some ts else w.done_time;
}

pub record ChangelogMetrics : Type 0 where
  pub scope_creep_keys : List Text
  pub scope_creep_sp : Float64
  pub carry_over_keys : List Text
  pub carry_over_sp : Float64
  pub completed_sp : Float64
  pub total_cycle : ℕ
  pub cycle_count : ℕ
  pub total_blocked : ℕ
  pub blocked_count : ℕ

pub record SprintArgs : Type 0 where
  pub letters : Letters
  pub sprint_name : Text
  pub sprint_start : ℕ
  pub filter : List Text
  pub done_statuses : List Text
  pub hold_statuses : List Text
  pub now : ℕ

abbrev with_cycle : Option ℕ → Option ℕ → ChangelogMetrics → ChangelogMetrics
with_cycle none ended m = m
with_cycle (some started) none m = m
with_cycle (some started) (some ended) m =
    if ltb started ended
    then record m {
      total_cycle = m.total_cycle + (ended - started);
      cycle_count = suc m.cycle_count;
    }
    else m

abbrev with_blocked : Span → ChangelogMetrics → ChangelogMetrics
with_blocked s m =
    if is_positive s
    then record m {
      total_blocked = m.total_blocked + (s.ends - s.starts);
      blocked_count = suc m.blocked_count;
    }
    else m

abbrev with_creep : Bool → Text → Float64 → ChangelogMetrics → ChangelogMetrics
with_creep true key sp m = record m {
  scope_creep_keys = m.scope_creep_keys ++ key ∷ [];
  scope_creep_sp = plus m.scope_creep_sp sp;
}
with_creep false key sp m = m

abbrev with_carry : Bool → Text → Float64 → ChangelogMetrics → ChangelogMetrics
with_carry true key sp m = record m {
  carry_over_keys = m.carry_over_keys ++ key ∷ [];
  carry_over_sp = plus m.carry_over_sp sp;
}
with_carry false key sp m = m

module _ (a : SprintArgs) where
  abbrev note_move : Option ℕ → ChangeItem → Moves → Moves
  note_move created item m =
      if a.letters.equal_fold item.field (codes "Sprint") && contains item.to_string a.sprint_name
      then note_added a.sprint_name a.sprint_start item created m
      else m

  unfoldable pub moves_of : Issue → Moves
  moves_of issue =
      over_histories note_move (histories_of issue)
        (record { is_scope_creep = false; is_carry_over = false })

  abbrev note_status : Option ℕ → ChangeItem → Work → Work
  note_status created item w =
      if is_status_item a.letters item
      then note_work (is_in_progress_status (a.letters.to_lower item.to_string))
          (is_done_status a.letters (a.letters.to_lower item.to_string) a.done_statuses) created w
      else w

  unfoldable pub work_of : Issue → Work
  work_of issue =
      over_histories note_status (histories_of issue)
        (record { first_in_progress = none; done_time = none })

  abbrev is_done : Issue → Bool
  is_done issue = status_category a.letters issue a.done_statuses a.hold_statuses == codes "done"

  abbrev pub points_of : Issue → Float64
  points_of issue = points issue.fields.story_points

  -- The cycle of a done issue, and the time that the issue was held; both only of an issue with a changelog.
  unfoldable pub count_times : Issue → ChangelogMetrics → ChangelogMetrics
  count_times issue m =
      let w = work_of issue in
      let cycled = if is_done issue then with_cycle w.first_in_progress w.done_time m else m in
      if is_some issue.changelog
      then with_blocked (sum_hold_hours a.letters (histories_of issue) a.hold_statuses a.now) cycled
      else m

  unfoldable pub count_changes : Issue → ChangelogMetrics → ChangelogMetrics
  count_changes issue m =
      let moves = moves_of issue in
      let sp = points_of issue in
      let completed =
        if is_done issue then record m { completed_sp = plus m.completed_sp sp } else m in
      with_carry moves.is_carry_over issue.key sp
        (with_creep moves.is_scope_creep issue.key sp (count_times issue completed))

  unfoldable pub changes_loop : List Issue → ChangelogMetrics → ChangelogMetrics
  changes_loop [] m = m
  changes_loop (issue ∷ issues) m =
      changes_loop issues (if passes_filter a.filter issue then count_changes issue m else m)

  -- The loop that adds the points of the issues that pass the filter.
  abbrev add_points : Option Float64 → Float64 → Float64
  add_points none committed = committed
  add_points (some sp) committed = plus committed sp

  unfoldable pub filtered_points : List Issue → Float64 → Float64
  filtered_points [] committed = committed
  filtered_points (issue ∷ issues) committed = filtered_points issues (
      if passes_filter a.filter issue
      then add_points issue.fields.story_points committed
      else committed)

  abbrev pub no_changes : ChangelogMetrics
  no_changes = record {
    scope_creep_keys = [];
    scope_creep_sp = whole 0;
    carry_over_keys = [];
    carry_over_sp = whole 0;
    completed_sp = whole 0;
    total_cycle = 0;
    cycle_count = 0;
    total_blocked = 0;
    blocked_count = 0;
  }

  -- The metrics, and the committed points: what was there but for the scope creep.
  unfoldable pub compute_changelog_metrics : List Issue → ChangelogMetrics × Float64
  compute_changelog_metrics issues =
      let m = changes_loop issues no_changes in
      (m, minus (filtered_points issues (whole 0)) m.scope_creep_sp)
