-- ===== src/Telegram/Sprint/Changes/Selection.antt =====
-- What the metrics of a sprint's changes add up.
use jira_bot.Base.{◌+◌, ◌≡◌, ◌≤◌, Bool, List, [], ◌∷◌, ◌++◌, if◌then◌else◌, Text, length}
use jira_bot.Base.Floats.{Float64, plus}
use jira_bot.Jira.Models.{Issue}
use jira_bot.Telegram.Statuses.{passes_filter}
use jira_bot.Telegram.Sprint.Sums.{sum_if}
use jira_bot.Telegram.Sprint.Changes.Scope.{is_creep, is_carried}
use jira_bot.Telegram.Sprint.Changes.{ChangelogMetrics, SprintArgs, is_done, points_of, add_points}

module _ (a : SprintArgs) where
  abbrev pub keys_if : (Issue → Bool) → List Issue → List Text → List Text
  keys_if p [] keys = keys
  keys_if p (issue ∷ issues) keys =
      keys_if p issues (if p issue then keys ++ issue.key ∷ [] else keys)

  -- The metrics, from those before, of issues that are all counted.
  pub record IsSelected (issues : List Issue) (m m' : ChangelogMetrics) : Type 0 where
    pub creep_keys : m'.scope_creep_keys ≡ keys_if (is_creep a) issues m.scope_creep_keys
    pub creep_sp : m'.scope_creep_sp ≡ sum_if (is_creep a) (points_of a) issues m.scope_creep_sp
    pub carry_keys : m'.carry_over_keys ≡ keys_if (is_carried a) issues m.carry_over_keys
    pub carry_sp : m'.carry_over_sp ≡ sum_if (is_carried a) (points_of a) issues m.carry_over_sp
    pub completed : m'.completed_sp ≡ sum_if (is_done a) (points_of a) issues m.completed_sp
    pub cycles : m'.cycle_count ≤ length issues + m.cycle_count
    pub blocked : m'.blocked_count ≤ length issues + m.blocked_count

  abbrev with_completed : Issue → ChangelogMetrics → ChangelogMetrics
  with_completed issue m = record m {
    completed_sp =
        if is_done a issue then plus m.completed_sp (points_of a issue) else m.completed_sp;
  }

  abbrev with_scope : Issue → ChangelogMetrics → ChangelogMetrics
  with_scope issue m = record m {
    scope_creep_keys =
        if is_creep a issue then m.scope_creep_keys ++ issue.key ∷ [] else m.scope_creep_keys;
    scope_creep_sp =
        if is_creep a issue then plus m.scope_creep_sp (points_of a issue) else m.scope_creep_sp;
    carry_over_keys =
        if is_carried a issue then m.carry_over_keys ++ issue.key ∷ [] else m.carry_over_keys;
    carry_over_sp =
        if is_carried a issue then plus m.carry_over_sp (points_of a issue) else m.carry_over_sp;
  }

  abbrev pub is_counted : Issue → Bool
  is_counted issue = passes_filter a.filter issue

  -- Adding the points of the issues that have some.
  abbrev pub committed : List Issue → Float64 → Float64
  committed [] x = x
  committed (issue ∷ issues) x = committed issues (add_points a issue.fields.story_points x)
