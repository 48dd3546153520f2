-- ===== src/Telegram/Sprint/Changes/Times.antt =====
-- What counting the times of an issue leaves alone.
use jira_bot.Base.{ℕ, suc, ◌+◌, ◌≡◌, ◌≤◌, refl, Option, none, some, arith, if_either, ltb, is_some}
use jira_bot.Jira.Models.{Issue}
use jira_bot.Telegram.Statuses.{histories_of}
use jira_bot.Telegram.Kanban.{Span, is_positive, sum_hold_hours}
use jira_bot.Telegram.Sprint.Changes.{
  ChangelogMetrics, SprintArgs, with_cycle, with_blocked, work_of, is_done, count_times,
}

module _ (a : SprintArgs) where
  -- What counting the times of an issue leaves alone, and by how much it raises the counts.
  pub record SameScope (n : ℕ) (m m' : ChangelogMetrics) : Type 0 where
    pub creep_keys : m'.scope_creep_keys ≡ m.scope_creep_keys
    pub creep_sp : m'.scope_creep_sp ≡ m.scope_creep_sp
    pub carry_keys : m'.carry_over_keys ≡ m.carry_over_keys
    pub carry_sp : m'.carry_over_sp ≡ m.carry_over_sp
    pub completed : m'.completed_sp ≡ m.completed_sp
    pub cycles : m'.cycle_count ≤ suc m.cycle_count
    pub blocked : m'.blocked_count ≤ n + m.blocked_count

  unchanged : (n : ℕ) (m : ChangelogMetrics) → SameScope n m m
  unchanged n m = record {
    creep_keys = refl;
    creep_sp = refl;
    carry_keys = refl;
    carry_sp = refl;
    completed = refl;
    cycles = omega arith;
    blocked = omega arith;
  }

  with_cycle-SameScope : (s e : Option ℕ) (m : ChangelogMetrics) → SameScope 0 m (with_cycle s e m)
  with_cycle-SameScope none e m = unchanged 0 m
  with_cycle-SameScope (some s) none m = unchanged 0 m
  with_cycle-SameScope (some s) (some e) m =
      if_either (SameScope 0 m) (ltb s e)
        (record {
          creep_keys = refl;
          creep_sp = refl;
          carry_keys = refl;
          carry_sp = refl;
          completed = refl;
          cycles = omega arith;
          blocked = omega arith;
        })
        (unchanged 0 m)

  with_blocked-SameScope :
      (span : Span) (m m' : ChangelogMetrics)
      → SameScope 0 m m'
      → SameScope 1 m (with_blocked span m')
  with_blocked-SameScope span m m' ok =
      let b = ok.blocked in
      let raised : SameScope 1 m m' = record {
        creep_keys = ok.creep_keys;
        creep_sp = ok.creep_sp;
        carry_keys = ok.carry_keys;
        carry_sp = ok.carry_sp;
        completed = ok.completed;
        cycles = ok.cycles;
        blocked = omega arith;
      } in
      if_either (SameScope 1 m) (is_positive span)
        (record {
          creep_keys = ok.creep_keys;
          creep_sp = ok.creep_sp;
          carry_keys = ok.carry_keys;
          carry_sp = ok.carry_sp;
          completed = ok.completed;
          cycles = ok.cycles;
          blocked = omega arith;
        })
        raised

  pub count_times-SameScope :
      (issue : Issue) (m : ChangelogMetrics) → SameScope 1 m (count_times a issue m)
  unfolding count_times
  count_times-SameScope issue m =
      let w = work_of a issue in
      if_either (SameScope 1 m) (is_some issue.changelog)
        (with_blocked-SameScope
          (sum_hold_hours a.letters (histories_of issue) a.hold_statuses a.now) m _
          (if_either (SameScope 0 m) (is_done a issue)
            (with_cycle-SameScope w.first_in_progress w.done_time m) (unchanged 0 m)))
        (unchanged 1 m)
