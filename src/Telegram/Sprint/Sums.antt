-- ===== src/Telegram/Sprint/Sums.antt =====
-- Sums over the entries of a map of counters, and over issues.
use jira_bot.Base.{
  Bool, List, if◌then◌else◌, suc, ℕ, ◌+◌, ◌≡◌, [], ◌∷◌, Text, text_eq, ◌==◌, lookup, insert, arith,
  Bool-cases, inl, inr, All,
}
use jira_bot.Base.Floats.{Float64, plus}
use jira_bot.Jira.Models.{Issue}
use jira_bot.Telegram.Sprint.{
  IssueStats, StatsMap, Category, done, in_progress, hold, todo, count_category, count_total,
  count_if_done, stats_or_none, update, Tally, no_stats,
}

-- One of the numbers, summed over a map.
abbrev pub sum_of : (IssueStats → ℕ) → StatsMap → ℕ
sum_of f [] = 0
sum_of f ((k, s) ∷ stats) = f s + sum_of f stats

-- Issues counted, and floats added in the order of the issues.
abbrev pub count_if : (Issue → Bool) → List Issue → ℕ → ℕ
count_if p [] n = n
count_if p (issue ∷ issues) n = count_if p issues (if p issue then suc n else n)

abbrev pub sum_if : (Issue → Bool) → (Issue → Float64) → List Issue → Float64 → Float64
sum_if p f [] x = x
sum_if p f (issue ∷ issues) x = sum_if p f issues (if p issue then plus x (f issue) else x)

-- Every issue counts in one category.
pub record IsSplit (s : IssueStats) : Type 0 where
  pub categories : s.total ≡ s.done + s.in_progress + s.hold + s.todo

pub record IsTallied (t : Tally) : Type 0 where
  pub overall : IsSplit t.overall
  pub assignees : All (λ (p : Text × IssueStats). IsSplit p.1) t.by_assignee
  pub total_by_assignee : sum_of (λ s. s.total) t.by_assignee ≡ t.overall.total
  pub done_by_assignee : sum_of (λ s. s.done) t.by_assignee ≡ t.overall.done
  pub total_by_priority : sum_of (λ s. s.total) t.by_priority ≡ t.overall.total
  pub done_by_priority : sum_of (λ s. s.done) t.by_priority ≡ t.overall.done

pub count-IsSplit :
    (c : Category) (sp spent : Float64) (s : IssueStats)
    → IsSplit s
    → IsSplit (count_category c sp spent (count_total sp spent s))
count-IsSplit done sp spent s ok = record { categories = let h = ok.categories in omega arith }
count-IsSplit in_progress sp spent s ok = record {
  categories = let h = ok.categories in omega arith;
}
count-IsSplit hold sp spent s ok = record { categories = let h = ok.categories in omega arith }
count-IsSplit todo sp spent s ok = record { categories = let h = ok.categories in omega arith }

pub insert-sum :
    (f : IssueStats → ℕ) (k : Text) (v : IssueStats) (stats : StatsMap)
    → f no_stats ≡ 0
    → sum_of f (insert k v stats) + f (stats_or_none (lookup k stats)) ≡ sum_of f stats + f v
unfolding insert lookup
insert-sum f k v [] z = omega arith
insert-sum f k v ((j, s) ∷ stats) z = elim (Bool-cases (j == k)) [
  | inl e ↦ rw e (omega arith)
  | inr e ↦ let ih = insert-sum f k v stats z in rw e (omega arith)
]

-- A number that an update raises by `n`, whatever it was, rises by `n` in the sum.
pub update-sum :
    (f : IssueStats → ℕ) (g : IssueStats → IssueStats) (n : ℕ) (k : Text) (stats : StatsMap)
    → f no_stats ≡ 0
    → ((s : IssueStats) → f (g s) ≡ f s + n)
    → sum_of f (update g k stats) ≡ sum_of f stats + n
unfolding update
update-sum f g n k stats z raises =
    let old = stats_or_none (lookup k stats) in
    let step = insert-sum f k (g old) stats z in let more = raises old in omega arith

-- What a category adds to the number of done issues.
abbrev pub one_if_done : Category → ℕ
one_if_done done = 1
one_if_done in_progress = 0
one_if_done hold = 0
one_if_done todo = 0

module _ (sp spent : Float64) where
  pub category-done :
      (c : Category) (s : IssueStats)
      → (count_category c sp spent (count_total sp spent s)).done ≡ s.done + one_if_done c
  category-done done s = omega arith
  category-done in_progress s = omega arith
  category-done hold s = omega arith
  category-done todo s = omega arith

  pub category-total :
      (c : Category) (s : IssueStats)
      → (count_category c sp spent (count_total sp spent s)).total ≡ s.total + 1
  category-total done s = omega arith
  category-total in_progress s = omega arith
  category-total hold s = omega arith
  category-total todo s = omega arith

  pub if_done-done :
      (c : Category) (s : IssueStats)
      → (count_if_done c sp spent (count_total sp spent s)).done ≡ s.done + one_if_done c
  if_done-done done s = omega arith
  if_done-done in_progress s = omega arith
  if_done-done hold s = omega arith
  if_done-done todo s = omega arith

  pub if_done-total :
      (c : Category) (s : IssueStats)
      → (count_if_done c sp spent (count_total sp spent s)).total ≡ s.total + 1
  if_done-total done s = omega arith
  if_done-total in_progress s = omega arith
  if_done-total hold s = omega arith
  if_done-total todo s = omega arith
