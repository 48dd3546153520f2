-- ===== src/Telegram/Kanban.antt =====
-- internal/telegram/handler_kanban.go: the flow metrics of a board. Instants and durations are in
-- milliseconds, with exact arithmetic where Go has float hours; the zero time is `none`, and every
-- instant that is read comes after it.
pub mod Metrics
pub mod Counters
pub mod Totals
pub mod Durations
pub mod Holding
use jira_bot.Base.{
  ℕ, zero, suc, ◌+◌, ◌-◌, ◌*◌, ◌/◌, Bool, true, false, not, ◌&&◌, ltb, leb, nat_beq, List, [], ◌∷◌,
  ◌++◌, Option, none, some, if◌then◌else◌, Text, codes, text_eq, list_beq, ◌==◌, lookup, insert,
  take, length, is_some,
}
use jira_bot.Base.Sorting.{nth, sort}
use jira_bot.Jira.Models.{ChangeItem, ChangeHistory, Status, IssueFields, Issue}
use jira_bot.Telegram.Statuses.{
  Letters, is_in_progress_status, is_done_status, is_hold_status, status_category, over_histories,
  histories_of, is_status_item, type_name, passes_filter, issue_assignee_name,
}

-- `if ts.After(doneTime) { doneTime = ts }`
abbrev pub later : Option ℕ → Option ℕ → Option ℕ
later none d = d
later (some ts) none = some ts
later (some ts) (some d) = if ltb d ts then some ts else some d

abbrev pub earlier : Option ℕ → Option ℕ → Option ℕ
earlier none d = d
earlier (some ts) none = some ts
earlier (some ts) (some d) = if ltb ts d then some ts else some d

abbrev or_time : Option ℕ → Option ℕ → Option ℕ
or_time (some t) fallback = some t
or_time none fallback = fallback

module _ (l : Letters) where
  abbrev pub note_done : List Text → Option ℕ → ChangeItem → Option ℕ → Option ℕ
  note_done done_statuses created item d =
      if is_status_item l item && is_done_status l (l.to_lower item.to_string) done_statuses
      then later created d
      else d

  unfoldable pub issue_done_time : Issue → List Text → Option ℕ
  issue_done_time issue done_statuses =
      or_time (over_histories (note_done done_statuses) (histories_of issue) none)
        issue.fields.updated

  abbrev pub note_started : Option ℕ → ChangeItem → Option ℕ → Option ℕ
  note_started created item first =
      if is_status_item l item && is_in_progress_status (l.to_lower item.to_string)
      then earlier created first
      else first

  unfoldable pub first_in_progress_time : Issue → Option ℕ
  first_in_progress_time issue = over_histories note_started (histories_of issue) none

-- A sum of differences of instants: what it amounts to is `ends - starts`, which may be negative.
pub record Span : Type 0 where
  pub ends : ℕ
  pub starts : ℕ

abbrev pub is_positive : Span → Bool
is_positive s = ltb s.starts s.ends

pub record Hold : Type 0 where
  pub blocked_start : Option ℕ
  pub total : Span

abbrev begin_hold : Bool → ℕ → Hold → Hold
begin_hold into ts h =
    if into && not (is_some h.blocked_start) then record h { blocked_start = some ts } else h

abbrev close_at : ℕ → Hold → Option ℕ → Hold
close_at ts h none = h
close_at ts h (some start) = record {
  blocked_start = none;
  total = record { ends = h.total.ends + ts; starts = h.total.starts + start };
}

abbrev end_hold : Bool → ℕ → Hold → Hold
end_hold out ts h = if out then close_at ts h h.blocked_start else h

-- From the instant of a status change on: into a hold status, and then out of one.
abbrev pub hold_change : (into out : Bool) → Option ℕ → Hold → Hold
hold_change into out none h = h
hold_change into out (some ts) h = end_hold out ts (begin_hold into ts h)

abbrev close_until : ℕ → Span → Option ℕ → Span
close_until until total none = total
close_until until total (some start) =
    if ltb start until
    then record { ends = total.ends + until; starts = total.starts + start }
    else total

abbrev pub no_hold : Hold
no_hold = record { blocked_start = none; total = record { ends = 0; starts = 0 } }

abbrev pub note_hold : Letters → List Text → Option ℕ → ChangeItem → Hold → Hold
note_hold l hold_statuses created item h =
    if is_status_item l item
    then hold_change (is_hold_status l (l.to_lower item.to_string) hold_statuses)
        (is_hold_status l (l.to_lower item.from_string) hold_statuses) created h
    else h

unfoldable pub sum_hold_hours : Letters → List ChangeHistory → List Text → (until : ℕ) → Span
sum_hold_hours l histories hold_statuses until =
    let h = over_histories (note_hold l hold_statuses) histories no_hold in
    close_until until h.total h.blocked_start

-- `ceil_share p n` is `int(math.Ceil(p / 100 * float64(n)))` as the floats round it, a parameter; `idx` is
-- one less, within the bounds of the list.
abbrev pub rank : (ceil_share : ℕ → ℕ → ℕ) → (p n : ℕ) → ℕ
rank ceil_share p n = let idx = ceil_share p n - 1 in if leb n idx then n - 1 else idx

abbrev or_zero : Option ℕ → ℕ
or_zero none = 0
or_zero (some n) = n

-- `percentile`, for a `p` that is a natural number; of no values it is 0.
unfoldable pub percentile : (ceil_share : ℕ → ℕ → ℕ) → List ℕ → (p : ℕ) → ℕ
percentile ceil_share [] p = 0
percentile ceil_share (v ∷ values) p =
    or_zero (nth (λ n. n) (rank ceil_share p (length (v ∷ values))) (sort (λ n. n) (v ∷ values)))
