-- ===== src/Telegram/Kanban/Holding.antt =====
-- The time that an issue was held.
use jira_bot.Base.{
  ℕ, ◌&&◌, ◌+◌, ◌≤◌, ◌≡◌, sym, subst, Bool, true, false, ltb, List, [], ◌∷◌, Option, none, some,
  Text, arith, if_either,
}
use jira_bot.Jira.Models.{ChangeItem, ChangeHistory}
use jira_bot.Telegram.Statuses.{Letters, is_hold_status, is_status_item, over_items, over_histories}
use jira_bot.Telegram.Kanban.{
  Span, Hold, begin_hold, end_hold, close_until, no_hold, note_hold, sum_hold_hours,
}

-- The changes come in the order of time, from `t` on until `until`, each with an instant that is read.
abbrev pub IsChronological : (t until : ℕ) → List ChangeHistory → Type 0
IsChronological t until [] = t ≤ until
IsChronological t until (h ∷ histories) =
    (u : ℕ) × ((h.created ≡ some u) × ((t ≤ u) × IsChronological u until histories))

abbrev OpenOrClosed : (t0 t : ℕ) → Span → Option ℕ → Type 0
OpenOrClosed t0 t s none = s.ends + t0 ≤ s.starts + t
OpenOrClosed t0 t s (some start) = (s.ends + t0 ≤ s.starts + start) × (start ≤ t)

-- Between `t0` and `t`: what was summed is not negative and, before an open interval, not longer than the time that
-- passed.
abbrev IsWithin : (t0 t : ℕ) → Hold → Type 0
IsWithin t0 t h = (h.total.starts ≤ h.total.ends) × OpenOrClosed t0 t h.total h.blocked_start

module _ (t0 t : ℕ) where
  IsWithin-later :
      (u : ℕ) (s : Span) (o : Option ℕ)
      → t ≤ u
      → IsWithin t0 t (record { blocked_start = o; total = s })
      → IsWithin t0 u (record { blocked_start = o; total = s })
  IsWithin-later u s none le (p, q) = (p, omega arith)
  IsWithin-later u s (some start) le (p, (q, r)) = (p, (q, omega arith))

begin_hold-IsWithin :
    (t0 ts : ℕ) (into : Bool) (s : Span) (o : Option ℕ)
    → IsWithin t0 ts (record { blocked_start = o; total = s })
    → IsWithin t0 ts (begin_hold into ts (record { blocked_start = o; total = s }))
begin_hold-IsWithin t0 ts true s none (p, q) = (p, (q, omega arith))
begin_hold-IsWithin t0 ts true s (some start) w = w
begin_hold-IsWithin t0 ts false s o w = w

end_hold-IsWithin :
    (t0 ts : ℕ) (out : Bool) (s : Span) (o : Option ℕ)
    → IsWithin t0 ts (record { blocked_start = o; total = s })
    → IsWithin t0 ts (end_hold out ts (record { blocked_start = o; total = s }))
end_hold-IsWithin t0 ts true s none w = w
end_hold-IsWithin t0 ts true s (some start) (p, (q, r)) = (omega arith, omega arith)
end_hold-IsWithin t0 ts false s o w = w

note_hold-IsWithin :
    (l : Letters) (hs : List Text) (t0 u : ℕ) (item : ChangeItem) (h : Hold)
    → IsWithin t0 u h
    → IsWithin t0 u (note_hold l hs (some u) item h)
note_hold-IsWithin l hs t0 u item h w =
    let into = is_hold_status l (l.to_lower item.to_string) hs in
    let out = is_hold_status l (l.to_lower item.from_string) hs in
    let begun = begin_hold into u h in
    if_either (IsWithin t0 u) (is_status_item l item)
      (end_hold-IsWithin t0 u out begun.total begun.blocked_start
        (begin_hold-IsWithin t0 u into h.total h.blocked_start w))
      w

over_items-IsWithin :
    (l : Letters) (hs : List Text) (t0 u : ℕ) (items : List ChangeItem) (h : Hold)
    → IsWithin t0 u h
    → IsWithin t0 u (over_items (note_hold l hs) (some u) items h)
unfolding over_items
over_items-IsWithin l hs t0 u [] h w = w
over_items-IsWithin l hs t0 u (item ∷ items) h w =
    over_items-IsWithin l hs t0 u items _ (note_hold-IsWithin l hs t0 u item h w)

over_histories-IsWithin :
    (l : Letters) (hs : List Text) (t0 t until : ℕ) (histories : List ChangeHistory) (h : Hold)
    → IsChronological t until histories
    → IsWithin t0 t h
    → IsWithin t0 until (over_histories (note_hold l hs) histories h)
unfolding over_histories
over_histories-IsWithin l hs t0 t until [] h le w =
    IsWithin-later t0 t until h.total h.blocked_start le w
over_histories-IsWithin l hs t0 t until (hist ∷ histories) h (u, (e, (le, rest))) w =
    over_histories-IsWithin l hs t0 u until histories _ rest (
      subst (λ c. IsWithin t0 u (over_items (note_hold l hs) c hist.items h)) (sym e)
        (over_items-IsWithin l hs t0 u hist.items h
          (IsWithin-later t0 t u h.total h.blocked_start le w)))

-- Where the changes of an issue come in the order of time between `t0` and `until`, the time it was held is not negative, and is not more
-- than the time between the two.
pub sum_hold_hours-IsBounded :
    (l : Letters) (hs : List Text) (t0 until : ℕ) (histories : List ChangeHistory)
    → IsChronological t0 until histories
    → ((sum_hold_hours l histories hs until).starts ≤ (sum_hold_hours l histories hs until).ends)
      × ((sum_hold_hours l histories hs until).ends + t0
          ≤ (sum_hold_hours l histories hs until).starts + until)
unfolding sum_hold_hours
sum_hold_hours-IsBounded l hs t0 until histories ok =
    let h = over_histories (note_hold l hs) histories no_hold in
    closed h.total h.blocked_start
      (over_histories-IsWithin l hs t0 t0 until histories no_hold ok (omega arith, omega arith))
  where
    closed :
        (s : Span) (o : Option ℕ)
        → IsWithin t0 until (record { blocked_start = o; total = s })
        → ((close_until until s o).starts ≤ (close_until until s o).ends)
          × ((close_until until s o).ends + t0 ≤ (close_until until s o).starts + until)
    closed s none w = w
    closed s (some start) (p, (q, r)) =
        if_either (λ (c : Span). (c.starts ≤ c.ends) × (c.ends + t0 ≤ c.starts + until))
          (ltb start until) (omega arith, omega arith) (p, omega arith)

-- A change that does not move the issue into a hold status.
abbrev pub IsNotInto : Letters → List Text → ChangeItem → Type 0
IsNotInto l hs item =
    (is_status_item l item && is_hold_status l (l.to_lower item.to_string) hs) ≡ false
