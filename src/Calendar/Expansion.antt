-- ===== src/Calendar/Expansion.antt =====
-- Which instances a window has, and how overrides change them.
use jira_bot.Base.{
  ℕ, if_either, if_cases, ◌/◌, ◌≤◌, ◌≡◌, refl, true, false, ◌||◌, List, [], ◌∷◌, Option, none, some,
  arith, ltb, is_some, All, Has, ◌↔◌, Text, text_eq, nat_eq, pair_eq,
}
use jira_bot.Calendar.{
  Event, Instance, instance_from_master, has_second, instances_of, Rrule, expand, or_nil,
  is_nil_text, expanded, index_overrides, replace_all, insert_by_start, sort_by_start,
  apply_overrides,
}

abbrev pub Within : ℕ → ℕ → ℕ → Type 0
Within from to t = (from ≤ t) × (t ≤ to)

-- An instance of one of the events, in the window, and not at an excluded second when it recurs.
pub record IsOccurrence (from to : ℕ) (ev : Event) (i : Instance) : Type 0 where
  pub inside : Within from to i.start
  pub of_event : i.uid ≡ ev.uid
  pub not_excluded : i.is_recurring ≡ true → has_second (i.start / 1000) ev.ex_dates ≡ false

instances_of-IsOccurrence :
    (from to : ℕ) (ev : Event) (occs : List ℕ)
    → All (Within from to) occs
    → All (IsOccurrence from to ev) (instances_of ev occs)
unfolding instances_of instance_from_master
instances_of-IsOccurrence from to ev [] h = tt
instances_of-IsOccurrence from to ev (o ∷ os) h =
    if_cases (All (IsOccurrence from to ev)) (has_second (o / 1000) ev.ex_dates)
      (λ skip. instances_of-IsOccurrence from to ev os h.1)
      (λ taken. (
        record { inside = h.0; of_event = refl; not_excluded = λ r. taken },
        instances_of-IsOccurrence from to ev os h.1,
      ))

-- What the rrule package promises of `Between`: occurrences of the window.
abbrev pub AnswersWithin : Rrule → Type 0
AnswersWithin rrule =
    (text : Text) (start from to : ℕ) (occs : List ℕ)
    → rrule text start from to ≡ some occs
    → All (Within from to) occs

expanded-IsOccurrence :
    (from to : ℕ) (ev : Event) (o : Option (List ℕ))
    → ((occs : List ℕ) → o ≡ some occs → All (Within from to) occs)
    → All (IsOccurrence from to ev) (or_nil (expanded ev o))
expanded-IsOccurrence from to ev none h = tt
expanded-IsOccurrence from to ev (some occs) h =
    instances_of-IsOccurrence from to ev occs (h occs refl)

-- `Expand` gives occurrences of its event only: inside the window, both ends included, and for a
-- recurring event at no excluded second. It is assumed of the rrule package that it answers with times
-- of the window.
pub expand-IsOccurrence :
    (rrule : Rrule) (ev : Event) (from to : ℕ)
    → AnswersWithin rrule
    → All (IsOccurrence from to ev) (or_nil (expand rrule ev from to))
unfolding expand instance_from_master
expand-IsOccurrence rrule ev from to h =
    if_either (λ (o : Option (List Instance)). All (IsOccurrence from to ev) (or_nil o))
      (is_some ev.recurrence_id) tt
      (if_either (λ (o : Option (List Instance)). All (IsOccurrence from to ev) (or_nil o))
        (is_nil_text ev.rrule)
        (if_cases (λ (o : Option (List Instance)). All (IsOccurrence from to ev) (or_nil o))
          (ltb ev.start from || ltb to ev.start) (λ outside. tt)
          (λ inside. (
            record { inside = ground arith; of_event = refl; not_excluded = λ r. ground arith },
            tt,
          )))
        (expanded-IsOccurrence from to ev (rrule ev.rrule ev.start from to)
          (h ev.rrule ev.start from to)))

abbrev pub IsSorted : List Instance → Type 0
IsSorted [] = Unit
IsSorted (i ∷ is') = All (λ (j : Instance). i.start ≤ j.start) is' × IsSorted is'

insert_by_start-Has :
    (i j : Instance) (is' : List Instance) → Has j (insert_by_start i is') ↔ Has j (i ∷ is')
unfolding insert_by_start
insert_by_start-Has i j [] = (λ h. h, λ h. h)
insert_by_start-Has i j (k ∷ ks) =
    let rest = insert_by_start-Has i j ks in
    if_either (λ (l : List Instance). Has j l ↔ Has j (i ∷ k ∷ ks)) (ltb k.start i.start)
      (λ h. ground arith, λ h. ground arith) (λ h. h, λ h. h)

All-insert_by_start :
    (P : Instance → Type 0) (i : Instance) (is' : List Instance)
    → P i
    → All P is'
    → All P (insert_by_start i is')
unfolding insert_by_start
All-insert_by_start P i [] p h = (p, tt)
All-insert_by_start P i (k ∷ ks) p h =
    if_either (All P) (ltb k.start i.start) (h.0, All-insert_by_start P i ks p h.1) (p, h)

All-weaken :
    (a b : ℕ) (is' : List Instance)
    → a ≤ b
    → All (λ (j : Instance). b ≤ j.start) is'
    → All (λ (j : Instance). a ≤ j.start) is'
All-weaken a b [] le h = tt
All-weaken a b (k ∷ ks) le h = (ground arith, All-weaken a b ks le h.1)

insert_by_start-IsSorted :
    (i : Instance) (is' : List Instance) → IsSorted is' → IsSorted (insert_by_start i is')
unfolding insert_by_start
insert_by_start-IsSorted i [] h = (tt, tt)
insert_by_start-IsSorted i (k ∷ ks) h =
    if_cases IsSorted (ltb k.start i.start)
      (λ later. (
        All-insert_by_start (λ (j : Instance). k.start ≤ j.start) i ks (ground arith) h.0,
        insert_by_start-IsSorted i ks h.1,
      ))
      (λ earlier. ((ground arith, All-weaken i.start k.start ks (ground arith) h.0), h))

sort_by_start-IsSorted : (is' : List Instance) → IsSorted (sort_by_start is')
unfolding sort_by_start
sort_by_start-IsSorted [] = tt
sort_by_start-IsSorted (i ∷ is') =
    insert_by_start-IsSorted i (sort_by_start is') (sort_by_start-IsSorted is')

sort_by_start-Has : (j : Instance) (is' : List Instance) → Has j (sort_by_start is') ↔ Has j is'
unfolding sort_by_start
sort_by_start-Has j [] = (λ h. h, λ h. h)
sort_by_start-Has j (i ∷ is') =
    let one = insert_by_start-Has i j (sort_by_start is') in
    let rest = sort_by_start-Has j is' in (λ h. ground arith, λ h. ground arith)

-- With overrides, the instances come out in the order of their starts, and they are the given ones,
-- each replaced by the override, if any, of its event at its second.
pub apply_overrides_lem :
    (instances : List Instance) (ov : Event) (ovs : List Event)
    → IsSorted (apply_overrides instances (ov ∷ ovs))
      × ((j : Instance)
          → Has j (apply_overrides instances (ov ∷ ovs))
            ↔ Has j (replace_all (index_overrides (ov ∷ ovs) []) instances))
unfolding apply_overrides
apply_overrides_lem instances ov ovs = (
  sort_by_start-IsSorted (replace_all (index_overrides (ov ∷ ovs) []) instances),
  λ j. sort_by_start-Has j (replace_all (index_overrides (ov ∷ ovs) []) instances),
)
