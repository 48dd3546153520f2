-- ===== src/Calendar.antt =====
-- internal/calendar: `Expand` and `ApplyOverrides` of expander.go; `Url` is the guard of url.go.
-- Instants are in milliseconds; the zero time is `none`.
pub mod Expansion
pub mod Url
use jira_bot.Base.{
  ℕ, ◌+◌, ◌-◌, ◌/◌, Bool, true, false, ◌&&◌, ◌||◌, not, List, [], ◌∷◌, ◌++◌, Option, none, some,
  ltb, leb, if◌then◌else◌, is_some, Text, text_eq, nat_eq, pair_eq, ◌==◌, lookup, insert,
}

-- `rrule` is the recurrence rule's text, [] where there is none.
pub record Event : Type 0 where
  pub uid : Text
  pub summary : Text
  pub description : Text
  pub location : Text
  pub start : ℕ
  pub end : Option ℕ
  pub all_day : Bool
  pub last_modified : Option ℕ
  pub sequence : ℕ
  pub recurrence_id : Option ℕ
  pub rrule : Text
  pub ex_dates : List ℕ

pub record Instance : Type 0 where
  pub uid : Text
  pub summary : Text
  pub description : Text
  pub location : Text
  pub start : ℕ
  pub end : Option ℕ
  pub all_day : Bool
  pub last_modified : Option ℕ
  pub sequence : ℕ
  pub is_recurring : Bool

abbrev shifted : Option ℕ → (event_start start : ℕ) → Option ℕ
shifted none event_start start = none
shifted (some e) event_start start = some (start + e - event_start)

unfoldable pub instance_from_master : Event → ℕ → Bool → Instance
instance_from_master ev start recurring = record {
  uid = ev.uid;
  summary = ev.summary;
  description = ev.description;
  location = ev.location;
  start = start;
  end = shifted ev.end ev.start start;
  all_day = ev.all_day;
  last_modified = ev.last_modified;
  sequence = ev.sequence;
  is_recurring = recurring;
}

unfoldable pub has_second : ℕ → List ℕ → Bool
has_second s [] = false
has_second s (t ∷ ts) = t / 1000 == s || has_second s ts

-- The loop over the occurrences, less those whose second is excluded.
unfoldable pub instances_of : Event → List ℕ → List Instance
instances_of ev [] = []
instances_of ev (occ ∷ occs) =
    if has_second (occ / 1000) ev.ex_dates
    then instances_of ev occs
    else instance_from_master ev occ true ∷ instances_of ev occs

abbrev pub is_nil_text : Text → Bool
is_nil_text [] = true
is_nil_text (c ∷ s) = false

-- What the rrule package answers: the occurrences in the window, or `none` for a rule that it
-- rejects.
abbrev pub Rrule : Type 0
Rrule = Text → (event_start from to : ℕ) → Option (List ℕ)

abbrev pub expanded : Event → Option (List ℕ) → Option (List Instance)
expanded ev none = none
expanded ev (some occs) = some (instances_of ev occs)

-- `none` is the error of a rule that cannot be used.
unfoldable pub expand : Rrule → Event → (from to : ℕ) → Option (List Instance)
expand rrule ev from to =
    if is_some ev.recurrence_id
    then some []
    else if is_nil_text ev.rrule
    then (if ltb ev.start from || ltb to ev.start
        then some []
        else some (instance_from_master ev ev.start false ∷ []))
    else expanded ev (rrule ev.rrule ev.start from to)

abbrev pub or_nil : Option (List Instance) → List Instance
or_nil none = []
or_nil (some is') = is'

abbrev pub is_override : Event → Bool
is_override ev = is_some ev.recurrence_id

-- The loop over the masters in `pollUser`: an event that cannot be expanded is passed over.
unfoldable pub expand_all : Rrule → List Event → (from to : ℕ) → List Instance
expand_all rrule [] from to = []
expand_all rrule (ev ∷ evs) from to =
    or_nil (expand rrule ev from to) ++ expand_all rrule evs from to

abbrev pub Overrides : Type 0
Overrides = List ((Text × ℕ) × Event)

abbrev add_override : Event → Option ℕ → Text → Overrides → Overrides
add_override ov none uid idx = idx
add_override ov (some t) [] idx = idx
add_override ov (some t) (c ∷ uid) idx = insert (c ∷ uid, t / 1000) ov idx

unfoldable pub index_overrides : List Event → Overrides → Overrides
index_overrides [] idx = idx
index_overrides (ov ∷ ovs) idx = index_overrides ovs (add_override ov ov.recurrence_id ov.uid idx)

unfoldable pub instance_from_override : Event → Instance
instance_from_override ov = record {
  uid = ov.uid;
  summary = ov.summary;
  description = ov.description;
  location = ov.location;
  start = ov.start;
  end = ov.end;
  all_day = ov.all_day;
  last_modified = ov.last_modified;
  sequence = ov.sequence;
  is_recurring = true;
}

abbrev pub replaced_by : Instance → Option Event → Instance
replaced_by inst none = inst
replaced_by inst (some ov) = instance_from_override ov

unfoldable pub replace_all : Overrides → List Instance → List Instance
replace_all idx [] = []
replace_all idx (i ∷ is') = replaced_by i (lookup (i.uid, i.start / 1000) idx) ∷ replace_all idx is'

-- `sort.Slice` by start, as an insertion sort: the order of equal starts is not promised in Go.
unfoldable pub insert_by_start : Instance → List Instance → List Instance
insert_by_start i [] = i ∷ []
insert_by_start i (j ∷ js) = if ltb j.start i.start then j ∷ insert_by_start i js else i ∷ j ∷ js

unfoldable pub sort_by_start : List Instance → List Instance
sort_by_start [] = []
sort_by_start (i ∷ is') = insert_by_start i (sort_by_start is')

unfoldable pub apply_overrides : List Instance → List Event → List Instance
apply_overrides instances [] = instances
apply_overrides instances (ov ∷ ovs) =
    sort_by_start (replace_all (index_overrides (ov ∷ ovs) []) instances)
