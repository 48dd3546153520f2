-- ===== src/Poller/Pending/Merge.antt =====
-- How the changes of several polls collapse into one entry for each field.
use jira_bot.Base.{
  ◌≡◌, ◌≢◌, refl, ap, inl, inr, Bool-cases, List, [], ◌∷◌, Option, none, some, arith, if◌then◌else◌,
  keep, Text, text_eq, ◌==◌, ==_iff, lookup, insert, lookup-insert,
}
use jira_bot.Jira.Models.{ChangeItem}
use jira_bot.Poller.Changes.{change_field_name, is_empty}
use jira_bot.Poller.Pending.{MergedChange, merged_with, merge_change, merge_changes}

-- The items of a field.
abbrev pub named : Text → List ChangeItem → List ChangeItem
named f = keep λ c. change_field_name c.field c.field_id == f

abbrev pub last_of : ChangeItem → List ChangeItem → ChangeItem
last_of c [] = c
last_of c (d ∷ ds) = last_of d ds

-- The entry of a field after the items `cs` of that field: the old "from" side, or else that of the
-- first item, and the "to" side of the last item.
abbrev pub collapsed : Text → Option MergedChange → List ChangeItem → Option MergedChange
collapsed f o [] = o
collapsed f none (c ∷ cs) = some (record {
  field = f;
  from = c.from;
  from_string = c.from_string;
  to = (last_of c cs).to;
  to_string = (last_of c cs).to_string;
})
collapsed f (some old) (c ∷ cs) =
    some (record old { to = (last_of c cs).to; to_string = (last_of c cs).to_string })

collapsed-step :
    (f : Text) (o : Option MergedChange) (c : ChangeItem) (cs : List ChangeItem)
    → collapsed f (some (merged_with f c o)) cs ≡ collapsed f o (c ∷ cs)
collapsed-step f none c [] = refl
collapsed-step f none c (d ∷ ds) = refl
collapsed-step f (some old) c [] = refl
collapsed-step f (some old) c (d ∷ ds) = refl

lookup-merge_change :
    (f : Text) (m : List (Text × MergedChange)) (c : ChangeItem)
    → f ≢ []
    → lookup f (merge_change m c) ≡ (
        if change_field_name c.field c.field_id == f
        then some (merged_with f c (lookup f m))
        else lookup f m)
unfolding merge_change
lookup-merge_change f m c ne = by_name (change_field_name c.field c.field_id)
  where
    by_name :
        (name : Text)
        → lookup f (if is_empty name then m else insert name (merged_with name c (lookup name m)) m)
          ≡ (if name == f then some (merged_with f c (lookup f m)) else lookup f m)
    by_name [] = ground (arith, ==_iff {A = Text} [] f)
    by_name (x ∷ xs) = elim (Bool-cases ((x ∷ xs) == f)) [
      | inl e ↦
          rw (lookup-insert (x ∷ xs) f (merged_with (x ∷ xs) c (lookup (x ∷ xs) m)) m, e)
            (ap (λ k. some (merged_with k c (lookup k m))) ((==_iff (x ∷ xs) f).0 e))
      | inr e ↦ rw (lookup-insert (x ∷ xs) f (merged_with (x ∷ xs) c (lookup (x ∷ xs) m)) m, e) refl
    ]

-- Whatever the order of the items of other fields, the entry of a field with a name keeps the "from" side that was
-- seen first and has the "to" side that was seen last.
pub lookup-merge_changes :
    (f : Text) (m : List (Text × MergedChange)) (cs : List ChangeItem)
    → f ≢ []
    → lookup f (merge_changes m cs) ≡ collapsed f (lookup f m) (named f cs)
unfolding merge_changes
lookup-merge_changes f m [] ne = refl
lookup-merge_changes f m (c ∷ cs) ne =
    elim (Bool-cases (change_field_name c.field c.field_id == f)) [
      | inl e ↦
          rw (e, lookup-merge_changes f (merge_change m c) cs ne, lookup-merge_change f m c ne, e)
            (collapsed-step f (lookup f m) c (named f cs))
      | inr e ↦
          rw (e, lookup-merge_changes f (merge_change m c) cs ne, lookup-merge_change f m c ne, e)
            refl
    ]
