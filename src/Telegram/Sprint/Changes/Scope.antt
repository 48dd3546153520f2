-- ===== src/Telegram/Sprint/Changes/Scope.antt =====
-- Which issues the metrics of a sprint's changes count.
use jira_bot.Base.{
  ℕ, ◌≡◌, refl, ap, ap₂, sym, ◌∙◌, Bool, false, ◌&&◌, ◌||◌, not, List, [], ◌∷◌, Option, none, some,
  codes, arith, if_either, ltb, Bool-cases, inl, inr,
}
use jira_bot.Jira.Models.{ChangeItem, ChangeHistory, Issue}
use jira_bot.Poller.Changes.{is_empty}
use jira_bot.Telegram.Statuses.{histories_of, over_items, over_histories}
use jira_bot.Telegram.Sprint.Changes.{contains, Moves, note_move, SprintArgs, moves_of}

-- Some change of the changelog passes a test.
abbrev any_item : (Option ℕ → ChangeItem → Bool) → Option ℕ → List ChangeItem → Bool
any_item p created [] = false
any_item p created (item ∷ items) = p created item || any_item p created items

abbrev pub any_change : (Option ℕ → ChangeItem → Bool) → List ChangeHistory → Bool
any_change p [] = false
any_change p (h ∷ histories) = any_item p h.created h.items || any_change p histories

module _ (a : SprintArgs) where
  -- A change that puts the issue into the sprint, at a time that is read.
  abbrev pub is_addition : ChangeItem → Bool
  is_addition item =
      a.letters.equal_fold item.field (codes "Sprint") && contains item.to_string a.sprint_name

  -- It comes after the start of the sprint.
  abbrev pub adds_late : Option ℕ → ChangeItem → Bool
  adds_late none item = false
  adds_late (some ts) item = is_addition item && ltb a.sprint_start ts

  -- The text of the sprints before is not empty and does not have this sprint's name.
  abbrev pub adds_from_other : Option ℕ → ChangeItem → Bool
  adds_from_other none item = false
  adds_from_other (some ts) item =
      is_addition item
      && (not (is_empty item.from_string) && not (contains item.from_string a.sprint_name))

  abbrev pub is_creep : Issue → Bool
  is_creep issue = any_change adds_late (histories_of issue)

  abbrev pub is_carried : Issue → Bool
  is_carried issue = any_change adds_from_other (histories_of issue)

  abbrev marked : Bool → Bool → Moves → Moves
  marked late other m = record {
    is_scope_creep = m.is_scope_creep || late;
    is_carry_over = m.is_carry_over || other;
  }

  or_false : (x : Bool) → (x || false) ≡ x
  or_false x = ground arith

  or_assoc : (x y z : Bool) → ((x || y) || z) ≡ (x || (y || z))
  or_assoc x y z = ground arith

  marked-id : (m : Moves) → marked false false m ≡ m
  marked-id m =
      ap₂ (λ x y. record { is_scope_creep = x; is_carry_over = y }) (or_false m.is_scope_creep)
        (or_false m.is_carry_over)

  marked-marked :
      (late other later others : Bool) (m : Moves)
      → marked later others (marked late other m) ≡ marked (late || later) (other || others) m
  marked-marked late other later others m =
      ap₂ (λ x y. record { is_scope_creep = x; is_carry_over = y })
        (or_assoc m.is_scope_creep late later) (or_assoc m.is_carry_over other others)

  note_move-marked :
      (created : Option ℕ) (item : ChangeItem) (m : Moves)
      → note_move a created item m
        ≡ marked (adds_late created item) (adds_from_other created item) m
  note_move-marked none item m =
      if_either (λ (x : Moves). x ≡ marked false false m) (is_addition item) (sym (marked-id m))
        (sym (marked-id m))
  note_move-marked (some ts) item m = elim (Bool-cases (is_addition item)) [
    | inl e ↦ rw e refl
    | inr e ↦ rw e (sym (marked-id m))
  ]

  over_items-marked :
      (created : Option ℕ) (items : List ChangeItem) (m : Moves)
      → over_items (note_move a) created items m
        ≡ marked (any_item adds_late created items) (any_item adds_from_other created items) m
  unfolding over_items
  over_items-marked created [] m = sym (marked-id m)
  over_items-marked created (item ∷ items) m =
      over_items-marked created items (note_move a created item m)
      ∙ ap (marked (any_item adds_late created items) (any_item adds_from_other created items))
          (note_move-marked created item m)
      ∙ marked-marked (adds_late created item) (adds_from_other created item)
          (any_item adds_late created items) (any_item adds_from_other created items) m

  over_histories-marked :
      (histories : List ChangeHistory) (m : Moves)
      → over_histories (note_move a) histories m
        ≡ marked (any_change adds_late histories) (any_change adds_from_other histories) m
  unfolding over_histories
  over_histories-marked [] m = sym (marked-id m)
  over_histories-marked (h ∷ histories) m =
      over_histories-marked histories (over_items (note_move a) h.created h.items m)
      ∙ ap (marked (any_change adds_late histories) (any_change adds_from_other histories))
          (over_items-marked h.created h.items m)
      ∙ marked-marked (any_item adds_late h.created h.items)
          (any_item adds_from_other h.created h.items) (any_change adds_late histories)
          (any_change adds_from_other histories) m

  pub moves_of-marked :
      (issue : Issue)
      → moves_of a issue
        ≡ record { is_scope_creep = is_creep issue; is_carry_over = is_carried issue }
  unfolding moves_of
  moves_of-marked issue =
      over_histories-marked (histories_of issue)
        (record { is_scope_creep = false; is_carry_over = false })
