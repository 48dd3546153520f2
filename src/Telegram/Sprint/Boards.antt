-- ===== src/Telegram/Sprint/Boards.antt =====
-- `matchBoard`, `filterBoards`, and the part of `computeVelocity` that picks the sprints before the current one and sums
-- their points. `strconv.Atoi` is a parameter, `none` for an error.
pub mod Matching
use jira_bot.Base.{
  ℕ, zero, suc, ◌+◌, Bool, true, false, not, ◌&&◌, ◌||◌, ltb, leb, List, [], ◌∷◌, ◌++◌, map, Option,
  none, some, if◌then◌else◌, Text, codes, ℤ, pos, negsuc, int_eq, text_eq, list_beq, ◌==◌, keep,
  length,
}
use jira_bot.Jira.Models.{Issue}
use jira_bot.Telegram.Statuses.{Letters, status_category, passes_filter}
use jira_bot.Base.Floats.{Float64, whole, plus}
use jira_bot.Telegram.Sprint.Changes.{contains}

pub record Board : Type 0 where
  pub id : ℤ
  pub name : Text

pub record Sprint : Type 0 where
  pub id : ℤ
  pub state : Text

abbrev pub ids_match : ℤ → List Board → ℤ × Bool
ids_match id [] = (pos 0, false)
ids_match id (b ∷ boards) = if b.id == id then (b.id, true) else ids_match id boards

-- `strings.Contains(strings.ToLower(b.Name), hintLower)`
abbrev pub has_hint : Letters → Text → Board → Bool
has_hint l hint b = contains (l.to_lower b.name) hint

-- After the loop: the one board that matched, or -1 for several.
abbrev pub matched_id : List Board → ℤ × Bool
matched_id [] = (pos 0, false)
matched_id (b ∷ []) = (b.id, true)
matched_id (b ∷ c ∷ matched) = (negsuc 0, true)

-- The loop over the names, with the boards matched so far.
unfoldable pub names_match : Letters → Text → List Board → List Board → ℤ × Bool
names_match l hint [] matched = matched_id matched
names_match l hint (b ∷ boards) matched =
    let rest =
      names_match l hint boards (if has_hint l hint b then matched ++ b ∷ [] else matched) in
    if l.equal_fold b.name hint then (b.id, true) else rest

abbrev pub by_hint : Letters → List Board → Text → Option ℤ → ℤ × Bool
by_hint l boards hint (some id) = ids_match id boards
by_hint l boards hint none = names_match l (l.to_lower hint) boards []

unfoldable pub match_board : Letters → (atoi : Text → Option ℤ) → List Board → Text → ℤ × Bool
match_board l atoi boards hint = by_hint l boards hint (atoi hint)

unfoldable pub filter_boards : Letters → List Board → Text → List Board
filter_boards l boards hint = keep (has_hint l (l.to_lower hint)) boards

abbrev pub velocity_sprint_count : ℕ
velocity_sprint_count = 3

-- The loop over the sprints, newest first: whether the current one was found, and the sprints picked so far.
unfoldable pub previous_sprints : ℤ → List Sprint → Bool → List Sprint → List Sprint
previous_sprints current [] was_found picked = picked
previous_sprints current (s ∷ sprints) was_found picked =
    let after_current = previous_sprints current sprints true picked in
    let picking = picked ++ s ∷ [] in
    let after_pick = previous_sprints current sprints was_found picking in
    let passed = previous_sprints current sprints was_found picked in
    if s.id == current
    then after_current
    else if was_found && s.state == codes "closed"
    then if leb velocity_sprint_count (length picking) then picking else after_pick
    else passed

-- The loop that adds the points of the done issues that pass the filter.
abbrev add_points : Option Float64 → Float64 → Float64
add_points none sum = sum
add_points (some sp) sum = plus sum sp

unfoldable pub done_points :
    Letters → (filter done_statuses hold_statuses : List Text) → List Issue → Float64 → Float64
done_points l filter done_statuses hold_statuses [] done_sp = done_sp
done_points l filter done_statuses hold_statuses (issue ∷ issues) done_sp =
    done_points l filter done_statuses hold_statuses issues (
      if passes_filter filter issue
        && status_category l issue done_statuses hold_statuses == codes "done"
      then add_points issue.fields.story_points done_sp
      else done_sp)

-- `currentSP` and `history`; a sprint whose search fails counts 0. The average and the trend are not modelled.
unfoldable pub velocity :
    Letters
    → (filter done_statuses hold_statuses : List Text) → (search : Sprint → Option (List Issue))
    → (sprints : List Sprint) (current : ℤ) (issues : List Issue) → Float64 × List Float64
velocity l filter done_statuses hold_statuses search sprints current issues = (
  done_points l filter done_statuses hold_statuses issues (whole 0),
  map (λ s. points_of_search (search s)) (previous_sprints current sprints false []),
)
  where
    points_of_search : Option (List Issue) → Float64
    points_of_search none = whole 0
    points_of_search (some found) = done_points l filter done_statuses hold_statuses found (whole 0)
