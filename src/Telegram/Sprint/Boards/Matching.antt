-- ===== src/Telegram/Sprint/Boards/Matching.antt =====
-- Which board a hint picks, and which sprints the velocity is taken from.
use jira_bot.Base.{
  ◌≡◌, ◌≢◌, ◌≤◌, ◌<◌, refl, sym, ap, subst, ◌∙◌, Bool, true, false, ◌&&◌, leb, List, [], ◌∷◌, ◌++◌,
  Option, none, some, Text, codes, ℤ, pos, negsuc, int_eq, text_eq, ◌==◌, ==_iff, keep, length,
  arith, Has, Has-append_cases, All, All-append, length-append, if_cases, Bool-cases, inl, inr, ◌⊎◌,
  ◌↔◌, append_assoc,
}
use jira_bot.Telegram.Statuses.{Letters}
use jira_bot.Telegram.Sprint.Boards.{
  Board, Sprint, ids_match, has_hint, matched_id, names_match, by_hint, match_board, filter_boards,
  velocity_sprint_count, previous_sprints,
}

-- A board fits the hint: its number is the hint's, its name is the hint in any case of the letters, or it is the only one whose
-- name contains the hint.
pub data Fits (l : Letters) (atoi : Text → Option ℤ) (boards : List Board) (hint : Text) (b : Board)
    : Type 0 where
  by_id : (id : ℤ) → atoi hint ≡ some id → b.id ≡ id → Fits l atoi boards hint b
  by_name : l.equal_fold b.name (l.to_lower hint) ≡ true → Fits l atoi boards hint b
  only_one : filter_boards l boards hint ≡ b ∷ [] → Fits l atoi boards hint b

-- What the two results stand for.
pub data IsMatch (l : Letters) (atoi : Text → Option ℤ) (boards : List Board) (hint : Text)
    : ℤ × Bool → Type 0 where
  not_found : IsMatch l atoi boards hint (pos 0, false)
  unique :
      (b : Board)
      → Has b boards
      → Fits l atoi boards hint b
      → IsMatch l atoi boards hint (b.id, true)
  several : 1 < length (filter_boards l boards hint) → IsMatch l atoi boards hint (negsuc 0, true)

Has-snoc_of :
    (b c : Board) (xs ys : List Board) → Has b ((xs ++ c ∷ []) ++ ys) → Has b (xs ++ c ∷ ys)
Has-snoc_of b c xs ys h = subst (Has b) (append_assoc xs (c ∷ []) ys) h

module _ (l : Letters) (atoi : Text → Option ℤ) (boards : List Board) (hint : Text) where
  ids_match-IsMatch :
      (id : ℤ) (rest : List Board)
      → atoi hint ≡ some id
      → ((b : Board) → Has b rest → Has b boards)
      → IsMatch l atoi boards hint (ids_match id rest)
  ids_match-IsMatch id [] e within = not_found
  ids_match-IsMatch id (b ∷ rest) e within =
      if_cases (IsMatch l atoi boards hint) (b.id == id)
        (λ same. unique b (within b (inl refl)) (by_id id e ((==_iff b.id id).0 same)))
        (λ _. ids_match-IsMatch id rest e (λ c h. within c (inr h)))

  matched_id-IsMatch :
      (matched : List Board)
      → filter_boards l boards hint ≡ matched
      → ((b : Board) → Has b matched → Has b boards)
      → IsMatch l atoi boards hint (matched_id matched)
  matched_id-IsMatch [] e within = not_found
  matched_id-IsMatch (b ∷ []) e within = unique b (within b (inl refl)) (only_one e)
  matched_id-IsMatch (b ∷ c ∷ matched) e within =
      several (subst (λ bs. 1 < length bs) (sym e) (omega arith))

  names_match-IsMatch :
      (rest matched : List Board)
      → filter_boards l boards hint ≡ matched ++ keep (has_hint l (l.to_lower hint)) rest
      → ((b : Board) → Has b rest → Has b boards)
      → ((b : Board) → Has b matched → Has b boards)
      → IsMatch l atoi boards hint (names_match l (l.to_lower hint) rest matched)
  unfolding names_match
  names_match-IsMatch [] matched e in_rest in_matched =
      matched_id-IsMatch matched (e ∙ append_nil matched) in_matched
    where
      append_nil : (xs : List Board) → xs ++ [] ≡ xs
      append_nil [] = refl
      append_nil (x ∷ xs) = ap (λ r. x ∷ r) (append_nil xs)
  names_match-IsMatch (b ∷ rest) matched e in_rest in_matched =
      if_cases (IsMatch l atoi boards hint) (l.equal_fold b.name (l.to_lower hint))
        (λ same. unique b (in_rest b (inl refl)) (by_name same))
        (λ _. elim (Bool-cases (has_hint l (l.to_lower hint) b)) [
          | inl has ↦ rw has (
              names_match-IsMatch rest (matched ++ b ∷ [])
                (rw has at e ∙ sym (append_assoc matched (b ∷ []) _)) (λ c h. in_rest c (inr h))
                (λ c h. with_one c (Has-append_cases c matched (b ∷ []) h)))
          | inr hasnt ↦ rw hasnt (
              names_match-IsMatch rest matched (rw hasnt at e) (λ c h. in_rest c (inr h))
                in_matched)
        ])
    where
      with_one : (c : Board) → Has c matched ⊎ Has c (b ∷ []) → Has c boards
      with_one c (inl h) = in_matched c h
      with_one c (inr (inl same)) = in_rest c (inl same)
      with_one c (inr (inr h)) = absurd h

-- What a hint picks is sound: a number found is that of a board of the list that has the hint's number, the hint's name, or as the only one
-- a name that contains it; -1 stands for at least two boards that `filterBoards` then lists.
pub match_board-IsMatch :
    (l : Letters) (atoi : Text → Option ℤ) (boards : List Board) (hint : Text)
    → IsMatch l atoi boards hint (match_board l atoi boards hint)
unfolding match_board filter_boards
match_board-IsMatch l atoi boards hint = by_number (atoi hint) refl
  where
    by_number :
        (o : Option ℤ) → atoi hint ≡ o → IsMatch l atoi boards hint (by_hint l boards hint o)
    by_number (some id) e = ids_match-IsMatch l atoi boards hint id boards e (λ b h. h)
    by_number none e =
        names_match-IsMatch l atoi boards hint boards [] refl (λ b h. h) (λ b h. absurd h)

-- The sprints are closed, are not the current one, and are few.
pub record IsPicked (current : ℤ) (picked : List Sprint) : Type 0 where
  pub closed : All (λ s. s.state ≡ codes "closed") picked
  pub others : All (λ s. s.id ≢ current) picked
  pub few : length picked ≤ velocity_sprint_count

previous_sprints-keep :
    (current : ℤ) (sprints : List Sprint) (was_found : Bool) (picked : List Sprint)
    → IsPicked current picked
    → length picked < velocity_sprint_count
    → IsPicked current (previous_sprints current sprints was_found picked)
unfolding previous_sprints
previous_sprints-keep current [] was_found picked ok few = ok
previous_sprints-keep current (s ∷ sprints) was_found picked ok few =
    if_cases (IsPicked current) (s.id == current)
      (λ _. previous_sprints-keep current sprints true picked ok few)
      (λ other.
        if_cases (IsPicked current) (was_found && s.state == codes "closed")
          (λ picks.
            let closed : s.state ≡ codes "closed" =
              (==_iff s.state (codes "closed")).0
                (second was_found (s.state == codes "closed") picks) in
            let differs : s.id ≢ current = differ (s.id == current) other (==_iff s.id current) in
            let long = length-append picked (s ∷ []) in
            let next : IsPicked current (picked ++ s ∷ []) = record {
              closed =
                  All-append (λ (q : Sprint). q.state ≡ codes "closed") picked (s ∷ []) ok.closed
                    (closed, tt);
              others =
                  All-append (λ (q : Sprint). q.id ≢ current) picked (s ∷ []) ok.others
                    (differs, tt);
              few = omega arith;
            } in
            if_cases (IsPicked current) (leb velocity_sprint_count (length (picked ++ s ∷ [])))
              (λ _. next)
              (λ room.
                previous_sprints-keep current sprints was_found (picked ++ s ∷ []) next
                  (ground arith)))
          (λ _. previous_sprints-keep current sprints was_found picked ok few))
  where
    second : (a b : Bool) → (a && b) ≡ true → b ≡ true
    second a b h = ground arith

    differ : {P : Type 0} (b : Bool) → b ≡ false → (b ≡ true) ↔ P → P → ⊥
    differ b e iff p = let t = iff.1 p in ground arith

-- The velocity is taken from at most three sprints, each of them closed and none of them the current one.
pub previous_sprints-IsPicked :
    (current : ℤ) (sprints : List Sprint)
    → IsPicked current (previous_sprints current sprints false [])
previous_sprints-IsPicked current sprints =
    previous_sprints-keep current sprints false []
      (record { closed = tt; others = tt; few = omega arith }) (omega arith)
