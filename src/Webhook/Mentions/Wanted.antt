-- ===== src/Webhook/Mentions/Wanted.antt =====
-- Whose subscriptions are looked up for a comment.
use jira_bot.Base.{
  ◌≡◌, ap, inl, inr, Bool-cases, Bool, true, false, ◌||◌, List, [], ◌∷◌, Option, arith,
  if◌then◌else◌, Has, ◌↔◌, Text, text_eq, ◌==◌, ==_iff,
}
use jira_bot.Poller.Changes.{contains}
use jira_bot.Webhook.Models.{EventUser}
use jira_bot.Webhook.Mentions.{is_author, wanted_ids}

contains_iff : (id : Text) (xs : List Text) → (contains id xs ≡ true) ↔ Has id xs
unfolding contains
contains_iff id [] = ground arith
contains_iff id (x ∷ xs) = ground (arith, ==_iff x id, contains_iff id xs)

contains_head : (x : Text) (xs : List Text) → contains x (x ∷ xs) ≡ true
unfolding contains
contains_head x xs = ground (arith, ==_iff x x)

-- No text twice.
abbrev pub IsDistinct : List Text → Type 0
IsDistinct [] = Unit
IsDistinct (x ∷ xs) = (contains x xs ≡ false) × IsDistinct xs

-- The accounts that are looked up are the mentioned ones, but for the comment's author and those that
-- were seen before.
pub wanted_ids_lem :
    (author : Option EventUser) (seen ids : List Text) (id : Text)
    → (contains id (wanted_ids author seen ids) ≡ true)
      ↔ ((contains id ids ≡ true) × (is_author author id ≡ false) × (contains id seen ≡ false))
unfolding wanted_ids contains
wanted_ids_lem author seen [] id = ground arith
wanted_ids_lem author seen (x ∷ ids) id =
    let skipped = wanted_ids_lem author seen ids id in
    let taken = wanted_ids_lem author (x ∷ seen) ids id in
    elim (Bool-cases (x == id)) [
      | inl same ↦
          let e = (==_iff x id).0 same in
          let a = ap (is_author author) e in let b = ap (λ y. contains y seen) e in ground arith
      | inr other ↦ ground arith
    ]

-- No account is looked up twice.
pub wanted_ids-IsDistinct :
    (author : Option EventUser) (seen ids : List Text) → IsDistinct (wanted_ids author seen ids)
unfolding wanted_ids
wanted_ids-IsDistinct author seen [] = tt
wanted_ids-IsDistinct author seen (x ∷ ids) =
    let (found, fresh) = wanted_ids_lem author (x ∷ seen) ids x in
    let absent : contains x (wanted_ids author (x ∷ seen) ids) ≡ false =
      elim (Bool-cases (contains x (wanted_ids author (x ∷ seen) ids))) [
        | inl twice ↦ ground (arith, found twice, contains_head x seen)
        | inr once ↦ once
      ] in
    elim (is_author author x || contains x seen)
      as (λ (b : Bool).
        IsDistinct
          (if b then wanted_ids author seen ids else x ∷ wanted_ids author (x ∷ seen) ids)) [
            | true ↦ wanted_ids-IsDistinct author seen ids
            | false ↦ (absent, wanted_ids-IsDistinct author (x ∷ seen) ids)
          ]
