-- ===== src/Poller/Changes/Window.antt =====
-- What `recentChanges` reports, against the histories that count.
use jira_bot.Base.{
  ℕ, ◌*◌, ltb, ◌==◌, ◌≡◌, ◌≢◌, refl, ap, ◌∙◌, inl, inr, Bool-cases, Bool, true, false, ◌&&◌, ◌||◌,
  not, List, [], ◌∷◌, ◌++◌, map, Option, none, some, arith, keep, Text, text_eq, ==_iff, ==_refl,
}
use jira_bot.Jira.Models.{JiraUser, ChangeItem, ChangeHistory, Issue}
use jira_bot.Poller.Changes.{
  recent_of, is_after, has_account, is_own_change, counts, contains, new_author, see, collect,
  recent_changes,
}

-- A history that is reported: created after `since`, in seconds, and not by the excluded account.
abbrev is_late : ℕ → Option ℕ → Bool
is_late since none = false
is_late since (some t) = ltb (since * 1000) t

abbrev is_by_other : Text → Option JiraUser → Bool
is_by_other [] author = true
is_by_other (c ∷ exclude) none = true
is_by_other (c ∷ exclude) (some u) = not (u.account_id == c ∷ exclude)

abbrev pub is_reported : ℕ → Text → ChangeHistory → Bool
is_reported since exclude h = is_late since h.created && is_by_other exclude h.author

abbrev pub is_by : Text → Option JiraUser → Bool
is_by id none = false
is_by id (some u) = u.account_id == id

abbrev pub histories : Option (List ChangeHistory) → List ChangeHistory
histories none = []
histories (some hs) = hs

-- Some reported history has the author.
abbrev pub is_author : ℕ → Text → Text → List ChangeHistory → Bool
is_author since exclude id [] = false
is_author since exclude id (h ∷ hs) =
    (is_reported since exclude h && is_by id h.author) || is_author since exclude id hs

counts_lem :
    (since : ℕ) (exclude : Text) (h : ChangeHistory)
    → counts since exclude h ≡ is_reported since exclude h
unfolding counts is_after is_own_change has_account
counts_lem since exclude h = by_fields h.created h.author exclude
  where
    by_fields :
        (created : Option ℕ) (author : Option JiraUser) (exclude : Text)
        → (is_after since created && not (is_own_change exclude author))
          ≡ (is_late since created && is_by_other exclude author)
    by_fields none author exclude = refl
    by_fields (some t) author [] = refl
    by_fields (some t) none (c ∷ exclude) = refl
    by_fields (some t) (some u) (c ∷ exclude) = refl

keep-counts :
    (since : ℕ) (exclude : Text) (hs : List ChangeHistory)
    → keep (counts since exclude) hs ≡ keep (is_reported since exclude) hs
keep-counts since exclude [] = refl
keep-counts since exclude (h ∷ hs) =
    rw (counts_lem since exclude h, keep-counts since exclude hs) refl

abbrev pub all_items : List ChangeHistory → List ChangeItem
all_items [] = []
all_items (h ∷ hs) = h.items ++ all_items hs

-- Some counted history has the author.
abbrev touches : ℕ → Text → Text → List ChangeHistory → Bool
touches since exclude id [] = false
touches since exclude id (h ∷ hs) =
    (counts since exclude h && has_account id h.author) || touches since exclude id hs

abbrev pub accounts : List JiraUser → List Text
accounts = map λ u. u.account_id

abbrev pub IsDistinct : List Text → Type 0
IsDistinct [] = Unit
IsDistinct (x ∷ xs) = (contains x xs ≡ false) × IsDistinct xs

touches_lem :
    (since : ℕ) (exclude id : Text) (hs : List ChangeHistory)
    → touches since exclude id hs ≡ is_author since exclude id hs
unfolding has_account
touches_lem since exclude id [] = refl
touches_lem since exclude id (h ∷ hs) =
    rw (counts_lem since exclude h, touches_lem since exclude id hs, has_account_lem h.author) refl
  where
    has_account_lem : (author : Option JiraUser) → has_account id author ≡ is_by id author
    has_account_lem none = refl
    has_account_lem (some u) = refl

collect-items :
    (since : ℕ) (exclude : Text) (seen : List Text) (hs : List ChangeHistory)
    → (collect since exclude seen hs).1 ≡ all_items (keep (counts since exclude) hs)
unfolding collect
collect-items since exclude seen [] = refl
collect-items since exclude seen (h ∷ hs) = elim (Bool-cases (counts since exclude h)) [
  | inl e ↦ rw e (ap (◌++◌ h.items) (collect-items since exclude (see seen h.author) hs))
  | inr e ↦ rw e (collect-items since exclude seen hs)
]

contains-append :
    (id : Text) (xs ys : List Text) → contains id (xs ++ ys) ≡ (contains id xs || contains id ys)
unfolding contains
contains-append id [] ys = refl
contains-append id (x ∷ xs) ys = ground (arith, contains-append id xs ys)

new_author-lem :
    (id : Text) (seen : List Text) (author : Option JiraUser) (rest : List JiraUser) (later : Bool)
    → contains id (accounts rest) ≡ (not (contains id (see seen author)) && later)
    → contains id (accounts (new_author seen author ++ rest))
      ≡ (not (contains id seen) && (has_account id author || later))
unfolding new_author see has_account contains
new_author-lem id seen none rest later e = e
new_author-lem id seen (some u) rest later e = ground (arith, ==_iff u.account_id id)

collect-accounts :
    (since : ℕ) (exclude : Text) (seen : List Text) (hs : List ChangeHistory) (id : Text)
    → contains id (accounts (collect since exclude seen hs).0)
      ≡ (not (contains id seen) && touches since exclude id hs)
unfolding collect
collect-accounts since exclude seen [] id = unfold contains in ground arith
collect-accounts since exclude seen (h ∷ hs) id = elim (Bool-cases (counts since exclude h)) [
  | inl e ↦ rw e (
      new_author-lem id seen h.author _ (touches since exclude id hs)
        (collect-accounts since exclude (see seen h.author) hs id))
  | inr e ↦ rw e (collect-accounts since exclude seen hs id)
]

new_author-IsDistinct :
    (seen : List Text) (author : Option JiraUser) (rest : List JiraUser)
    → IsDistinct (accounts rest)
    → ((id : Text) → contains id (see seen author) ≡ true → contains id (accounts rest) ≡ false)
    → IsDistinct (accounts (new_author seen author ++ rest))
unfolding new_author see contains
new_author-IsDistinct seen none rest d h = d
new_author-IsDistinct seen (some u) rest d h = elim (Bool-cases (contains u.account_id seen)) [
  | inl e ↦ rw e d
  | inr e ↦ rw e (h u.account_id (rw (==_refl u.account_id) refl), d)
]

collect-IsDistinct :
    (since : ℕ) (exclude : Text) (seen : List Text) (hs : List ChangeHistory)
    → IsDistinct (accounts (collect since exclude seen hs).0)
unfolding collect
collect-IsDistinct since exclude seen [] = tt
collect-IsDistinct since exclude seen (h ∷ hs) = elim (Bool-cases (counts since exclude h)) [
  | inl e ↦ rw e (
      new_author-IsDistinct seen h.author _
        (collect-IsDistinct since exclude (see seen h.author) hs)
        (λ id s. collect-accounts since exclude (see seen h.author) hs id ∙ rw s refl))
  | inr e ↦ rw e (collect-IsDistinct since exclude seen hs)
]

-- The reported items are those of the histories that have a readable time after `since`, in seconds,
-- and are not by the excluded account (nobody is excluded where it is empty), in order; the reported
-- authors have distinct accounts, and are exactly the authors of those histories. An issue without a
-- changelog counts as one without histories.
pub recent_changes_lem :
    (issue : Issue) (since : ℕ) (exclude : Text)
    → ((recent_changes issue since exclude).1
        ≡ all_items (keep (is_reported since exclude) (histories issue.changelog)))
      × IsDistinct (accounts (recent_changes issue since exclude).0)
      × ((id : Text)
          → contains id (accounts (recent_changes issue since exclude).0)
            ≡ is_author since exclude id (histories issue.changelog))
unfolding recent_changes recent_of contains
recent_changes_lem issue since exclude = by_changelog issue.changelog
  where
    by_changelog :
        (o : Option (List ChangeHistory))
        → ((recent_of since exclude o).1
            ≡ all_items (keep (is_reported since exclude) (histories o)))
          × IsDistinct (accounts (recent_of since exclude o).0)
          × ((id : Text)
              → contains id (accounts (recent_of since exclude o).0)
                ≡ is_author since exclude id (histories o))
    by_changelog none = (refl, tt, λ id. refl)
    by_changelog (some hs) = (
      collect-items since exclude [] hs ∙ ap all_items (keep-counts since exclude hs),
      collect-IsDistinct since exclude [] hs,
      λ id. collect-accounts since exclude [] hs id ∙ touches_lem since exclude id hs,
    )

touches_exclude :
    (since : ℕ) (exclude : Text) (hs : List ChangeHistory)
    → exclude ≢ []
    → touches since exclude exclude hs ≡ false
unfolding counts is_own_change
touches_exclude since [] hs ne = absurd (ne refl)
touches_exclude since (c ∷ s) [] ne = refl
touches_exclude since (c ∷ s) (h ∷ hs) ne = ground (arith, touches_exclude since (c ∷ s) hs ne)

-- The user is never told of their own changes: their account is not among the authors.
pub recent_changes-excludes :
    (issue : Issue) (since : ℕ) (exclude : Text)
    → exclude ≢ []
    → contains exclude (accounts (recent_changes issue since exclude).0) ≡ false
unfolding recent_changes contains
recent_changes-excludes issue since exclude ne = by_changelog issue.changelog
  where
    by_changelog :
        (o : Option (List ChangeHistory))
        → contains exclude (accounts (recent_of since exclude o).0) ≡ false
    by_changelog none = refl
    by_changelog (some hs) =
        collect-accounts since exclude [] hs exclude ∙ rw (touches_exclude since exclude hs ne) refl
