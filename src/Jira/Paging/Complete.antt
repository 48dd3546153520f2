-- ===== src/Jira/Paging/Complete.antt =====
-- What the loops over the pages read of a list that the server holds.
use jira_bot.Base.{
  ℕ, zero, suc, ◌+◌, ◌*◌, ◌≤◌, ◌<◌, ◌≡◌, refl, sym, ap, ◌∙◌, true, false, ◌||◌, List, [], ◌∷◌, ◌++◌,
  length, subst, some, drop, arith, Bool-cases, inl, inr, ◌⊎◌, length-append, drop-append, drop-add,
  append_assoc, append-nil, if_cases,
}
use jira_bot.Jira.Paging.{
  Page, Server, Rounds, returned, going_on, read_pages, get_boards, max_pages, list_webhooks,
  is_empty_list, what_was_read,
}

-- What Jira documents of a page: it holds the values from a place on, it is marked as the last
-- where nothing follows, and only then is it shorter than `size`.
pub record Holds {A : Type 0} (xs : List A) (size : ℕ) (page : Page A) (start_at : ℕ) : Type 0 where
  pub rest : List A
  pub splits : page.values ++ rest ≡ drop start_at xs
  pub last : page.is_last ≡ true → rest ≡ []
  pub full : (page.is_last ≡ true) ⊎ (size ≤ length page.values)

abbrev pub Serves : {A : Type 0} → Server A → List A → ℕ → Type 0
Serves server xs size =
    (start_at : ℕ) → (page : Page _) × ((server start_at ≡ some page) × Holds xs size page start_at)

-- After some rounds the whole list was returned, or `size` more values were read in each.
data Progress {A : Type 0} (xs : List A) (least : ℕ) (out : Rounds A) : Type 0 where
  complete : out ≡ returned xs → Progress xs least out
  partial :
      (all : List A) (start_at : ℕ)
      → out ≡ going_on all start_at
      → all ++ drop start_at xs ≡ xs
      → least ≤ length all
      → Progress xs least out

weaken :
    {A : Type 0} (xs : List A) (n m : ℕ) (out : Rounds A)
    → n ≤ m
    → Progress xs m out
    → Progress xs n out
weaken xs n m out le (complete e) = complete e
weaken xs n m out le (partial all start_at e split enough) =
    partial all start_at e split (omega arith)

module _ {A : Type 0} (server : Server A) (xs : List A) (size : ℕ) (positive : 0 < size)
    (serves : Serves server xs size) where
  next-splits :
      (all : List A) (start_at : ℕ) (page : Page A) (h : Holds xs size page start_at)
      → all ++ drop start_at xs ≡ xs
      → (all ++ page.values) ++ drop (start_at + length page.values) xs ≡ xs
  next-splits all start_at page h split =
      append_assoc all page.values (drop (start_at + length page.values) xs)
      ∙ ap (λ r. all ++ (page.values ++ r))
          (drop-add start_at (length page.values) xs
            ∙ ap (drop (length page.values)) (sym h.splits)
            ∙ drop-append page.values h.rest)
      ∙ ap (λ r. all ++ r) h.splits
      ∙ split

  all-read :
      (all : List A) (start_at : ℕ) (page : Page A) (h : Holds xs size page start_at)
      → all ++ drop start_at xs ≡ xs
      → h.rest ≡ []
      → all ++ page.values ≡ xs
  all-read all start_at page h split nothing =
      ap (λ r. all ++ r)
        (sym (append-nil page.values) ∙ ap (λ r. page.values ++ r) (sym nothing) ∙ h.splits)
      ∙ split

  stops :
      (page : Page A) (start_at : ℕ) (h : Holds xs size page start_at)
      → (page.is_last || is_empty_list page.values) ≡ true
      → h.rest ≡ []
  stops page start_at h e = elim (Bool-cases page.is_last) [
    | inl last ↦ h.last last
    | inr more ↦ elim h.full [
      | inl last ↦ h.last last
      | inr full ↦ absurd (nonempty page.values full (rw more at e))
    ]
  ]
    where
      nonempty : (vs : List A) → size ≤ length vs → is_empty_list vs ≡ true → ⊥
      nonempty [] full e = omega arith
      nonempty (v ∷ vs) full e = ground arith

  read_pages-Progress :
      (n : ℕ) (all : List A) (start_at : ℕ)
      → all ++ drop start_at xs ≡ xs
      → Progress xs (length all + n * size) (read_pages server n all start_at)
  unfolding read_pages
  read_pages-Progress zero all start_at split = partial all start_at refl split (omega arith)
  read_pages-Progress (suc n) all start_at split =
      let (page, (answer, h)) = serves start_at in
      rw answer (
        if_cases (Progress xs (length all + suc n * size))
          (page.is_last || is_empty_list page.values)
          (λ stop.
            complete
              (ap returned (all-read all start_at page h split (stops page start_at h stop))))
          (λ on. elim h.full [
            | inl last ↦ absurd (goes_on page last on)
            | inr full ↦
                weaken xs (length all + suc n * size) (length (all ++ page.values) + n * size) _
                  (longer all page.values full)
                  (read_pages-Progress n (all ++ page.values) (start_at + length page.values)
                    (next-splits all start_at page h split))
          ]))
    where
      goes_on :
          (page : Page A)
          → page.is_last ≡ true
          → (page.is_last || is_empty_list page.values) ≡ false
          → ⊥
      goes_on page last on = ground arith

      longer :
          (all vs : List A)
          → size ≤ length vs
          → length all + suc n * size ≤ length (all ++ vs) + n * size
      longer all vs full = omega (arith, length-append all vs)

  length-prefix : (all rest : List A) → all ++ rest ≡ xs → length all ≤ length xs
  length-prefix all rest split =
      subst (λ ys. length all ≤ length ys) split (omega (arith, length-append all rest))

-- `ListWebhooks` ends, and returns the whole list that the server holds: after as many rounds as there are pages,
-- and one more, for every size of the pages.
pub list_webhooks_lem :
    {A : Type 0} (server : Server A) (xs : List A) (size rounds : ℕ)
    → 0 < size
    → Serves server xs size
    → length xs < rounds * size
    → list_webhooks server rounds ≡ returned xs
unfolding list_webhooks
list_webhooks_lem server xs size rounds positive serves enough =
    elim (read_pages-Progress server xs size positive serves rounds [] 0 refl) [
      | complete e ↦ e
      | partial all start_at e split least ↦
          let short = length-prefix server xs size positive serves all (drop start_at xs) split in
          absurd (too_long least short)
    ]
  where
    too_long : {n : ℕ} → 0 + rounds * size ≤ n → n ≤ length xs → ⊥
    too_long a b = omega arith

-- `GetBoards` and `GetSprints` return, without an error, what the server's list begins with: all
-- of it, or at least what 20 pages hold, and nothing else.
pub get_boards-IsPrefix :
    {A : Type 0} (server : Server A) (xs : List A) (size : ℕ)
    → 0 < size
    → Serves server xs size
    → (all rest : List A) × ((get_boards server ≡ some all)
        × ((all ++ rest ≡ xs) × ((rest ≡ []) ⊎ (max_pages * size ≤ length all))))
unfolding get_boards
get_boards-IsPrefix server xs size positive serves =
    elim (read_pages-Progress server xs size positive serves max_pages [] 0 refl) [
      | complete e ↦ (xs, [], (ap what_was_read e, (append-nil xs, inl refl)))
      | partial all start_at e split least ↦
          (all, drop start_at xs, (ap what_was_read e, (split, inr (omega arith))))
    ]
