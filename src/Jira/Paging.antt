-- ===== src/Jira/Paging.antt =====
-- The loops over the pages of Jira's lists: `GetBoards` and `GetSprints` of
-- internal/jira/client.go, `ListWebhooks` of internal/jira/webhooks.go. The server is an argument:
-- what it answers when the list is asked for from a place on, after the transport and the decoding.
pub mod Complete
use jira_bot.Base.{
  ℕ, zero, suc, ◌+◌, Bool, true, false, ◌||◌, List, [], ◌∷◌, ◌++◌, if◌then◌else◌, length, Option,
  none, some,
}

pub record Page (A : Type 0) : Type 0 where
  pub values : List A
  pub is_last : Bool

-- `none` is a request or a decoding that failed.
abbrev pub Server : Type 0 → Type 0
Server A = ℕ → Option (Page A)

-- How a number of rounds of the loop ends: it returns a list or an error, or it goes on from a place
-- with what it has.
pub data Rounds (A : Type 0) : Type 0 where
  returned : List A → Rounds A
  request_failed : Rounds A
  going_on : List A → ℕ → Rounds A

abbrev pub is_empty_list : {A : Type 0} → List A → Bool
is_empty_list [] = true
is_empty_list (x ∷ xs) = false

-- From the answer of a request on, where `again` stands for the rounds that follow.
abbrev pub after_page : {A : Type 0} → List A → (Page A → Rounds A) → Option (Page A) → Rounds A
after_page all again none = request_failed
after_page all again (some page) =
    if page.is_last || is_empty_list page.values then returned (all ++ page.values) else again page

-- So many rounds, from `start_at` on, with `all` read so far.
unfoldable pub read_pages : {A : Type 0} → Server A → ℕ → List A → ℕ → Rounds A
read_pages server zero all start_at = going_on all start_at
read_pages server (suc n) all start_at =
    after_page all
      (λ page. read_pages server n (all ++ page.values) (start_at + length page.values))
      (server start_at)

abbrev pub max_pages : ℕ
max_pages = 20

-- After the last round the loop of `GetBoards` returns what it has; `none` is an error.
abbrev pub what_was_read : {A : Type 0} → Rounds A → Option (List A)
what_was_read (returned all) = some all
what_was_read request_failed = none
what_was_read (going_on all start_at) = some all

unfoldable pub get_boards : {A : Type 0} → Server A → Option (List A)
get_boards server = what_was_read (read_pages server max_pages [] 0)

-- The loop of `ListWebhooks` has no bound: `rounds` of it.
unfoldable pub list_webhooks : {A : Type 0} → Server A → (rounds : ℕ) → Rounds A
list_webhooks server rounds = read_pages server rounds [] 0
