-- ===== src/Poller/Mentions.antt =====
-- `findRecentMentionComments`. `api` answers the page of comments from an offset on, newest
-- creation first, or `none` for an error.
pub mod Pages
use jira_bot.Base.{
  ℕ, zero, suc, ◌+◌, ◌*◌, Bool, true, false, ◌&&◌, ◌||◌, not, List, [], ◌∷◌, ◌++◌, Option, none,
  some, ltb, leb, if◌then◌else◌, keep, length, Text, text_eq,
}
use jira_bot.Jira.Adf.{extract_mention_ids}
use jira_bot.Jira.Models.{Comment}
use jira_bot.Poller.Changes.{comment_activity_time, contains, is_empty}

pub record CommentsResponse : Type 0 where
  pub start_at : ℕ
  pub total : ℕ
  pub comments : List Comment

abbrev pub mention_comment_page : ℕ
mention_comment_page = 50

abbrev pub mention_comment_max_page : ℕ
mention_comment_max_page = 5

-- `!(ts.IsZero() || ts.Before(sinceTime))`
abbrev pub is_since : ℕ → Option ℕ → Bool
is_since since none = false
is_since since (some t) = not (ltb t (since * 1000))

unfoldable pub in_window : ℕ → Comment → Bool
in_window since c = is_since since (comment_activity_time c)

unfoldable pub any_in_window : ℕ → List Comment → Bool
any_in_window since [] = false
any_in_window since (c ∷ cs) = in_window since c || any_in_window since cs

-- The comments of a page that are in the window and mention the account.
unfoldable pub matches : ℕ → Text → List Comment → List Comment
matches since account = keep λ c. in_window since c && contains account (extract_mention_ids c.body)

-- How one page ends: the scan returns, or goes on to the next page.
pub data PageOutcome : Type 0 where
  stop go_on : List Comment → PageOutcome

unfoldable pub read_comments :
    ℕ → Text → (start_at total : ℕ) → List Comment → List Comment → PageOutcome
read_comments since account start_at total matched [] = stop matched
read_comments since account start_at total matched (c ∷ cs) =
    let found = matched ++ matches since account (c ∷ cs) in
    if not (any_in_window since (c ∷ cs))
    then stop found
    else if leb total (start_at + length (c ∷ cs))
    then stop found
    else go_on found

-- An error drops what was found on earlier pages.
unfoldable pub read_page : ℕ → Text → Option CommentsResponse → List Comment → PageOutcome
read_page since account none matched = stop []
read_page since account (some resp) matched =
    read_comments since account resp.start_at resp.total matched resp.comments

-- The loop over the pages, with the rounds left.
unfoldable pub scan_pages :
    (ℕ → Option CommentsResponse) → ℕ → Text → (rounds page : ℕ) → List Comment → List Comment
scan_pages api since account zero page matched = matched
scan_pages api since account (suc rounds) page matched =
    elim (read_page since account (api (page * mention_comment_page)) matched) [
      | stop found ↦ found
      | go_on found ↦ scan_pages api since account rounds (page + 1) found
    ]

unfoldable pub find_recent_mention_comments :
    (ℕ → Option CommentsResponse) → ℕ → Text → List Comment
find_recent_mention_comments api since account =
    if is_empty account then [] else scan_pages api since account mention_comment_max_page 0 []
