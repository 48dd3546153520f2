-- ===== src/Poller/Mentions/Pages.antt =====
-- What the scan over the pages of comments finds, and what it misses.
use mathlib.Core.List.{append-nil, append_assoc}
use jira_bot.Base.{
  Has, ℕ, zero, suc, ◌+◌, ◌*◌, ◌≤◌, ◌<◌, ◌≡◌, ◌≢◌, refl, ap, sym, ◌∙◌, inl, inr, Bool-cases, true,
  false, ◌&&◌, List, [], ◌∷◌, ◌++◌, Option, none, some, arith, leb, if◌then◌else◌, length, All,
  All-append, Text, text_eq, and_true,
}
use jira_bot.Jira.Adf.{extract_mention_ids}
use jira_bot.Jira.Models.{Comment}
use jira_bot.Poller.Changes.{contains, is_empty}
use jira_bot.Poller.Mentions.{
  CommentsResponse, mention_comment_page, mention_comment_max_page, in_window, any_in_window,
  matches, PageOutcome, stop, go_on, read_comments, read_page, scan_pages,
  find_recent_mention_comments,
}

module _ (api : ℕ → Option CommentsResponse) (since : ℕ) (account : Text) where
  -- A comment that was created or edited in the window and mentions the account.
  abbrev pub IsMatch : Comment → Type 0
  IsMatch c = (in_window since c ≡ true) × (contains account (extract_mention_ids c.body) ≡ true)

  matches-IsMatch : (cs : List Comment) → All IsMatch (matches since account cs)
  unfolding matches
  matches-IsMatch [] = tt
  matches-IsMatch (c ∷ cs) =
      elim (Bool-cases (in_window since c && contains account (extract_mention_ids c.body))) [
        | inl e ↦ rw e (and_true e, matches-IsMatch cs)
        | inr e ↦ rw e (matches-IsMatch cs)
      ]

  abbrev outcome_list : PageOutcome → List Comment
  outcome_list (stop found) = found
  outcome_list (go_on found) = found

  read_page-IsMatch :
      (resp : Option CommentsResponse) (matched : List Comment)
      → All IsMatch matched
      → All IsMatch (outcome_list (read_page since account resp matched))
  unfolding read_page
  read_page-IsMatch none matched h = tt
  read_page-IsMatch (some resp) matched h = by_comments resp.comments
    where
      by_comments :
          (cs : List Comment)
          → All IsMatch
              (outcome_list (read_comments since account resp.start_at resp.total matched cs))
      by_comments [] = unfold read_comments in h
      by_comments (c ∷ cs) =
          unfold read_comments in
          (let found =
              All-append IsMatch matched (matches since account (c ∷ cs)) h
                (matches-IsMatch (c ∷ cs)) in
            elim (Bool-cases (any_in_window since (c ∷ cs))) [
              | inr e ↦ rw e found
              | inl e ↦ elim (Bool-cases (leb resp.total (resp.start_at + length (c ∷ cs)))) [
                | inl last ↦ rw (e, last) found
                | inr more ↦ rw (e, more) found
              ]
            ])

  scan-IsMatch :
      (rounds page : ℕ) (matched : List Comment)
      → All IsMatch matched
      → All IsMatch (scan_pages api since account rounds page matched)
  unfolding scan_pages
  scan-IsMatch zero page matched h = h
  scan-IsMatch (suc rounds) page matched h =
      go (read_page since account (api (page * mention_comment_page)) matched)
        (read_page-IsMatch (api (page * mention_comment_page)) matched h)
        (scan-IsMatch rounds (page + 1))
    where
      go :
          (o : PageOutcome)
          → All IsMatch (outcome_list o)
          → ((found : List Comment)
              → All IsMatch found
              → All IsMatch (scan_pages api since account rounds (page + 1) found))
          → All IsMatch (elim o [
            | stop found ↦ found
            | go_on found ↦ scan_pages api since account rounds (page + 1) found
          ])
      go (stop found) k next = k
      go (go_on found) k next = next found k

  -- Every comment found is in the window and mentions the account.
  pub find-IsMatch : All IsMatch (find_recent_mention_comments api since account)
  unfolding find_recent_mention_comments
  find-IsMatch = elim (Bool-cases (is_empty account)) [
    | inl e ↦ rw e tt
    | inr e ↦ rw e (scan-IsMatch mention_comment_max_page 0 [] tt)
  ]

  -- The pages from `page` on that are read one after the other: each has a comment in the window,
  -- and only the last one, if it is reached, ends the list.
  abbrev pub IsRun : (page : ℕ) → List CommentsResponse → Type 0
  IsRun page [] = ⊥
  IsRun page (r ∷ []) =
      (api (page * mention_comment_page) ≡ some r)
      × (any_in_window since r.comments ≡ true)
      × (r.total ≤ r.start_at + length r.comments)
  IsRun page (r ∷ q ∷ rs) =
      ((api (page * mention_comment_page) ≡ some r)
        × (any_in_window since r.comments ≡ true)
        × (r.start_at + length r.comments < r.total))
      × IsRun (page + 1) (q ∷ rs)

  abbrev pub all_comments : List CommentsResponse → List Comment
  all_comments [] = []
  all_comments (r ∷ rs) = r.comments ++ all_comments rs

  matches-append :
      (cs ds : List Comment)
      → matches since account (cs ++ ds) ≡ matches since account cs ++ matches since account ds
  unfolding matches
  matches-append [] ds = refl
  matches-append (c ∷ cs) ds = ground (arith, matches-append cs ds)

  read_comments_touched :
      (start total : ℕ) (matched cs : List Comment)
      → any_in_window since cs ≡ true
      → read_comments since account start total matched cs ≡ (
          if leb total (start + length cs)
          then stop (matched ++ matches since account cs)
          else go_on (matched ++ matches since account cs))
  unfolding read_comments
  read_comments_touched start total matched [] h = unfold any_in_window in cc
  read_comments_touched start total matched (c ∷ cs) h = rw h refl

  scan-run :
      (rounds page : ℕ) (matched : List Comment) (rs : List CommentsResponse)
      → length rs ≤ rounds
      → IsRun page rs
      → scan_pages api since account rounds page matched
        ≡ matched ++ matches since account (all_comments rs)
  unfolding scan_pages read_page
  scan-run rounds page matched [] h run = absurd run
  scan-run zero page matched (r ∷ rs) h run = absurd (omega arith)
  scan-run (suc rounds) page matched (r ∷ []) h (e, touched, last) =
      let read : read_page since account (api (page * mention_comment_page)) matched
          ≡ stop (matched ++ matches since account r.comments) =
        rw (e, read_page)
          (read_comments_touched r.start_at r.total matched r.comments touched ∙ ground arith) in
      rw (read, scan_pages, append-nil r.comments) refl
  scan-run (suc rounds) page matched (r ∷ q ∷ rs) h ((e, touched, more), run) =
      let read : read_page since account (api (page * mention_comment_page)) matched
          ≡ go_on (matched ++ matches since account r.comments) =
        rw (e, read_page)
          (read_comments_touched r.start_at r.total matched r.comments touched ∙ ground arith) in
      rw (read, scan_pages)
        (scan-run rounds (page + 1) (matched ++ matches since account r.comments) (q ∷ rs)
            (omega arith) run
          ∙ append_assoc matched (matches since account r.comments)
              (matches since account (all_comments (q ∷ rs)))
          ∙ ap (◌++◌ matched) (sym (matches-append r.comments (all_comments (q ∷ rs)))))

  -- For a user with an account id, over at most five pages, each with a comment in the window and the
  -- last one complete, the scan finds exactly the matches, in order.
  pub find-run :
      (rs : List CommentsResponse)
      → account ≢ []
      → length rs ≤ mention_comment_max_page
      → IsRun 0 rs
      → find_recent_mention_comments api since account ≡ matches since account (all_comments rs)
  unfolding find_recent_mention_comments
  find-run rs ne h run = by_account account ne (scan-run mention_comment_max_page 0 [] rs h run)
    where
      by_account :
          (a : Text) → a ≢ [] → {x y : List Comment} → x ≡ y → (if is_empty a then [] else x) ≡ y
      by_account [] n e = absurd (n refl)
      by_account (c ∷ a) n e = e

  matches_quiet :
      (cs : List Comment) → any_in_window since cs ≡ false → matches since account cs ≡ []
  unfolding matches any_in_window
  matches_quiet [] h = refl
  matches_quiet (d ∷ ds) h = ground (arith, matches_quiet ds)

  read_comments_quiet :
      (start total : ℕ) (cs : List Comment)
      → any_in_window since cs ≡ false
      → read_comments since account start total [] cs ≡ stop []
  unfolding read_comments
  read_comments_quiet start total [] h = refl
  read_comments_quiet start total (d ∷ ds) h = rw h (ap stop (matches_quiet (d ∷ ds) h))

  scan_quiet :
      (r : CommentsResponse)
      → api 0 ≡ some r
      → any_in_window since r.comments ≡ false
      → scan_pages api since account mention_comment_max_page 0 [] ≡ []
  unfolding scan_pages
  scan_quiet r e quiet =
      let read : read_page since account (api 0) [] ≡ stop [] =
        rw e (unfold read_page in read_comments_quiet r.start_at r.total r.comments quiet) in
      rw (read, scan_pages) refl

  -- A first page with no comment in the window ends the scan. So a comment on the second page that
  -- was edited in the window and mentions the account is not found.
  pub find_misses_edit :
      (r q : CommentsResponse) (c : Comment)
      → api 0 ≡ some r
      → any_in_window since r.comments ≡ false
      → api mention_comment_page ≡ some q
      → Has c q.comments
      → IsMatch c
      → ¬ Has c (find_recent_mention_comments api since account)
  unfolding find_recent_mention_comments
  find_misses_edit r q c e quiet e' there m found = elim (Bool-cases (is_empty account)) [
    | inl b ↦ absurd (rw b at found)
    | inr b ↦ absurd (rw (b, scan_quiet r e quiet) at found)
  ]
