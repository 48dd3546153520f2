-- ===== src/Poller/Cycle/Accounting.antt =====
-- No issue goes uncounted, and what a poll leaves for the next one.
use jira_bot.Base.{
  ℕ, ◌-◌, ◌%◌, ◌⊎◌, inl, inr, sym, ap, false, if_either, ◌+◌, ◌*◌, ◌≤◌, ◌<◌, ◌≡◌, ◌≢◌, refl, ◌∙◌,
  true, List, [], ◌∷◌, some, arith, if◌then◌else◌, length, take, All, Text, text_eq, int_eq,
  pair_eq, ==_iff, lookup,
}
use jira_bot.Base.Decimal.{decimal-injective}
use jira_bot.Jira.Models.{Issue, Comment}
use jira_bot.Storage.{Subscription, User}
use jira_bot.Locale.{from_text}
use jira_bot.Poller.Pending.Batches.{lookup-add_pending_other}
use jira_bot.Poller.Pending.{pending_key}
use jira_bot.Poller.Changes.{is_empty}
use jira_bot.Poller.Cycle.{
  SearchAnswer, poll_subs, found, failed, token_invalid, Counts, Cycle, no_counts, is_stale,
  is_mentions, since_timestamp, pass_on, route, process_issue, process_issues, after_search,
}

abbrev pub total : Counts → ℕ
total n = n.stale + n.no_mention + n.dup_chat + n.passed

module _ (user : User) (mentions : Text → ℕ → List Comment) (clock : ℕ) where
  process_issue-total :
      (sub : Subscription) (since : ℕ) (i : Issue) (s : Cycle × Counts)
      → total (process_issue user mentions clock sub since i s).1 ≡ total s.1 + 1
  unfolding process_issue route pass_on
  process_issue-total sub since i (c, n) = ground arith

  -- Every issue that Jira returned is counted once: as stale, without a mention, a duplicate in its
  -- chat, or passed on.
  pub process_issues-total :
      (sub : Subscription) (since : ℕ) (is' : List Issue) (s : Cycle × Counts)
      → total (process_issues user mentions clock sub since is' s).1 ≡ total s.1 + length is'
  unfolding process_issues
  process_issues-total sub since [] s = omega arith
  process_issues-total sub since (i ∷ is') s = omega (
    arith,
    process_issues-total sub since is' (process_issue user mentions clock sub since i s),
    process_issue-total sub since i s,
  )

  process_issue-other :
      (sub : Subscription) (since : ℕ) (i : Issue) (s : Cycle × Counts) (key : Text)
      → pending_key sub.telegram_chat_id i.key ≢ key
      → lookup key (process_issue user mentions clock sub since i s).0.pending
        ≡ lookup key s.0.pending
  unfolding process_issue route pass_on
  process_issue-other sub since i (c, n) key ne =
      let cs = if is_mentions sub.subscription_type then mentions i.key since else [] in
      ground (
        arith,
        lookup-add_pending_other c.pending sub.telegram_chat_id i user.jira_site_url since
            user.jira_account_id (from_text user.language) (is_mentions sub.subscription_type) cs
            clock key ne,
      )

  -- An issue that does not touch the entry of a key: it has another, or is stale.
  abbrev IsQuiet : Subscription → ℕ → Text → Issue → Type 0
  IsQuiet sub since key i =
      (pending_key sub.telegram_chat_id i.key ≢ key) ⊎ (is_stale since i.fields.updated ≡ true)

  process_issue-quiet :
      (sub : Subscription) (since : ℕ) (i : Issue) (s : Cycle × Counts) (key : Text)
      → IsQuiet sub since key i
      → lookup key (process_issue user mentions clock sub since i s).0.pending
        ≡ lookup key s.0.pending
  unfolding process_issue
  process_issue-quiet sub since i s key (inl other) = process_issue-other sub since i s key other
  process_issue-quiet sub since i (c, n) key (inr stale) = rw stale refl

  process_issues-quiet :
      (sub : Subscription) (since : ℕ) (is' : List Issue) (s : Cycle × Counts) (key : Text)
      → All (IsQuiet sub since key) is'
      → lookup key (process_issues user mentions clock sub since is' s).0.pending
        ≡ lookup key s.0.pending
  unfolding process_issues
  process_issues-quiet sub since [] s key h = refl
  process_issues-quiet sub since (i ∷ is') s key (quiet, h) =
      process_issues-quiet sub since is' (process_issue user mentions clock sub since i s) key h
      ∙ process_issue-quiet sub since i s key quiet

  -- The issue has another key, or was last updated no later than a time in seconds.
  abbrev pub IsOtherOrOld : Text → ℕ → Issue → Type 0
  IsOtherOrOld key now j =
      (j.key ≢ key) ⊎ ((v : ℕ) × (j.fields.updated ≡ some v) × (v ≤ now * 1000))

  old-IsQuiet :
      (sub : Subscription) (k : Text) (now : ℕ) (is' : List Issue)
      → All (IsOtherOrOld k now) is'
      → All (IsQuiet sub now (pending_key sub.telegram_chat_id k)) is'
  unfolding is_stale
  old-IsQuiet sub k now [] h = tt
  old-IsQuiet sub k now (j ∷ is') (inl other, h) = (
    inl (λ e.
        other
          (decimal-injective sub.telegram_chat_id sub.telegram_chat_id j.key k
            (unfold pending_key in e)).1),
    old-IsQuiet sub k now is' h,
  )
  old-IsQuiet sub k now (j ∷ is') (inr (v, e, le), h) =
      (inr (rw e (ground arith)), old-IsQuiet sub k now is' h)

  other-IsQuiet :
      (sub : Subscription) (k : Text) (since : ℕ) (is' : List Issue)
      → All (λ i. i.key ≢ k) is'
      → All (IsQuiet sub since (pending_key sub.telegram_chat_id k)) is'
  other-IsQuiet sub k since [] h = tt
  other-IsQuiet sub k since (i ∷ is') (ne, h) = (
    inl (λ e.
        ne
          (decimal-injective sub.telegram_chat_id sub.telegram_chat_id i.key k
            (unfold pending_key in e)).1),
    other-IsQuiet sub k since is' h,
  )

  -- A poll of one subscription whose search finds issues.
  poll_subs-found :
      (search : Subscription → ℕ → ℕ → SearchAnswer) (jql : Subscription → Text) (interval now : ℕ)
      (sub : Subscription) (is' : List Issue) (c : Cycle)
      → is_empty (jql sub) ≡ false
      → ((since : ℕ) → search sub since 50 ≡ found is')
      → poll_subs user mentions clock search jql interval now (sub ∷ []) c
        ≡ after_search user mentions clock sub (since_timestamp sub now interval) now (found is') c
  unfolding poll_subs
  poll_subs-found search jql interval now sub is' c asks answers =
      let since = since_timestamp sub now interval in
      rw (asks, answers (since - since % 60))
        (if_either (λ (x : Cycle). x ≡ after_search user mentions clock sub since now (found is') c)
          (after_search user mentions clock sub since now (found is') c).disconnected refl refl)

  -- A subscription's poll has Jira's first 50 of the issues that match, and then takes the time at which
  -- it began for the new starting point. Of an issue that was updated by then and is not among those 50
  -- nothing is left: its entry in the map is as it was, and it is so after the next poll too, whatever
  -- Jira then answers, unless the issue is updated again.
  pub overflow_is_lost :
      (search next : Subscription → ℕ → ℕ → SearchAnswer) (jql : Subscription → Text)
      (interval now later : ℕ) (sub : Subscription) (matching more : List Issue) (c : Cycle)
      (key : Text)
      → 0 < now
      → is_empty (jql sub) ≡ false
      → is_empty (jql (record sub { last_polled_at = now })) ≡ false
      → ((since max : ℕ) → search sub since max ≡ found (take max matching))
      → ((since : ℕ) → next (record sub { last_polled_at = now }) since 50 ≡ found more)
      → All (λ j. j.key ≢ key) (take 50 matching)
      → All (IsOtherOrOld key now) more
      → (first : Cycle) × (second : Cycle) × (first
          ≡ poll_subs user mentions clock search jql interval now (sub ∷ []) c)
        × (second
            ≡ poll_subs user mentions clock next jql interval later
                (record sub { last_polled_at = now } ∷ [])
                first)
        × (lookup sub.id first.polled ≡ some now)
        × (lookup (pending_key sub.telegram_chat_id key) first.pending
            ≡ lookup (pending_key sub.telegram_chat_id key) c.pending)
        × (lookup (pending_key sub.telegram_chat_id key) second.pending
            ≡ lookup (pending_key sub.telegram_chat_id key) c.pending)
  unfolding after_search since_timestamp lookup
  overflow_is_lost search next jql interval now later sub matching more c key begun asks asks'
        answers answers' beyond old =
      let since = since_timestamp sub now interval in
      let polled = record sub { last_polled_at = now } in
      let p = pending_key sub.telegram_chat_id key in
      let first = after_search user mentions clock sub since now (found (take 50 matching)) c in
      let from : since_timestamp polled later interval ≡ now = ground arith in
      let second = after_search user mentions clock polled now later (found more) first in
      let kept : lookup p first.pending ≡ lookup p c.pending =
        process_issues-quiet sub since (take 50 matching) (c, no_counts) p
          (other-IsQuiet sub key since (take 50 matching) beyond) in
      (
        first,
        second,
        sym (
            poll_subs-found search jql interval now sub (take 50 matching) c asks
              (λ s. answers s 50)),
        sym (
            poll_subs-found next jql interval later polled more first asks' answers'
            ∙ ap (λ s. after_search user mentions clock polled s later (found more) first) from),
        ground (arith, ==_iff sub.id sub.id),
        kept,
        process_issues-quiet polled now more (first, no_counts) p
              (old-IsQuiet polled key now more old)
            ∙ kept,
      )

  -- A poll that failed, or whose token was rejected, keeps the starting point and every entry, so
  -- the next poll covers the same time again.
  pub after_search_retries :
      (sub : Subscription) (since now : ℕ) (c : Cycle)
      → (after_search user mentions clock sub since now failed c ≡ c)
        × ((after_search user mentions clock sub since now token_invalid c).polled ≡ c.polled)
        × ((after_search user mentions clock sub since now token_invalid c).pending ≡ c.pending)
  unfolding after_search
  after_search_retries sub since now c = (refl, refl, refl)
