-- ===== src/Poller/Pending.antt =====
-- `pendingNotification`, `addPending`, `flushPending` and `flushAllPending`. A clock reading, in
-- milliseconds, is an argument. A Go map is iterated in the order of its list.
pub mod Merge
pub mod Continuity
pub mod Batches
use jira_bot.Base.{
  ℕ, ◌+◌, Bool, true, false, ◌&&◌, ◌||◌, not, List, [], ◌∷◌, ◌++◌, map, Option, none, some, ltb,
  if◌then◌else◌, Text, ℤ, text_eq, ◌==◌, lookup, insert, sift, keep, is_some,
}
use jira_bot.Base.Decimal.{decimal}
use jira_bot.Locale.{Lang}
use jira_bot.Jira.Models.{JiraUser, ChangeItem, Issue, Comment}
use jira_bot.Poller.Changes.{change_field_name, is_empty, recent_changes}

pub record MergedChange : Type 0 where
  pub field : Text
  pub from : Text
  pub from_string : Text
  pub to : Text
  pub to_string : Text

pub record PendingNotification : Type 0 where
  pub chat_id : ℤ
  pub issue_key : Text
  pub site_url : Text
  pub issue : Issue
  pub lang : Lang
  pub authors : List (Text × Text)
  pub changes : List (Text × MergedChange)
  pub first_seen : ℕ
  pub is_mention : Bool
  pub comments : List (Text × Comment)

abbrev pub Pendings : Type 0
Pendings = List (Text × PendingNotification)

-- `fmt.Sprintf("%d:%s", chatID, issueKey)`
unfoldable pub pending_key : ℤ → Text → Text
pending_key chat issue_key = decimal chat (b':' ∷ issue_key)

-- One change item: the "from" side of an entry stays, its "to" side is replaced.
abbrev pub merged_with : Text → ChangeItem → Option MergedChange → MergedChange
merged_with name c (some old) = record old { to = c.to; to_string = c.to_string }
merged_with name c none = record {
  field = name;
  from = c.from;
  from_string = c.from_string;
  to = c.to;
  to_string = c.to_string;
}

unfoldable pub merge_change : List (Text × MergedChange) → ChangeItem → List (Text × MergedChange)
merge_change changes c =
    let name = change_field_name c.field c.field_id in
    if is_empty name
    then changes
    else insert name (merged_with name c (lookup name changes)) changes

unfoldable pub merge_changes :
    List (Text × MergedChange) → List ChangeItem → List (Text × MergedChange)
merge_changes changes [] = changes
merge_changes changes (c ∷ cs) = merge_changes (merge_change changes c) cs

unfoldable pub add_authors : List (Text × Text) → List JiraUser → List (Text × Text)
add_authors authors [] = authors
add_authors authors (u ∷ us) = add_authors (insert u.account_id u.display_name authors) us

-- `c.Author != nil && c.Author.AccountID != "" && c.Author.AccountID != excludeAccountID`, and the
-- account is not among the authors yet.
unfoldable pub credit : Text → List (Text × Text) → Option JiraUser → List (Text × Text)
credit exclude authors none = authors
credit exclude authors (some u) =
    if is_empty u.account_id || u.account_id == exclude || is_some (lookup u.account_id authors)
    then authors
    else insert u.account_id u.display_name authors

unfoldable pub add_comments : Text → PendingNotification → List Comment → PendingNotification
add_comments exclude pn [] = pn
add_comments exclude pn (c ∷ cs) =
    add_comments exclude
      (record pn {
        comments = if is_empty c.id then pn.comments else insert c.id c pn.comments;
        authors = credit exclude pn.authors c.author;
      })
      cs

abbrev pub is_nil {ℓ} : {A : Type ℓ} → List A → Bool
is_nil [] = true
is_nil (x ∷ xs) = false

-- The entry that `addPending` goes on with.
unfoldable pub entry_for :
    Option PendingNotification → ℤ → Issue → Text → Lang → Bool → ℕ → PendingNotification
entry_for none chat issue site_url lang is_mention now = record {
  chat_id = chat;
  issue_key = issue.key;
  site_url = site_url;
  issue = issue;
  lang = lang;
  authors = [];
  changes = [];
  first_seen = now;
  is_mention = is_mention;
  comments = [];
}
entry_for (some pn) chat issue site_url lang is_mention now =
    if is_mention then record pn { is_mention = true } else pn

-- The rest of `addPending` on that entry.
unfoldable pub accumulate :
    PendingNotification
    → Issue
    → Text
    → List JiraUser
    → List ChangeItem
    → List Comment
    → PendingNotification
accumulate pn issue exclude authors changes comments =
    let pn' =
      add_comments exclude (record pn { issue = issue; authors = add_authors pn.authors authors })
        comments in
    record pn' { changes = merge_changes pn'.changes changes }

-- Both early returns leave the map alone.
unfoldable pub add_pending :
    Pendings → ℤ → Issue → Text → ℕ → Text → Lang → Bool → List Comment → ℕ → Pendings
add_pending pending chat issue site_url since exclude lang is_mention comments now =
    let key = pending_key chat issue.key in
    let found = recent_changes issue since exclude in
    if is_nil found.1 && not is_mention
    then pending
    else if not is_mention && is_nil found.0 && is_nil found.1
    then pending
    else insert key
        (accumulate (entry_for (lookup key pending) chat issue site_url lang is_mention now) issue
          exclude found.0 found.1 comments)
        pending

-- `now.Sub(pn.firstSeen) < p.batchWindow`, written so that it holds before `firstSeen` too.
unfoldable pub is_waiting : (window now : ℕ) → PendingNotification → Bool
is_waiting window now pn = ltb now (pn.first_seen + window)

abbrev pub entries : Pendings → List PendingNotification
entries = map λ p. p.1

-- The entries to send, and the map that is left.
unfoldable pub flush_pending : (window now : ℕ) → Pendings → List PendingNotification × Pendings
flush_pending window now pending = (
  keep (λ pn. not (is_waiting window now pn)) (entries pending),
  sift (is_waiting window now) pending,
)

unfoldable pub flush_all_pending : Pendings → List PendingNotification × Pendings
flush_all_pending pending = (entries pending, [])
