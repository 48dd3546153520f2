-- ===== src/Poller/Pending/Continuity.antt =====
-- What no merge changes in an entry.
use jira_bot.Base.{
  ℕ, ◌≡◌, refl, ◌∙◌, inl, inr, Option-cases, Bool, true, false, List, [], ◌∷◌, some, arith,
  if◌then◌else◌, All, Text, ℤ, text_eq, lookup, insert, HasUniqueKeys, All-lookup,
}
use jira_bot.Locale.{Lang}
use jira_bot.Jira.Models.{JiraUser, ChangeItem, Issue, Comment}
use jira_bot.Poller.Changes.{is_empty}
use jira_bot.Poller.Pending.{
  PendingNotification, Pendings, pending_key, add_authors, credit, add_comments, entry_for,
  accumulate,
}

-- An entry stands under the key of its chat and issue.
abbrev pub IsKeyed : Text × PendingNotification → Type 0
IsKeyed p = p.0 ≡ pending_key p.1.chat_id p.1.issue_key

pub record IsValid (pending : Pendings) : Type 0 where
  pub unique : HasUniqueKeys pending
  pub keyed : All IsKeyed pending

-- What no merge changes in an entry.
pub record IsSameBatch (pn pn' : PendingNotification) : Type 0 where
  pub chat : pn'.chat_id ≡ pn.chat_id
  pub issue : pn'.issue_key ≡ pn.issue_key
  pub seen : pn'.first_seen ≡ pn.first_seen
  pub mention : pn'.is_mention ≡ pn.is_mention

pub add_comments-IsSameBatch :
    (exclude : Text) (pn : PendingNotification) (cs : List Comment)
    → IsSameBatch pn (add_comments exclude pn cs)
unfolding add_comments
add_comments-IsSameBatch exclude pn [] = record {
  chat = refl;
  issue = refl;
  seen = refl;
  mention = refl;
}
add_comments-IsSameBatch exclude pn (c ∷ cs) =
    let ih =
      add_comments-IsSameBatch exclude
        (record pn {
          comments = if is_empty c.id then pn.comments else insert c.id c pn.comments;
          authors = credit exclude pn.authors c.author;
        })
        cs in
    record { chat = ih.chat; issue = ih.issue; seen = ih.seen; mention = ih.mention }

pub accumulate-IsSameBatch :
    (pn : PendingNotification) (issue : Issue) (exclude : Text) (us : List JiraUser)
    (items : List ChangeItem) (cs : List Comment)
    → IsSameBatch pn (accumulate pn issue exclude us items cs)
unfolding accumulate
accumulate-IsSameBatch pn issue exclude us items cs =
    let ih =
      add_comments-IsSameBatch exclude
        (record pn { issue = issue; authors = add_authors pn.authors us }) cs in
    record { chat = ih.chat; issue = ih.issue; seen = ih.seen; mention = ih.mention }

-- An entry goes on in another: a mention stays one.
pub record Continues (pn pn' : PendingNotification) : Type 0 where
  pub chat : pn'.chat_id ≡ pn.chat_id
  pub issue : pn'.issue_key ≡ pn.issue_key
  pub seen : pn'.first_seen ≡ pn.first_seen
  pub mention : pn.is_mention ≡ true → pn'.is_mention ≡ true

pub Continues-refl : (pn : PendingNotification) → Continues pn pn
Continues-refl pn = record { chat = refl; issue = refl; seen = refl; mention = λ m. m }

pub entry_for-Continues :
    (pn : PendingNotification) (chat : ℤ) (issue : Issue) (site : Text) (lang : Lang)
    (is_mention : Bool) (now : ℕ)
    → Continues pn (entry_for (some pn) chat issue site lang is_mention now)
unfolding entry_for
entry_for-Continues pn chat issue site lang true now = record {
  chat = refl;
  issue = refl;
  seen = refl;
  mention = λ m. refl;
}
entry_for-Continues pn chat issue site lang false now = Continues-refl pn

pub Continues-trans :
    (p q r : PendingNotification) → Continues p q → IsSameBatch q r → Continues p r
Continues-trans p q r c s = record {
  chat = s.chat ∙ c.chat;
  issue = s.issue ∙ c.issue;
  seen = s.seen ∙ c.seen;
  mention = λ m. s.mention ∙ c.mention m;
}

pub entry_for-IsKeyed :
    (pending : Pendings) (chat : ℤ) (issue : Issue) (site : Text) (lang : Lang) (is_mention : Bool)
    (now : ℕ)
    → All IsKeyed pending
    → IsKeyed (
      pending_key chat issue.key,
      entry_for (lookup (pending_key chat issue.key) pending) chat issue site lang is_mention now,
    )
entry_for-IsKeyed pending chat issue site lang is_mention now h =
    elim (Option-cases (lookup (pending_key chat issue.key) pending)) [
      | inl e ↦ rw e (unfold entry_for in refl)
      | inr (pn, e) ↦ rw e (unfold entry_for in ground (arith, All-lookup IsKeyed _ pn pending h e))
    ]
