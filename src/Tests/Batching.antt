-- ===== src/Tests/Batching.antt =====
-- The entries that a poll collects, and what is sent of them.
use mathlib.Core.List.{Perm}
use jira_bot.Base.{
  ◌+◌, ◌≤◌, ◌<◌, ◌≡◌, refl, true, false, List, [], ◌∷◌, ◌++◌, keep, none, some, arith, All, Text,
  pos, text_eq, int_eq, lookup, codes,
}
use jira_bot.Jira.Models.{ChangeItem, ChangeHistory, IssueFields, Issue}
use jira_bot.Locale.{Lang, en}
use jira_bot.NotifyDedup.Guard as Dedup
use jira_bot.Poller.Changes.{recent_changes, contains}
use jira_bot.Poller.Changes.Window.{
  all_items, is_reported, is_author, accounts, IsDistinct, recent_changes_lem,
}
use jira_bot.Poller.Pending.{
  PendingNotification, Pendings, pending_key, merge_changes, add_pending, entries, flush_pending,
}
use jira_bot.Poller.Pending.Merge.{named, collapsed, lookup-merge_changes}
use jira_bot.Poller.Pending.Batches.{flush_pending_lem}
use jira_bot.Poller.Pending.Continuity.{IsValid}
use jira_bot.Poller.Send.{has_changes, send_pending, notification}
use jira_bot.Poller.Send.Decision.{send_pending_once}

abbrev fields : IssueFields
fields = record {
  summary = codes "Fix";
  status = none;
  priority = none;
  assignee = none;
  reporter = none;
  issue_type = none;
  created = none;
  updated = some 5000;
  story_points = none;
  custom_assignee = none;
  due_date = none;
  time_spent = 0;
  aggregate_time_spent = 0;
}

abbrev item : Text → Text → ChangeItem
item from to = record {
  field = codes "status";
  field_id = [];
  from = [];
  from_string = from;
  to = [];
  to_string = to;
}

abbrev history : ChangeHistory
history = record {
  author = some (record { account_id = codes "u2"; display_name = codes "Ann" });
  created = some 4500;
  items = item (codes "Open") (codes "Done") ∷ [];
}

abbrev issue : Issue
issue = record { key = codes "A-1"; fields = fields; changelog = some (history ∷ []) }

recent_changes_lem_example :
    ((recent_changes issue 4 (codes "u1")).1
      ≡ all_items (keep (is_reported 4 (codes "u1")) (history ∷ [])))
    × IsDistinct (accounts (recent_changes issue 4 (codes "u1")).0)
    × ((id : Text)
        → contains id (accounts (recent_changes issue 4 (codes "u1")).0)
          ≡ is_author 4 (codes "u1") id (history ∷ []))
recent_changes_lem_example = recent_changes_lem issue 4 (codes "u1")

abbrev twice : List ChangeItem
twice = item (codes "Open") (codes "Doing") ∷ item (codes "Doing") (codes "Done") ∷ []

lookup-merge_changes_example :
    lookup (codes "status") (merge_changes [] twice)
    ≡ collapsed (codes "status") none (named (codes "status") twice)
unfolding lookup
lookup-merge_changes_example = lookup-merge_changes (codes "status") [] twice (λ e. ground arith)

abbrev entry : PendingNotification
entry = record {
  chat_id = pos 7;
  issue_key = codes "A-1";
  site_url = codes "https://x";
  issue = issue;
  lang = en;
  authors = [];
  changes = [];
  first_seen = 1000;
  is_mention = true;
  comments = [];
}

abbrev pending : Pendings
pending = (pending_key (pos 7) (codes "A-1"), entry) ∷ []

pending-IsValid : IsValid pending
unfolding lookup
pending-IsValid = record { unique = (refl, tt); keyed = (refl, tt) }

flush_pending_lem_example :
    Perm
      (entries pending)
      ((flush_pending 500 2000 pending).0 ++ entries (flush_pending 500 2000 pending).1)
    × All
        (λ (pn : PendingNotification). pn.first_seen + 500 ≤ 2000)
        (flush_pending 500 2000 pending).0
    × All
        (λ (p : Text × PendingNotification). 2000 < p.1.first_seen + 500)
        (flush_pending 500 2000 pending).1
    × IsValid (flush_pending 500 2000 pending).1
flush_pending_lem_example = flush_pending_lem 500 2000 pending pending-IsValid

abbrev after : Pendings
after = add_pending pending (pos 7) issue (codes "https://x") 4 (codes "u1") en false [] 1500

-- The locale's key as its own message.
abbrev plain_tr : Lang → Text → List Text → Text
plain_tr lang key args = key

abbrev same_text : Text → Text
same_text s = s

send_pending_once_example :
    (send_pending plain_tr same_text
      (Dedup.run
        (send_pending plain_tr same_text (Dedup.new 100) entry 10 11).0
        (Dedup.tick 60 ∷ []))
      entry
      90
      90).1
    ≡ none
unfolding Dedup.new Dedup.allow send_pending lookup has_changes
send_pending_once_example =
    send_pending_once plain_tr same_text (Dedup.new 100) entry entry 10 11
      (notification plain_tr same_text entry) (Dedup.tick 60 ∷ []) 90 90 tt refl refl refl
      (omega arith, tt) (omega arith)
