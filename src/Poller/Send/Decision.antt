-- ===== src/Poller/Send/Decision.antt =====
-- When a batch becomes a message, and when it uses up the guard's slot.
use jira_bot.Base.{ℕ, ◌+◌, ◌<◌, ◌≡◌, ◌⊎◌, true, false, List, none, some, arith, All, Text, is_some}
use jira_bot.Locale.{Lang}
use jira_bot.NotifyDedup.Guard.{Guard, allow, Op, run}
use jira_bot.NotifyDedup.Guard.Window.{IsValid, IsBefore, allow_once}
use jira_bot.Notifier.{Request}
use jira_bot.Poller.Pending.{PendingNotification}
use jira_bot.Poller.Send.{visible_changes, notification, send_pending}

module _ (tr : Lang → Text → List Text → Text) (trim : Text → Text) where
  -- There is something to tell: a change whose two sides read differently, or a mention.
  abbrev pub IsWorthSending : PendingNotification → Type 0
  IsWorthSending pn = (visible_changes tr trim pn ≡ true) ⊎ (pn.is_mention ≡ true)

  -- A batch with nothing to tell sends nothing and leaves the guard as it was, so it does not use
  -- up the window of a later one. Any other batch asks the guard: what it sends is its own
  -- notification, and it sends it exactly if the guard allows its chat and issue.
  pub send_pending_lem :
      (g : Guard) (pn : PendingNotification) (now later : ℕ)
      → ((visible_changes tr trim pn ≡ false) × (pn.is_mention ≡ false)
          → send_pending tr trim g pn now later ≡ (g, none))
        × (IsWorthSending pn
            → ((send_pending tr trim g pn now later).0
                ≡ (allow g pn.chat_id pn.issue_key now later).0)
              × (is_some (send_pending tr trim g pn now later).1
                  ≡ (allow g pn.chat_id pn.issue_key now later).1)
              × ((req : Request)
                  → (send_pending tr trim g pn now later).1 ≡ some req
                  → req ≡ notification tr trim pn))
  unfolding send_pending
  send_pending_lem g pn now later =
      (λ h. ground arith, λ h. (ground arith, ground arith, λ req e. ground arith))

  send_pending-asks :
      (g : Guard) (pn : PendingNotification) (now later : ℕ) (req : Request)
      → (send_pending tr trim g pn now later).1 ≡ some req
      → ((allow g pn.chat_id pn.issue_key now later).1 ≡ true)
        × ((send_pending tr trim g pn now later).0 ≡ (allow g pn.chat_id pn.issue_key now later).0)
  unfolding send_pending
  send_pending-asks g pn now later req e = (ground arith, ground arith)

  send_pending_refused :
      (g : Guard) (pn : PendingNotification) (now later : ℕ)
      → (allow g pn.chat_id pn.issue_key now later).1 ≡ false
      → (send_pending tr trim g pn now later).1 ≡ none
  unfolding send_pending
  send_pending_refused g pn now later e = ground arith

  -- With a guard that has no key twice, after a message about an issue went to a chat, no further message about it goes there before
  -- the guard's window is over, whatever else the guard is asked in between.
  pub send_pending_once :
      (g : Guard) (pn pn' : PendingNotification) (now later : ℕ) (req : Request) (ops : List Op)
      (now' later' : ℕ)
      → IsValid g
      → (send_pending tr trim g pn now later).1 ≡ some req
      → pn'.chat_id ≡ pn.chat_id
      → pn'.issue_key ≡ pn.issue_key
      → All (IsBefore (later + g.ttl)) ops
      → now' < later + g.ttl
      → (send_pending tr trim (run (send_pending tr trim g pn now later).0 ops) pn' now' later').1
        ≡ none
  send_pending_once g pn pn' now later req ops now' later' v sent same_chat same_issue before
        inside =
      let (allowed, same) = send_pending-asks g pn now later req sent in
      rw same (
        send_pending_refused _ pn' now' later' (
          rw (same_chat, same_issue)
            (allow_once g pn.chat_id pn.issue_key now later ops now' later' v allowed before
              inside)))
