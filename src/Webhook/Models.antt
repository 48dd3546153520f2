-- ===== src/Webhook/Models.antt =====
-- models.go: the event that a webhook carries, and `NormalizeEventType`.
use jira_bot.Base.{Bool, ◌||◌, List, Option, if◌then◌else◌, Text, ℤ, text_eq, ◌==◌, codes}
use jira_bot.Jira.Adf.{Nodes}
use jira_bot.Jira.Models.{ChangeItem}

pub record EventUser : Type 0 where
  pub account_id : Text
  pub display_name : Text
  pub email : Text

pub record EventComment : Type 0 where
  pub id : Text
  pub body : Option Nodes
  pub author : Option EventUser

-- `Issue` with its `IssueFields`; a `NameObj` is its name and a `Project` its key.
pub record EventIssue : Type 0 where
  pub key : Text
  pub summary : Text
  pub status : Option Text
  pub priority : Option Text
  pub assignee : Option EventUser
  pub reporter : Option EventUser
  pub issue_type : Option Text
  pub project : Option Text

pub record Event : Type 0 where
  pub webhook_event : Text
  pub timestamp : ℤ
  pub issue : Option EventIssue
  pub comment : Option EventComment
  pub changelog : Option (List ChangeItem)
  pub user : Option EventUser

unfoldable pub normalize_event_type : Text → Text
normalize_event_type e =
    if e == codes "jira:issue_created"
    then codes "issue_created"
    else if e == codes "jira:issue_updated"
    then codes "issue_updated"
    else if e == codes "jira:issue_deleted"
    then codes "issue_deleted"
    else if e == codes "comment_created"
    then codes "comment_created"
    else if e == codes "comment_updated"
    then codes "comment_updated"
    else e

unfoldable pub is_comment_event : Text → Bool
is_comment_event event_type =
    event_type == codes "comment_created" || event_type == codes "comment_updated"
