-- ===== src/Jira/Models.antt =====
-- `JiraUser`, `Issue`, `Changelog` and `Comment`. A timestamp text stands as the instant, in
-- milliseconds, that `time.Parse` reads from it, or `none` where it cannot be read (as for ""). Story points are
-- floats (`Base.Floats`).
use jira_bot.Base.Floats.{Float64}
use jira_bot.Base.{ℕ, List, Option, Text}
use jira_bot.Jira.Adf.{Nodes}

pub record JiraUser : Type 0 where
  pub account_id : Text
  pub display_name : Text

pub record ChangeItem : Type 0 where
  pub field : Text
  pub field_id : Text
  pub from : Text
  pub from_string : Text
  pub to : Text
  pub to_string : Text

pub record ChangeHistory : Type 0 where
  pub author : Option JiraUser
  pub created : Option ℕ
  pub items : List ChangeItem

pub record Status : Type 0 where
  pub name : Text
  pub category : Option Text

pub record IssueFields : Type 0 where
  pub summary : Text
  pub status : Option Status
  pub priority : Option Text
  pub assignee : Option JiraUser
  pub reporter : Option JiraUser
  pub issue_type : Option Text
  pub created : Option ℕ
  pub updated : Option ℕ
  pub story_points : Option Float64
  pub custom_assignee : Option JiraUser
  pub due_date : Option ℕ
  pub time_spent : ℕ
  pub aggregate_time_spent : ℕ

pub record Issue : Type 0 where
  pub key : Text
  pub fields : IssueFields
  pub changelog : Option (List ChangeHistory)

pub record Comment : Type 0 where
  pub id : Text
  pub body : Option Nodes
  pub author : Option JiraUser
  pub created : Option ℕ
  pub updated : Option ℕ
