-- ===== src/Webhook/Delivery.antt =====
-- handler.go: `processEvent`, `formatNotification` and the list of `publishNormalized`. `tr` is
-- `locale.T`; the queries' answers and the clock of the guard are arguments.
pub mod Publication
pub mod Chats
use jira_bot.Base.{
  ℕ, Bool, true, false, ◌&&◌, ◌||◌, not, List, [], ◌∷◌, ◌++◌, Option, none, some, if◌then◌else◌,
  is_some, Text, ℤ, int_eq, text_eq, ◌==◌, codes,
}
use jira_bot.Base.Decimal.{decimal}
use jira_bot.Format.{escape_markdown}
use jira_bot.Jira.Models.{ChangeItem}
use jira_bot.Locale.{Lang, default_lang, from_text}
use jira_bot.NotifyDedup.Guard.{Guard, allow}
use jira_bot.Notifier.{Request}
use jira_bot.Poller.Changes.{is_empty, change_display_value, change_field_name}
use jira_bot.Storage.{Subscription, SubscriptionType, User}
use jira_bot.Webhook.Models.{
  EventUser, EventComment, EventIssue, Event, normalize_event_type, is_comment_event,
}

abbrev issue_key_of : Option EventIssue → Text
issue_key_of none = []
issue_key_of (some i) = i.key

abbrev text_of : Option Text → Text
text_of none = []
text_of (some s) = s

abbrev project_key_of : Option EventIssue → Text
project_key_of none = []
project_key_of (some i) = text_of i.project

abbrev user_language : Option User → Lang
user_language none = default_lang
user_language (some u) = if is_empty u.language then default_lang else from_text u.language

abbrev is_account : Text → Option User → Bool
is_account id none = false
is_account id (some u) = u.jira_account_id == id

-- `event.User != nil && event.User.AccountID != "" && u != nil && u.JiraAccountID == …`
unfoldable pub is_own : Option EventUser → Option User → Bool
is_own none u = false
is_own (some actor) u = not (is_empty actor.account_id) && is_account actor.account_id u

abbrev comment_suffix : Text → Option EventComment → Text
comment_suffix separator none = []
comment_suffix separator (some c) = if is_empty c.id then [] else separator ++ c.id

unfoldable pub guard_key : Event → Text
guard_key e =
    issue_key_of e.issue
    ++ codes "|"
    ++ normalize_event_type e.webhook_event
    ++ comment_suffix (codes "|") e.comment

unfoldable pub request_key : Event → ℤ → Text
request_key e chat =
    codes "webhook:"
    ++ decimal chat (
        codes ":"
        ++ issue_key_of e.issue
        ++ codes ":"
        ++ normalize_event_type e.webhook_event
        ++ comment_suffix (codes ":") e.comment)

unfoldable pub is_seen : ℤ → List ℤ → Bool
is_seen chat [] = false
is_seen chat (c ∷ cs) = c == chat || is_seen chat cs

-- `affected` of `publishNormalized`.
pub record Affected : Type 0 where
  pub telegram_id : ℤ
  pub chat_id : ℤ
  pub subscription_id : Text
  pub subscription_type : SubscriptionType

unfoldable pub affected_by : List ℤ → List Subscription → List Affected
affected_by seen [] = []
affected_by seen (sub ∷ subs) =
    let passed = affected_by seen subs in
    let rest = affected_by (sub.telegram_chat_id ∷ seen) subs in
    if is_seen sub.telegram_chat_id seen
    then passed
    else record {
      telegram_id = sub.telegram_user_id;
      chat_id = sub.telegram_chat_id;
      subscription_id = sub.id;
      subscription_type = sub.subscription_type;
    }
      ∷ rest

module _ (tr : Lang → Text → List Text → Text) where
  unfoldable pub emoji : Text → Text
  emoji event_type =
      if event_type == codes "issue_created"
      then codes "🆕"
      else if event_type == codes "issue_updated"
      then 9999 ∷ 65039 ∷ []
      else if event_type == codes "issue_deleted"
      then codes "🗑"
      else if is_comment_event event_type
      then codes "💬"
      else codes "📋"

  -- A line of the label, a colon and an escaped value.
  abbrev labelled : Lang → Text → Text → Text
  labelled lang label value = tr lang label [] ++ codes ": " ++ escape_markdown value ++ codes "\n"

  abbrev optional : Lang → Text → Option Text → Text
  optional lang label none = []
  optional lang label (some value) = labelled lang label value

  abbrev display_name_of : Option EventUser → Option Text
  display_name_of none = none
  display_name_of (some u) = some u.display_name

  abbrev change_text : Lang → Text → Text → Text → Text
  change_text lang field from to =
      tr lang (codes "notif.changed") []
      ++ codes " *"
      ++ escape_markdown field
      ++ codes "*: "
      ++ (if not (is_empty from) && not (is_empty to)
          then escape_markdown from ++ codes " → " ++ escape_markdown to
          else if not (is_empty to)
          then escape_markdown to
          else escape_markdown from
            ++ codes " → "
            ++ escape_markdown (tr lang (codes "notif.cleared") []))
      ++ codes "\n"

  unfoldable pub item_line : Lang → ChangeItem → Text
  item_line lang item =
      let field = change_field_name item.field item.field_id in
      let from = change_display_value item.from_string item.from in
      let to = change_display_value item.to_string item.to in
      if is_empty field || from == to then [] else change_text lang field from to

  unfoldable pub item_lines : Lang → List ChangeItem → Text
  item_lines lang [] = []
  item_lines lang (i ∷ is') = item_line lang i ++ item_lines lang is'

  abbrev changelog_lines : Lang → Option (List ChangeItem) → Text
  changelog_lines lang none = []
  changelog_lines lang (some items) = item_lines lang items

  abbrev comment_author : Option EventComment → Option Text
  comment_author none = none
  comment_author (some c) = display_name_of c.author

  unfoldable pub format_issue : Event → Text → Lang → EventIssue → Text
  format_issue e event_type lang issue =
      emoji event_type
      ++ codes " *"
      ++ issue.key
      ++ codes "* "
      ++ escape_markdown issue.summary
      ++ codes "\n"
      ++ tr lang (codes "notif.event_label") []
      ++ codes ": _"
      ++ escape_markdown event_type
      ++ codes "_\n"
      ++ optional lang (codes "notif.by") (display_name_of e.user)
      ++ optional lang (codes "notif.status") issue.status
      ++ optional lang (codes "notif.assignee") (display_name_of issue.assignee)
      ++ changelog_lines lang e.changelog
      ++ (if is_comment_event event_type
          then optional lang (codes "notif.comment_by") (comment_author e.comment)
          else [])

  abbrev format_of : Event → Text → Lang → Option EventIssue → Text
  format_of e event_type lang none = tr lang (codes "notif.event") (event_type ∷ [])
  format_of e event_type lang (some issue) = format_issue e event_type lang issue

  unfoldable pub format_notification : Event → Text → Lang → Text
  format_notification e event_type lang = format_of e event_type lang e.issue

  module _ (get_user : ℤ → Option User) (now : ℕ) where
    unfoldable pub request_for : Event → Subscription → Request
    request_for e sub =
        let event_type = normalize_event_type e.webhook_event in
        record {
          chat_id = sub.telegram_chat_id;
          telegram_id = some sub.telegram_user_id;
          text = format_notification e event_type (user_language (get_user sub.telegram_user_id));
          markdown = true;
          dedup_key = request_key e sub.telegram_chat_id;
          reason = codes "webhook:" ++ event_type;
        }

    -- The dedup guard is asked only for an event about an issue.
    unfoldable pub ask_guard : Guard → Event → ℤ → Guard × Bool
    ask_guard g e chat =
        if is_empty (issue_key_of e.issue) then (g, true) else allow g chat (guard_key e) now now

    abbrev pub sent_if : Guard × Bool → Request → Guard × Option Request
    sent_if (g, false) r = (g, none)
    sent_if (g, true) r = (g, some r)

    -- One round of the loop: the guard and the request handed to the notifier, if any. A failed send
    -- changes nothing.
    unfoldable pub notify_one : Guard → Event → Subscription → Guard × Option Request
    notify_one g e sub =
        if is_own e.user (get_user sub.telegram_user_id)
        then (g, none)
        else sent_if (ask_guard g e sub.telegram_chat_id) (request_for e sub)

    abbrev pub add_request : Option Request → List Request → List Request
    add_request none rs = rs
    add_request (some r) rs = r ∷ rs

    -- The loop, with the chats of `sent`: every round that is not passed over marks its chat.
    unfoldable pub notify_all : Guard → Event → List ℤ → List Subscription → Guard × List Request
    notify_all g e sent [] = (g, [])
    notify_all g e sent (sub ∷ subs) =
        let one = notify_one g e sub in
        let passed = notify_all g e sent subs in
        let rest = notify_all one.0 e (sub.telegram_chat_id ∷ sent) subs in
        if is_seen sub.telegram_chat_id sent then passed else (rest.0, add_request one.1 rest.1)

  abbrev fetched : Option (List Subscription) → List Subscription
  fetched none = []
  fetched (some subs) = subs

  -- The subscriptions that match: those of the project, of the issue, and, for a comment, of the
  -- mentioned.
  unfoldable pub match_subscriptions :
      (by_project by_issue : Text → Option (List Subscription))
      (by_mention : Option EventComment → List Subscription)
      → Event
      → List Subscription
  match_subscriptions by_project by_issue by_mention e =
      (if is_empty (project_key_of e.issue)
        then []
        else fetched (by_project (project_key_of e.issue)))
      ++ (if is_empty (issue_key_of e.issue) then [] else fetched (by_issue (issue_key_of e.issue)))
      ++ (if is_comment_event (normalize_event_type e.webhook_event)
          then by_mention e.comment
          else [])

  -- The whole handling of an event: what is published, and the requests. Nothing is published where
  -- nobody is told.
  unfoldable pub process_event :
      (by_project by_issue : Text → Option (List Subscription))
      (by_mention : Option EventComment → List Subscription)
      → (get_user : ℤ → Option User) → Guard
      → Event
      → ℕ
      → Guard × (List Affected × List Request)
  process_event by_project by_issue by_mention get_user g e now =
      let matched = match_subscriptions by_project by_issue by_mention e in
      let out = notify_all get_user now g e [] matched in (out.0, (affected_by [] matched, out.1))
