-- ===== src/Tests/Hooks.antt =====
-- Posts of Jira, and the chats that they reach.
use jira_bot.Base.{
  ◌≡◌, ◌≢◌, ◌⊎◌, refl, inl, inr, true, false, List, [], ◌∷◌, Option, none, some, arith, All, Text,
  ℤ, pos, int_eq, text_eq, codes, lookup,
}
use jira_bot.Locale.{Lang}
use jira_bot.NotifyDedup.Guard as Dedup
use jira_bot.Storage.{project_updates, Subscription, User}
use jira_bot.Webhook.Models.{EventUser, EventIssue, Event}
use jira_bot.Webhook.Ingress.{
  post, Request, ok, service_unavailable, Handler, serve_http, serves, takes, run,
}
use jira_bot.Webhook.Ingress.Queue.{IsValid, run-IsAccounted, Authentic, serve_http-Authentic}
use jira_bot.Webhook.Delivery.{is_own, is_seen, ask_guard, notify_all}
use jira_bot.Webhook.Delivery.Chats.{
  IsFromSubscription, notify_all-IsOncePerChat, notify_all-reaches,
}
use jira_bot.Webhook.Delivery.Publication.{IsOncePerChat, request_chats}

abbrev actor : EventUser
actor = record { account_id = codes "u1"; display_name = codes "Ann"; email = [] }

abbrev issue : EventIssue
issue = record {
  key = codes "A-1";
  summary = codes "Fix";
  status = none;
  priority = none;
  assignee = none;
  reporter = none;
  issue_type = none;
  project = some (codes "A");
}

abbrev event : Event
event = record {
  webhook_event = codes "jira:issue_updated";
  timestamp = pos 1;
  issue = some issue;
  comment = none;
  changelog = none;
  user = some actor;
}

-- A MAC that is the body itself, and a body that is always the one event.
abbrev mac : Text → Text → Text
mac secret body = body

abbrev unmarshal : Text → Option Event
unmarshal body = some event

abbrev handler : Handler
handler = record {
  webhook_secret = codes "s";
  allow_unsigned = false;
  event_queue = [];
  events_received = 0;
  published = [];
  processed = [];
}

abbrev signed : Request
signed = record { method = post; body = some (codes "x"); signature = codes "sha256=x" }

serve_http-Authentic_example :
    (((serve_http mac unmarshal handler signed).0 ≡ handler)
      × ((serve_http mac unmarshal handler signed).1 ≢ ok)
      × ((serve_http mac unmarshal handler signed).1 ≢ service_unavailable))
    ⊎ ((post ≡ post)
        × ((body : Text) × (some (codes "x") ≡ some body)
            × Authentic mac unmarshal handler body (codes "sha256=x")))
serve_http-Authentic_example = serve_http-Authentic mac unmarshal handler signed

run-IsAccounted_example :
    IsValid mac unmarshal (run mac unmarshal handler (serves signed ∷ takes ∷ serves signed ∷ []))
run-IsAccounted_example =
    run-IsAccounted mac unmarshal handler (serves signed ∷ takes ∷ serves signed ∷ [])
      (record { bounded = omega arith; counted = refl })

abbrev waiting : Handler
waiting = record handler { event_queue = event ∷ event ∷ []; events_received = 2 }

abbrev ids : List Text
ids = codes "u1" ∷ codes "u2" ∷ codes "u2" ∷ []

abbrev sub : Text → ℤ → ℤ → Subscription
sub id chat user = record {
  id = id;
  telegram_chat_id = chat;
  telegram_user_id = user;
  subscription_type = project_updates;
  jira_project_key = codes "A";
  jira_issue_key = [];
  jira_filter_jql = [];
  last_polled_at = 0;
}

abbrev subs : List Subscription
subs =
    sub (codes "1") (pos 7) (pos 7)
    ∷ sub (codes "2") (pos 8) (pos 8)
    ∷ sub (codes "3") (pos 7) (pos 8)
    ∷ []

abbrev plain_tr : Lang → Text → List Text → Text
plain_tr lang key args = key

-- Nobody is registered.
abbrev nobody : ℤ → Option User
nobody id = none

abbrev guard : Dedup.Guard
guard = Dedup.new 100

notify_all-IsOncePerChat_example :
    IsOncePerChat (request_chats (notify_all plain_tr nobody 5 guard event [] subs).1)
    × All
        (IsFromSubscription plain_tr nobody 5 event subs)
        (notify_all plain_tr nobody 5 guard event [] subs).1
notify_all-IsOncePerChat_example = notify_all-IsOncePerChat plain_tr nobody 5 event guard subs

notify_all-reaches_example :
    is_seen (pos 8) (request_chats (notify_all plain_tr nobody 5 guard event [] subs).1) ≡ true
unfolding ask_guard Dedup.new Dedup.allow lookup is_own
notify_all-reaches_example =
    notify_all-reaches plain_tr nobody 5 event guard subs (pos 8) (omega arith)
      (omega arith, (omega arith, (omega arith, tt))) refl
      (inr ((λ e. ground arith), inl (refl, refl)))
