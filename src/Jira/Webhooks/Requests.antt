-- ===== src/Jira/Webhooks/Requests.antt =====
-- What `RegisterWebhook` and `RefreshWebhooks` make of Jira's answers, and `parseJiraExpiration`. The transport and the
-- decoding of a body are arguments, as are the readings of a timestamp by `strconv` and `time`. Instants are
-- in milliseconds.
use jira_bot.Base.{
  ℕ, ◌+◌, ◌*◌, Bool, false, ◌||◌, List, [], ◌∷◌, Option, none, some, if◌then◌else◌, Text, codes, ℤ,
  pos, int_eq, ◌==◌, nat_beq,
}

-- 30 days.
abbrev pub webhook_lifetime : ℕ
webhook_lifetime = 30 * 24 * 3600000

abbrev pub default_webhook_events : List Text
default_webhook_events =
    codes "jira:issue_created"
    ∷ codes "jira:issue_updated"
    ∷ codes "jira:issue_deleted"
    ∷ codes "comment_created"
    ∷ codes "comment_updated"
    ∷ []

pub record WebhookSpec : Type 0 where
  pub url : Text
  pub events : List Text
  pub jql_filter : Text

pub record RegisteredWebhook : Type 0 where
  pub created_webhook_id : ℤ
  pub errors : List Text

-- `doRequest` and the decoding of its body: an HTTP status that is not a success, another failure, or a value.
pub data Response (A : Type 0) : Type 0 where
  refused : (status : ℕ) → Response A
  broken : Response A
  answered : A → Response A

pub data RegisterError : Type 0 where
  no_delivery_url no_filter request_error empty_response rejected zero_id : RegisterError

pub data Registered : Type 0 where
  registered : (webhook_id : ℤ) (expires_at : ℕ) → Registered
  not_registered : RegisterError → Registered

abbrev events_or_default : List Text → List Text
events_or_default [] = default_webhook_events
events_or_default (e ∷ events) = e ∷ events

accept_first : ℕ → RegisteredWebhook → List Text → Registered
accept_first now first (e ∷ errors) = not_registered rejected
accept_first now first [] =
    if first.created_webhook_id == pos 0
    then not_registered zero_id
    else registered first.created_webhook_id (now + webhook_lifetime)

unfoldable pub read_registration : ℕ → Response (List RegisteredWebhook) → Registered
unfolding accept_first
read_registration now (refused status) = not_registered request_error
read_registration now broken = not_registered request_error
read_registration now (answered []) = not_registered empty_response
read_registration now (answered (first ∷ more)) = accept_first now first first.errors

-- `server` answers POST /webhook.
unfoldable pub register_webhook :
    (server : WebhookSpec → Response (List RegisteredWebhook)) (now : ℕ)
    (delivery_url jql_filter : Text) (events : List Text)
    → Registered
register_webhook server now [] jql_filter events = not_registered no_delivery_url
register_webhook server now (u ∷ url) [] events = not_registered no_filter
register_webhook server now (u ∷ url) (c ∷ jql) events =
    read_registration now
      (server (record { url = u ∷ url; events = events_or_default events; jql_filter = c ∷ jql }))

-- What a refresh ends with; `unchanged` is the zero time of an empty list of ids.
pub data RefreshOutcome : Type 0 where
  unchanged : RefreshOutcome
  extended : ℕ → RefreshOutcome
  http_error : (status : ℕ) → RefreshOutcome
  other_error : RefreshOutcome

-- The body of a successful refresh: not to be decoded, or with an `expirationDate`.
pub data RefreshBody : Type 0 where
  unreadable : RefreshBody
  expiration : Text → RefreshBody

or_lifetime : ℕ → Option ℕ → ℕ
or_lifetime now none = now + webhook_lifetime
or_lifetime now (some t) = t

read_expiration : (rfc3339 : Text → Option ℕ) → ℕ → RefreshBody → ℕ
read_expiration rfc3339 now unreadable = now + webhook_lifetime
read_expiration rfc3339 now (expiration []) = now + webhook_lifetime
read_expiration rfc3339 now (expiration (c ∷ s)) = or_lifetime now (rfc3339 (c ∷ s))

read_refresh : (rfc3339 : Text → Option ℕ) → ℕ → Response RefreshBody → RefreshOutcome
unfolding read_expiration or_lifetime
read_refresh rfc3339 now (refused status) = http_error status
read_refresh rfc3339 now broken = other_error
read_refresh rfc3339 now (answered body) = extended (read_expiration rfc3339 now body)

-- `server` answers PUT /webhook/refresh; `rfc3339` is `time.Parse` with that layout.
unfoldable pub refresh_webhooks :
    (server : List ℤ → Response RefreshBody) (rfc3339 : Text → Option ℕ) (now : ℕ)
    → List ℤ
    → RefreshOutcome
unfolding read_refresh
refresh_webhooks server rfc3339 now [] = unchanged
refresh_webhooks server rfc3339 now (id ∷ ids) = read_refresh rfc3339 now (server (id ∷ ids))

unfoldable pub is_webhook_gone : RefreshOutcome → Bool
is_webhook_gone unchanged = false
is_webhook_gone (extended t) = false
is_webhook_gone (http_error status) = nat_beq status 404 || nat_beq status 410
is_webhook_gone other_error = false

-- The first layout that reads a text.
first_reading : List (Text → Option ℕ) → Text → Option ℕ
first_reading [] s = none
first_reading (parse ∷ layouts) s = elim (parse s) [
  | none ↦ first_reading layouts s
  | some t ↦ some t
]

-- `epoch` is `strconv.ParseInt` read by `time.UnixMilli`, `layouts` the layouts in order.
unfoldable pub parse_jira_expiration :
    (trim : Text → Text) (epoch : Text → Option ℕ) (layouts : List (Text → Option ℕ)) (now : ℕ)
    → Text
    → ℕ
unfolding or_lifetime first_reading
parse_jira_expiration trim epoch layouts now s = elim (trim s) [
  | [] ↦ now + webhook_lifetime
  | c ∷ text ↦ or_lifetime now (first_reading (epoch ∷ layouts) (c ∷ text))
]
