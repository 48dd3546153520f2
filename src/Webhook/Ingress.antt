-- ===== src/Webhook/Ingress.antt =====
-- handler.go: `ServeHTTP`, `verifySignature`, and the queue's other end, `processQueue` and
-- `drainQueue`. `mac` is the hexadecimal HMAC-SHA256 of a body under a secret, and `unmarshal` is
-- `json.Unmarshal` into an event. What the queue's end hands to `processEvent` is kept, in order, in
-- `processed`.
pub mod Queue
use jira_bot.Base.{
  ℕ, suc, Bool, true, false, not, List, [], ◌∷◌, ◌++◌, Option, none, some, ◌&&◌, ltb, if◌then◌else◌,
  drop, length, Text, text_eq, ◌==◌, codes,
}
use jira_bot.Poller.Jql.{has_prefix}
use jira_bot.Poller.Changes.{is_empty}
use jira_bot.Webhook.Models.{Event}

pub data Method : Type 0 where
  get post other : Method

-- `body` is what the limited reader read, `none` where it failed.
pub record Request : Type 0 where
  pub method : Method
  pub body : Option Text
  pub signature : Text

pub data Response : Type 0 where
  status_page method_not_allowed bad_request forbidden ok service_unavailable : Response

-- `published` has the event types of the `WebhookReceived` events, with `SignatureVerified`.
pub record Handler : Type 0 where
  pub webhook_secret : Text
  pub allow_unsigned : Bool
  pub event_queue : List Event
  pub events_received : ℕ
  pub published : List (Text × Bool)
  pub processed : List Event

abbrev pub event_queue_size : ℕ
event_queue_size = 100

unfoldable pub verify_signature : (mac : Text → Text → Text) → Text → Text → Text → Bool
verify_signature mac secret body signature =
    has_prefix (codes "sha256=") signature && drop 7 signature == mac secret body

-- The authentication ladder.
unfoldable pub is_authentic : (mac : Text → Text → Text) → Handler → Text → Text → Bool
is_authentic mac h body signature =
    if not (is_empty h.webhook_secret)
    then verify_signature mac h.webhook_secret body signature
    else h.allow_unsigned

-- The publication and the `select` on the queue.
unfoldable pub enqueue : Handler → Event → Handler × Response
enqueue h event =
    let told = record h {
      published = (event.webhook_event, not (is_empty h.webhook_secret)) ∷ h.published;
    } in
    if ltb (length h.event_queue) event_queue_size
    then (
      record told {
        event_queue = h.event_queue ++ event ∷ [];
        events_received = suc h.events_received;
      },
      ok,
    )
    else (told, service_unavailable)

unfoldable pub parse_event : Handler → Option Event → Handler × Response
parse_event h none = (h, bad_request)
parse_event h (some event) = enqueue h event

unfoldable pub read_post :
    (mac : Text → Text → Text) (unmarshal : Text → Option Event)
    → Handler
    → Text
    → Option Text
    → Handler × Response
read_post mac unmarshal h signature none = (h, bad_request)
read_post mac unmarshal h signature (some body) =
    if is_authentic mac h body signature then parse_event h (unmarshal body) else (h, forbidden)

unfoldable pub serve_method :
    (mac : Text → Text → Text) (unmarshal : Text → Option Event)
    → Handler
    → Request
    → Method
    → Handler × Response
serve_method mac unmarshal h r get = (h, status_page)
serve_method mac unmarshal h r post = read_post mac unmarshal h r.signature r.body
serve_method mac unmarshal h r other = (h, method_not_allowed)

unfoldable pub serve_http :
    (mac : Text → Text → Text) (unmarshal : Text → Option Event)
    → Handler
    → Request
    → Handler × Response
serve_http mac unmarshal h r = serve_method mac unmarshal h r r.method

-- `case event := <-h.eventQueue`
abbrev pub take_event : Handler → List Event → Handler
take_event h [] = h
take_event h (e ∷ es) = record h { event_queue = es; processed = h.processed ++ e ∷ [] }

unfoldable pub process_next : Handler → Handler
process_next h = take_event h h.event_queue

-- `drainQueue`: one round for each event that waits.
unfoldable pub drain_rounds : List Event → Handler → Handler
drain_rounds [] h = h
drain_rounds (e ∷ es) h = drain_rounds es (process_next h)

unfoldable pub drain_queue : Handler → Handler
drain_queue h = drain_rounds h.event_queue h

pub data Action : Type 0 where
  serves : Request → Action
  takes : Action

unfoldable pub act :
    (mac : Text → Text → Text) (unmarshal : Text → Option Event) → Handler → Action → Handler
act mac unmarshal h (serves r) = (serve_http mac unmarshal h r).0
act mac unmarshal h takes = process_next h

unfoldable pub run :
    (mac : Text → Text → Text) (unmarshal : Text → Option Event) → Handler → List Action → Handler
run mac unmarshal h [] = h
run mac unmarshal h (a ∷ as') = run mac unmarshal (act mac unmarshal h a) as'
