-- ===== src/Webhook/Ingress/Queue.antt =====
-- Who may put an event on the queue, and what becomes of it.
use jira_bot.Base.{
  ◌≤◌, ◌≡◌, ◌≢◌, refl, sym, ap, subst, ◌∙◌, ◌⊎◌, inl, inr, Bool-cases, Bool, true, false, List, [],
  ◌∷◌, ◌++◌, Option, none, some, arith, if◌then◌else◌, drop, length, length-append, Text, text_eq,
  ==_iff, codes,
}
use jira_bot.Poller.Jql.{has_prefix}
use jira_bot.Poller.Changes.{is_empty}
use jira_bot.Webhook.Models.{Event}
use jira_bot.Webhook.Ingress.{
  Method, get, post, other, Request, forbidden, ok, service_unavailable, Handler, event_queue_size,
  verify_signature, is_authentic, enqueue, parse_event, read_post, serve_method, serve_http,
  take_event, process_next, drain_rounds, drain_queue, Action, serves, takes, act, run,
}

module _ (mac : Text → Text → Text) (unmarshal : Text → Option Event) where
  -- The events handed on and the events that wait, in the order of their acceptance.
  abbrev pub accepted : Handler → List Event
  accepted h = h.processed ++ h.event_queue

  -- The queue is within its bound and the counter counts what was accepted.
  pub record IsValid (h : Handler) : Type 0 where
    pub bounded : length h.event_queue ≤ event_queue_size
    pub counted : h.events_received ≡ length (accepted h)

  append_assoc : (xs ys zs : List Event) → (xs ++ ys) ++ zs ≡ xs ++ (ys ++ zs)
  append_assoc [] ys zs = refl
  append_assoc (x ∷ xs) ys zs = ap (λ es. x ∷ es) (append_assoc xs ys zs)

  ++-nil : (xs : List Event) → xs ++ [] ≡ xs
  ++-nil [] = refl
  ++-nil (x ∷ xs) = ap (λ es. x ∷ es) (++-nil xs)

  enqueue-IsValid : (h : Handler) (event : Event) → IsValid h → IsValid (enqueue h event).0
  unfolding enqueue
  enqueue-IsValid h event v =
      let grown = length-append h.event_queue (event ∷ []) in
      let all = length-append h.processed h.event_queue in
      let more = length-append h.processed (h.event_queue ++ event ∷ []) in
      let b = v.bounded in
      let c = v.counted in record { bounded = ground arith; counted = ground arith }

  parse_event-IsValid : (h : Handler) (o : Option Event) → IsValid h → IsValid (parse_event h o).0
  unfolding parse_event
  parse_event-IsValid h none v = v
  parse_event-IsValid h (some event) v = enqueue-IsValid h event v

  read_post-IsValid :
      (h : Handler) (signature : Text) (body : Option Text)
      → IsValid h
      → IsValid (read_post mac unmarshal h signature body).0
  unfolding read_post
  read_post-IsValid h signature none v = v
  read_post-IsValid h signature (some body) v =
      elim (is_authentic mac h body signature)
        as (λ (b : Bool).
          IsValid (if b then parse_event h (unmarshal body) else (h, forbidden)).0) [
            | true ↦ parse_event-IsValid h (unmarshal body) v
            | false ↦ v
          ]

  serve_method-IsValid :
      (h : Handler) (r : Request) (m : Method)
      → IsValid h
      → IsValid (serve_method mac unmarshal h r m).0
  unfolding serve_method
  serve_method-IsValid h r get v = v
  serve_method-IsValid h r post v = read_post-IsValid h r.signature r.body v
  serve_method-IsValid h r other v = v

  take_event-IsValid :
      (h : Handler) (es : List Event) → h.event_queue ≡ es → IsValid h → IsValid (take_event h es)
  take_event-IsValid h [] e v = v
  take_event-IsValid h (x ∷ es) e v =
      let b : length (x ∷ es) ≤ event_queue_size =
        subst (λ (q : List Event). length q ≤ event_queue_size) e v.bounded in
      let same : (h.processed ++ x ∷ []) ++ es ≡ accepted h =
        append_assoc h.processed (x ∷ []) es ∙ ap (λ q. h.processed ++ q) (sym e) in
      record { bounded = omega arith; counted = v.counted ∙ ap length (sym same) }

  act-IsValid : (h : Handler) (a : Action) → IsValid h → IsValid (act mac unmarshal h a)
  unfolding act serve_http process_next
  act-IsValid h (serves r) v = serve_method-IsValid h r r.method v
  act-IsValid h takes v = take_event-IsValid h h.event_queue refl v

  -- From a handler of which this holds, through any sequence of requests and of events taken off the
  -- queue, the queue stays within its
  -- bound of 100 and the counter is the number of the events handed on and of those that wait, so that
  -- no accepted event is lost or counted twice.
  pub run-IsAccounted :
      (h : Handler) (as' : List Action) → IsValid h → IsValid (run mac unmarshal h as')
  unfolding run
  run-IsAccounted h [] v = v
  run-IsAccounted h (a ∷ as') v = run-IsAccounted (act mac unmarshal h a) as' (act-IsValid h a v)

  -- An authentic post: under a secret the signature is the MAC of the body, and without one the
  -- operator has allowed unsigned posts.
  abbrev pub Authentic : Handler → Text → Text → Type 0
  Authentic h body signature =
      ((is_empty h.webhook_secret ≡ false)
        × (has_prefix (codes "sha256=") signature ≡ true)
        × (drop 7 signature ≡ mac h.webhook_secret body))
      ⊎ ((is_empty h.webhook_secret ≡ true) × (h.allow_unsigned ≡ true))

  is_authentic-Authentic :
      (h : Handler) (body signature : Text)
      → is_authentic mac h body signature ≡ true
      → Authentic h body signature
  unfolding is_authentic verify_signature
  is_authentic-Authentic h body signature e =
      ground (arith, ==_iff (drop 7 signature) (mac h.webhook_secret body))

  read_post-Authentic :
      (h : Handler) (signature : Text) (o : Option Text)
      → (((read_post mac unmarshal h signature o).0 ≡ h)
          × ((read_post mac unmarshal h signature o).1 ≢ ok)
          × ((read_post mac unmarshal h signature o).1 ≢ service_unavailable))
        ⊎ ((body : Text) × (o ≡ some body) × Authentic h body signature)
  unfolding read_post
  read_post-Authentic h signature none = inl (refl, (λ e. ground arith), λ e. ground arith)
  read_post-Authentic h signature (some body) =
      elim (Bool-cases (is_authentic mac h body signature)) [
        | inl holds ↦ inr (body, refl, is_authentic-Authentic h body signature holds)
        | inr fails ↦ rw (fails, read_post) (inl (refl, (λ e. ground arith), λ e. ground arith))
      ]

  serve_method-Authentic :
      (h : Handler) (r : Request) (m : Method)
      → (((serve_method mac unmarshal h r m).0 ≡ h)
          × ((serve_method mac unmarshal h r m).1 ≢ ok)
          × ((serve_method mac unmarshal h r m).1 ≢ service_unavailable))
        ⊎ ((m ≡ post) × ((body : Text) × (r.body ≡ some body) × Authentic h body r.signature))
  unfolding serve_method
  serve_method-Authentic h r get = inl (refl, (λ e. ground arith), λ e. ground arith)
  serve_method-Authentic h r post = elim (read_post-Authentic h r.signature r.body) [
    | inl unchanged ↦ inl unchanged
    | inr authentic ↦ inr (refl, authentic)
  ]
  serve_method-Authentic h r other = inl (refl, (λ e. ground arith), λ e. ground arith)

  -- A request either leaves the handler as it was and is answered neither "ok" nor "service
  -- unavailable", or it is a post whose body was read and that is authentic: under a secret its
  -- signature is "sha256=" and the MAC of the body; without one the operator has allowed unsigned
  -- posts.
  pub serve_http-Authentic :
      (h : Handler) (r : Request)
      → (((serve_http mac unmarshal h r).0 ≡ h)
          × ((serve_http mac unmarshal h r).1 ≢ ok)
          × ((serve_http mac unmarshal h r).1 ≢ service_unavailable))
        ⊎ ((r.method ≡ post)
            × ((body : Text) × (r.body ≡ some body) × Authentic h body r.signature))
  unfolding serve_http
  serve_http-Authentic h r = serve_method-Authentic h r r.method

  drain_rounds_lem :
      (es : List Event) (h : Handler)
      → h.event_queue ≡ es
      → ((drain_rounds es h).event_queue ≡ []) × ((drain_rounds es h).processed ≡ h.processed ++ es)
  unfolding drain_rounds process_next
  drain_rounds_lem [] h e = (e, sym (++-nil h.processed))
  drain_rounds_lem (x ∷ es) h e =
      let next = take_event h (x ∷ es) in
      let (emptied, done) = drain_rounds_lem es next refl in
      rw e (emptied, done ∙ append_assoc h.processed (x ∷ []) es)

  -- At shutdown the queue is emptied, and every event that waited is processed, in order.
  pub drain_queue_lem :
      (h : Handler)
      → ((drain_queue h).event_queue ≡ [])
        × ((drain_queue h).processed ≡ h.processed ++ h.event_queue)
  unfolding drain_queue
  drain_queue_lem h = drain_rounds_lem h.event_queue h refl
