-- ===== src/Jira/Webhooks/Manager/Tracking.antt =====
-- No webhook is forgotten in Jira, and none is registered twice.
use jira_bot.Base.{
  ℕ, ◌≡◌, ◌≢◌, refl, sym, ap, subst, ◌∙◌, true, false, List, [], ◌∷◌, Option, none, some,
  if◌then◌else◌, Text, ℤ, int_eq, text_eq, ◌==◌, ==_iff, keep, keep-append, append-nil, arith, inl,
  Has, Has-append_right, if_either, if_cases,
}
use jira_bot.Poller.Changes.{is_empty}
use jira_bot.Storage.{Subscription, User}
use jira_bot.Storage.Registrations.{
  WebhookRegistration, Rows, create, get_by_user, get_by_subscription,
}
use jira_bot.Jira.Webhooks.Requests.{
  Registered, registered, not_registered, register_webhook, default_webhook_events,
}
use jira_bot.Jira.Webhooks.Manager.{
  Env, World, connected, expected_jql, registration_of, save_registration, register_user,
  register_jql, register_for_subscription, has_registration, register_missing,
  register_for_existing_subscriptions, ◌>>=◌,
}

-- A webhook of Jira is known here by a row of the subscription, or Jira was asked to delete it.
pub data IsTracked (sub : Subscription) (id : ℤ) (w : World) : Type 0 where
  stored :
      (r : WebhookRegistration)
      → Has r w.rows
      → r.webhook_id ≡ id
      → r.subscription_id ≡ sub.id
      → IsTracked sub id w
  rolled_back : Has (id ∷ []) w.deletions → IsTracked sub id w

save_registration-IsTracked :
    (env : Env) (sub : Subscription) (user : User) (jql : Text) (w : World) (id : ℤ)
    (expires_at : ℕ)
    → IsTracked sub id (save_registration env sub user jql w (registered id expires_at))
unfolding save_registration create
save_registration-IsTracked env sub user jql w id expires_at =
    let row = record (registration_of sub user jql id expires_at) {
      id = env.new_id id;
      created_ts = env.now;
      modified_ts = env.now;
    } in
    if_either (IsTracked sub id) (env.create_ok id)
      (stored row (Has-append_right row w.rows (row ∷ []) (inl refl)) refl refl)
      (rolled_back (inl refl))

world_injective : {a b : World} → some a ≡ some b → a ≡ b
world_injective h = ground arith

register_jql_given :
    (env : Env) (sub : Subscription) (w : World) (c : ℕ) (jql : Text)
    → register_jql env sub w (some (c ∷ jql))
      ≡ some (register_user env sub (c ∷ jql) w (connected (env.get_user sub.telegram_user_id)))
unfolding register_jql
register_jql_given env sub w c jql = refl

register_user_connected :
    (env : Env) (sub : Subscription) (jql : Text) (w : World) (user : User)
    → register_user env sub jql w (some user)
      ≡ save_registration env sub user jql w
          (register_webhook (env.post user) env.now env.delivery_url jql default_webhook_events)
unfolding register_user
register_user_connected env sub jql w user = refl

-- Whatever Mongo answers, a webhook that Jira creates when a connected user's subscription is registered, with a
-- delivery address and a filter that is not empty, is stored with the subscription's id or is asked to be deleted again.
pub register-IsTracked :
    (env : Env) (sub : Subscription) (user : User) (jql : Text) (id : ℤ) (expires_at : ℕ)
    (w w' : World)
    → env.delivery_url ≢ []
    → expected_jql env sub ≡ some jql
    → jql ≢ []
    → connected (env.get_user sub.telegram_user_id) ≡ some user
    → register_webhook (env.post user) env.now env.delivery_url jql default_webhook_events
      ≡ registered id expires_at
    → register_for_subscription env (some sub) w ≡ some w'
    → IsTracked sub id w'
unfolding register_for_subscription
register-IsTracked env sub user jql id expires_at w w' url expected given known answer h =
    let asked : register_jql env sub w (some jql) ≡ some w' =
      subst (λ o. register_jql env sub w o ≡ some w') expected
        (rw (has_url env.delivery_url url) at h) in
    by_jql jql given asked answer
  where
    has_url : (u : Text) → u ≢ [] → is_empty u ≡ false
    has_url [] ne = absurd (ne refl)
    has_url (c ∷ u) ne = refl

    by_jql :
        (jql : Text)
        → jql ≢ []
        → register_jql env sub w (some jql) ≡ some w'
        → register_webhook (env.post user) env.now env.delivery_url jql default_webhook_events
          ≡ registered id expires_at
        → IsTracked sub id w'
    by_jql [] ne h answer = absurd (ne refl)
    by_jql (c ∷ jql) ne h answer =
        let same : register_user env sub (c ∷ jql) w (some user) ≡ w' =
          subst (λ o. register_user env sub (c ∷ jql) w o ≡ w') known
            (world_injective (sym (register_jql_given env sub w c jql) ∙ h)) in
        let saved : save_registration env sub user (c ∷ jql) w (registered id expires_at) ≡ w' =
          ap (save_registration env sub user (c ∷ jql) w) (sym answer)
          ∙ sym (register_user_connected env sub (c ∷ jql) w user)
          ∙ same in
        subst (IsTracked sub id) saved
          (save_registration-IsTracked env sub user (c ∷ jql) w id expires_at)

abbrev rows_of : Text → World → Rows
rows_of j w = get_by_subscription j w.rows

-- A subscription other than `j` is registered.
module _ (env : Env) (j : Text) (sub : Subscription) (w : World) (other : sub.id ≢ j) where
  save_registration-others :
      (user : User) (jql : Text) (a : Registered)
      → rows_of j (save_registration env sub user jql w a) ≡ rows_of j w
  unfolding save_registration create get_by_subscription
  save_registration-others user jql (not_registered e) = refl
  save_registration-others user jql (registered id expires_at) =
      if_either (λ w'. rows_of j w' ≡ rows_of j w) (env.create_ok id)
        (let row = record (registration_of sub user jql id expires_at) {
          id = env.new_id id;
          created_ts = env.now;
          modified_ts = env.now;
        } in
          let differs : (sub.id == j) ≡ false = ground (arith, ==_iff sub.id j) in
          rw (keep-append (λ r. r.subscription_id == j) w.rows (row ∷ []), differs)
            (append-nil (keep (λ (r : WebhookRegistration). r.subscription_id == j) w.rows)))
        refl

  register_user-others :
      (jql : Text) (o : Option User) → rows_of j (register_user env sub jql w o) ≡ rows_of j w
  unfolding register_user
  register_user-others jql none = refl
  register_user-others jql (some user) = save_registration-others user jql _

  register_jql-others :
      (o : Option Text) (w' : World)
      → register_jql env sub w o ≡ some w'
      → rows_of j w' ≡ rows_of j w
  unfolding register_jql
  register_jql-others none w' h = ground arith
  register_jql-others (some []) w' h = ap (rows_of j) (sym (world_injective h))
  register_jql-others (some (c ∷ jql)) w' h =
      ap (rows_of j) (sym (world_injective h))
      ∙ register_user-others (c ∷ jql) (connected (env.get_user sub.telegram_user_id))

  register-others :
      (w' : World)
      → register_for_subscription env (some sub) w ≡ some w'
      → rows_of j w' ≡ rows_of j w
  unfolding register_for_subscription
  register-others w' =
      if_either (λ o. o ≡ some w' → rows_of j w' ≡ rows_of j w) (is_empty env.delivery_url)
        (λ h. ap (rows_of j) (sym (world_injective h)))
        (register_jql-others (expected_jql env sub) w')

bind_world :
    (o : Option World) (f : World → Option World) (w : World)
    → (o >>= f) ≡ some w
    → (w' : World) × ((o ≡ some w') × (f w' ≡ some w))
bind_world none f w h = ground arith
bind_world (some w') f w h = (w', (refl, h))

register_missing-others :
    (env : Env) (existing : Rows) (j : Text) (subs : List Subscription) (w out : World)
    → has_registration existing j ≡ true
    → register_missing env existing subs w ≡ some out
    → rows_of j out ≡ rows_of j w
unfolding register_missing
register_missing-others env existing j [] w out known h = ap (rows_of j) (sym (world_injective h))
register_missing-others env existing j (sub ∷ subs) w out known h =
    let step =
      if has_registration existing sub.id
      then some w
      else register_for_subscription env (some sub) w in
    let (w', (e, h')) = bind_world step (λ w'. register_missing env existing subs w') out h in
    register_missing-others env existing j subs w' out known h'
    ∙ if_cases (λ o. o ≡ some w' → rows_of j w' ≡ rows_of j w) (has_registration existing sub.id)
        (λ _ e. ap (rows_of j) (sym (world_injective e)))
        (λ new e. register-others env j sub w (differs new) w' e) e
  where
    clash : true ≡ false → ⊥
    clash h = ground arith

    differs : {id : Text} → has_registration existing id ≡ false → id ≢ j
    differs new same = clash (sym (ap (has_registration existing) same ∙ known) ∙ new)

-- Reconnecting registers no subscription a second time: where the user's rows were read, the rows of a
-- subscription that has one are the same after `RegisterForExistingSubscriptions` as before it, whatever
-- Jira and Mongo answer to the registrations of the others.
pub register_for_existing-others :
    (env : Env) (user : ℤ) (j : Text) (subs : List Subscription) (w out : World)
    → has_registration (get_by_user user w.rows) j ≡ true
    → register_for_existing_subscriptions env true user subs w ≡ some out
    → get_by_subscription j out.rows ≡ get_by_subscription j w.rows
unfolding register_for_existing_subscriptions
register_for_existing-others env user j [] w out known h = ap (rows_of j) (sym (world_injective h))
register_for_existing-others env user j (sub ∷ subs) w out known h =
    register_missing-others env (get_by_user user w.rows) j (sub ∷ subs) w out known h
