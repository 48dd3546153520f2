-- ===== src/Webhook/Delivery/Chats.antt =====
-- Which chats an event reaches.
use jira_bot.Base.{
  ℕ, ◌≡◌, ◌≢◌, refl, sym, subst, ap, ◌∙◌, ◌⊎◌, inl, inr, Bool-cases, Bool, true, false, List, [],
  ◌∷◌, Option, none, some, arith, if◌then◌else◌, All, ==_refl, Has, Text, ℤ, int_eq, text_eq, ◌==◌,
  ==_iff,
}
use jira_bot.Locale.{Lang}
use jira_bot.NotifyDedup.Guard.{Guard}
use jira_bot.NotifyDedup.Key.{IsInt64}
use jira_bot.NotifyDedup.Guard.Window.{allow_independent}
use jira_bot.Notifier.{Request}
use jira_bot.Storage.{Subscription, User}
use jira_bot.Webhook.Models.{Event}
use jira_bot.Webhook.Delivery.{
  is_own, guard_key, is_seen, request_for, ask_guard, notify_one, notify_all, add_request,
}
use jira_bot.Webhook.Delivery.Publication.{
  IsOncePerChat, request_chats, subscribed_chats, is_seen_head,
}

some_injective : {A : Type 0} {a b : A} → some a ≡ some b → a ≡ b
some_injective h = ground arith

module _ (tr : Lang → Text → List Text → Text) (get_user : ℤ → Option User) (now : ℕ)
    (e : Event) where
  -- Where a request comes from: a subscription that matched, of a user who did not make the change.
  pub record IsFromSubscription (subs : List Subscription) (r : Request) : Type 0 where
    pub sub : Subscription
    pub matched : Has sub subs
    pub of_other : is_own e.user (get_user sub.telegram_user_id) ≡ false
    pub made : r ≡ request_for tr get_user now e sub

  IsFromSubscription-cons :
      (s : Subscription) (ss : List Subscription) (r : Request)
      → IsFromSubscription ss r
      → IsFromSubscription (s ∷ ss) r
  IsFromSubscription-cons s ss r f = record {
    sub = f.sub;
    matched = inr f.matched;
    of_other = f.of_other;
    made = f.made;
  }

  abbrev requests : Guard → List ℤ → List Subscription → List Request
  requests g sent subs = (notify_all tr get_user now g e sent subs).1

  notify_one_lem :
      (g : Guard) (s : Subscription)
      → ((notify_one tr get_user now g e s).1 ≡ none)
        ⊎ (((notify_one tr get_user now g e s).1 ≡ some (request_for tr get_user now e s))
            × (is_own e.user (get_user s.telegram_user_id) ≡ false))
  unfolding notify_one
  notify_one_lem g s = ground arith

  request_chat : (s : Subscription) → (request_for tr get_user now e s).chat_id ≡ s.telegram_chat_id
  unfolding request_for
  request_chat s = refl

  requests_unseen :
      (g : Guard) (sent : List ℤ) (subs : List Subscription) (chat : ℤ)
      → is_seen chat sent ≡ true
      → is_seen chat (request_chats (requests g sent subs)) ≡ false
  unfolding notify_all is_seen
  requests_unseen g sent [] chat h = refl
  requests_unseen g sent (s ∷ ss) chat h =
      let c = s.telegram_chat_id in
      let passed = requests_unseen g sent ss chat h in
      let rest = requests_unseen (notify_one tr get_user now g e s).0 (c ∷ sent) ss chat in
      let one = notify_one_lem g s in
      let at = request_chat s in
      elim (Bool-cases (c == chat)) [
        | inl same ↦ let b = ap (λ y. is_seen y sent) ((==_iff c chat).0 same) in ground arith
        | inr other ↦ ground arith
      ]

  requests-IsOncePerChat :
      (g : Guard) (sent : List ℤ) (subs : List Subscription)
      → IsOncePerChat (request_chats (requests g sent subs))
  unfolding notify_all
  requests-IsOncePerChat g sent [] = tt
  requests-IsOncePerChat g sent (s ∷ ss) =
      let c = s.telegram_chat_id in
      let g' = (notify_one tr get_user now g e s).0 in
      let passed = requests-IsOncePerChat g sent ss in
      let rest = requests-IsOncePerChat g' (c ∷ sent) ss in
      let fresh = requests_unseen g' (c ∷ sent) ss c (is_seen_head c sent) in
      let one = notify_one_lem g s in let at = request_chat s in ground arith

  IsFromSubscription-weaken :
      (s : Subscription) (ss : List Subscription) (rs : List Request)
      → All (IsFromSubscription ss) rs
      → All (IsFromSubscription (s ∷ ss)) rs
  IsFromSubscription-weaken s ss [] h = tt
  IsFromSubscription-weaken s ss (r ∷ rs) h =
      (IsFromSubscription-cons s ss r h.0, IsFromSubscription-weaken s ss rs h.1)

  added :
      (s : Subscription) (ss : List Subscription) (o : Option Request) (rs : List Request)
      → (o ≡ none)
        ⊎ ((o ≡ some (request_for tr get_user now e s))
            × (is_own e.user (get_user s.telegram_user_id) ≡ false))
      → All (IsFromSubscription ss) rs
      → All (IsFromSubscription (s ∷ ss)) (add_request tr get_user now o rs)
  added s ss none rs c h = IsFromSubscription-weaken s ss rs h
  added s ss (some r) rs (inl c) h = ground arith
  added s ss (some r) rs (inr (m, o)) h = (
    record { sub = s; matched = inl refl; of_other = o; made = some_injective m },
    IsFromSubscription-weaken s ss rs h,
  )

  requests-AllFromSubscriptions :
      (g : Guard) (sent : List ℤ) (subs : List Subscription)
      → All (IsFromSubscription subs) (requests g sent subs)
  unfolding notify_all
  requests-AllFromSubscriptions g sent [] = tt
  requests-AllFromSubscriptions g sent (s ∷ ss) =
      let one = notify_one tr get_user now g e s in
      elim (is_seen s.telegram_chat_id sent)
        as (λ (b : Bool).
          All (IsFromSubscription (s ∷ ss))
            (if b then notify_all tr get_user now g e sent ss else (
              (notify_all tr get_user now one.0 e (s.telegram_chat_id ∷ sent) ss).0,
              add_request tr get_user now one.1
                  (notify_all tr get_user now one.0 e (s.telegram_chat_id ∷ sent) ss).1,
            )).1) [
              | true ↦ IsFromSubscription-weaken s ss _ (requests-AllFromSubscriptions g sent ss)
              | false ↦
                  added s ss one.1 _ (notify_one_lem g s)
                    (requests-AllFromSubscriptions one.0 (s.telegram_chat_id ∷ sent) ss)
            ]

  -- An event's requests go to distinct chats, and each is the one made for a matching subscription
  -- whose user is not the one who caused the event.
  pub notify_all-IsOncePerChat :
      (g : Guard) (subs : List Subscription)
      → IsOncePerChat (request_chats (notify_all tr get_user now g e [] subs).1)
        × All (IsFromSubscription subs) (notify_all tr get_user now g e [] subs).1
  notify_all-IsOncePerChat g subs =
      (requests-IsOncePerChat g [] subs, requests-AllFromSubscriptions g [] subs)

  -- Whether the guard lets the event through to the chat.
  abbrev pub lets_through : Guard → ℤ → Bool
  lets_through g chat = (ask_guard tr get_user now g e chat).1

  lets_through-other :
      (g : Guard) (s : Subscription) (chat : ℤ)
      → IsInt64 chat
      → IsInt64 s.telegram_chat_id
      → (s.telegram_chat_id == chat) ≡ false
      → lets_through (notify_one tr get_user now g e s).0 chat ≡ lets_through g chat
  unfolding notify_one ask_guard
  lets_through-other g s chat hc hs other =
      let apart =
        allow_independent g s.telegram_chat_id chat (guard_key e) (guard_key e) now now now now hs
          hc (λ same. ground (arith, ==_iff s.telegram_chat_id chat)) in
      ground arith

  -- The first matching subscription of a chat is of a user who did not cause the event.
  abbrev pub FirstIsOther : ℤ → List Subscription → Type 0
  FirstIsOther chat [] = ⊥
  FirstIsOther chat (s ∷ ss) =
      ((s.telegram_chat_id ≡ chat) × (is_own e.user (get_user s.telegram_user_id) ≡ false))
      ⊎ ((s.telegram_chat_id ≢ chat) × FirstIsOther chat ss)

  requests-reach :
      (g : Guard) (sent : List ℤ) (subs : List Subscription) (chat : ℤ)
      → IsInt64 chat
      → All IsInt64 (subscribed_chats subs)
      → is_seen chat sent ≡ false
      → lets_through g chat ≡ true
      → FirstIsOther chat subs
      → is_seen chat (request_chats (requests g sent subs)) ≡ true
  unfolding notify_all is_seen
  requests-reach g sent [] chat hc hs fresh lets f = absurd f
  requests-reach g sent (s ∷ ss) chat hc hs fresh lets (inl (here, other)) =
      let told : (notify_one tr get_user now g e s).1 ≡ some (request_for tr get_user now e s) =
        (let lets' = subst (λ c. lets_through g c ≡ true) (sym here) lets in
          unfold notify_one in ground arith) in
      let at = request_chat s in
      let b = ap (λ y. is_seen y sent) here in ground (arith, ==_refl chat)
  requests-reach g sent (s ∷ ss) chat hc hs fresh lets (inr (apart, f)) =
      let g' = (notify_one tr get_user now g e s).0 in
      let c = s.telegram_chat_id in
      let differ : (c == chat) ≡ false = ground (arith, ==_iff c chat) in
      let passed = requests-reach g sent ss chat hc hs.1 fresh lets f in
      let rest =
        requests-reach g' (c ∷ sent) ss chat hc hs.1 (ground arith)
          (lets_through-other g s chat hc hs.0 differ ∙ lets) f in
      let one = notify_one_lem g s in ground arith

  -- A chat is reached when the first of its matching subscriptions is of a user who did not cause the
  -- event, and the guard lets the event through to the chat before anything is sent. Chat ids are
  -- int64 values.
  pub notify_all-reaches :
      (g : Guard) (subs : List Subscription) (chat : ℤ)
      → IsInt64 chat
      → All IsInt64 (subscribed_chats subs)
      → lets_through g chat ≡ true
      → FirstIsOther chat subs
      → is_seen chat (request_chats (notify_all tr get_user now g e [] subs).1) ≡ true
  notify_all-reaches g subs chat hc hs lets f =
      requests-reach g [] subs chat hc hs (unfold is_seen in refl) lets f
