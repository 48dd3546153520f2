-- ===== src/Webhook/Delivery/Publication.antt =====
-- Which chats and users the published event names.
use jira_bot.Base.{
  ◌≡◌, refl, ap, inl, inr, ◌↔◌, Bool-cases, true, false, ◌||◌, List, [], ◌∷◌, arith, ℤ, int_eq,
  text_eq, ◌==◌, ==_iff,
}
use jira_bot.Notifier.{Request}
use jira_bot.Storage.{Subscription}
use jira_bot.Webhook.Delivery.{is_seen, Affected, affected_by}

-- No chat twice.
abbrev pub IsOncePerChat : List ℤ → Type 0
IsOncePerChat [] = Unit
IsOncePerChat (c ∷ cs) = (is_seen c cs ≡ false) × IsOncePerChat cs

abbrev pub affected_chats : List Affected → List ℤ
affected_chats [] = []
affected_chats (a ∷ as') = a.chat_id ∷ affected_chats as'

abbrev pub request_chats : List Request → List ℤ
request_chats [] = []
request_chats (r ∷ rs) = r.chat_id ∷ request_chats rs

abbrev pub subscribed_chats : List Subscription → List ℤ
subscribed_chats [] = []
subscribed_chats (s ∷ ss) = s.telegram_chat_id ∷ subscribed_chats ss

pub is_seen_head : (c : ℤ) (cs : List ℤ) → is_seen c (c ∷ cs) ≡ true
unfolding is_seen
is_seen_head c cs = ground (arith, ==_iff c c)

pub is_seen_cons :
    (chat c : ℤ) (cs : List ℤ) → is_seen chat (c ∷ cs) ≡ (c == chat || is_seen chat cs)
unfolding is_seen
is_seen_cons chat c cs = refl

-- The chats of the published list are those of the subscriptions that were not seen before.
pub affected_by_lem :
    (seen : List ℤ) (subs : List Subscription) (chat : ℤ)
    → (is_seen chat (affected_chats (affected_by seen subs)) ≡ true)
      ↔ ((is_seen chat (subscribed_chats subs) ≡ true) × (is_seen chat seen ≡ false))
unfolding affected_by is_seen
affected_by_lem seen [] chat = ground arith
affected_by_lem seen (s ∷ ss) chat =
    let passed = affected_by_lem seen ss chat in
    let rest = affected_by_lem (s.telegram_chat_id ∷ seen) ss chat in
    elim (Bool-cases (s.telegram_chat_id == chat)) [
      | inl same ↦
          let e = (==_iff s.telegram_chat_id chat).0 same in
          let b = ap (λ y. is_seen y seen) e in ground arith
      | inr other ↦ ground arith
    ]

pub affected_by-IsOncePerChat :
    (seen : List ℤ) (subs : List Subscription)
    → IsOncePerChat (affected_chats (affected_by seen subs))
unfolding affected_by
affected_by-IsOncePerChat seen [] = tt
affected_by-IsOncePerChat seen (s ∷ ss) =
    let chat = s.telegram_chat_id in
    let found = (affected_by_lem (chat ∷ seen) ss chat).0 in
    let head = is_seen_head chat seen in
    let absent : is_seen chat (affected_chats (affected_by (chat ∷ seen) ss)) ≡ false =
      ground arith in
    let passed = affected_by-IsOncePerChat seen ss in
    let rest = affected_by-IsOncePerChat (chat ∷ seen) ss in ground arith

-- The published list names every chat of the matching subscriptions, no other chat, and none twice.
pub affected_by-IsExact :
    (subs : List Subscription)
    → IsOncePerChat (affected_chats (affected_by [] subs))
      × ((chat : ℤ)
          → (is_seen chat (affected_chats (affected_by [] subs)) ≡ true)
            ↔ (is_seen chat (subscribed_chats subs) ≡ true))
affected_by-IsExact subs = (
  affected_by-IsOncePerChat [] subs,
  λ chat. (let lem = affected_by_lem [] subs chat in unfold is_seen in ground arith),
)
