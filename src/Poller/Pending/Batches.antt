-- ===== src/Poller/Pending/Batches.antt =====
-- Every batch has its own key, ends in time, and is sent once.
use mathlib.Core.List.{Perm, perm_middle}
use mathlib.Core.List.Perm
use jira_bot.Base.{
  ℕ, ◌+◌, ◌≤◌, ◌<◌, ◌≡◌, ◌≢◌, refl, sym, ap₂, ◌⊎◌, ◌∙◌, inl, inr, Bool-cases, Bool, true, false,
  ◌&&◌, not, List, [], ◌∷◌, ◌++◌, some, arith, ltb, All, Text, ℤ, text_eq, ◌==◌, ==_iff, lookup,
  insert, sift, lookup-insert, insert-HasUniqueKeys, sift-HasUniqueKeys, All-insert, All-sift,
}
use jira_bot.Locale.{Lang}
use jira_bot.Jira.Models.{Issue, Comment}
use jira_bot.Poller.Changes.{recent_changes}
use jira_bot.Poller.Pending.{
  PendingNotification, Pendings, pending_key, is_nil, entry_for, accumulate, add_pending,
  is_waiting, entries, flush_pending,
}
use jira_bot.Poller.Pending.Continuity.{
  IsKeyed, IsValid, accumulate-IsSameBatch, Continues, Continues-refl, entry_for-Continues,
  Continues-trans, entry_for-IsKeyed,
}

module _ (pending : Pendings) (chat : ℤ) (issue : Issue) (site : Text) (since : ℕ) (exclude : Text)
    (lang : Lang) (is_mention : Bool) (comments : List Comment) (now : ℕ) where
  abbrev stored : PendingNotification
  stored =
      accumulate
        (entry_for (lookup (pending_key chat issue.key) pending) chat issue site lang is_mention
          now)
        issue exclude (recent_changes issue since exclude).0 (recent_changes issue since exclude).1
        comments

  abbrev result : Pendings
  result = add_pending pending chat issue site since exclude lang is_mention comments now

  -- `addPending` leaves the map alone, exactly if there are no changes and no mention, or stores
  -- one entry under the key of the chat and the issue.
  add_pending_cases :
      ((is_nil (recent_changes issue since exclude).1 && not is_mention) ≡ true)
        × (result ≡ pending)
      ⊎ ((is_nil (recent_changes issue since exclude).1 && not is_mention) ≡ false)
        × (result ≡ insert (pending_key chat issue.key) stored pending)
  unfolding add_pending
  add_pending_cases = ground arith

  -- The entries of other chats and issues stay as they are.
  pub lookup-add_pending_other :
      (key : Text) → pending_key chat issue.key ≢ key → lookup key result ≡ lookup key pending
  lookup-add_pending_other key ne = elim add_pending_cases [
    | inl (_, e) ↦ rw e refl
    | inr (_, e) ↦
        rw (e, lookup-insert (pending_key chat issue.key) key stored pending)
          (ground (arith, ==_iff (pending_key chat issue.key) key))
  ]

  stored-IsKeyed : All IsKeyed pending → IsKeyed (pending_key chat issue.key, stored)
  stored-IsKeyed h =
      let k = entry_for-IsKeyed pending chat issue site lang is_mention now h in
      let s =
        accumulate-IsSameBatch
          (entry_for (lookup (pending_key chat issue.key) pending) chat issue site lang is_mention
            now)
          issue exclude (recent_changes issue since exclude).0
          (recent_changes issue since exclude).1 comments in
      k ∙ ap₂ pending_key (sym s.chat) (sym s.issue)

  -- `addPending` keeps a map valid: each entry of the map stands under the key of its own chat and issue, and no key twice.
  pub add_pending-IsValid : IsValid pending → IsValid result
  add_pending-IsValid v = elim add_pending_cases [
    | inl (_, e) ↦ rw e v
    | inr (_, e) ↦ rw e (record {
      unique = insert-HasUniqueKeys (pending_key chat issue.key) stored pending v.unique;
      keyed =
          All-insert IsKeyed (pending_key chat issue.key) stored pending (stored-IsKeyed v.keyed)
            v.keyed;
    })
  ]

  stored-Continues :
      (pn : PendingNotification)
      → lookup (pending_key chat issue.key) pending ≡ some pn
      → Continues pn stored
  stored-Continues pn e = rw e (
      Continues-trans pn _ _ (entry_for-Continues pn chat issue site lang is_mention now)
        (accumulate-IsSameBatch _ issue exclude _ _ comments))

  -- A merge never restarts a batch: an entry keeps its chat, its issue and the time at which it was
  -- first seen, and stays a mention once it is one. So updates that keep coming cannot delay it.
  pub add_pending-Continues :
      (key : Text) (pn : PendingNotification)
      → lookup key pending ≡ some pn
      → (pn' : PendingNotification) × (lookup key result ≡ some pn') × Continues pn pn'
  add_pending-Continues key pn e = elim add_pending_cases [
    | inl (_, same) ↦ (pn, rw same e, Continues-refl pn)
    | inr (_, same) ↦ elim (Bool-cases (pending_key chat issue.key == key)) [
      | inl hit ↦ (
        stored,
        rw (same, lookup-insert (pending_key chat issue.key) key stored pending, hit) refl,
        (let found : lookup (pending_key chat issue.key) pending ≡ some pn =
              rw ((==_iff (pending_key chat issue.key) key).0 hit) e in
            stored-Continues pn found),
      )
      | inr miss ↦ (
        pn,
        rw (same, lookup-insert (pending_key chat issue.key) key stored pending, miss) e,
        Continues-refl pn,
      )
    ]
  ]

flush-perm :
    (window now : ℕ) (pending : Pendings)
    → Perm
        (entries pending)
        ((flush_pending window now pending).0 ++ entries (flush_pending window now pending).1)
unfolding flush_pending sift
flush-perm window now [] = Perm.nil
flush-perm window now ((k, pn) ∷ m) = elim (Bool-cases (is_waiting window now pn)) [
  | inl e ↦ rw e (Perm.trans (Perm.cons pn (flush-perm window now m)) (Perm.symm (perm_middle _ _)))
  | inr e ↦ rw e (Perm.cons pn (flush-perm window now m))
]

flush-due :
    (window now : ℕ) (pending : Pendings)
    → All (λ pn. pn.first_seen + window ≤ now) (flush_pending window now pending).0
unfolding flush_pending is_waiting
flush-due window now [] = tt
flush-due window now ((k, pn) ∷ m) = elim (Bool-cases (ltb now (pn.first_seen + window))) [
  | inl e ↦ rw e (flush-due window now m)
  | inr e ↦ rw e (ground arith, flush-due window now m)
]

flush-waits :
    (window now : ℕ) (pending : Pendings)
    → All (λ p. now < p.1.first_seen + window) (flush_pending window now pending).1
unfolding flush_pending is_waiting sift
flush-waits window now [] = tt
flush-waits window now ((k, pn) ∷ m) = elim (Bool-cases (ltb now (pn.first_seen + window))) [
  | inl e ↦ rw e (ground arith, flush-waits window now m)
  | inr e ↦ rw e (flush-waits window now m)
]

flush-IsValid :
    (window now : ℕ) (pending : Pendings)
    → IsValid pending
    → IsValid (flush_pending window now pending).1
unfolding flush_pending
flush-IsValid window now pending v = record {
  unique = sift-HasUniqueKeys (is_waiting window now) pending v.unique;
  keyed = All-sift IsKeyed (is_waiting window now) pending v.keyed;
}

-- In a valid map every entry is sent or stays: none is lost, none is sent twice. What is sent has waited for the
-- whole window, what stays has not, and a valid map stays valid.
pub flush_pending_lem :
    (window now : ℕ) (pending : Pendings)
    → IsValid pending
    → Perm
        (entries pending)
        ((flush_pending window now pending).0 ++ entries (flush_pending window now pending).1)
      × All (λ pn. pn.first_seen + window ≤ now) (flush_pending window now pending).0
      × All (λ p. now < p.1.first_seen + window) (flush_pending window now pending).1
      × IsValid (flush_pending window now pending).1
flush_pending_lem window now pending v = (
  flush-perm window now pending,
  flush-due window now pending,
  flush-waits window now pending,
  flush-IsValid window now pending v,
)
