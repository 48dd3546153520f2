-- ===== src/Jira/Webhooks/Resync/Stale.antt =====
-- The whole of a resync: what it drops, and its theorems.
use jira_bot.Base.{
  lookup, ℕ, ◌+◌, ◌≤◌, ◌≡◌, ◌≢◌, refl, sym, subst, ◌∙◌, Bool, true, false, not, List, [], ◌∷◌,
  Option, none, some, Text, ℤ, int_eq, text_eq, ◌==◌, ==_iff, length, keep, arith, inl, inr, All,
  Has, if_either, Has-keep_of,
}
use jira_bot.Storage.{Subscription, User}
use jira_bot.Storage.Registrations.{WebhookRegistration, Rows, delete}
use jira_bot.Jira.Webhooks.Manager.{Env, webhook_ids}
use jira_bot.Jira.Webhooks.Resync.{
  ListedWebhook, Index, Resync, index_subs, is_among, adopt_all, drop_one, drop_all, hook_ids,
  resync_for_user,
}
use jira_bot.Jira.Webhooks.Resync.Adoption.{
  has_filter, one_if, adopt_all-claims, Justified, adopt_all-IsSound, index_subs-IsExpected,
  IsExpected, bind_some, some_injective,
}

length-keep_mono :
    (p q : WebhookRegistration → Bool) (rows : Rows)
    → length (keep p (keep q rows)) ≤ length (keep p rows)
length-keep_mono p q [] = omega arith
length-keep_mono p q (r ∷ rows) = ground (arith, length-keep_mono p q rows)

module _ (env : Env) (jira_ids : List ℤ) where
  drop_one-filter :
      (j : Text) (reg : WebhookRegistration) (s : Resync)
      → length (keep (has_filter j) (drop_one env jira_ids reg s).rows)
        ≤ length (keep (has_filter j) s.rows)
  unfolding drop_one delete
  drop_one-filter j reg s =
      if_either
        (λ (out : Resync).
          length (keep (has_filter j) out.rows) ≤ length (keep (has_filter j) s.rows))
        (is_among reg.webhook_id jira_ids) (omega arith)
        (if_either
          (λ (out : Resync).
            length (keep (has_filter j) out.rows) ≤ length (keep (has_filter j) s.rows))
          (env.delete_ok reg.id)
          (length-keep_mono (has_filter j) (λ r. not (r.id == reg.id)) s.rows) (omega arith))

  drop_all-filter :
      (j : Text) (local_hooks : Rows) (s : Resync)
      → length (keep (has_filter j) (drop_all env jira_ids local_hooks s).rows)
        ≤ length (keep (has_filter j) s.rows)
  unfolding drop_all
  drop_all-filter j [] s = omega arith
  drop_all-filter j (reg ∷ local_hooks) s =
      omega (
        arith,
        drop_all-filter j local_hooks (drop_one env jira_ids reg s),
        drop_one-filter j reg s,
      )

  drop_all-adopted :
      (local_hooks : Rows) (s : Resync)
      → (drop_all env jira_ids local_hooks s).result.adopted ≡ s.result.adopted
  unfolding drop_all drop_one
  drop_all-adopted [] s = refl
  drop_all-adopted (reg ∷ local_hooks) s =
      drop_all-adopted local_hooks (drop_one env jira_ids reg s)
      ∙ if_either (λ (out : Resync). out.result.adopted ≡ s.result.adopted)
          (is_among reg.webhook_id jira_ids) refl
          (if_either (λ (out : Resync). out.result.adopted ≡ s.result.adopted)
            (env.delete_ok reg.id) refl refl)

  drop_one-subset :
      (reg r : WebhookRegistration) (s : Resync)
      → Has r (drop_one env jira_ids reg s).rows
      → Has r s.rows
  unfolding drop_one delete
  drop_one-subset reg r s =
      if_either (λ (out : Resync). Has r out.rows → Has r s.rows) (is_among reg.webhook_id jira_ids)
        (λ h. h)
        (if_either (λ (out : Resync). Has r out.rows → Has r s.rows) (env.delete_ok reg.id)
          (λ h. (Has-keep_of r (λ q. not (q.id == reg.id)) s.rows h).0) (λ h. h))

  drop_all-subset :
      (local_hooks : Rows) (r : WebhookRegistration) (s : Resync)
      → Has r (drop_all env jira_ids local_hooks s).rows
      → Has r s.rows
  unfolding drop_all
  drop_all-subset [] r s h = h
  drop_all-subset (reg ∷ local_hooks) r s h =
      drop_one-subset reg r s (drop_all-subset local_hooks r (drop_one env jira_ids reg s) h)

  -- A row that is to be dropped is gone afterwards.
  drop_one-removes :
      (reg r : WebhookRegistration) (s : Resync)
      → is_among reg.webhook_id jira_ids ≡ false
      → env.delete_ok reg.id ≡ true
      → Has r (drop_one env jira_ids reg s).rows
      → r.id ≢ reg.id
  unfolding drop_one delete
  drop_one-removes reg r s gone deletes h same =
      let left : Has r (keep (λ q. not (q.id == reg.id)) s.rows) = rw (gone, deletes) at h in
      let (has, differs) = Has-keep_of r (λ q. not (q.id == reg.id)) s.rows left in
      ground (arith, ==_iff r.id reg.id)

  drop_all-removes :
      (local_hooks : Rows) (reg r : WebhookRegistration) (s : Resync)
      → Has reg local_hooks
      → is_among reg.webhook_id jira_ids ≡ false
      → env.delete_ok reg.id ≡ true
      → Has r (drop_all env jira_ids local_hooks s).rows
      → r.id ≢ reg.id
  unfolding drop_all
  drop_all-removes [] reg r s has gone deletes h = absurd has
  drop_all-removes (q ∷ local_hooks) reg r s (inl same) gone deletes h =
      let kept : Has r (drop_one env jira_ids reg s).rows =
        subst (λ k. Has r (drop_one env jira_ids k s).rows) (sym same)
          (drop_all-subset local_hooks r (drop_one env jira_ids q s) h) in
      drop_one-removes reg r s gone deletes kept
  drop_all-removes (q ∷ local_hooks) reg r s (inr has) gone deletes h =
      drop_all-removes local_hooks reg r (drop_one env jira_ids q s) has gone deletes h

abbrev start : List ListedWebhook → Rows → Rows → Index → Resync
start hooks local_hooks rows index = record {
  rows = rows;
  sub_by_jql = index;
  result = record {
    jira_count = length hooks;
    local_count = length local_hooks;
    adopted = [];
    unmatched = [];
    dropped_local = [];
  };
}

-- A resync ends as the two loops do, from an index of what the subscriptions expect.
record Ran (env : Env) (expiration : Text → ℕ) (user_id : ℤ) (user : User)
    (hooks : List ListedWebhook) (local_hooks : Rows) (subs : List Subscription) (rows : Rows)
    (out : Resync) : Type 0 where
  index : Index
  indexed : All (IsExpected env subs) index
  ends :
      drop_all env (hook_ids hooks) local_hooks (
        adopt_all env expiration user_id user
          (webhook_ids local_hooks)
          hooks
          (start hooks local_hooks rows index))
      ≡ out

module _ (env : Env) (expiration : Text → ℕ) (user_id : ℤ) (user : User)
    (hooks : List ListedWebhook) (local_hooks : Rows) (subs : List Subscription) (rows : Rows)
    (out : Resync)
    (ran : resync_for_user env expiration user_id user hooks local_hooks subs rows ≡ some out) where
  resync-Ran : Ran env expiration user_id user hooks local_hooks subs rows out
  unfolding resync_for_user
  resync-Ran =
      let (index, (e, h)) =
        bind_some (index_subs env subs [])
          (λ index. some (
            drop_all env (hook_ids hooks) local_hooks (
              adopt_all env expiration user_id user (webhook_ids local_hooks) hooks
                (start hooks local_hooks rows index))))
          out ran in
      record {
        index = index;
        indexed = index_subs-IsExpected env subs subs [] index (λ s k. k) tt e;
        ends = some_injective h;
      }

  -- A resync that ends adopts only webhooks that Jira has, whose ids no local row has, and whose filter is
  -- what an active subscription of the user expects.
  pub resync-Justified : All (Justified env subs hooks (webhook_ids local_hooks)) out.result.adopted
  resync-Justified =
      let r = resync-Ran in
      let before =
        adopt_all env expiration user_id user (webhook_ids local_hooks) hooks
          (start hooks local_hooks rows r.index) in
      let sound =
        adopt_all-IsSound env subs expiration user_id user hooks (webhook_ids local_hooks) hooks
          (start hooks local_hooks rows r.index) (λ w k. k)
          (record { index = r.indexed; adopted = tt }) in
      subst
        (λ (s : Resync). All (Justified env subs hooks (webhook_ids local_hooks)) s.result.adopted)
        r.ends
        (subst (All (Justified env subs hooks (webhook_ids local_hooks)))
          (sym (drop_all-adopted env (hook_ids hooks) local_hooks before)) sound.adopted)

  -- For each filter a resync adds at most one row, however many webhooks with that filter Jira has: a
  -- subscription is claimed once.
  resync-claims :
      (j : Text) → length (keep (has_filter j) out.rows) ≤ length (keep (has_filter j) rows) + 1
  resync-claims j =
      let r = resync-Ran in
      let first = start hooks local_hooks rows r.index in
      let adopted =
        adopt_all-claims env expiration user_id user j (webhook_ids local_hooks) hooks first in
      let dropped =
        drop_all-filter env (hook_ids hooks) j local_hooks
          (adopt_all env expiration user_id user (webhook_ids local_hooks) hooks first) in
      subst
        (λ (s : Resync).
          length (keep (has_filter j) s.rows) ≤ length (keep (has_filter j) rows) + 1)
        r.ends
        (let bound = at_most_one (lookup j r.index) in omega (arith, adopted, dropped, bound))
    where
      at_most_one : (o : Option Subscription) → one_if o ≤ 1
      at_most_one none = omega arith
      at_most_one (some sub) = omega arith

  -- After a resync no row stands under the identifier of a local row whose webhook Jira does not have, where the deletion of that row
  -- succeeds.
  pub resync-DropsStale :
      (reg r : WebhookRegistration)
      → Has reg local_hooks
      → is_among reg.webhook_id (hook_ids hooks) ≡ false
      → env.delete_ok reg.id ≡ true
      → Has r out.rows
      → r.id ≢ reg.id
  resync-DropsStale reg r has gone deletes h =
      let n = resync-Ran in
      drop_all-removes env (hook_ids hooks) local_hooks reg r
        (adopt_all env expiration user_id user (webhook_ids local_hooks) hooks
          (start hooks local_hooks rows n.index))
        has gone deletes (subst (λ (s : Resync). Has r s.rows) (sym n.ends) h)
