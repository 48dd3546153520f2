-- ===== src/Jira/Webhooks/Resync/Adoption.antt =====
-- What a resync adopts, and what it leaves.
use jira_bot.Base.{
  ℕ, ◌+◌, ◌≤◌, ◌≡◌, refl, ap, subst, Bool, false, List, [], ◌∷◌, ◌++◌, Option, none, some,
  if◌then◌else◌, Text, ℤ, int_eq, text_eq, ◌==◌, ==_iff, lookup, erase, lookup-erase, length, keep,
  keep-append, length-append, arith, Bool-cases, inl, inr, All, All-insert, All-append, All-erase,
  All-lookup, Has, if_either, if_cases,
}
use jira_bot.Storage.{Subscription, User}
use jira_bot.Storage.Registrations.{WebhookRegistration, Rows, create}
use jira_bot.Jira.Webhooks.Manager.{Env, expected_jql}
use jira_bot.Jira.Webhooks.Resync.{
  ListedWebhook, Index, Resync, index_sub, index_subs, put_first, ◌>>=◌, is_among, adopted_row,
  adopt, adopt_one, adopt_all,
}

abbrev pub has_filter : Text → WebhookRegistration → Bool
has_filter j r = r.jql_filter == j

abbrev pub one_if : Option Subscription → ℕ
one_if none = 0
one_if (some sub) = 1

-- The rows with a filter, and one more while a subscription is there to be claimed.
abbrev pub claims : Text → Resync → ℕ
claims j s = length (keep (has_filter j) s.rows) + one_if (lookup j s.sub_by_jql)

one_more :
    (p : WebhookRegistration → Bool) (rows : Rows) (r : WebhookRegistration)
    → length (keep p (rows ++ r ∷ [])) ≡ length (keep p rows) + (if p r then 1 else 0)
one_more p rows r =
    rw (keep-append p rows (r ∷ []), length-append (keep p rows) (keep p (r ∷ [])))
      (ap (λ n. length (keep p rows) + n) last)
  where
    last : length (keep p (r ∷ [])) ≡ (if p r then 1 else 0)
    last = ground arith

claimed :
    (k j : Text) (index : Index) (sub : Subscription)
    → lookup k index ≡ some sub
    → (if k == j then 1 else 0) + one_if (lookup j (erase k index)) ≡ one_if (lookup j index)
claimed k j index sub found = elim (Bool-cases (k == j)) [
  | inl same ↦
      let here : lookup j index ≡ some sub =
        subst (λ i. lookup i index ≡ some sub) ((==_iff k j).0 same) found in
      rw (lookup-erase k j index, same, here) refl
  | inr other ↦ rw (lookup-erase k j index, other) (omega arith)
]

module _ (env : Env) (expiration : Text → ℕ) (user_id : ℤ) (user : User) (j : Text) where
  adopt-claims :
      (wh : ListedWebhook) (s : Resync) (o : Option Subscription)
      → lookup wh.jql_filter s.sub_by_jql ≡ o
      → claims j (adopt env expiration user_id user wh s o) ≤ claims j s
  unfolding adopt create
  adopt-claims wh s none e = omega arith
  adopt-claims wh s (some sub) e =
      if_either (λ out. claims j out ≤ claims j s) (env.create_ok wh.id)
        (let row = record (adopted_row expiration user_id user wh sub) {
          id = env.new_id wh.id;
          created_ts = env.now;
          modified_ts = env.now;
        } in
          let added = one_more (has_filter j) s.rows row in
          let moved = claimed wh.jql_filter j s.sub_by_jql sub e in omega (arith, added, moved))
        (omega arith)

  pub adopt_all-claims :
      (local_ids : List ℤ) (hooks : List ListedWebhook) (s : Resync)
      → claims j (adopt_all env expiration user_id user local_ids hooks s) ≤ claims j s
  unfolding adopt_all adopt_one
  adopt_all-claims local_ids [] s = omega arith
  adopt_all-claims local_ids (wh ∷ hooks) s =
      let next = adopt_one env expiration user_id user local_ids wh s in
      let ih = adopt_all-claims local_ids hooks next in
      let first : claims j next ≤ claims j s =
        if_either (λ out. claims j out ≤ claims j s) (is_among wh.id local_ids) (omega arith)
          (adopt-claims wh s (lookup wh.jql_filter s.sub_by_jql) refl) in
      omega (arith, ih, first)

-- The subscription that an entry of the index stands for: an active one that expects this filter.
abbrev pub IsExpected : Env → List Subscription → Text × Subscription → Type 0
IsExpected env subs p = Has p.1 subs × (expected_jql env p.1 ≡ some p.0)

-- Why a webhook is adopted: Jira has it, no local row has its id, and its filter is what
-- an active subscription expects.
pub record Justified (env : Env) (subs : List Subscription) (hooks : List ListedWebhook)
    (local_ids : List ℤ) (id : ℤ) : Type 0 where
  pub hook : ListedWebhook
  pub sub : Subscription
  pub in_jira : Has hook hooks
  pub same_id : hook.id ≡ id
  pub unknown_here : is_among id local_ids ≡ false
  pub is_expected : IsExpected env subs (hook.jql_filter, sub)

pub some_injective : {A : Type 0} {a b : A} → some a ≡ some b → a ≡ b
some_injective h = ground arith

pub bind_some :
    {A B : Type 0} (o : Option A) (f : A → Option B) (b : B)
    → (o >>= f) ≡ some b
    → (a : A) × ((o ≡ some a) × (f a ≡ some b))
bind_some none f b h = ground arith
bind_some (some a) f b h = (a, (refl, h))

module _ (env : Env) (all_subs : List Subscription) where
  index_sub-IsExpected :
      (sub : Subscription) (index out : Index) (expected : Option Text)
      → expected_jql env sub ≡ expected
      → Has sub all_subs
      → All (IsExpected env all_subs) index
      → index_sub expected sub index ≡ some out
      → All (IsExpected env all_subs) out
  unfolding index_sub
  index_sub-IsExpected sub index out none e has ok h = ground arith
  index_sub-IsExpected sub index out (some []) e has ok h =
      subst (All (IsExpected env all_subs)) (some_injective h) ok
  index_sub-IsExpected sub index out (some (c ∷ jql)) e has ok h =
      by_lookup (lookup (c ∷ jql) index) h
    where
      by_lookup :
          (o : Option Subscription)
          → some (put_first (c ∷ jql) sub index o) ≡ some out
          → All (IsExpected env all_subs) out
      by_lookup none h =
          subst (All (IsExpected env all_subs)) (some_injective h)
            (All-insert (IsExpected env all_subs) (c ∷ jql) sub index (has, e) ok)
      by_lookup (some old) h = subst (All (IsExpected env all_subs)) (some_injective h) ok

  pub index_subs-IsExpected :
      (subs : List Subscription) (index out : Index)
      → ((sub : Subscription) → Has sub subs → Has sub all_subs)
      → All (IsExpected env all_subs) index
      → index_subs env subs index ≡ some out
      → All (IsExpected env all_subs) out
  unfolding index_subs
  index_subs-IsExpected [] index out within ok h =
      subst (All (IsExpected env all_subs)) (some_injective h) ok
  index_subs-IsExpected (sub ∷ subs) index out within ok h =
      let (index', (e, h')) =
        bind_some (index_sub (expected_jql env sub) sub index)
          (λ index'. index_subs env subs index') out h in
      index_subs-IsExpected subs index' out (λ s k. within s (inr k))
        (index_sub-IsExpected sub index index' (expected_jql env sub) refl (within sub (inl refl))
          ok e)
        h'

  module _ (expiration : Text → ℕ) (user_id : ℤ) (user : User) (all_hooks : List ListedWebhook)
      (local_ids : List ℤ) where
    pub record IsSound (s : Resync) : Type 0 where
      pub index : All (IsExpected env all_subs) s.sub_by_jql
      pub adopted : All (Justified env all_subs all_hooks local_ids) s.result.adopted

    adopt-IsSound :
        (wh : ListedWebhook) (s : Resync) (o : Option Subscription)
        → lookup wh.jql_filter s.sub_by_jql ≡ o
        → Has wh all_hooks
        → is_among wh.id local_ids ≡ false
        → IsSound s
        → IsSound (adopt env expiration user_id user wh s o)
    unfolding adopt
    adopt-IsSound wh s none e has new ok = record { index = ok.index; adopted = ok.adopted }
    adopt-IsSound wh s (some sub) e has new ok =
        if_either IsSound (env.create_ok wh.id)
          (record {
            index = All-erase (IsExpected env all_subs) wh.jql_filter s.sub_by_jql ok.index;
            adopted =
                All-append (Justified env all_subs all_hooks local_ids) s.result.adopted
                  (wh.id ∷ []) ok.adopted
                  (
                    record {
                      hook = wh;
                      sub = sub;
                      in_jira = has;
                      same_id = refl;
                      unknown_here = new;
                      is_expected =
                          All-lookup (IsExpected env all_subs) wh.jql_filter sub s.sub_by_jql
                            ok.index e;
                    },
                    tt,
                  );
          })
          ok

    pub adopt_all-IsSound :
        (hooks : List ListedWebhook) (s : Resync)
        → ((wh : ListedWebhook) → Has wh hooks → Has wh all_hooks)
        → IsSound s
        → IsSound (adopt_all env expiration user_id user local_ids hooks s)
    unfolding adopt_all adopt_one
    adopt_all-IsSound [] s within ok = ok
    adopt_all-IsSound (wh ∷ hooks) s within ok =
        adopt_all-IsSound hooks (adopt_one env expiration user_id user local_ids wh s)
          (λ w k. within w (inr k))
          (if_cases IsSound (is_among wh.id local_ids) (λ _. ok)
            (λ new.
              adopt-IsSound wh s (lookup wh.jql_filter s.sub_by_jql) refl (within wh (inl refl)) new
                ok))
