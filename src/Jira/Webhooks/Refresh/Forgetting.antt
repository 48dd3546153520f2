-- ===== src/Jira/Webhooks/Refresh/Forgetting.antt =====
-- Which rows a refresh deletes.
use jira_bot.Base.{
  ℕ, ◌≡◌, ◌≢◌, refl, sym, ap, subst, ◌∙◌, true, not, [], ◌∷◌, ◌++◌, Option, none, some, Text,
  int_eq, text_eq, ◌==◌, ==_iff, ==_refl, lookup, insert, lookup-insert, arith, Bool-cases, inl,
  inr, Has, Has-append_right, Has-append_left, Has-keep_of, Has-map_of, if_either, ◌⊎◌,
}
use jira_bot.Storage.{User}
use jira_bot.Storage.Registrations.{
  WebhookRegistration, Rows, delete, update_expiry, with_expiry, get_expiring_before,
}
use jira_bot.Jira.Webhooks.Manager.{connected, webhook_ids}
use jira_bot.Jira.Webhooks.Requests.{
  RefreshOutcome, unchanged, extended, http_error, other_error, is_webhook_gone,
}
use jira_bot.Jira.Webhooks.Refresh.{
  RefreshEnv, Groups, rows_or_empty, group_by_user, drop_rows, update_rows, settle, refresh_user,
  refresh_groups, refresh_expiring,
}
use jira_bot.Jira.Webhooks.Refresh.Survival.{Survives, with_expiry-id}

delete-Survives_of :
    (id j : Text) (rows : Rows) → Survives id (delete j rows) → Survives id rows × (j ≢ id)
unfolding delete
delete-Survives_of id j rows s =
    let (has, differs) = Has-keep_of s.row (λ r. not (r.id == j)) rows s.is_there in
    (
      record { row = s.row; is_there = has; same_id = s.same_id },
      λ same. clash s.row (s.same_id ∙ sym same) differs,
    )
  where
    clash : (r : WebhookRegistration) → r.id ≡ j → not (r.id == j) ≡ true → ⊥
    clash r same differs = ground (arith, ==_iff r.id j)

update-Survives_of :
    (now : ℕ) (id j : Text) (t : ℕ) (rows : Rows)
    → Survives id (update_expiry now j t rows)
    → Survives id rows
unfolding update_expiry
update-Survives_of now id j t rows s =
    let (r, (has, same)) = Has-map_of (with_expiry now j t) s.row rows s.is_there in
    record {
      row = r;
      is_there = has;
      same_id =
          sym (with_expiry-id now j t r) ∙ ap (λ (q : WebhookRegistration). q.id) same ∙ s.same_id;
    }

module _ (env : RefreshEnv) (id : Text) where
  drop_rows-Survives_of :
      (regs rows : Rows) → Survives id (drop_rows env regs rows) → Survives id rows
  unfolding drop_rows
  drop_rows-Survives_of [] rows s = s
  drop_rows-Survives_of (q ∷ regs) rows s =
      if_either (λ rs. Survives id rs → Survives id rows) (env.delete_ok q.id)
        (λ k. (delete-Survives_of id q.id rows k).0) (λ k. k) (drop_rows-Survives_of regs _ s)

  update_rows-Survives_of :
      (t : ℕ) (regs rows : Rows) → Survives id (update_rows env t regs rows) → Survives id rows
  unfolding update_rows
  update_rows-Survives_of t [] rows s = s
  update_rows-Survives_of t (q ∷ regs) rows s =
      if_either (λ rs. Survives id rs → Survives id rows) (env.update_ok q.id)
        (λ k. update-Survives_of env.now id q.id t rows k) (λ k. k)
        (update_rows-Survives_of t regs _ s)

  refresh_user-Survives_of :
      (regs rows : Rows) (o : Option User)
      → Survives id (refresh_user env regs o rows)
      → Survives id rows
  unfolding refresh_user
  refresh_user-Survives_of regs rows none s = drop_rows-Survives_of regs rows s
  refresh_user-Survives_of regs rows (some u) s = by_outcome (env.refresh u (webhook_ids regs)) s
    where
      by_outcome : (o : RefreshOutcome) → Survives id (settle env regs o rows) → Survives id rows
      by_outcome unchanged s = update_rows-Survives_of 0 regs rows (unfold settle in s)
      by_outcome (extended t) s = update_rows-Survives_of t regs rows (unfold settle in s)
      by_outcome (http_error status) s =
          if_either (λ rs. Survives id rs → Survives id rows) (is_webhook_gone (http_error status))
            (drop_rows-Survives_of regs rows) (λ k. k) (unfold settle in s)
      by_outcome other_error s =
          if_either (λ rs. Survives id rs → Survives id rows) (is_webhook_gone other_error)
            (drop_rows-Survives_of regs rows) (λ k. k) (unfold settle in s)

  refresh_groups-Survives_of :
      (groups : Groups) (rows : Rows)
      → Survives id (refresh_groups env groups rows)
      → Survives id rows
  unfolding refresh_groups
  refresh_groups-Survives_of [] rows s = s
  refresh_groups-Survives_of ((user, regs) ∷ groups) rows s =
      refresh_user-Survives_of regs rows (connected (env.get_user user))
        (refresh_groups-Survives_of groups _ s)

  module _ (q : WebhookRegistration) (same_id : q.id ≡ id)
      (deletes : env.delete_ok q.id ≡ true) where
    drop_rows-forgets : (regs rows : Rows) → Has q regs → Survives id (drop_rows env regs rows) → ⊥
    unfolding drop_rows
    drop_rows-forgets [] rows has s = absurd has
    drop_rows-forgets (r ∷ regs) rows (inl same) s =
        let deletes_r : env.delete_ok r.id ≡ true =
          subst (λ (x : WebhookRegistration). env.delete_ok x.id ≡ true) same deletes in
        let left : Survives id (delete r.id rows) =
          drop_rows-Survives_of regs (delete r.id rows) (rw deletes_r at s) in
        (delete-Survives_of id r.id rows left).1
          (ap (λ (x : WebhookRegistration). x.id) (sym same) ∙ same_id)
    drop_rows-forgets (r ∷ regs) rows (inr has) s = drop_rows-forgets regs _ has s

    -- The group of the row's user holds the row.
    abbrev IsGrouped : Groups → Type 0
    IsGrouped groups = (regs : Rows) × ((lookup q.telegram_user_id groups ≡ some regs) × Has q regs)

    refresh_groups-forgets :
        (groups : Groups) (rows : Rows)
        → connected (env.get_user q.telegram_user_id) ≡ none
        → IsGrouped groups
        → Survives id (refresh_groups env groups rows)
        → ⊥
    unfolding refresh_groups lookup
    refresh_groups-forgets [] rows gone (regs, (e, has)) s = ground arith
    refresh_groups-forgets ((user, mine) ∷ groups) rows gone (regs, (e, has)) s =
        elim (Bool-cases (user == q.telegram_user_id)) [
          | inl same ↦
              let found : mine ≡ regs = rows_injective (rw same at e) in
              let who : connected (env.get_user user) ≡ none =
                subst (λ u. connected (env.get_user u) ≡ none)
                  (sym ((==_iff user q.telegram_user_id).0 same)) gone in
              let left = refresh_groups-Survives_of groups _ s in
              drop_rows-forgets mine rows (subst (Has q) (sym found) has) (
                unfold refresh_user in
                subst (λ o. Survives id (refresh_user env mine o rows)) who left)
          | inr other ↦ refresh_groups-forgets groups _ gone (regs, (rw other at e, has)) s
        ]
      where
        rows_injective : {a b : Rows} → some a ≡ some b → a ≡ b
        rows_injective h = ground arith

    insert-IsGrouped :
        (r : WebhookRegistration) (groups : Groups)
        → (IsGrouped groups ⊎ (q ≡ r))
        → IsGrouped (
            insert r.telegram_user_id
              (rows_or_empty (lookup r.telegram_user_id groups) ++ r ∷ [])
              groups)
    insert-IsGrouped r groups (inr same) =
        let mine = rows_or_empty (lookup r.telegram_user_id groups) ++ r ∷ [] in
        (
          mine,
          (
            rw (lookup-insert r.telegram_user_id q.telegram_user_id mine groups)
                (rw (sym same, ==_refl q.telegram_user_id) refl),
            Has-append_right q (rows_or_empty (lookup r.telegram_user_id groups)) (r ∷ [])
                (inl same),
          ),
        )
    insert-IsGrouped r groups (inl (regs, (e, has))) =
        let mine = rows_or_empty (lookup r.telegram_user_id groups) ++ r ∷ [] in
        elim (Bool-cases (r.telegram_user_id == q.telegram_user_id)) [
          | inl same ↦ (
            mine,
            (
              rw (lookup-insert r.telegram_user_id q.telegram_user_id mine groups, same) refl,
              Has-append_left q (rows_or_empty (lookup r.telegram_user_id groups)) (r ∷ []) (
                  subst (λ u. Has q (rows_or_empty (lookup u groups)))
                    (sym ((==_iff r.telegram_user_id q.telegram_user_id).0 same))
                    (subst (λ o. Has q (rows_or_empty o)) (sym e) has)),
            ),
          )
          | inr other ↦ (
            regs,
            (rw (lookup-insert r.telegram_user_id q.telegram_user_id mine groups, other) e, has),
          )
        ]

    group_by_user-IsGrouped :
        (regs : Rows) (groups : Groups)
        → (IsGrouped groups ⊎ Has q regs)
        → IsGrouped (group_by_user regs groups)
    unfolding group_by_user
    group_by_user-IsGrouped [] groups (inl g) = g
    group_by_user-IsGrouped [] groups (inr has) = absurd has
    group_by_user-IsGrouped (r ∷ regs) groups (inl g) =
        group_by_user-IsGrouped regs _ (inl (insert-IsGrouped r groups (inl g)))
    group_by_user-IsGrouped (r ∷ regs) groups (inr (inl same)) =
        group_by_user-IsGrouped regs _ (inl (insert-IsGrouped r groups (inr same)))
    group_by_user-IsGrouped (r ∷ regs) groups (inr (inr has)) =
        group_by_user-IsGrouped regs _ (inr has)

-- An expiring row is lost whenever its user is not read as connected, so also where reading the user fails for a moment:
-- where its deletion succeeds, no row stands under its identifier afterwards.
pub refresh_expiring_forgets :
    (env : RefreshEnv) (threshold : ℕ) (rows : Rows) (q : WebhookRegistration)
    → Has q (get_expiring_before threshold rows)
    → connected (env.get_user q.telegram_user_id) ≡ none
    → env.delete_ok q.id ≡ true
    → Survives q.id (refresh_expiring env threshold rows)
    → ⊥
unfolding refresh_expiring
refresh_expiring_forgets env threshold rows q has gone deletes s =
    refresh_groups-forgets env q.id q refl deletes _ rows gone
      (group_by_user-IsGrouped env q.id q refl deletes (get_expiring_before threshold rows) []
        (inr has))
      s
