-- ===== src/Daily/Failure.antt =====
-- When there is a daily text.
use jira_bot.Base.{
  ◌≡◌, refl, Bool, true, false, not, ◌&&◌, [], ◌∷◌, Option, none, some, if◌then◌else◌, Text,
  is_some, ◌⊎◌, arith, ◌↔◌,
}
use jira_bot.Locale.{Lang}
use jira_bot.Storage.{User}
use jira_bot.Daily.{Search, max_results, format_text, build_with_jql}

is_some_not : {A : Type 0} (o : Option A) → (is_some o ≡ false) ↔ (o ≡ none)
is_some_not none = (λ h. refl, λ h. refl)
is_some_not (some a) = (λ h. ground arith, λ h. ground arith)

none_or_some : {A : Type 0} (b : Bool) (a : A) → ((if b then none else some a) ≡ none) ↔ (b ≡ true)
none_or_some true a = (λ h. refl, λ h. refl)
none_or_some false a = (λ h. ground arith, λ h. ground arith)

-- The daily text fails to be built exactly where the search for what is done fails, that for what is being done fails, and no plan
-- is asked for or its search fails too; one search that succeeds is enough.
pub build_with_jql-none_iff :
    (say : Lang → Text → Text) (search : Search) (user : User) (lang : Lang)
    (display_name done_jql doing_jql plan_jql : Text)
    → (build_with_jql say search user lang display_name done_jql doing_jql plan_jql ≡ none) ↔ (
        (search user done_jql max_results ≡ none)
        × ((search user doing_jql max_results ≡ none)
            × ((plan_jql ≡ []) ⊎ (search user plan_jql max_results ≡ none))))
unfolding build_with_jql
build_with_jql-none_iff say search user lang display_name done_jql doing_jql [] =
    let done = search user done_jql max_results in
    let doing = search user doing_jql max_results in
    let failed =
      none_or_some (not (is_some done) && not (is_some doing) && true)
        (format_text say lang user.jira_site_url display_name done doing none) in
    (
      λ h. let b = failed.0 h in ground (arith, is_some_not done, is_some_not doing),
      λ h. failed.1 (ground (arith, is_some_not done, is_some_not doing)),
    )
build_with_jql-none_iff say search user lang display_name done_jql doing_jql (c ∷ plan_jql) =
    let done = search user done_jql max_results in
    let doing = search user doing_jql max_results in
    let plan = search user (c ∷ plan_jql) max_results in
    let failed =
      none_or_some (not (is_some done) && not (is_some doing) && not (is_some plan))
        (format_text say lang user.jira_site_url display_name done doing plan) in
    (
      λ h.
          let b = failed.0 h in
          ground (arith, is_some_not done, is_some_not doing, is_some_not plan),
      λ h. failed.1 (ground (arith, is_some_not done, is_some_not doing, is_some_not plan)),
    )
