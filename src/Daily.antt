-- ===== src/Daily.antt =====
-- internal/daily/daily.go: the daily standup text. The messages' tables, `fmt.Sprintf` and what Jira answers are arguments.
pub mod Failure
use jira_bot.Base.{
  ℕ, Bool, true, false, not, ◌&&◌, ◌||◌, List, [], ◌∷◌, ◌++◌, Option, none, some, if◌then◌else◌,
  Text, codes, is_some,
}
use jira_bot.Format.{escape_markdown}
use jira_bot.Jira.Models.{Issue}
use jira_bot.Locale.{Lang}
use jira_bot.Poller.Changes.{is_empty}
use jira_bot.Storage.{User}

pub record SearchResult : Type 0 where
  pub total : ℕ
  pub issues : List Issue

abbrev pub max_results : ℕ
max_results = 50

-- `SearchIssues` for a user, a query and a number of results; `none` is an error.
abbrev pub Search : Type 0
Search = User → Text → ℕ → Option SearchResult

abbrev or_default : Text → Text → Text
or_default [] text = text
or_default (c ∷ s) text = c ∷ s

-- `yesterday` is the date of the day before, quoted by `%q`.
unfoldable pub queries : (yesterday : Text) → User → Text × Text × Text
queries yesterday user = (
  or_default user.daily_done_jql (
      codes "\"Developer[User Picker (single user)]\" = currentUser() AND updated >= "
      ++ yesterday
      ++ codes
          " AND status IN (Closed, \"Code review\", \"Ready for testing\", \"Ready for release\") ORDER BY updated DESC"),
  or_default user.daily_doing_jql (
      codes
        "\"Developer[User Picker (single user)]\" = currentUser() AND status = \"In Progress\" ORDER BY updated DESC"),
  or_default user.daily_plan_jql (
      codes
        "assignee = currentUser() AND status = \"Ready for development\" AND type IN (\"Dev Task\", Bug) ORDER BY updated DESC"),
)

unfoldable pub write_issue_link : Text → Issue → Text
write_issue_link site_url issue =
    codes "- ["
    ++ issue.key
    ++ codes "]("
    ++ site_url
    ++ codes "/browse/"
    ++ issue.key
    ++ codes ") "
    ++ escape_markdown issue.fields.summary
    ++ codes "\n"

unfoldable pub issue_links : Text → List Issue → Text
issue_links site_url [] = []
issue_links site_url (issue ∷ issues) =
    write_issue_link site_url issue ++ issue_links site_url issues

abbrev issues_or_text : Text → Text → List Issue → Text
issues_or_text site_url empty [] = empty ++ codes "\n\n"
issues_or_text site_url empty (issue ∷ issues) = issue_links site_url (issue ∷ issues)

abbrev block : Text → Text → Option SearchResult → Text
block site_url empty none = empty ++ codes "\n\n"
block site_url empty (some result) = issues_or_text site_url empty result.issues

-- The plan is left out where it was not asked for or could not be read.
abbrev plan_block : Text → Text → Option SearchResult → Text
plan_block site_url empty none = []
plan_block site_url empty (some result) = issues_or_text site_url empty result.issues

abbrev header : Text → Text
header [] = codes "#daily\n"
header (c ∷ name) = codes "#daily (" ++ escape_markdown (c ∷ name) ++ codes ")\n"

-- `say` is `locale.T` without arguments.
module _ (say : Lang → Text → Text) where
  unfoldable pub format_text :
      Lang → (site_url display_name : Text) → (done doing plan : Option SearchResult) → Text
  format_text lang site_url display_name done doing plan =
      header display_name
      ++ codes "\n"
      ++ say lang (codes "daily.done")
      ++ codes ":\n"
      ++ block site_url (say lang (codes "daily.no_done")) done
      ++ codes "\n"
      ++ say lang (codes "daily.doing")
      ++ codes ":\n"
      ++ block site_url (say lang (codes "daily.no_doing")) doing
      ++ codes "\n"
      ++ say lang (codes "daily.plan")
      ++ codes ":\n"
      ++ plan_block site_url (say lang (codes "daily.no_plan")) plan

  abbrev pub search_plan : Search → User → Text → Option SearchResult
  search_plan search user [] = none
  search_plan search user (c ∷ jql) = search user (c ∷ jql) max_results

  unfoldable pub build_with_jql :
      Search → User → Lang → (display_name done_jql doing_jql plan_jql : Text) → Option Text
  build_with_jql search user lang display_name done_jql doing_jql plan_jql =
      let done = search user done_jql max_results in
      let doing = search user doing_jql max_results in
      let plan = search_plan search user plan_jql in
      if not (is_some done) && not (is_some doing) && (is_empty plan_jql || not (is_some plan))
      then none
      else some (format_text lang user.jira_site_url display_name done doing plan)

  unfoldable pub build :
      Search → (yesterday : Text) → User → Lang → (display_name : Text) → Option Text
  build search yesterday user lang display_name =
      let q = queries yesterday user in build_with_jql search user lang display_name q.0 q.1 q.2
