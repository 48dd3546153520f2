-- ===== src/Poller/Send.antt =====
-- `sendPendingNotification`, `renderComments` and `truncateRunes`. `tr` is `locale.T` with its
-- tables, `trim` is `strings.TrimSpace`.
pub mod Decision
use jira_bot.Base.{
  ℕ, ◌+◌, ◌-◌, ◌≤◌, Bool, true, false, ◌&&◌, ◌||◌, not, List, [], ◌∷◌, ◌++◌, map, Option, none,
  some, ltb, leb, if◌then◌else◌, Text, ℤ, pos, text_eq, ◌==◌, codes, length, take,
}
use jira_bot.Base.Decimal.{decimal}
use jira_bot.Format.{escape_markdown}
use jira_bot.Locale.{Lang}
use jira_bot.Jira.Adf.{extract_text}
use jira_bot.Jira.Models.{JiraUser, Status, Issue, Comment}
use jira_bot.NotifyDedup.Guard.{Guard, allow}
use jira_bot.Notifier.{Request}
use jira_bot.Poller.Changes.{change_display_value, is_empty, comment_activity_time}
use jira_bot.Poller.Pending.{MergedChange, PendingNotification, is_nil, entries}

abbrev pub arrow : Text
arrow = codes " → "

abbrev pub line : Text → Text → Text
line label value = label ++ codes ": " ++ value ++ codes "\n"

-- `truncateRunes(s, max)` for `max` at least 1
unfoldable pub truncate_body : Text → ℕ → Text
truncate_body s max = if leb (length s) max then s else take max s ++ codes "…"

abbrev pub join : Text → List Text → Text
join sep [] = []
join sep (x ∷ []) = x
join sep (x ∷ y ∷ ys) = x ++ sep ++ join sep (y ∷ ys)

-- Oldest activity first, the zero time before all others; ties by id, compared by code points.
abbrev pub text_before : Text → Text → Bool
text_before s [] = false
text_before [] (d ∷ t) = true
text_before (c ∷ s) (d ∷ t) = if ltb c d then true else if ltb d c then false else text_before s t

abbrev pub time_before : Option ℕ → Option ℕ → Bool
time_before s none = false
time_before none (some t) = true
time_before (some s) (some t) = ltb s t

abbrev pub comes_before : Comment → Comment → Bool
comes_before a b =
    let ta = comment_activity_time a in
    let tb = comment_activity_time b in
    if not (time_before ta tb) && not (time_before tb ta)
    then text_before a.id b.id
    else time_before ta tb

unfoldable pub insert_comment : Comment → List Comment → List Comment
insert_comment c [] = c ∷ []
insert_comment c (d ∷ ds) = if comes_before d c then d ∷ insert_comment c ds else c ∷ d ∷ ds

-- `sort.Slice`, whose order `comes_before` decides for comments of distinct ids.
unfoldable pub sort_comments : List Comment → List Comment
sort_comments [] = []
sort_comments (c ∷ cs) = insert_comment c (sort_comments cs)

abbrev pub comments_rendered_max : ℕ
comments_rendered_max = 3

abbrev pub comment_snippet_max_runes : ℕ
comment_snippet_max_runes = 1000

abbrev pub author_name : Option JiraUser → Text
author_name none = []
author_name (some u) = u.display_name

-- A change is shown if its two sides read differently.
unfoldable pub is_visible : MergedChange → Bool
is_visible c =
    not (change_display_value c.from_string c.from == change_display_value c.to_string c.to)

unfoldable pub has_changes : List MergedChange → Bool
has_changes [] = false
has_changes (c ∷ cs) = is_visible c || has_changes cs

module _ (tr : Lang → Text → List Text → Text) (trim : Text → Text) where
  change_line : Lang → Text → Text → Text → Text
  change_line lang field [] [] =
      field
      ++ codes ": "
      ++ arrow
      ++ escape_markdown (tr lang (codes "notif.cleared") [])
      ++ codes "\n"
  change_line lang field [] (d ∷ to) = line field (escape_markdown (d ∷ to))
  change_line lang field (c ∷ from) [] =
      line field (
        escape_markdown (c ∷ from) ++ arrow ++ escape_markdown (tr lang (codes "notif.cleared") []))
  change_line lang field (c ∷ from) (d ∷ to) =
      line field (escape_markdown (c ∷ from) ++ arrow ++ escape_markdown (d ∷ to))

  -- The lines of the visible changes, without the newline that opens the section.
  change_lines : Lang → List MergedChange → Text
  change_lines lang [] = []
  change_lines lang (c ∷ cs) =
      (if is_visible c
        then change_line lang (escape_markdown c.field) (change_display_value c.from_string c.from)
            (change_display_value c.to_string c.to)
        else [])
      ++ change_lines lang cs

  changes_section : Lang → List MergedChange → Text
  changes_section lang cs = if has_changes cs then codes "\n" ++ change_lines lang cs else []

  comment_block : Lang → Text → Text → Text
  comment_block lang [] body =
      codes "\n"
      ++ tr lang (codes "notif.comment_prefix_anon") []
      ++ codes "\n"
      ++ escape_markdown body
      ++ codes "\n"
  comment_block lang (c ∷ author) body =
      codes "\n"
      ++ tr lang (codes "notif.comment_prefix") []
      ++ codes " "
      ++ escape_markdown (c ∷ author)
      ++ codes ":\n"
      ++ escape_markdown body
      ++ codes "\n"

  render_comment : Lang → Comment → Text
  unfolding comment_block
  render_comment lang c =
      let body = trim (extract_text c.body) in
      if is_empty body
      then []
      else comment_block lang (author_name c.author) (truncate_body body comment_snippet_max_runes)

  render_each : Lang → List Comment → Text
  render_each lang [] = []
  render_each lang (c ∷ cs) = render_comment lang c ++ render_each lang cs

  unfoldable pub render_comments : Lang → List Comment → Text
  unfolding render_comment render_each
  render_comments lang comments =
      let ordered = sort_comments comments in
      render_each lang (take comments_rendered_max ordered)
      ++ (if ltb comments_rendered_max (length ordered)
          then codes "\n"
            ++ tr lang (codes "notif.comments_more")
                (decimal (pos (length ordered - comments_rendered_max)) [] ∷ [])
            ++ codes "\n"
          else [])

  optional_line : Lang → Text → Option Text → Text
  optional_line lang key none = []
  optional_line lang key (some value) = line (tr lang key []) (escape_markdown value)

  assignee_line : Lang → Option JiraUser → Text
  assignee_line lang none =
      line (tr lang (codes "notif.assignee") []) (tr lang (codes "notif.unassigned") [])
  assignee_line lang (some u) =
      line (tr lang (codes "notif.assignee") []) (escape_markdown u.display_name)

  abbrev name_of : Option Status → Option Text
  name_of none = none
  name_of (some s) = some s.name

  abbrev display_of : Option JiraUser → Option Text
  display_of none = none
  display_of (some u) = some u.display_name

  author_text : Lang → List (Text × Text) → Text
  author_text lang [] = tr lang (codes "notif.someone") []
  author_text lang (a ∷ as') = join (codes ", ") (map (λ (p : Text × Text). p.1) (a ∷ as'))

  unfoldable pub message_text : PendingNotification → Text
  unfolding change_line change_lines changes_section optional_line assignee_line author_text
  message_text pn =
      let f = pn.issue.fields in
      let url = pn.site_url ++ codes "/browse/" ++ pn.issue_key in
      tr pn.lang (codes "notif.updates")
        (escape_markdown (author_text pn.lang pn.authors) ∷ pn.issue_key ∷ url ∷ [])
      ++ codes "\n"
      ++ changes_section pn.lang (map (λ (p : Text × MergedChange). p.1) pn.changes)
      ++ codes "\n"
      ++ line (tr pn.lang (codes "notif.summary") []) (escape_markdown f.summary)
      ++ assignee_line pn.lang f.assignee
      ++ optional_line pn.lang (codes "notif.reporter") (display_of f.reporter)
      ++ optional_line pn.lang (codes "notif.priority") f.priority
      ++ optional_line pn.lang (codes "notif.issue_type") f.issue_type
      ++ optional_line pn.lang (codes "notif.status") (name_of f.status)
      ++ render_comments pn.lang (map (λ (p : Text × Comment). p.1) pn.comments)

  unfoldable pub notification : PendingNotification → Request
  notification pn = record {
    chat_id = pn.chat_id;
    telegram_id = none;
    text = message_text pn;
    markdown = true;
    dedup_key = codes "poller:" ++ decimal pn.chat_id (b':' ∷ pn.issue_key);
    reason = codes "poller:change_detected";
  }

  abbrev pub visible_changes : PendingNotification → Bool
  visible_changes pn = has_changes (map (λ (p : Text × MergedChange). p.1) pn.changes)

  abbrev sent_if : Guard × Bool → Request → Guard × Option Request
  sent_if (g, false) req = (g, none)
  sent_if (g, true) req = (g, some req)

  -- The guard's new state and the request handed to the notifier, if any. The guard's clock is read
  -- at `now` and `later`.
  unfoldable pub send_pending : Guard → PendingNotification → ℕ → ℕ → Guard × Option Request
  send_pending g pn now later =
      if not (visible_changes pn) && not pn.is_mention
      then (g, none)
      else sent_if (allow g pn.chat_id pn.issue_key now later) (notification pn)
