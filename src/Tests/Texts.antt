-- ===== src/Tests/Texts.antt =====
-- The escaping of texts, the documents of comments, and the stripping of queries.
use jira_bot.Base.{◌≡◌, ◌↔◌, [], none, some, Has, Text, text_eq, codes}
use jira_bot.Format.{escape_markdown_v2, strip_markdown_escapes}
use jira_bot.Format.RoundTrip.{strip-escape_v2}
use jira_bot.Jira.Adf.{node, Nodes, nil, cons, extract_mention_ids}
use jira_bot.Jira.Adf.Mentions.{MentionsIn, extract_mention_ids_iff}
use jira_bot.Poller.Jql.Stripping.{turned_upper, ordered}

strip-escape_v2_example :
    strip_markdown_escapes (escape_markdown_v2 (codes "a_b (c) \\ !")) ≡ codes "a_b (c) \\ !"
strip-escape_v2_example = strip-escape_v2 (codes "a_b (c) \\ !")

-- A paragraph that mentions one account.
abbrev paragraph : Nodes
paragraph =
    cons
      (node (codes "paragraph") [] none none
        (cons (node (codes "mention") [] (some (codes "u1")) none nil) nil))
      nil

extract_mention_ids_iff_example :
    (Has (codes "u1") (extract_mention_ids (some paragraph)) ↔ MentionsIn (codes "u1") paragraph)
    × (extract_mention_ids none ≡ [])
extract_mention_ids_iff_example = extract_mention_ids_iff (codes "u1") paragraph

abbrev same_text : Text → Text
same_text s = s

-- Upper case as Go's, on the one text.
abbrev upper_of_turned : Text → Text
upper_of_turned s = turned_upper 12 ordered
