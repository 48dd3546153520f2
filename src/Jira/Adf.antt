-- ===== src/Jira/Adf.antt =====
-- Atlassian Document Format trees: `ADFDocument`, `ADFNode` and the two extractions of models.go.
-- Of a node's attributes only the string values of "id" and "accountId" are read; a missing key and
-- a value of another type are both `none`.
pub mod Mentions
use jira_bot.Base.{
  ◌≡◌, Bool, List, [], ◌∷◌, ◌++◌, Option, none, some, ◌||◌, if◌then◌else◌, Text, text_eq, ◌==◌,
  codes,
}

mutual
  pub data Node : Type 0 where
    node : (kind text : Text) (id account_id : Option Text) (content : Nodes) → Node

  pub data Nodes : Type 0 where
    nil : Nodes
    cons : Node → Nodes → Nodes

-- `id, ok := node.Attrs[…].(string); ok && id != ""`
abbrev pub nonempty : Option Text → Option Text
nonempty none = none
nonempty (some []) = none
nonempty (some (c ∷ s)) = some (c ∷ s)

abbrev pub first_of_two : Option Text → Option Text → Option Text
first_of_two none b = b
first_of_two (some a) b = some a

-- The account that the node itself mentions, if any.
unfoldable pub own_mention : Text → Option Text → Option Text → Option Text
own_mention kind id account_id =
    if kind == codes "mention" then first_of_two (nonempty id) (nonempty account_id) else none

abbrev pub mention_or : Option Text → List Text → List Text
mention_or none below = below
mention_or (some id) below = id ∷ []

unfoldable mutual
  pub extract_node_mentions : Node → List Text
  extract_node_mentions (node kind text id account_id content) =
      mention_or (own_mention kind id account_id) (extract_nodes_mentions content)

  pub extract_nodes_mentions : Nodes → List Text
  extract_nodes_mentions nil = []
  extract_nodes_mentions (cons n ns) = extract_node_mentions n ++ extract_nodes_mentions ns

unfoldable mutual
  pub extract_node_text : Node → Text
  extract_node_text (node kind [] id account_id content) =
      extract_nodes_text content
      ++ (if kind == codes "paragraph" || kind == codes "heading" then codes "\n" else [])
  extract_node_text (node kind (c ∷ s) id account_id content) = c ∷ s

  pub extract_nodes_text : Nodes → Text
  extract_nodes_text nil = []
  extract_nodes_text (cons n ns) = extract_node_text n ++ extract_nodes_text ns

-- A document is nil or has content.
unfoldable pub extract_mention_ids : Option Nodes → List Text
extract_mention_ids none = []
extract_mention_ids (some content) = extract_nodes_mentions content

pub extract_text : Option Nodes → Text
extract_text none = []
extract_text (some content) = extract_nodes_text content
