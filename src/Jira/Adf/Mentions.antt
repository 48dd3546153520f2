-- ===== src/Jira/Adf/Mentions.antt =====
-- The extraction finds exactly the accounts that are mentioned in the tree.
use jira_bot.Base.{
  ◌≢◌, codes, ◌==◌, ==_iff, list_beq, Option-cases, Bool-cases, ◌∷◌, arith, ◌≡◌, refl, ap, sym, ◌⊎◌,
  inl, inr, ◌↔◌, List, [], Option, none, some, Text, text_eq, Has, Has-append_left,
  Has-append_right, Has-append_cases,
}
use jira_bot.Jira.Adf.{
  Node, node, Nodes, nil, cons, own_mention, nonempty, first_of_two, mention_or,
  extract_node_mentions, extract_nodes_mentions, extract_mention_ids,
}

-- The node names an account itself: a mention with an "id", or else an "accountId", that is not
-- empty.
pub data Names (account kind : Text) (id account_id : Option Text) : Type 0 where
  by_id :
      kind ≡ codes "mention" → id ≡ some account → account ≢ [] → Names account kind id account_id
  by_account_id :
      kind ≡ codes "mention"
      → (id ≡ none) ⊎ (id ≡ some [])
      → account_id ≡ some account
      → account ≢ []
      → Names account kind id account_id

mutual
  -- A node mentions an account by its own attributes, or else in its content: what is inside of a
  -- node that names an account is not looked at.
  pub data Mentions (account : Text) : Node → Type 0 where
    own :
        {kind text : Text} {id account_id : Option Text} {content : Nodes}
        → Names account kind id account_id
        → Mentions account (node kind text id account_id content)
    below :
        {kind text : Text} {id account_id : Option Text} {content : Nodes}
        → ((other : Text) → ¬ Names other kind id account_id)
        → MentionsIn account content
        → Mentions account (node kind text id account_id content)

  pub data MentionsIn (account : Text) : Nodes → Type 0 where
    here : {n : Node} {ns : Nodes} → Mentions account n → MentionsIn account (cons n ns)
    later : {n : Node} {ns : Nodes} → MentionsIn account ns → MentionsIn account (cons n ns)

own_mention-Names :
    (account kind : Text) (id account_id : Option Text)
    → own_mention kind id account_id ≡ some account
    → Names account kind id account_id
unfolding own_mention
own_mention-Names account kind id account_id e = elim (Bool-cases (kind == codes "mention")) [
  | inr other ↦ let h = rw other at e in ground arith
  | inl same ↦ by_attrs id account_id ((==_iff kind (codes "mention")).0 same) (rw same at e)
]
  where
    by_attrs :
        (id account_id : Option Text)
        → kind ≡ codes "mention"
        → first_of_two (nonempty id) (nonempty account_id) ≡ some account
        → Names account kind id account_id
    by_attrs none none k e = ground arith
    by_attrs none (some []) k e = ground arith
    by_attrs none (some (c ∷ s)) k e = by_account_id k (inl refl) e (λ h. ground arith)
    by_attrs (some []) none k e = ground arith
    by_attrs (some []) (some []) k e = ground arith
    by_attrs (some []) (some (c ∷ s)) k e = by_account_id k (inr refl) e (λ h. ground arith)
    by_attrs (some (c ∷ s)) account_id k e = by_id k e (λ h. ground arith)

nonempty-some : (account : Text) → account ≢ [] → nonempty (some account) ≡ some account
nonempty-some [] h = absurd (h refl)
nonempty-some (c ∷ s) h = refl

Names-own_mention :
    {account kind : Text} {id account_id : Option Text}
    → Names account kind id account_id
    → own_mention kind id account_id ≡ some account
unfolding own_mention list_beq
Names-own_mention {account} (by_id k e ne) = rw (k, e, nonempty-some account ne) refl
Names-own_mention {account} (by_account_id k (inl a) e ne) =
    rw (k, a, e, nonempty-some account ne) refl
Names-own_mention {account} (by_account_id k (inr a) e ne) =
    rw (k, a, e, nonempty-some account ne) refl

own_mention-none :
    (kind : Text) (id account_id : Option Text)
    → own_mention kind id account_id ≡ none
    → (other : Text) → ¬ Names other kind id account_id
own_mention-none kind id account_id e other n = let h = Names-own_mention n in cc

nobody-own_mention :
    (kind : Text) (id account_id : Option Text)
    → ((other : Text) → ¬ Names other kind id account_id)
    → own_mention kind id account_id ≡ none
nobody-own_mention kind id account_id h = elim (Option-cases (own_mention kind id account_id)) [
  | inl e ↦ e
  | inr (a, e) ↦ absurd (h a (own_mention-Names a kind id account_id e))
]

mention_or-Has :
    {account : Text} (o : Option Text) (rest : List Text)
    → Has account (mention_or o rest)
    → (o ≡ some account) ⊎ ((o ≡ none) × Has account rest)
mention_or-Has none rest h = inr (refl, h)
mention_or-Has (some id) rest (inl e) = inl (ap some (sym e))
mention_or-Has (some id) rest (inr h) = absurd h

mutual
  unfolding extract_node_mentions

  sound : (account : Text) (n : Node) → Has account (extract_node_mentions n) → Mentions account n
  sound account (node kind text id account_id content) h =
      elim (mention_or-Has (own_mention kind id account_id) (extract_nodes_mentions content) h) [
        | inl e ↦ own (own_mention-Names account kind id account_id e)
        | inr k ↦ below (own_mention-none kind id account_id k.0) (sound_in account content k.1)
      ]

  sound_in :
      (account : Text) (ns : Nodes)
      → Has account (extract_nodes_mentions ns)
      → MentionsIn account ns
  sound_in account nil h = absurd h
  sound_in account (cons n ns) h =
      elim (Has-append_cases account (extract_node_mentions n) (extract_nodes_mentions ns) h) [
        | inl k ↦ here (sound account n k)
        | inr k ↦ later (sound_in account ns k)
      ]

mutual
  unfolding extract_node_mentions

  complete :
      {account : Text} {n : Node} → Mentions account n → Has account (extract_node_mentions n)
  complete (own n) = rw (Names-own_mention n) (inl refl)
  complete (below {kind} {text} {id} {account_id} {content} e m) =
      rw (nobody-own_mention kind id account_id e) (complete_in m)

  complete_in :
      {account : Text} {ns : Nodes}
      → MentionsIn account ns
      → Has account (extract_nodes_mentions ns)
  complete_in {account} (here {n} {ns} m) =
      Has-append_left account (extract_node_mentions n) (extract_nodes_mentions ns) (complete m)
  complete_in {account} (later {n} {ns} m) =
      Has-append_right account (extract_node_mentions n) (extract_nodes_mentions ns) (complete_in m)

-- `ExtractMentionIDs` lists an account exactly when a mention in the document names it, at whatever
-- depth, that does not stand inside of another mention that names an account; a nil document mentions
-- nobody.
pub extract_mention_ids_iff :
    (account : Text) (content : Nodes)
    → (Has account (extract_mention_ids (some content)) ↔ MentionsIn account content)
      × (extract_mention_ids none ≡ [])
unfolding extract_mention_ids
extract_mention_ids_iff account content = ((sound_in account content, complete_in), refl)
