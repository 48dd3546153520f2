-- ===== src/Preferences/Bearer.antt =====
-- internal/preferences/server.go: `authorized`, against the header that a client has to send.
use jira_bot.Base.{
  ◌≡◌, refl, ap, ◌∙◌, ◌⊎◌, inl, inr, Bool-cases, true, [], ◌∷◌, ◌++◌, Text, codes, arith, text_eq,
  list_beq, ◌==◌, ==_iff, ==_refl, drop, length, nat_beq_iff,
}
use jira_bot.Poller.Jql.{has_prefix}
use jira_bot.Preferences.{Request, auth_scheme, is_authorized}

-- No token is configured, or the header is the scheme and then the token.
abbrev pub HasToken : Text → Request → Type 0
HasToken token r = (token ≡ []) ⊎ (r.authorization ≡ codes "Bearer " ++ token)

prefix-append : (p s : Text) → has_prefix p s ≡ true → s ≡ p ++ drop (length p) s
unfolding has_prefix
prefix-append [] s h = refl
prefix-append (c ∷ p) [] h = ground arith
prefix-append (c ∷ p) (d ∷ s) h = ground (arith, nat_beq_iff c d, prefix-append p s)

has_prefix-append : (p s : Text) → has_prefix p (p ++ s) ≡ true
unfolding has_prefix
has_prefix-append [] s = refl
has_prefix-append (c ∷ p) s = ground (arith, nat_beq_iff c c, has_prefix-append p s)

drop-append : (p s : Text) → drop (length p) (p ++ s) ≡ s
drop-append [] s = refl
drop-append (c ∷ p) s = drop-append p s

pub is_authorized-HasToken :
    (token : Text) (r : Request) → is_authorized token r ≡ true → HasToken token r
unfolding is_authorized
is_authorized-HasToken token r h = elim (Bool-cases (token == [])) [
  | inl e ↦ inl ((==_iff token []).0 e)
  | inr e ↦ elim (Bool-cases (has_prefix auth_scheme r.authorization)) [
    | inr other ↦ let h' = rw (e, other) at h in ground arith
    | inl scheme ↦
        let same =
          (==_iff (drop (length auth_scheme) r.authorization) token).0 (rw (e, scheme) at h) in
        inr (prefix-append auth_scheme r.authorization scheme ∙ ap (λ s. auth_scheme ++ s) same)
  ]
]

pub HasToken-is_authorized :
    (token : Text) (r : Request) → HasToken token r → is_authorized token r ≡ true
unfolding is_authorized list_beq
HasToken-is_authorized token r (inl e) = rw e refl
HasToken-is_authorized token r (inr e) = elim (Bool-cases (token == [])) [
  | inl none_set ↦ rw none_set refl
  | inr set ↦
      rw (set, e, has_prefix-append auth_scheme token, drop-append auth_scheme token, ==_refl token)
        refl
]
