-- ===== src/Format/RoundTrip.antt =====
-- Stripping undoes escaping.
use jira_bot.Base.{
  ℕ, ◌≡◌, ◌≢◌, ◌⊎◌, ◌∙◌, and_true, refl, ap, true, false, ◌&&◌, List, [], ◌∷◌, none, some, arith,
  inl, inr, Bool-cases, ltb, if◌then◌else◌, All, Text, codes,
}
use jira_bot.Format.{
  first_match, replace_from, escaping, unescaping, markdown_special, markdown_v2_special,
  contains_rune, escape_markdown, escape_markdown_v2, escape_markdown_v2_url,
  strip_markdown_escapes,
}

abbrev strip_pairs : List (Text × Text)
strip_pairs = unescaping (codes "_*`[]()~>#+-=|{}.!\\")

-- A backslash before a reserved code point goes, the code point stays.
strip_escaped :
    (c : ℕ) (s : Text)
    → contains_rune markdown_v2_special c ≡ true
    → replace_from 0 strip_pairs (b'\\' ∷ c ∷ s) ≡ c ∷ replace_from 0 strip_pairs s
unfolding replace_from first_match contains_rune
strip_escaped c s h = ground arith

strip_plain :
    (c : ℕ) (s : Text)
    → c ≢ b'\\'
    → replace_from 0 strip_pairs (c ∷ s) ≡ c ∷ replace_from 0 strip_pairs s
unfolding replace_from first_match
strip_plain c s h = ground arith

backslash_special : contains_rune markdown_v2_special b'\\' ≡ true
unfolding contains_rune
backslash_special = refl

-- Stripping gives back the text that was escaped for MarkdownV2.
pub strip-escape_v2 : (s : Text) → strip_markdown_escapes (escape_markdown_v2 s) ≡ s
unfolding strip_markdown_escapes escape_markdown_v2
strip-escape_v2 [] = refl
strip-escape_v2 (r ∷ s) = elim (Bool-cases (ltb r 128 && contains_rune markdown_v2_special r)) [
  | inl e ↦
      rw e (strip_escaped r (escape_markdown_v2 s) (and_true e).1 ∙ ap (◌∷◌ r) (strip-escape_v2 s))
  | inr e ↦ rw e (strip_plain r (escape_markdown_v2 s) (plain e) ∙ ap (◌∷◌ r) (strip-escape_v2 s))
]
  where
    plain : (ltb r 128 && contains_rune markdown_v2_special r) ≡ false → r ≢ b'\\'
    plain e same = ground (arith, backslash_special)

first_match-escaping :
    (cs : Text) (c : ℕ) (s : Text)
    → first_match (escaping cs) (c ∷ s)
      ≡ (if contains_rune cs c then some (c ∷ [], b'\\' ∷ c ∷ []) else none)
unfolding first_match contains_rune
first_match-escaping [] c s = refl
first_match-escaping (d ∷ cs) c s = ground (arith, first_match-escaping cs c s)

-- One step of a replacer that puts a backslash before each of the code points `cs`.
replace-escaping :
    (cs : Text) (c : ℕ) (s : Text)
    → replace_from 0 (escaping cs) (c ∷ s) ≡ (
        if contains_rune cs c
        then b'\\' ∷ c ∷ replace_from 0 (escaping cs) s
        else c ∷ replace_from 0 (escaping cs) s)
unfolding replace_from
replace-escaping cs c s = elim (Bool-cases (contains_rune cs c)) [
  | inl e ↦ ground (arith, first_match-escaping cs c s)
  | inr e ↦ ground (arith, first_match-escaping cs c s)
]

strip-escaping :
    (cs s : Text)
    → ((c : ℕ) → contains_rune cs c ≡ true → contains_rune markdown_v2_special c ≡ true)
    → All (λ c. (contains_rune cs c ≡ true) ⊎ (c ≢ b'\\')) s
    → replace_from 0 strip_pairs (replace_from 0 (escaping cs) s) ≡ s
strip-escaping cs [] sub h = unfold replace_from in refl
strip-escaping cs (c ∷ s) sub (h, hs) = elim (Bool-cases (contains_rune cs c)) [
  | inl e ↦
      rw (replace-escaping cs c s, e)
        (strip_escaped c _ (sub c e) ∙ ap (◌∷◌ c) (strip-escaping cs s sub hs))
  | inr e ↦
      rw (replace-escaping cs c s, e)
        (strip_plain c _ (ground arith) ∙ ap (◌∷◌ c) (strip-escaping cs s sub hs))
]

url_sub :
    (c : ℕ) → contains_rune (codes "\\)") c ≡ true → contains_rune markdown_v2_special c ≡ true
unfolding contains_rune
url_sub c h = ground arith

-- Every backslash is escaped inside a link's URL.
All-url : (s : Text) → All (λ c. (contains_rune (codes "\\)") c ≡ true) ⊎ (c ≢ b'\\')) s
unfolding contains_rune
All-url [] = tt
All-url (c ∷ s) = (ground arith, All-url s)

-- Stripping gives back the URL that was escaped for the URL part of a MarkdownV2 link.
pub strip-escape_v2_url : (s : Text) → strip_markdown_escapes (escape_markdown_v2_url s) ≡ s
unfolding strip_markdown_escapes escape_markdown_v2_url
strip-escape_v2_url s = strip-escaping (codes "\\)") s url_sub (All-url s)

markdown_sub :
    (c : ℕ) → contains_rune markdown_special c ≡ true → contains_rune markdown_v2_special c ≡ true
unfolding contains_rune
markdown_sub c h = ground arith

All-plain :
    (s : Text)
    → All (λ c. c ≢ b'\\') s
    → All (λ c. (contains_rune markdown_special c ≡ true) ⊎ (c ≢ b'\\')) s
All-plain [] h = tt
All-plain (c ∷ s) h = (inr h.0, All-plain s h.1)

-- Stripping gives back the text that was escaped for legacy Markdown, if it holds no backslash,
-- which that dialect does not escape.
pub strip-escape_markdown :
    (s : Text) → All (λ c. c ≢ b'\\') s → strip_markdown_escapes (escape_markdown s) ≡ s
unfolding strip_markdown_escapes escape_markdown
strip-escape_markdown s h = strip-escaping markdown_special s markdown_sub (All-plain s h)

-- With a doubled backslash it does not.
strip-escape_markdown_fails : strip_markdown_escapes (escape_markdown (codes "\\\\")) ≡ codes "\\"
unfolding strip_markdown_escapes escape_markdown
strip-escape_markdown_fails = refl
