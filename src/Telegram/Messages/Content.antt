-- ===== src/Telegram/Messages/Content.antt =====
-- Cutting a text loses nothing but line breaks.
use jira_bot.Base.{
  ℕ, zero, suc, ◌+◌, ◌-◌, ◌≡◌, refl, sym, ap, ap₂, subst, ◌∙◌, true, false, not, ◌&&◌, ltb, leb,
  nat_beq, [], ◌∷◌, ◌++◌, if◌then◌else◌, Text, length, keep, keep-append, append_assoc, append-nil,
  arith, if_either, if_cases, and_true,
}
use jira_bot.Poller.Changes.{is_empty}
use jira_bot.Poller.Jql.{has_prefix}
use jira_bot.Telegram.Messages.{
  newline, line_break, section_break, Parts, to_first, split_from, split, Cut, flushed, joint,
  joined, flush_before, add_line, add_lines, add_section, add_sections, last_part, split_message,
}

-- The bytes that are not line breaks.
abbrev pub plain : Text → Text
plain = keep λ c. not (nat_beq c newline)

abbrev pub flat : Parts → Text
flat [] = []
flat (part ∷ parts) = part ++ flat parts

abbrev newlines : ℕ → Text
newlines zero = []
newlines (suc n) = newline ∷ newlines n

flat-append : (ps qs : Parts) → flat (ps ++ qs) ≡ flat ps ++ flat qs
flat-append [] qs = refl
flat-append (p ∷ ps) qs =
    ap (λ r. p ++ r) (flat-append ps qs) ∙ sym (append_assoc p (flat ps) (flat qs))

plain-append : (s t : Text) → plain (s ++ t) ≡ plain s ++ plain t
plain-append s t = keep-append (λ c. not (nat_beq c newline)) s t

length-newlines : (n : ℕ) → length (newlines n) ≡ n
length-newlines zero = refl
length-newlines (suc n) = ap suc (length-newlines n)

flat-to_first : (c : ℕ) (parts : Parts) → flat (to_first c parts) ≡ c ∷ flat parts
flat-to_first c [] = refl
flat-to_first c (p ∷ parts) = refl

plain-newline : (c : ℕ) (s : Text) → nat_beq newline c ≡ true → plain (c ∷ s) ≡ plain s
plain-newline c s e = let same : not (nat_beq c newline) ≡ false = ground arith in rw same refl

plain-cons : (c : ℕ) (s t : Text) → plain s ≡ plain t → plain (c ∷ s) ≡ plain (c ∷ t)
plain-cons c s t e = ap (λ r. if not (nat_beq c newline) then c ∷ r else r) e

split_from-plain :
    (k n : ℕ) (s : Text)
    → has_prefix (newlines k) s ≡ true
    → plain (flat (split_from k (newlines (suc n)) s)) ≡ plain s
unfolding split_from has_prefix
split_from-plain k n [] h = refl
split_from-plain (suc k) n (c ∷ s) h =
    let both = and_true h in split_from-plain k n s both.1 ∙ sym (plain-newline c s both.0)
split_from-plain zero n (c ∷ s) h =
    if_cases (λ ps. plain (flat ps) ≡ plain (c ∷ s)) (has_prefix (newlines (suc n)) (c ∷ s))
      (λ found.
        let both = and_true found in
        let skip : length (newlines (suc n)) - 1 ≡ n = let l = length-newlines n in omega arith in
        subst (λ m. plain (flat (split_from m (newlines (suc n)) s)) ≡ plain (c ∷ s)) (sym skip)
          (split_from-plain n n s both.1 ∙ sym (plain-newline c s both.0)))
      (λ _.
        ap plain (flat-to_first c (split_from 0 (newlines (suc n)) s))
        ∙ plain-cons c (flat (split_from 0 (newlines (suc n)) s)) s (split_from-plain 0 n s refl))

split-plain : (n : ℕ) (s : Text) → plain (flat (split s (newlines (suc n)))) ≡ plain s
unfolding split has_prefix
split-plain n s = split_from-plain 0 n s refl

-- What was put together so far.
abbrev content : Cut → Text
content c = flat c.parts ++ c.current

flushed-content : (c : Cut) → content (flushed c) ≡ content c
flushed-content c =
    append-nil (flat (c.parts ++ c.current ∷ []))
    ∙ flat-append c.parts (c.current ∷ [])
    ∙ ap (λ r. flat c.parts ++ r) (append-nil c.current)

flush_before-content :
    (limit : ℕ) (separator piece : Text) (c : Cut)
    → content (flush_before limit separator piece c) ≡ content c
unfolding flush_before
flush_before-content limit separator piece c =
    if_either (λ d. content d ≡ content c)
      (not (is_empty c.current) && ltb limit (length c.current + length piece + length separator))
      (flushed-content c) refl

joined-plain :
    (separator piece : Text) (c : Cut)
    → plain separator ≡ []
    → plain (content (joined separator piece c)) ≡ plain (content c) ++ plain piece
joined-plain separator piece c h =
    ap plain (
      sym (append_assoc (flat c.parts) (c.current ++ joint c.current separator) piece)
      ∙ ap (λ r. r ++ piece)
          (sym (append_assoc (flat c.parts) c.current (joint c.current separator))))
    ∙ plain-append (content c ++ joint c.current separator) piece
    ∙ ap (λ r. r ++ plain piece)
        (plain-append (content c) (joint c.current separator)
          ∙ ap (λ r. plain (content c) ++ r) (no_joint c.current)
          ∙ append-nil (plain (content c)))
  where
    no_joint : (current : Text) → plain (joint current separator) ≡ []
    no_joint [] = refl
    no_joint (x ∷ current) = h

add_lines-plain :
    (limit : ℕ) (lines : Parts) (c : Cut)
    → plain (content (add_lines limit lines c)) ≡ plain (content c) ++ plain (flat lines)
unfolding add_lines add_line
add_lines-plain limit [] c = sym (append-nil (plain (content c)))
add_lines-plain limit (line ∷ lines) c =
    add_lines-plain limit lines (joined line_break line (flush_before limit line_break line c))
    ∙ ap (λ r. r ++ plain (flat lines))
        (joined-plain line_break line (flush_before limit line_break line c) refl
          ∙ ap (λ r. plain r ++ plain line) (flush_before-content limit line_break line c))
    ∙ append_assoc (plain (content c)) (plain line) (plain (flat lines))
    ∙ ap (λ r. plain (content c) ++ r) (sym (plain-append line (flat lines)))

add_section-plain :
    (limit : ℕ) (section : Text) (c : Cut)
    → plain (content (add_section limit section c)) ≡ plain (content c) ++ plain section
unfolding add_section
add_section-plain limit section c =
    let room = flush_before limit section_break section c in
    let same = ap plain (flush_before-content limit section_break section c) in
    if_either (λ d. plain (content d) ≡ plain (content c) ++ plain section)
      (ltb limit (length section))
      (add_lines-plain limit (split section line_break) room
        ∙ ap₂ (λ r t. r ++ t) same (split-plain 0 section))
      (joined-plain section_break section room refl ∙ ap (λ r. r ++ plain section) same)

add_sections-plain :
    (limit : ℕ) (sections : Parts) (c : Cut)
    → plain (content (add_sections limit sections c)) ≡ plain (content c) ++ plain (flat sections)
unfolding add_sections
add_sections-plain limit [] c = sym (append-nil (plain (content c)))
add_sections-plain limit (section ∷ sections) c =
    add_sections-plain limit sections (add_section limit section c)
    ∙ ap (λ r. r ++ plain (flat sections)) (add_section-plain limit section c)
    ∙ append_assoc (plain (content c)) (plain section) (plain (flat sections))
    ∙ ap (λ r. plain (content c) ++ r) (sym (plain-append section (flat sections)))

last_part-content : (c : Cut) → flat (last_part c) ≡ content c
last_part-content c =
    if_cases (λ ps. flat ps ≡ content c) (is_empty c.current) (λ h. nothing_left c.current h)
      (λ _. sym (append-nil (flat (c.parts ++ c.current ∷ []))) ∙ flushed-content c)
  where
    nothing_left :
        (current : Text) → is_empty current ≡ true → flat c.parts ≡ flat c.parts ++ current
    nothing_left [] h = sym (append-nil (flat c.parts))
    nothing_left (x ∷ current) h = ground arith

-- The messages that a text is cut into hold all of its bytes, in their order, but for line breaks, whatever the limit.
pub split_message-plain :
    (text : Text) (limit : ℕ) → plain (flat (split_message text limit)) ≡ plain text
unfolding split_message
split_message-plain text limit =
    if_either (λ ps. plain (flat ps) ≡ plain text) (leb (length text) limit)
      (ap plain (append-nil text))
      (ap plain (
          last_part-content
            (add_sections limit (split text section_break) (record { parts = []; current = [] })))
        ∙ add_sections-plain limit (split text section_break) (record { parts = []; current = [] })
        ∙ split-plain 1 text)
