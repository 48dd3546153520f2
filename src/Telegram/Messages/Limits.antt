-- ===== src/Telegram/Messages/Limits.antt =====
-- The messages that a text is cut into fit, and lose nothing but line breaks.
use jira_bot.Base.{
  ℕ, ◌+◌, ◌≡◌, ◌≤◌, false, not, ◌&&◌, ltb, leb, [], ◌∷◌, ◌++◌, Text, length, length-append, arith,
  All, All-append, if_either, if_cases,
}
use jira_bot.Poller.Changes.{is_empty}
use jira_bot.Telegram.Messages.{
  line_break, section_break, Parts, split, Cut, flushed, joint, joined, flush_before, add_line,
  add_lines, add_section, add_sections, split_message,
}

abbrev Fits : ℕ → Text → Type 0
Fits limit s = length s ≤ limit

-- The parts and the text that is being built are within the limit.
record AllFit (limit : ℕ) (c : Cut) : Type 0 where
  parts : All (Fits limit) c.parts
  current : length c.current ≤ limit

flushed-AllFit : (limit : ℕ) (c : Cut) → AllFit limit c → AllFit limit (flushed c)
flushed-AllFit limit c ok = record {
  parts = All-append (Fits limit) c.parts (c.current ∷ []) ok.parts (ok.current, tt);
  current = omega arith;
}

-- After the flush there is room for the piece.
record HasRoom (limit : ℕ) (separator piece : Text) (c : Cut) : Type 0 where
  fits : AllFit limit c
  room : length (c.current ++ joint c.current separator ++ piece) ≤ limit

room_of :
    (limit : ℕ) (separator piece current : Text)
    → length piece ≤ limit
    → (not (is_empty current) && ltb limit (length current + length piece + length separator))
      ≡ false
    → length (current ++ joint current separator ++ piece) ≤ limit
room_of limit separator piece [] short h = short
room_of limit separator piece (c ∷ current) short h =
    let whole = length-append ((c ∷ current) ++ separator) piece in
    let first = length-append (c ∷ current) separator in ground arith

flush_before-HasRoom :
    (limit : ℕ) (separator piece : Text) (c : Cut)
    → length piece ≤ limit
    → AllFit limit c
    → HasRoom limit separator piece (flush_before limit separator piece c)
unfolding flush_before
flush_before-HasRoom limit separator piece c short ok =
    if_cases (HasRoom limit separator piece)
      (not (is_empty c.current) && ltb limit (length c.current + length piece + length separator))
      (λ _. record { fits = flushed-AllFit limit c ok; room = short })
      (λ h. record { fits = ok; room = room_of limit separator piece c.current short h })

joined-AllFit :
    (limit : ℕ) (separator piece : Text) (c : Cut)
    → HasRoom limit separator piece c
    → AllFit limit (joined separator piece c)
joined-AllFit limit separator piece c h = record { parts = h.fits.parts; current = h.room }

flush_before-AllFit :
    (limit : ℕ) (separator piece : Text) (c : Cut)
    → AllFit limit c
    → AllFit limit (flush_before limit separator piece c)
unfolding flush_before
flush_before-AllFit limit separator piece c ok =
    if_either (AllFit limit)
      (not (is_empty c.current) && ltb limit (length c.current + length piece + length separator))
      (flushed-AllFit limit c ok) ok

add_lines-AllFit :
    (limit : ℕ) (lines : Parts) (c : Cut)
    → All (Fits limit) lines
    → AllFit limit c
    → AllFit limit (add_lines limit lines c)
unfolding add_lines add_line
add_lines-AllFit limit [] c short ok = ok
add_lines-AllFit limit (line ∷ lines) c (s, short) ok =
    add_lines-AllFit limit lines _ short
      (joined-AllFit limit line_break line _ (flush_before-HasRoom limit line_break line c s ok))

-- Every line of a section fits.
abbrev pub HasShortLines : ℕ → Text → Type 0
HasShortLines limit section = All (λ line. length line ≤ limit) (split section line_break)

add_section-AllFit :
    (limit : ℕ) (section : Text) (c : Cut)
    → HasShortLines limit section
    → AllFit limit c
    → AllFit limit (add_section limit section c)
unfolding add_section
add_section-AllFit limit section c short ok =
    if_cases (AllFit limit) (ltb limit (length section))
      (λ _.
        add_lines-AllFit limit (split section line_break) _ short
          (flush_before-AllFit limit section_break section c ok))
      (λ h.
        joined-AllFit limit section_break section _
          (flush_before-HasRoom limit section_break section c (ground arith) ok))

add_sections-AllFit :
    (limit : ℕ) (sections : Parts) (c : Cut)
    → All (HasShortLines limit) sections
    → AllFit limit c
    → AllFit limit (add_sections limit sections c)
unfolding add_sections
add_sections-AllFit limit [] c short ok = ok
add_sections-AllFit limit (section ∷ sections) c (s, short) ok =
    add_sections-AllFit limit sections _ short (add_section-AllFit limit section c s ok)

-- Where every line of every section of a text is within the limit, so is every message it is cut into.
pub split_message-IsWithinLimit :
    (text : Text) (limit : ℕ)
    → All (HasShortLines limit) (split text section_break)
    → All (λ part. length part ≤ limit) (split_message text limit)
unfolding split_message
split_message-IsWithinLimit text limit short =
    if_cases (All (λ part. length part ≤ limit)) (leb (length text) limit) (λ h. (ground arith, tt))
      (λ _.
        let done =
          add_sections-AllFit limit (split text section_break) (record { parts = []; current = [] })
            short (record { parts = tt; current = omega arith }) in
        if_either (All (Fits limit))
          (is_empty
            (add_sections limit (split text section_break)
              (record { parts = []; current = [] })).current)
          done.parts (flushed-AllFit limit _ done).parts)
