-- ===== src/Telegram/Messages.antt =====
-- internal/telegram/handler_sprint.go: cutting a long text into messages, and the parts of a report. Texts are lists of
-- bytes here.
pub mod Limits
pub mod Content
use jira_bot.Base.{
  ℕ, zero, suc, ◌+◌, ◌-◌, ◌*◌, ◌/◌, Bool, true, false, not, ◌&&◌, ltb, leb, nat_beq, List, [], ◌∷◌,
  ◌++◌, Option, none, some, if◌then◌else◌, Text, codes, length, take,
}
use jira_bot.Poller.Changes.{is_empty}
use jira_bot.Poller.Jql.{has_prefix}

abbrev pub newline : ℕ
newline = 10

abbrev pub line_break : Text
line_break = newline ∷ []

abbrev pub section_break : Text
section_break = newline ∷ newline ∷ []

abbrev pub Parts : Type 0
Parts = List Text

-- A code point before the first of the parts.
abbrev pub to_first : ℕ → Parts → Parts
to_first c [] = (c ∷ []) ∷ []
to_first c (part ∷ parts) = (c ∷ part) ∷ parts

-- `strings.Split(s, sep)` for a nonempty `sep`. The first argument counts the bytes of a separator that are still to be
-- passed over.
unfoldable pub split_from : ℕ → Text → Text → Parts
split_from skip sep [] = [] ∷ []
split_from (suc k) sep (c ∷ s) = split_from k sep s
split_from zero sep (c ∷ s) =
    let after = split_from (length sep - 1) sep s in
    let within = split_from zero sep s in
    if has_prefix sep (c ∷ s) then [] ∷ after else to_first c within

unfoldable pub split : Text → Text → Parts
split s sep = split_from 0 sep s

-- The parts so far, and the text that is being built.
pub record Cut : Type 0 where
  pub parts : Parts
  pub current : Text

-- `parts = append(parts, current.String()); current.Reset()`
abbrev pub flushed : Cut → Cut
flushed c = record { parts = c.parts ++ c.current ∷ []; current = [] }

-- What is put before a further piece.
abbrev pub joint : Text → Text → Text
joint [] separator = []
joint (c ∷ current) separator = separator

abbrev pub joined : Text → Text → Cut → Cut
joined separator piece c = record c { current = c.current ++ joint c.current separator ++ piece }

-- The flush before a piece that would exceed the limit with its separator.
unfoldable pub flush_before : ℕ → (separator piece : Text) → Cut → Cut
flush_before limit separator piece c =
    if not (is_empty c.current) && ltb limit (length c.current + length piece + length separator)
    then flushed c
    else c

unfoldable pub add_line : ℕ → Cut → Text → Cut
add_line limit c line = joined line_break line (flush_before limit line_break line c)

unfoldable pub add_lines : ℕ → Parts → Cut → Cut
add_lines limit [] c = c
add_lines limit (line ∷ lines) c = add_lines limit lines (add_line limit c line)

unfoldable pub add_section : ℕ → Text → Cut → Cut
add_section limit section c =
    let room = flush_before limit section_break section c in
    if ltb limit (length section)
    then add_lines limit (split section line_break) room
    else joined section_break section room

unfoldable pub add_sections : ℕ → Parts → Cut → Cut
add_sections limit [] c = c
add_sections limit (section ∷ sections) c =
    add_sections limit sections (add_section limit section c)

abbrev pub last_part : Cut → Parts
last_part c = if is_empty c.current then c.parts else (flushed c).parts

unfoldable pub split_message : Text → (limit : ℕ) → Parts
split_message text limit =
    if leb (length text) limit
    then text ∷ []
    else last_part
        (add_sections limit (split text section_break) (record { parts = []; current = [] }))

abbrev pub bar_len : ℕ
bar_len = 20

-- U+2588 for the first `filled` of so many places, U+2591 for the others.
unfoldable pub bar : (filled places : ℕ) → Text
bar filled zero = []
bar zero (suc n) = 9617 ∷ bar zero n
bar (suc k) (suc n) = 9608 ∷ bar k n

-- The bar and the percentage of `writeProgressBar`, for a `total` that is not 0.
unfoldable pub progress : (done total : ℕ) → Text × ℕ
progress done total = (bar (done * bar_len / total) bar_len, done * 100 / total)

abbrev pub issue_key_list_max : ℕ
issue_key_list_max = 5

-- The keys that `writeIssueKeyList` shows, and the number of the others, if any.
unfoldable pub issue_key_list : List Text → List Text × Option ℕ
issue_key_list keys = (
  take issue_key_list_max keys,
  if ltb issue_key_list_max (length keys) then some (length keys - issue_key_list_max) else none,
)
