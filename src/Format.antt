-- ===== src/Format.antt =====
-- internal/format/markdown.go: escaping for Telegram's two Markdown dialects, over code points.
pub mod RoundTrip
pub mod Reserved
use jira_bot.Base.{
  ℕ, zero, suc, ◌-◌, Bool, true, false, ◌&&◌, ◌||◌, List, [], ◌∷◌, ◌++◌, map, Option, none, some,
  ltb, leb, nat_beq, if◌then◌else◌, Text, codes, length, take,
}

-- `strings.NewReplacer(…).Replace`: at each place the first pair that fits is applied, and its old
-- text is passed over; no two matches overlap.
rest_after : Text → Text → Option Text
rest_after [] s = some s
rest_after (o ∷ old) [] = none
rest_after (o ∷ old) (c ∷ s) = if nat_beq o c then rest_after old s else none

first_match : List (Text × Text) → Text → Option (Text × Text)
unfolding rest_after
first_match [] s = none
first_match ((old, new) ∷ pairs) s = elim (rest_after old s) [
  | none ↦ first_match pairs s
  | some _ ↦ some (old, new)
]

-- The first argument counts the code points of the last match that are still to be passed over.
replace_from : ℕ → List (Text × Text) → Text → Text
replace_from skip pairs [] = []
replace_from (suc k) pairs (c ∷ s) = replace_from k pairs s
replace_from zero pairs (c ∷ s) = elim (first_match pairs (c ∷ s)) [
  | none ↦ c ∷ replace_from zero pairs s
  | some (old, new) ↦ new ++ replace_from (length old - 1) pairs s
]

replace : List (Text × Text) → Text → Text
unfolding replace_from first_match
replace pairs s = replace_from 0 pairs s

-- `"_", "\\_"` and the like, for each of the listed code points.
abbrev escaping : Text → List (Text × Text)
escaping = map λ c. (c ∷ [], b'\\' ∷ c ∷ [])

abbrev unescaping : Text → List (Text × Text)
unescaping = map λ c. (b'\\' ∷ c ∷ [], c ∷ [])

abbrev markdown_special : Text
markdown_special = codes "_*`[]"

unfoldable pub escape_markdown : Text → Text
unfolding replace
escape_markdown s = replace (escaping markdown_special) s

abbrev markdown_v2_special : Text
markdown_v2_special = codes "_*[]()~`>#+-=|{}.!\\"

-- `strings.ContainsRune`
unfoldable pub contains_rune : Text → ℕ → Bool
contains_rune [] r = false
contains_rune (c ∷ cs) r = nat_beq r c || contains_rune cs r

unfoldable pub escape_markdown_v2 : Text → Text
escape_markdown_v2 [] = []
escape_markdown_v2 (r ∷ s) =
    let rest = escape_markdown_v2 s in
    if ltb r 128 && contains_rune markdown_v2_special r then b'\\' ∷ r ∷ rest else r ∷ rest

unfoldable pub escape_markdown_v2_url : Text → Text
unfolding replace
escape_markdown_v2_url s = replace (escaping (codes "\\)")) s

unfoldable pub strip_markdown_escapes : Text → Text
unfolding replace
strip_markdown_escapes s = replace (unescaping (codes "_*`[]()~>#+-=|{}.!\\")) s

-- At most `n` code points, and "..." where something was cut off; `n` stands for itself if it is
-- positive and for every `n <= 0` if it is 0.
unfoldable pub truncate_runes : Text → ℕ → Text
truncate_runes s n = if leb n 0 then [] else if leb (length s) n then s else take n s ++ codes "..."
