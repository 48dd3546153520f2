-- ===== src/Format/Reserved.antt =====
-- What Telegram's parser sees of an escaped or truncated text.
use jira_bot.Base.{
  ℕ, ◌+◌, ◌≤◌, ◌<◌, ◌≡◌, refl, false, ◌&&◌, [], ◌∷◌, ◌++◌, arith, inl, inr, Bool-cases, ltb, Text,
  codes, length, take, length-append, length-take-le,
}
use jira_bot.Format.{markdown_v2_special, contains_rune, escape_markdown_v2, truncate_runes}

-- How Telegram reads MarkdownV2: a backslash makes the next code point literal, and every other
-- code point has to be free of the reserved ones.
pub data IsAccepted : Text → Type 0 where
  done : IsAccepted []
  literal : {s : Text} (c : ℕ) → IsAccepted s → IsAccepted (b'\\' ∷ c ∷ s)
  plain :
      {s : Text} (c : ℕ)
      → contains_rune markdown_v2_special c ≡ false
      → IsAccepted s
      → IsAccepted (c ∷ s)

plain_of_test :
    (c : ℕ)
    → (ltb c 128 && contains_rune markdown_v2_special c) ≡ false
    → contains_rune markdown_v2_special c ≡ false
unfolding contains_rune
plain_of_test c h = ground arith

-- An escaped text holds no reserved code point that is not behind a backslash of its own.
pub escape_markdown_v2-IsAccepted : (s : Text) → IsAccepted (escape_markdown_v2 s)
unfolding escape_markdown_v2
escape_markdown_v2-IsAccepted [] = done
escape_markdown_v2-IsAccepted (r ∷ s) =
    elim (Bool-cases (ltb r 128 && contains_rune markdown_v2_special r)) [
      | inl e ↦ rw e (literal r (escape_markdown_v2-IsAccepted s))
      | inr e ↦ rw e (plain r (plain_of_test r e) (escape_markdown_v2-IsAccepted s))
    ]

-- A truncated text has at most `n` code points of its own and three dots, and none if `n` is 0; a
-- text of at most `n` code points is left alone.
pub truncate_runes_lem :
    (s : Text) (n : ℕ)
    → (length (truncate_runes s n) ≤ n + 3)
      × (0 < n → length s ≤ n → truncate_runes s n ≡ s)
      × (0 < n → n < length s → truncate_runes s n ≡ take n s ++ codes "...")
      × (truncate_runes s 0 ≡ [])
unfolding truncate_runes
truncate_runes_lem s n = (
  ground (arith, length-append (take n s) (codes "..."), length-take-le n s),
  λ p h. ground arith,
  λ p h. ground arith,
  refl,
)
