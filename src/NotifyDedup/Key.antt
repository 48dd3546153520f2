-- ===== src/NotifyDedup/Key.antt =====
-- `formatKey` and `appendInt64`. An int64 is an integer in [-2^63, 2^63).
use jira_bot.Base.{
  ℕ, sym, inl, inr, Bool-cases, ◌+◌, ◌-◌, ◌^◌, ◌≤◌, ◌<◌, ◌≡◌, refl, ap, ◌∙◌, [], ◌∷◌, arith,
  nat_beq, if◌then◌else◌, Text, ℤ, pos, negsuc, length,
}
use jira_bot.Base.Decimal.{
  natural, scan, scan-natural, read_number, read_number-natural, length-digits-le,
}

abbrev pub IsInt64 : ℤ → Type 0
IsInt64 (pos n) = n < 2 ^ 63
IsInt64 (negsuc n) = n < 2 ^ 63

-- The rest of `appendInt64` for a positive `n`, or for the one `n` that stays below zero under `-`:
-- neither test `n == 0` nor `n > 0` holds of it, so nothing is written.
append_magnitude : ℤ → Text → Text
append_magnitude (pos n) rest = natural n rest
append_magnitude (negsuc n) rest = rest

-- `-n` of an int64 below zero, -2^63 being its own negation.
negated : ℕ → ℤ
negated n = if nat_beq n (2 ^ 63 - 1) then negsuc n else pos (n + 1)

-- The bytes that `appendInt64` appends, before `rest`.
unfoldable pub append_int64 : ℤ → Text → Text
unfolding append_magnitude negated
append_int64 (pos n) rest = append_magnitude (pos n) rest
append_int64 (negsuc n) rest = b'-' ∷ append_magnitude (negated n) rest

unfoldable pub format_key : ℤ → Text → Text
format_key chat issue = append_int64 chat (b':' ∷ issue)

-- Reading a key back: the chat, whose digits end at the first colon, and the issue.
read_negative : ℕ → ℤ
read_negative n = if nat_beq n 0 then negsuc (2 ^ 63 - 1) else negsuc (n - 1)

scan-append_magnitude :
    (n : ℕ) (s : Text)
    → n < 2 ^ 63
    → (k : ℕ) × (scan 0 (append_magnitude (negated n) (b':' ∷ s)) ≡ (k, s))
      × (read_negative k ≡ negsuc n)
unfolding negated append_magnitude read_negative
scan-append_magnitude n s h = elim (Bool-cases (nat_beq n (2 ^ 63 - 1))) [
  | inl e ↦ rw e (0, unfold scan in refl, ground arith)
  | inr e ↦ rw e (n + 1, scan-natural (n + 1) s, ground arith)
]

read_number-format_key :
    (chat : ℤ) (issue : Text)
    → IsInt64 chat
    → read_number read_negative (format_key chat issue) ≡ (chat, issue)
unfolding format_key append_int64
read_number-format_key (pos n) issue h =
    unfold append_magnitude in read_number-natural read_negative n issue
read_number-format_key (negsuc n) issue h =
    let (k, scanned, same) = scan-append_magnitude n issue h in
    unfold read_number in
    (ap (λ (p : ℕ × Text). (read_negative p.0, p.1)) scanned ∙ ap (λ c. (c, issue)) same)

-- Two pairs of a chat, an int64, and an issue share a key only if they are the same pair, whatever the
-- issue's text holds.
pub format_key-injective :
    (chat chat' : ℤ) (issue issue' : Text)
    → IsInt64 chat
    → IsInt64 chat'
    → format_key chat issue ≡ format_key chat' issue'
    → (chat ≡ chat') × (issue ≡ issue')
format_key-injective chat chat' issue issue' h h' e =
    let same =
      sym (read_number-format_key chat issue h)
      ∙ ap (read_number read_negative) e
      ∙ read_number-format_key chat' issue' h' in
    (ap (λ p. p.0) same, ap (λ p. p.1) same)

-- What `appendInt64` writes of a magnitude fits its buffer `tmp [20]byte`.
pub length-append_int64-le : (n : ℤ) → IsInt64 n → length (append_int64 n []) ≤ 20
unfolding append_int64 append_magnitude negated natural
length-append_int64-le (pos n) h = ground (arith, length-digits-le 19 n [])
length-append_int64-le (negsuc n) h = ground (arith, length-digits-le 19 (n + 1) [])
