-- ===== src/Poller/Jql/Stripping.antt =====
-- When `stripOrderBy` returns, and when its slice is out of range.
use jira_bot.Base.{
  ℕ, zero, suc, ◌+◌, ◌*◌, ◌≤◌, ◌<◌, ◌≡◌, refl, ap, inl, inr, Bool-cases, Option-cases, true, false,
  [], ◌∷◌, none, some, arith, leb, take, length, Text, codes,
}
use jira_bot.Poller.Jql.{has_prefix, last_index, order_by, strip_order_by}

has_prefix-length : (sub s : Text) → has_prefix sub s ≡ true → length sub ≤ length s
unfolding has_prefix
has_prefix-length [] s h = omega arith
has_prefix-length (o ∷ sub) [] h = cc
has_prefix-length (o ∷ sub) (c ∷ s) h = ground (arith, has_prefix-length sub s)

-- A match lies inside the text.
last_index-le : (sub s : Text) (i : ℕ) → last_index sub s ≡ some i → i + length sub ≤ length s
unfolding last_index
last_index-le sub [] i h = cc
last_index-le sub (c ∷ s) i h = elim (Option-cases (last_index sub s)) [
  | inl e ↦ ground (arith, has_prefix-length sub (c ∷ s))
  | inr (j, e) ↦ ground (arith, last_index-le sub s j)
]

module _ (trim to_upper : Text → Text) where
  -- Where upper case has as many bytes as the text, as it has for ASCII, `stripOrderBy` returns.
  pub strip_order_by_total :
      (jql : Text)
      → length (to_upper (trim jql)) ≡ length (trim jql)
      → (r : Text) × (strip_order_by trim to_upper jql ≡ some r)
  unfolding strip_order_by
  strip_order_by_total jql same = elim (Option-cases (last_index order_by (to_upper (trim jql)))) [
    | inl e ↦ elim (Bool-cases (has_prefix (codes "ORDER BY ") (to_upper (trim jql)))) [
      | inl p ↦ ([], rw (e, strip_order_by, p) refl)
      | inr p ↦ (trim jql, rw (e, strip_order_by, p) refl)
    ]
    | inr (i, e) ↦ (
      trim (take i (trim jql)),
      (let inside : leb i (length (trim jql)) ≡ true =
            ground (arith, last_index-le order_by (to_upper (trim jql)) i e) in
          rw (e, strip_order_by, inside) refl),
    )
  ]

-- `n` times "ɐ" (U+0250, two bytes) before `s`, and its upper case "Ɐ" (U+2C6F, three bytes).
unfoldable pub turned : ℕ → Text → Text
turned zero s = s
turned (suc n) s = 0xC9 ∷ 0x90 ∷ turned n s

unfoldable pub turned_upper : ℕ → Text → Text
turned_upper zero s = s
turned_upper (suc n) s = 0xE2 ∷ 0xB1 ∷ 0xAF ∷ turned_upper n s

length-turned : (n : ℕ) (s : Text) → length (turned n s) ≡ n * 2 + length s
unfolding turned
length-turned zero s = omega arith
length-turned (suc n) s = omega (arith, length-turned n s)

abbrev pub ordered : Text
ordered = codes " ORDER BY X"

last_index-turned_upper : (n : ℕ) → last_index order_by (turned_upper n ordered) ≡ some (n * 3)
unfolding last_index turned_upper has_prefix
last_index-turned_upper zero = refl
last_index-turned_upper (suc n) = rw (last_index-turned_upper n, last_index) (ap some (omega arith))

-- `stripOrderBy` panics on a query of twelve or more of a letter whose upper case is longer in bytes,
-- followed by " ORDER BY X", where trimming leaves the query alone and upper case is Go's.
pub strip_order_by_panics :
    (trim to_upper : Text → Text) (n : ℕ)
    → 11 < n
    → trim (turned n ordered) ≡ turned n ordered
    → to_upper (turned n ordered) ≡ turned_upper n ordered
    → strip_order_by trim to_upper (turned n ordered) ≡ none
unfolding strip_order_by
strip_order_by_panics trim to_upper n h trimmed upper =
    let past : leb (n * 3) (length (turned n ordered)) ≡ false =
      ground (arith, length-turned n ordered) in
    rw (trimmed, upper, last_index-turned_upper n, strip_order_by, trimmed, past) refl
