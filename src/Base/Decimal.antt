-- ===== src/Base/Decimal.antt =====
-- Decimal digits of a number, and the inverse that reads them up to a colon.
use mathlib.Core.Logic.{ite, dite, if_pos, if_neg, ◌≢◌, inl, inr}
use mathlib.Core.WellFounded
use mathlib.Core.WellFounded.{Acc, Acc-prop}
use mathlib.Core.Path.{◌≡◌, refl, ap, sym, ◌∙◌}
use mathlib.Core.List.{[], ◌∷◌, ◌++◌}
use Prim.Native.Nat.{ℕ, zero, suc, ◌+◌, ◌-◌, ◌*◌, ◌/◌, ◌%◌, ◌^◌, ◌<◌, ◌≤◌}
use native.Mathlib.Omega.{arith}
use native.Mathlib.Decide.{dec_lt}
use jira_bot.Base.Order.{lt_wf}
use jira_bot.Base.Tests.{nat_beq, Bool-cases, if◌then◌else◌}
use jira_bot.Base.Equality.{Text, ℤ, pos, negsuc}
use jira_bot.Base.Lists.{length}

-- The code point of a number's last digit.
abbrev last_digit : ℕ → ℕ
last_digit n = b'0' + n % 10

pub shorter : (n : ℕ) → 0 < n → n / 10 < n
shorter n positive = omega arith

-- The digits are put before the text one by one, on the accessibility of the number.
put_digits : Text → (n : ℕ) → Acc ◌<◌ n → Text
put_digits text n (Acc.intro _ below) =
    dite (dec_lt 0 n)
      (λ positive. put_digits (last_digit n ∷ text) (n / 10) (below (n / 10) (shorter n positive)))
      (λ _. text)

-- The digits of `n` before `out`: `for n > 0 { i--; tmp[i] = byte('0' + n%10); n /= 10 }`.
unfoldable pub digits : ℕ → Text → Text
unfolding put_digits lt_wf dec_lt
digits n out = put_digits out n (lt_wf.apply n)

put_digits_once :
    (text : Text) (n : ℕ) (w : Acc ◌<◌ n)
    → put_digits text n w ≡ ite (dec_lt 0 n) (digits (n / 10) (last_digit n ∷ text)) text
unfolding put_digits digits
put_digits_once text n (Acc.intro _ below) = λ step.
    dite (dec_lt 0 n)
      (λ positive.
        put_digits (last_digit n ∷ text) (n / 10)
          (Acc-prop (below (n / 10) (shorter n positive)) (lt_wf.apply (n / 10)) step))
      (λ _. text)

pub digits_step :
    (n : ℕ) (out : Text)
    → digits n out ≡ ite (dec_lt 0 n) (digits (n / 10) (last_digit n ∷ out)) out
unfolding digits
digits_step n out = put_digits_once out n (lt_wf.apply n)

pub digits-append : (n : ℕ) (out rest : Text) → digits n out ++ rest ≡ digits n (out ++ rest)
digits-append n =
    WellFounded.induction lt_wf
      {C = λ m. (out rest : Text) → digits m out ++ rest ≡ digits m (out ++ rest)} n
      λ m ih out rest. grind (arith, digits_step m out, digits_step m (out ++ rest), ih (m / 10))

-- The number whose digits stand before the next colon, after those already read, and the rest.
unfoldable pub scan : ℕ → Text → ℕ × Text
scan n [] = (n, [])
scan n (c ∷ s) = if nat_beq c b':' then (n, s) else scan (n * 10 + (c - b'0')) s

pub scan-digits : (n : ℕ) (out : Text) → scan 0 (digits n out) ≡ scan n out
scan-digits n =
    WellFounded.induction lt_wf {C = λ m. (out : Text) → scan 0 (digits m out) ≡ scan m out} n
      λ m ih out. grind (arith, digits_step m out, ih (m / 10), scan_digit m out)
  where
    scan_digit : (m : ℕ) (out : Text) → scan (m / 10) ((b'0' + m % 10) ∷ out) ≡ scan m out
    scan_digit m out = unfold scan in ground arith

-- A number below 10 ^ k has at most k digits.
pub length-digits-le : (k n : ℕ) (out : Text) → n < 10 ^ k → length (digits n out) ≤ k + length out
length-digits-le zero n out h = ground (arith, digits_step n out)
length-digits-le (suc k) n out h =
    grind (arith, digits_step n out, length-digits-le k (n / 10) ((b'0' + n % 10) ∷ out))

-- The decimal digits of `n` before `rest`; those of 0 are "0".
unfoldable pub natural : ℕ → Text → Text
natural n rest = if nat_beq n 0 then b'0' ∷ rest else digits n rest

pub scan-natural : (n : ℕ) (s : Text) → scan 0 (natural n (b':' ∷ s)) ≡ (n, s)
unfolding natural scan
scan-natural n s = ground (arith, scan-digits n (b':' ∷ s))

abbrev pub IsUnsigned : Text → Type 0
IsUnsigned [] = Unit
IsUnsigned (c ∷ s) = c ≢ b'-'

digits-IsUnsigned : (n : ℕ) (out : Text) → IsUnsigned out → IsUnsigned (digits n out)
digits-IsUnsigned n =
    WellFounded.induction lt_wf {C = λ m. (out : Text) → IsUnsigned out → IsUnsigned (digits m out)}
      n
      λ m ih out u. elim (dec_lt 0 m) [
        | yes p ↦ rw (digits_step m out, if_pos _ p) (ih (m / 10) (omega arith) _ (omega arith))
        | no p ↦ rw (digits_step m out, if_neg _ p) u
      ]

natural-IsUnsigned : (n : ℕ) (s : Text) → IsUnsigned (natural n (b':' ∷ s))
unfolding natural
natural-IsUnsigned n s = elim (Bool-cases (nat_beq n 0)) [
  | inl e ↦ rw e (omega arith)
  | inr e ↦ rw e (digits-IsUnsigned n (b':' ∷ s) (omega arith))
]

-- Reading a text that begins with a number and a colon, the sign being read by `negative`.
unfoldable pub read_number : (ℕ → ℤ) → Text → ℤ × Text
read_number negative [] = (pos 0, [])
read_number negative (c ∷ s) =
    if nat_beq c b'-'
    then (negative (scan 0 s).0, (scan 0 s).1)
    else (pos (scan 0 (c ∷ s)).0, (scan 0 (c ∷ s)).1)

read_number_of_IsUnsigned :
    (negative : ℕ → ℤ) (s : Text)
    → IsUnsigned s
    → read_number negative s ≡ (pos (scan 0 s).0, (scan 0 s).1)
unfolding read_number scan
read_number_of_IsUnsigned negative [] u = refl
read_number_of_IsUnsigned negative (c ∷ s) u = ground arith

pub read_number-natural :
    (negative : ℕ → ℤ) (n : ℕ) (s : Text) → read_number negative (natural n (b':' ∷ s)) ≡ (pos n, s)
read_number-natural negative n s =
    read_number_of_IsUnsigned negative _ (natural-IsUnsigned n s)
    ∙ ap (λ (p : ℕ × Text). (pos p.0, p.1)) (scan-natural n s)

-- `fmt.Sprintf("%d", n)` before `rest`.
unfoldable pub decimal : ℤ → Text → Text
decimal (pos n) rest = natural n rest
decimal (negsuc n) rest = b'-' ∷ natural (n + 1) rest

read_number-decimal :
    (n : ℤ) (s : Text) → read_number (λ k. negsuc (k - 1)) (decimal n (b':' ∷ s)) ≡ (n, s)
unfolding decimal
read_number-decimal (pos n) s = read_number-natural (λ k. negsuc (k - 1)) n s
read_number-decimal (negsuc n) s = unfold read_number in ground (arith, scan-natural (n + 1) s)

-- `fmt.Sprintf("%d:%s", n, s)` determines the number and the text.
pub decimal-injective :
    (n n' : ℤ) (s s' : Text) → decimal n (b':' ∷ s) ≡ decimal n' (b':' ∷ s') → (n ≡ n') × (s ≡ s')
decimal-injective n n' s s' e =
    let same =
      sym (read_number-decimal n s)
      ∙ ap (read_number (λ k. negsuc (k - 1))) e
      ∙ read_number-decimal n' s' in
    (ap (λ p. p.0) same, ap (λ p. p.1) same)
