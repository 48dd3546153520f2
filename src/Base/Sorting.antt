-- ===== src/Base/Sorting.antt =====
-- Sorting by a number in rising order, and what stands at a place of a sorted list.
use jira_bot.Base.Tests.{if◌then◌else◌, leb, ltb, if_either, if_cases}
use jira_bot.Base.Lists.{length, keep, All}
use Prim.Native.Nat.{ℕ, zero, suc, ◌≤◌, ◌<◌}
use mathlib.Core.Path.{◌≡◌, refl, ap, subst, ◌∙◌}
use mathlib.Core.Bool.{Bool, true, false}
use mathlib.Core.Option.{Option, none, some}
use mathlib.Core.List.{List, [], ◌∷◌}
use native.Mathlib.Omega.{arith}

module _ {A : Type 0} (key : A → ℕ) where
  unfoldable pub insert_sorted : A → List A → List A
  insert_sorted a [] = a ∷ []
  insert_sorted a (x ∷ xs) =
      let later = insert_sorted a xs in if leb (key a) (key x) then a ∷ x ∷ xs else x ∷ later

  unfoldable pub sort : List A → List A
  sort [] = []
  sort (x ∷ xs) = insert_sorted x (sort xs)

  abbrev AtLeast : ℕ → A → Type 0
  AtLeast n x = n ≤ key x

  abbrev pub IsRising : List A → Type 0
  IsRising [] = Unit
  IsRising (x ∷ xs) = All (AtLeast (key x)) xs × IsRising xs

  All-weaken : (m n : ℕ) (xs : List A) → m ≤ n → All (AtLeast n) xs → All (AtLeast m) xs
  All-weaken m n [] le h = tt
  All-weaken m n (x ∷ xs) le (p, h) = (omega arith, All-weaken m n xs le h)

  insert_sorted-AtLeast :
      (n : ℕ) (a : A) (xs : List A)
      → n ≤ key a
      → All (AtLeast n) xs
      → All (AtLeast n) (insert_sorted a xs)
  unfolding insert_sorted
  insert_sorted-AtLeast n a [] le h = (le, tt)
  insert_sorted-AtLeast n a (x ∷ xs) le (p, h) =
      if_either (All (AtLeast n)) (leb (key a) (key x)) (le, (p, h))
        (p, insert_sorted-AtLeast n a xs le h)

  insert_sorted-IsRising : (a : A) (xs : List A) → IsRising xs → IsRising (insert_sorted a xs)
  unfolding insert_sorted
  insert_sorted-IsRising a [] h = (tt, tt)
  insert_sorted-IsRising a (x ∷ xs) (first, rest) =
      if_cases IsRising (leb (key a) (key x))
        (λ le.
          let below : key a ≤ key x = ground arith in
          ((below, All-weaken (key a) (key x) xs below first), (first, rest)))
        (λ gt.
          let above : key x ≤ key a = ground arith in
          (insert_sorted-AtLeast (key x) a xs above first, insert_sorted-IsRising a xs rest))

  pub sort-IsRising : (xs : List A) → IsRising (sort xs)
  unfolding sort
  sort-IsRising [] = tt
  sort-IsRising (x ∷ xs) = insert_sorted-IsRising x (sort xs) (sort-IsRising xs)

  insert_sorted-count :
      (p : A → Bool) (a : A) (xs : List A)
      → length (keep p (insert_sorted a xs)) ≡ length (keep p (a ∷ xs))
  unfolding insert_sorted
  insert_sorted-count p a [] = refl
  insert_sorted-count p a (x ∷ xs) =
      if_either (λ ys. length (keep p ys) ≡ length (keep p (a ∷ x ∷ xs))) (leb (key a) (key x)) refl
        (ground (arith, insert_sorted-count p a xs))

  -- Sorting changes no count of the elements that pass a test.
  pub sort-count : (p : A → Bool) (xs : List A) → length (keep p (sort xs)) ≡ length (keep p xs)
  unfolding sort
  sort-count p [] = refl
  sort-count p (x ∷ xs) = ground (arith, insert_sorted-count p x (sort xs), sort-count p xs)

  insert_sorted-length : (a : A) (xs : List A) → length (insert_sorted a xs) ≡ suc (length xs)
  unfolding insert_sorted
  insert_sorted-length a [] = refl
  insert_sorted-length a (x ∷ xs) =
      if_either (λ (ys : List A). length ys ≡ suc (suc (length xs))) (leb (key a) (key x)) refl
        (ap suc (insert_sorted-length a xs))

  pub sort-length : (xs : List A) → length (sort xs) ≡ length xs
  unfolding sort
  sort-length [] = refl
  sort-length (x ∷ xs) = insert_sorted-length x (sort xs) ∙ ap suc (sort-length xs)

  abbrev pub nth : ℕ → List A → Option A
  nth n [] = none
  nth zero (x ∷ xs) = some x
  nth (suc n) (x ∷ xs) = nth n xs

  pub nth-some : (n : ℕ) (xs : List A) → n < length xs → (x : A) × (nth n xs ≡ some x)
  nth-some n [] h = absurd (none_below h)
    where
      none_below : n < 0 → ⊥
      none_below h = omega arith
  nth-some zero (x ∷ xs) h = (x, refl)
  nth-some (suc n) (x ∷ xs) h = nth-some n xs (omega arith)

  nth-AtLeast : (m n : ℕ) (xs : List A) (x : A) → All (AtLeast m) xs → nth n xs ≡ some x → m ≤ key x
  nth-AtLeast m n [] x h e = ground arith
  nth-AtLeast m zero (y ∷ ys) x (p, h) e =
      let same : y ≡ x = ground arith in subst (λ z. m ≤ key z) same p
  nth-AtLeast m (suc n) (y ∷ ys) x (p, h) e = nth-AtLeast m n ys x h e

  abbrev pub up_to : A → A → Bool
  up_to x y = leb (key y) (key x)

  abbrev pub below : A → A → Bool
  below x y = ltb (key y) (key x)

  up_to_self : (x : A) → up_to x x ≡ true
  up_to_self x = ground arith

  -- At a place of a rising list, the elements before it and it itself are not above it.
  pub nth-up_to :
      (n : ℕ) (xs : List A) (x : A)
      → IsRising xs
      → nth n xs ≡ some x
      → n < length (keep (up_to x) xs)
  nth-up_to n [] x r e = ground arith
  nth-up_to zero (y ∷ ys) x r e =
      let same : y ≡ x = ground arith in
      subst (λ z. 0 < length (keep (up_to z) (y ∷ ys))) same (rw (up_to_self y) (omega arith))
  nth-up_to (suc n) (y ∷ ys) x (first, r) e =
      let le = nth-AtLeast (key y) n ys x first e in
      let ih = nth-up_to n ys x r e in
      let passes : up_to x y ≡ true = ground arith in rw passes (omega arith)

  none-below : (x : A) (xs : List A) → All (AtLeast (key x)) xs → length (keep (below x) xs) ≡ 0
  none-below x [] h = refl
  none-below x (y ∷ ys) (p, h) =
      let fails : below x y ≡ false = ground arith in rw fails (none-below x ys h)

  -- At most so many elements are below it.
  pub nth-below :
      (n : ℕ) (xs : List A) (x : A)
      → IsRising xs
      → nth n xs ≡ some x
      → length (keep (below x) xs) ≤ n
  nth-below n [] x r e = omega arith
  nth-below zero (y ∷ ys) x (first, r) e =
      let same : y ≡ x = ground arith in
      subst (λ z. length (keep (below z) (y ∷ ys)) ≤ 0) same (at_head y ys first)
    where
      at_head :
          (y : A) (ys : List A) → All (AtLeast (key y)) ys → length (keep (below y) (y ∷ ys)) ≤ 0
      at_head y ys first =
          let nothing = none-below y ys first in
          let fails : below y y ≡ false = ground arith in rw fails (omega arith)
  nth-below (suc n) (y ∷ ys) x (first, r) e = ground (arith, nth-below n ys x r e)
