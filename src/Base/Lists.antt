-- ===== src/Base/Lists.antt =====
-- Lists measured by native numbers, and predicates on them by recursion.
use Prim.Native.Nat.{ℕ, zero, suc, ◌+◌, ◌≤◌}
use mathlib.Core.Path.{◌≡◌, refl, ap, sym, subst, ◌∙◌}
use mathlib.Core.Bool.{Bool, true}
use mathlib.Core.Logic.{◌⊎◌, inl, inr}
use mathlib.Core.List.{List, [], ◌∷◌, ◌++◌, map}
use native.Mathlib.Omega.{arith}
use jira_bot.Base.Tests.{if◌then◌else◌, if_either, if_cases}

module _ {ℓ} {A : Type ℓ} where
  abbrev pub length : List A → ℕ
  length [] = 0
  length (x ∷ xs) = suc (length xs)

  abbrev pub take : ℕ → List A → List A
  take zero xs = []
  take (suc n) [] = []
  take (suc n) (x ∷ xs) = x ∷ take n xs

  abbrev pub drop : ℕ → List A → List A
  drop zero xs = xs
  drop (suc n) [] = []
  drop (suc n) (x ∷ xs) = drop n xs

  -- The elements that pass a Boolean test, in order.
  abbrev pub keep : (A → Bool) → List A → List A
  keep p [] = []
  keep p (x ∷ xs) = if p x then x ∷ keep p xs else keep p xs

  pub length-append : (xs ys : List A) → length (xs ++ ys) ≡ length xs + length ys
  length-append [] ys = omega arith
  length-append (x ∷ xs) ys = omega (arith, length-append xs ys)

  pub keep-append : (p : A → Bool) (xs ys : List A) → keep p (xs ++ ys) ≡ keep p xs ++ keep p ys
  keep-append p [] ys = refl
  keep-append p (x ∷ xs) ys = ground (arith, keep-append p xs ys)

  pub length-keep-le : (p : A → Bool) (xs : List A) → length (keep p xs) ≤ length xs
  length-keep-le p [] = omega arith
  length-keep-le p (x ∷ xs) = ground (arith, length-keep-le p xs)

  pub length-take-le : (n : ℕ) (xs : List A) → length (take n xs) ≤ n
  length-take-le zero xs = omega arith
  length-take-le (suc n) [] = omega arith
  length-take-le (suc n) (x ∷ xs) = omega (arith, length-take-le n xs)

  pub take-append : (xs ys : List A) → take (length xs) (xs ++ ys) ≡ xs
  take-append [] ys = refl
  take-append (x ∷ xs) ys = ap (λ r. x ∷ r) (take-append xs ys)

  pub drop-append : (xs ys : List A) → drop (length xs) (xs ++ ys) ≡ ys
  drop-append [] ys = refl
  drop-append (x ∷ xs) ys = drop-append xs ys

  drop-nil : (n : ℕ) → drop n [] ≡ []
  drop-nil zero = refl
  drop-nil (suc n) = refl

  pub drop-add : (m n : ℕ) (xs : List A) → drop (m + n) xs ≡ drop n (drop m xs)
  drop-add zero n xs = ground arith
  drop-add (suc m) zero [] = ground arith
  drop-add (suc m) (suc n) [] = drop-nil (suc m + suc n)
  drop-add (suc m) n (x ∷ xs) =
      let moved : suc m + n ≡ suc (m + n) = omega arith in rw moved (drop-add m n xs)

  pub append_assoc : (xs ys zs : List A) → (xs ++ ys) ++ zs ≡ xs ++ (ys ++ zs)
  append_assoc [] ys zs = refl
  append_assoc (x ∷ xs) ys zs = ap (λ r. x ∷ r) (append_assoc xs ys zs)

  pub append-nil : (xs : List A) → xs ++ [] ≡ xs
  append-nil [] = refl
  append-nil (x ∷ xs) = ap (λ r. x ∷ r) (append-nil xs)

module _ {ℓ κ} {A : Type ℓ} (P : A → Type κ) where
  abbrev pub All : List A → Type κ
  All [] = Unit
  All (x ∷ xs) = P x × All xs

  pub All-append : (xs ys : List A) → All xs → All ys → All (xs ++ ys)
  All-append [] ys hx hy = hy
  All-append (x ∷ xs) ys hx hy = (hx.0, All-append xs ys hx.1 hy)

-- Membership with the place kept, for a proof by cases.
abbrev pub Has : {A : Type 0} → A → List A → Type 0
Has a [] = ⊥
Has a (x ∷ xs) = (a ≡ x) ⊎ Has a xs

pub Has-append_left : {A : Type 0} (a : A) (xs ys : List A) → Has a xs → Has a (xs ++ ys)
Has-append_left a [] ys h = absurd h
Has-append_left a (x ∷ xs) ys (inl e) = inl e
Has-append_left a (x ∷ xs) ys (inr h) = inr (Has-append_left a xs ys h)

pub Has-append_right : {A : Type 0} (a : A) (xs ys : List A) → Has a ys → Has a (xs ++ ys)
Has-append_right a [] ys h = h
Has-append_right a (x ∷ xs) ys h = inr (Has-append_right a xs ys h)

pub Has-append_cases :
    {A : Type 0} (a : A) (xs ys : List A) → Has a (xs ++ ys) → Has a xs ⊎ Has a ys
Has-append_cases a [] ys h = inr h
Has-append_cases a (x ∷ xs) ys (inl e) = inl (inl e)
Has-append_cases a (x ∷ xs) ys (inr h) = elim (Has-append_cases a xs ys h) [
  | inl k ↦ inl (inr k)
  | inr k ↦ inr k
]

pub Has-keep :
    {A : Type 0} (a : A) (p : A → Bool) (xs : List A) → p a ≡ true → Has a xs → Has a (keep p xs)
Has-keep a p [] e h = absurd h
Has-keep a p (x ∷ xs) e (inl same) =
    let passes : p x ≡ true = ap p (sym same) ∙ e in rw passes (inl same)
Has-keep a p (x ∷ xs) e (inr h) =
    if_either (Has a) (p x) (inr (Has-keep a p xs e h)) (Has-keep a p xs e h)

pub Has-keep_of :
    {A : Type 0} (a : A) (p : A → Bool) (xs : List A) → Has a (keep p xs) → Has a xs × (p a ≡ true)
Has-keep_of a p [] h = absurd h
Has-keep_of a p (x ∷ xs) h =
    if_cases (λ ys. Has a ys → Has a (x ∷ xs) × (p a ≡ true)) (p x)
      (λ passes k. elim k [
        | inl same ↦ (inl same, ap p same ∙ passes)
        | inr later ↦ let (has, e) = Has-keep_of a p xs later in (inr has, e)
      ])
      (λ fails k. let (has, e) = Has-keep_of a p xs k in (inr has, e)) h

pub Has-map : {A B : Type 0} (f : A → B) (a : A) (xs : List A) → Has a xs → Has (f a) (map f xs)
Has-map f a [] h = absurd h
Has-map f a (x ∷ xs) (inl same) = inl (ap f same)
Has-map f a (x ∷ xs) (inr h) = inr (Has-map f a xs h)

pub Has-map_of :
    {A B : Type 0} (f : A → B) (b : B) (xs : List A)
    → Has b (map f xs)
    → (a : A) × (Has a xs × (f a ≡ b))
Has-map_of f b [] h = absurd h
Has-map_of f b (x ∷ xs) (inl same) = (x, (inl refl, sym same))
Has-map_of f b (x ∷ xs) (inr h) = let (a, (has, e)) = Has-map_of f b xs h in (a, (inr has, e))

pub All-Has : {A : Type 0} (P : A → Type 0) (a : A) (xs : List A) → All P xs → Has a xs → P a
All-Has P a [] all h = absurd h
All-Has P a (x ∷ xs) (p, all) (inl same) = subst P (sym same) p
All-Has P a (x ∷ xs) (p, all) (inr h) = All-Has P a xs all h
