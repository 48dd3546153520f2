-- ===== src/Base/Maps.antt =====
-- Go maps as association lists. A map that is built by `insert` has each key once.
use mathlib.Core.Path.{◌≡◌, refl, subst, ap₂}
use mathlib.Core.Bool.{Bool}
use mathlib.Core.Option.{Option, none, some}
use mathlib.Core.List.{List, [], ◌∷◌}
use native.Mathlib.Omega.{arith}
use jira_bot.Base.Tests.{if◌then◌else◌, Bool-cases}
use jira_bot.Base.Lists.{All}
use mathlib.Core.Logic.{inl, inr}
use jira_bot.Base.Equality.{Eq, ◌==◌, ==_iff}

abbrev pub only_if {κ} : {V : Type κ} → (V → Bool) → Option V → Option V
only_if p none = none
only_if p (some v) = if p v then some v else none

module _ {ℓ κ} {K : Type ℓ} ⦃e : Eq K⦄ {V : Type κ} where
  unfoldable pub lookup : K → List (K × V) → Option V
  lookup k [] = none
  lookup k ((j, v) ∷ m) = if j == k then some v else lookup k m

  unfoldable pub insert : K → V → List (K × V) → List (K × V)
  insert k v [] = (k, v) ∷ []
  insert k v (entry ∷ m) = if entry.0 == k then (k, v) ∷ m else entry ∷ insert k v m

  unfoldable pub erase : K → List (K × V) → List (K × V)
  erase k [] = []
  erase k ((j, w) ∷ m) = if j == k then erase k m else (j, w) ∷ erase k m

  -- The loop `for k, v := range m { if !p(v) { delete(m, k) } }`.
  unfoldable pub sift : (V → Bool) → List (K × V) → List (K × V)
  sift p [] = []
  sift p ((j, w) ∷ m) = if p w then (j, w) ∷ sift p m else sift p m

  abbrev pub HasUniqueKeys : List (K × V) → Type κ
  HasUniqueKeys [] = Unit
  HasUniqueKeys ((k, v) ∷ m) = (lookup k m ≡ none) × HasUniqueKeys m

  pub lookup-insert :
      (written asked : K) (v : V) (m : List (K × V))
      → lookup asked (insert written v m) ≡ (if written == asked then some v else lookup asked m)
  unfolding lookup insert
  lookup-insert written asked v [] = refl
  lookup-insert written asked v ((i, w) ∷ m) = ground (
    arith,
    ==_iff written asked,
    ==_iff i written,
    ==_iff i asked,
    lookup-insert written asked v m,
  )

  pub lookup-erase :
      (k j : K) (m : List (K × V)) → lookup j (erase k m) ≡ (if k == j then none else lookup j m)
  unfolding lookup erase
  lookup-erase k j [] = ground arith
  lookup-erase k j ((i, w) ∷ m) =
      ground (arith, ==_iff k j, ==_iff i k, ==_iff i j, lookup-erase k j m)

  lookup-sift-none :
      (p : V → Bool) (j : K) (m : List (K × V)) → lookup j m ≡ none → lookup j (sift p m) ≡ none
  unfolding lookup sift
  lookup-sift-none p j [] h = refl
  lookup-sift-none p j ((i, w) ∷ m) h = ground (arith, lookup-sift-none p j m)

  pub lookup-sift :
      (p : V → Bool) (j : K) (m : List (K × V))
      → HasUniqueKeys m
      → lookup j (sift p m) ≡ only_if p (lookup j m)
  unfolding lookup sift
  lookup-sift p j [] u = refl
  lookup-sift p j ((i, w) ∷ m) u =
      ground (arith, ==_iff i j, lookup-sift p j m u.1, lookup-sift-none p i m u.0)

  pub insert-HasUniqueKeys :
      (k : K) (v : V) (m : List (K × V)) → HasUniqueKeys m → HasUniqueKeys (insert k v m)
  unfolding insert lookup
  insert-HasUniqueKeys k v [] u = (refl, tt)
  insert-HasUniqueKeys k v ((i, w) ∷ m) u =
      ground (arith, ==_iff i k, ==_iff k i, insert-HasUniqueKeys k v m u.1, lookup-insert k i v m)

  pub erase-HasUniqueKeys : (k : K) (m : List (K × V)) → HasUniqueKeys m → HasUniqueKeys (erase k m)
  unfolding erase
  erase-HasUniqueKeys k [] u = tt
  erase-HasUniqueKeys k ((i, w) ∷ m) u =
      ground (arith, erase-HasUniqueKeys k m u.1, lookup-erase k i m)

  pub sift-HasUniqueKeys :
      (p : V → Bool) (m : List (K × V)) → HasUniqueKeys m → HasUniqueKeys (sift p m)
  unfolding sift
  sift-HasUniqueKeys p [] u = tt
  sift-HasUniqueKeys p ((i, w) ∷ m) u =
      ground (arith, sift-HasUniqueKeys p m u.1, lookup-sift-none p i m u.0)

-- What holds of every entry survives an insertion of an entry of which it holds, a deletion and a
-- sweep, and holds of what a lookup finds.
module _ {ℓ κ μ} {K : Type ℓ} ⦃e : Eq K⦄ {V : Type κ} (P : K × V → Type μ) where
  pub All-insert : (k : K) (v : V) (m : List (K × V)) → P (k, v) → All P m → All P (insert k v m)
  unfolding insert
  All-insert k v [] p h = (p, tt)
  All-insert k v ((j, w) ∷ m) p (q, h) = elim (Bool-cases (j == k)) [
    | inl same ↦ rw same (p, h)
    | inr other ↦ rw other (q, All-insert k v m p h)
  ]

  pub All-sift : (p : V → Bool) (m : List (K × V)) → All P m → All P (sift p m)
  unfolding sift
  All-sift p [] h = tt
  All-sift p ((j, w) ∷ m) (q, h) = elim (Bool-cases (p w)) [
    | inl e ↦ rw e (q, All-sift p m h)
    | inr e ↦ rw e (All-sift p m h)
  ]

  pub All-erase : (k : K) (m : List (K × V)) → All P m → All P (erase k m)
  unfolding erase
  All-erase k [] h = tt
  All-erase k ((j, w) ∷ m) (q, h) = elim (Bool-cases (j == k)) [
    | inl e ↦ rw e (All-erase k m h)
    | inr e ↦ rw e (q, All-erase k m h)
  ]

  pub All-lookup : (k : K) (v : V) (m : List (K × V)) → All P m → lookup k m ≡ some v → P (k, v)
  unfolding lookup
  All-lookup k v [] h f = cc
  All-lookup k v ((j, w) ∷ m) (q, h) f = elim (Bool-cases (j == k)) [
    | inl same ↦
        let found : w ≡ v = ground arith in
        subst P (ap₂ (λ a b. (a, b)) ((==_iff j k).0 same) found) q
    | inr other ↦ All-lookup k v m h (rw other at f)
  ]
