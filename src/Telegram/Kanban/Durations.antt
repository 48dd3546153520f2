-- ===== src/Telegram/Kanban/Durations.antt =====
-- Percentiles.
use jira_bot.Base.{
  ℕ, zero, suc, ◌⊎◌, inl, inr, refl, ◌+◌, ◌-◌, ◌*◌, ◌≤◌, ◌<◌, ◌≡◌, sym, ap, subst, ltb, leb, List,
  ◌∷◌, if◌then◌else◌, length, keep, arith,
}
use jira_bot.Base.Sorting.{
  nth-some, nth-up_to, nth-below, sort, sort-length, sort-count, sort-IsRising, up_to, below,
}
use jira_bot.Telegram.Kanban.{rank, or_zero, percentile}

-- `q` is p per cent of `n`, rounded up.
abbrev pub IsCeiling : (p n q : ℕ) → Type 0
IsCeiling p n q = (p * n ≤ 100 * q) × (100 * q < p * n + 100)

abbrev number : ℕ → ℕ
number n = n

-- At least p per cent of the values are not above `x`, and fewer than p per cent of them, or none, are below it.
abbrev pub IsRank : ℕ → List ℕ → ℕ → Type 0
IsRank p values x =
    (p * length values ≤ 100 * length (keep (λ w. leb w x) values))
    × ((length (keep (λ w. ltb w x) values) ≡ 0)
        ⊎ (100 * length (keep (λ w. ltb w x) values) < p * length values))

module _ (ceil_share : ℕ → ℕ → ℕ) where
  rank-lt : (p n : ℕ) → rank ceil_share p (suc n) < suc n
  rank-lt p n = bounded (ceil_share p (suc n) - 1)
    where
      bounded : (idx : ℕ) → (if leb (suc n) idx then suc n - 1 else idx) < suc n
      bounded idx = ground arith

  -- The nearest rank is enough of the values, where the percentage is at most 100.
  rank-enough :
      (p n : ℕ)
      → p ≤ 100
      → IsCeiling p (suc n) (ceil_share p (suc n))
      → p * suc n ≤ 100 * suc (rank ceil_share p (suc n))
  rank-enough p n h (up, close) = by_rank (ceil_share p (suc n)) up (product p h)
    where
      product : (p : ℕ) → p ≤ 100 → p * suc n ≤ 100 * suc n
      product p h = grind arith

      by_rank :
          (q : ℕ)
          → p * suc n ≤ 100 * q
          → p * suc n ≤ 100 * suc n
          → p * suc n ≤ 100 * suc (if leb (suc n) (q - 1) then suc n - 1 else q - 1)
      by_rank q h all = ground arith

  -- The p-th percentile of at least one value, for a p of at most 100 and where the floats have p per cent of the
  -- number of values, rounded up, right, is the nearest rank: at least p per cent of the values are not above it, and
  -- fewer than p per cent of them, or none, are below it.
  pub percentile-IsNearestRank :
      (v : ℕ) (values : List ℕ) (p : ℕ)
      → p ≤ 100
      → IsCeiling p (length (v ∷ values)) (ceil_share p (length (v ∷ values)))
      → IsRank p (v ∷ values) (percentile ceil_share (v ∷ values) p)
  unfolding percentile
  percentile-IsNearestRank v values p h ok =
      let n = length values in
      let sorted = sort number (v ∷ values) in
      let r = rank ceil_share p (suc n) in
      let inside : r < length sorted =
        subst (λ k. r < k) (sym (sort-length number (v ∷ values))) (rank-lt p n) in
      let (x, e) = nth-some number r sorted inside in
      let rising = sort-IsRising number (v ∷ values) in
      let above = nth-up_to number r sorted x rising e in
      let under = nth-below number r sorted x rising e in
      let above' = sort-count number (up_to number x) (v ∷ values) in
      let under' = sort-count number (below number x) (v ∷ values) in
      let enough = rank-enough p n h ok in
      let within = rank-le (ceil_share p (suc n)) in
      let close = ok.1 in
      let same : percentile ceil_share (v ∷ values) p ≡ x = ap or_zero e in
      let count = length (keep (λ w. ltb w x) (v ∷ values)) in
      let few : (count ≡ 0) ⊎ (100 * count < p * length (v ∷ values)) =
        few_below count (ceil_share p (suc n)) (omega arith) close in
      subst (IsRank p (v ∷ values)) (sym same) (omega arith, few)
    where
      rank-le :
          (q : ℕ)
          → (if leb (suc (length values)) (q - 1) then suc (length values) - 1 else q - 1) ≤ q - 1
      rank-le q = ground arith

      few_below :
          (count q : ℕ)
          → count ≤ q - 1
          → 100 * q < p * suc (length values) + 100
          → (count ≡ 0) ⊎ (100 * count < p * suc (length values))
      few_below zero q le close = inl refl
      few_below (suc count) q le close = inr (omega arith)
