-- ===== src/Scan/Skip.antt =====
-- Where the skipping loops of src/common/common.cpp stop.
use gazon.Base.{
  ℕ, zero, suc, ◌+◌, ◌-◌, ◌≤◌, ◌<◌, ◌≡◌, Bool, true, false, ◌⊎◌, inl, inr, Bool-cases, arith,
}
use gazon.Scan.{skip_loop}

module _ (test : ℕ → Bool) where
  pub le-skip_loop : (n i : ℕ) → i ≤ skip_loop test n i i
  unfolding skip_loop
  le-skip_loop zero i = omega arith
  le-skip_loop (suc n) i = ground (arith, le-skip_loop n (i + 1))

  pub skip_loop-le : (n i : ℕ) → skip_loop test n i i ≤ i + n
  unfolding skip_loop
  skip_loop-le zero i = omega arith
  skip_loop-le (suc n) i = ground (arith, skip_loop-le n (i + 1))

  -- every index passed satisfies the test
  pub skip_loop_passes : (n i k : ℕ) → i ≤ k → k < skip_loop test n i i → test k ≡ true
  unfolding skip_loop
  skip_loop_passes zero i k h h' = absurd (omega arith)
  skip_loop_passes (suc n) i k h h' = elim (Bool-cases (test i)) [
    | inl t ↦ elim (Bool-cases (test k)) [
      | inl e ↦ e
      | inr e ↦ skip_loop_passes n (i + 1) k (ground arith) (ground arith)
    ]
    | inr f ↦ absurd (ground arith)
  ]

  -- the loop stops at the bound, or at the first index that fails the test
  pub skip_loop_stops :
      (n i : ℕ) → (skip_loop test n i i ≡ i + n) ⊎ (test (skip_loop test n i i) ≡ false)
  unfolding skip_loop
  skip_loop_stops zero i = inl (omega arith)
  skip_loop_stops (suc n) i = ground (arith, skip_loop_stops n (i + 1))

  -- it moves when it may
  pub skip_loop_moves : (n i : ℕ) → 0 < n → test i ≡ true → i < skip_loop test n i i
  unfolding skip_loop
  skip_loop_moves zero i h t = absurd (omega arith)
  skip_loop_moves (suc n) i h t = ground (arith, le-skip_loop n (i + 1))

  -- an exact end: `k` indices that pass, then one that fails or the bound
  pub skip_loop_exact :
      (n i k : ℕ)
      → k ≤ n
      → ((j : ℕ) → j < k → test (i + j) ≡ true)
      → (k ≡ n) ⊎ (test (i + k) ≡ false)
      → skip_loop test n i i ≡ i + k
  unfolding skip_loop
  skip_loop_exact n i k le passes stops = ground (
    arith,
    skip_loop_stops n i,
    skip_loop-le n i,
    le-skip_loop n i,
    passes (skip_loop test n i i - i),
    skip_loop_passes n i (i + k),
  )
