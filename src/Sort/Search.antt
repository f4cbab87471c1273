-- ===== src/Sort/Search.antt =====
-- bsearch of src/qsort.c finds a matching element where there is one.
use native.Mathlib.Decide.{dec_lt}
use vlibc.Base.{
  ℕ, zero, suc, ◌+◌, ◌-◌, ◌/◌, ◌≤◌, ◌<◌, ◌≡◌, ◌≢◌, true, false, Option, none, some, arith, ltb, inl,
  inr, lt→ltb,
}
use vlibc.Base.Int.{
  ℤ, pos, is_positive, is_negative, sign_cases, positive-ne-zero, negative-ne-zero,
}
use vlibc.Sort.{bsearch_loop, bsearch}

-- NULL only where no element from `low` up to `high` matches; else the index of one that does.
module _ {ℓ κ} {K : Type κ} {A : Type ℓ} (compar : K → A → ℤ) (key : K) (elem : ℕ → A) where
  abbrev pub Found : ℕ → ℕ → Option (Option ℕ) → Type 0
  Found low high none = ⊥
  Found low high (some none) = (i : ℕ) → low ≤ i → i < high → compar key (elem i) ≢ pos 0
  Found low high (some (some i)) = (low ≤ i) × (i < high) × (compar key (elem i) ≡ pos 0)

  -- The elements are sorted as the comparison with the key sees them.
  pub record IsSortedFor (n : ℕ) : Type 0 where
    pub below :
        (i j : ℕ)
        → i < j
        → j < n
        → is_negative (compar key (elem i)) ≡ true
        → is_negative (compar key (elem j)) ≡ true
    pub above :
        (i j : ℕ)
        → i < j
        → j < n
        → is_positive (compar key (elem j)) ≡ true
        → is_positive (compar key (elem i)) ≡ true

  module _ (n : ℕ) (sorted : IsSortedFor n) where
    -- What a comparison at `mid` rules out.
    positive_up_to :
        (i mid : ℕ)
        → mid < n
        → is_positive (compar key (elem mid)) ≡ true
        → i ≤ mid
        → compar key (elem i) ≢ pos 0
    positive_up_to i mid lt gt le = elim (dec_lt i mid) [
      | yes before ↦ positive-ne-zero _ (sorted.above i mid before lt gt)
      | no same ↦ let e : i ≡ mid = omega arith in rw e (positive-ne-zero _ gt)
    ]

    negative_from :
        (i mid : ℕ)
        → i < n
        → is_negative (compar key (elem mid)) ≡ true
        → mid ≤ i
        → compar key (elem i) ≢ pos 0
    negative_from i mid lt neg le = elim (dec_lt mid i) [
      | yes behind ↦ negative-ne-zero _ (sorted.below mid i behind lt neg)
      | no same ↦ let e : i ≡ mid = omega arith in rw e (negative-ne-zero _ neg)
    ]

    -- An answer for one half is an answer for the whole.
    right_half :
        (low high mid : ℕ) (r : Option (Option ℕ))
        → low ≤ mid
        → mid < high
        → high ≤ n
        → is_positive (compar key (elem mid)) ≡ true
        → Found (mid + 1) high r
        → Found low high r
    right_half low high mid none le lt fit gt h = h
    right_half low high mid (some (some i)) le lt fit gt (lo, hi, e) = (omega arith, hi, e)
    right_half low high mid (some none) le lt fit gt h = λ i lo hi. elim (dec_lt mid i) [
      | yes behind ↦ h i (omega arith) hi
      | no before ↦ positive_up_to i mid (omega arith) gt (omega arith)
    ]

    left_half :
        (low high mid : ℕ) (r : Option (Option ℕ))
        → low ≤ mid
        → mid < high
        → high ≤ n
        → is_negative (compar key (elem mid)) ≡ true
        → Found low mid r
        → Found low high r
    left_half low high mid none le lt fit neg h = h
    left_half low high mid (some (some i)) le lt fit neg (lo, hi, e) = (lo, omega arith, e)
    left_half low high mid (some none) le lt fit neg h = λ i lo hi. elim (dec_lt i mid) [
      | yes before ↦ h i lo before
      | no behind ↦ negative_from i mid (omega arith) neg (omega arith)
    ]

    bsearch_loop-Found :
        (f low high : ℕ)
        → high ≤ n
        → high - low < f
        → Found low high (bsearch_loop compar key elem f low high)
    unfolding bsearch_loop
    bsearch_loop-Found zero low high fit lt = absurd (omega arith)
    bsearch_loop-Found (suc f) low high fit lt = elim (dec_lt low high) [
      | no empty ↦
          let e : ltb low high ≡ false = ground arith in rw e (λ i lo hi. absurd (omega arith))
      | yes some_left ↦
          let mid = low + (high - low) / 2 in
          let lo : low ≤ mid = omega arith in
          let hi : mid < high = omega arith in
          rw (lt→ltb low high some_left) (elim (sign_cases (compar key (elem mid))) [
            | inl neg ↦ rw neg (
                left_half low high mid _ lo hi fit neg
                  (bsearch_loop-Found f low mid (omega arith) (omega arith)))
            | inr (inl (nonneg, gt)) ↦
                rw (nonneg, gt)
                  (right_half low high mid _ lo hi fit gt
                    (bsearch_loop-Found f (mid + 1) high fit (omega arith)))
            | inr (inr (nonneg, nonpos, equal)) ↦ rw (nonneg, nonpos) (lo, hi, equal)
          ])
    ]

    -- bsearch ends; the index that it returns is in range and its element matches the key, and it
    -- returns NULL only if no element of the array matches, if the array is sorted as the comparison
    -- with the key sees it.
    pub bsearch-Found : Found 0 n (bsearch compar key elem n)
    unfolding bsearch
    bsearch-Found = bsearch_loop-Found (n + 1) 0 n (omega arith) (omega arith)
