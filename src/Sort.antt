-- ===== src/Sort.antt =====
-- src/qsort.c: swap, qsort, qsort_r and bsearch. The elements of the array are opaque values, which
-- only the caller's comparison looks into; `swap` exchanges their bytes.
pub mod Swap
pub mod Order
pub mod Search
use vlibc.Base.{
  ℕ, zero, suc, ◌+◌, ◌-◌, ◌/◌, Bool, true, false, List, [], ◌∷◌, Option, none, some, ltb,
  if◌then◌else◌, length,
}
use vlibc.Base.Int.{ℤ, is_positive, is_negative}
use vlibc.Memory.{Mem, store}

-- `while (size--)` exchanges a byte of each.
pub swap : ℕ → ℕ → ℕ → Mem → Mem
swap a b zero m = m
swap a b (suc size) m =
    let tmp = m a in let m' = store m a (m b) in swap (a + 1) (b + 1) size (store m' b tmp)

module _ {ℓ} {A : Type ℓ} (compar : A → A → ℤ) where
  -- The inner loop: `x` is the element at `pi`, the list is what stands from `j` on. The results are
  -- the element at `pi` and the list behind it when the loop ends.
  unfoldable pub inner : A → List A → A × List A
  inner x [] = (x, [])
  inner x (y ∷ ys) =
      let r = inner (if is_positive (compar x y) then y else x) ys in
      (r.0, (if is_positive (compar x y) then x else y) ∷ r.1)

  -- The outer loop, with the rounds left and the array from `i` on.
  unfoldable pub outer : ℕ → List A → List A
  outer zero xs = xs
  outer (suc n) [] = []
  outer (suc n) (x ∷ xs) = let r = inner x xs in r.0 ∷ outer n r.1

  pub qsort : List A → List A
  qsort xs = outer (length xs) xs

pub qsort_r {ℓ κ} : {A : Type ℓ} {C : Type κ} → (A → A → C → ℤ) → C → List A → List A
qsort_r compar ctx xs = qsort (λ a b. compar a b ctx) xs

-- `elem i` is the element at `b + i * size`. Fuel is the rounds of the loop; the inner `none` is NULL.
module _ {ℓ κ} {K : Type κ} {A : Type ℓ} (compar : K → A → ℤ) (key : K) (elem : ℕ → A) where
  unfoldable pub bsearch_loop : ℕ → ℕ → ℕ → Option (Option ℕ)
  bsearch_loop zero low high = none
  bsearch_loop (suc f) low high =
      let mid = low + (high - low) / 2 in
      let c = compar key (elem mid) in
      let left = bsearch_loop f low mid in
      let right = bsearch_loop f (mid + 1) high in
      if ltb low high
      then (if is_negative c then left else if is_positive c then right else some (some mid))
      else some none

  pub bsearch : ℕ → Option (Option ℕ)
  bsearch nmemb = bsearch_loop (nmemb + 1) 0 nmemb
