-- ===== src/Sort/Order.antt =====
-- qsort of src/qsort.c returns its elements in ascending order.
use mathlib.Core.List.{Perm}
use mathlib.Core.List.Perm
use vlibc.Base.{
  ℕ, zero, suc, ◌≤◌, ◌≡◌, refl, true, false, List, [], ◌∷◌, arith, if◌then◌else◌, All, length,
  Bool-cases, inl, inr, ap,
}
use vlibc.Base.Int.{ℤ, is_positive}
use vlibc.Sort.{inner, outer, qsort}

-- What C asks of a comparison: a total preorder.
pub record IsComparison {ℓ} {A : Type ℓ} (compar : A → A → ℤ) : Type ℓ where
  pub flips : (a b : A) → is_positive (compar a b) ≡ true → is_positive (compar b a) ≡ false
  pub chains :
      (a b c : A)
      → is_positive (compar a b) ≡ false
      → is_positive (compar b c) ≡ false
      → is_positive (compar a c) ≡ false

module _ {ℓ} {A : Type ℓ} (compar : A → A → ℤ) where
  -- `a` need not stand behind `b`.
  abbrev pub Le : A → A → Type 0
  Le a b = is_positive (compar a b) ≡ false

  -- Each element before all behind it.
  abbrev pub Ascending : List A → Type ℓ
  Ascending [] = Unit
  Ascending (x ∷ xs) = All (Le x) xs × Ascending xs

module _ {ℓ} {A : Type ℓ} (compar : A → A → ℤ) where
  inner-perm : (x : A) (xs : List A) → Perm ((inner compar x xs).0 ∷ (inner compar x xs).1) (x ∷ xs)
  unfolding inner
  inner-perm x [] = Perm.refl (x ∷ [])
  inner-perm x (y ∷ ys) = elim (Bool-cases (is_positive (compar x y))) [
    | inl gt ↦ rw gt (Perm.trans (Perm.swap _ _ _) (Perm.cons x (inner-perm y ys)))
    | inr le ↦ rw le (
        Perm.trans (Perm.swap _ _ _) (Perm.trans (Perm.cons y (inner-perm x ys)) (Perm.swap _ _ _)))
  ]

  inner_greater :
      (x y : A) (ys : List A)
      → is_positive (compar x y) ≡ true
      → inner compar x (y ∷ ys) ≡ ((inner compar y ys).0, x ∷ (inner compar y ys).1)
  unfolding inner
  inner_greater x y ys gt = rw gt

  inner_rest :
      (x y : A) (ys : List A)
      → is_positive (compar x y) ≡ false
      → inner compar x (y ∷ ys) ≡ ((inner compar x ys).0, y ∷ (inner compar x ys).1)
  unfolding inner
  inner_rest x y ys le = rw le

  outer-perm : (n : ℕ) (xs : List A) → Perm (outer compar n xs) xs
  unfolding outer
  outer-perm zero xs = Perm.refl xs
  outer-perm (suc n) [] = Perm.refl []
  outer-perm (suc n) (x ∷ xs) =
      Perm.trans (Perm.cons _ (outer-perm n (inner compar x xs).1)) (inner-perm x xs)

  length-inner : (x : A) (xs : List A) → length (inner compar x xs).1 ≡ length xs
  unfolding inner
  length-inner x [] = refl
  length-inner x (y ∷ ys) = ap suc (length-inner (if is_positive (compar x y) then y else x) ys)

  -- The loops only move elements about.
  inner-All {κ} :
      (P : A → Type κ) (x : A) (xs : List A)
      → P x
      → All P xs
      → P (inner compar x xs).0 × All P (inner compar x xs).1
  unfolding inner
  inner-All P x [] h k = (h, tt)
  inner-All P x (y ∷ ys) h (k, ks) = elim (Bool-cases (is_positive (compar x y))) [
    | inl gt ↦ rw gt (let (u, us) = inner-All P y ys k ks in (u, (h, us)))
    | inr le ↦ rw le (let (u, us) = inner-All P x ys h ks in (u, (k, us)))
  ]

  outer-All {κ} : (P : A → Type κ) (n : ℕ) (xs : List A) → All P xs → All P (outer compar n xs)
  unfolding outer
  outer-All P zero xs h = h
  outer-All P (suc n) [] h = tt
  outer-All P (suc n) (x ∷ xs) (h, hs) =
      let (u, us) = inner-All P x xs h hs in (u, outer-All P n (inner compar x xs).1 us)

module _ {ℓ} {A : Type ℓ} (compar : A → A → ℤ) (c : IsComparison compar) where
  Le_refl : (x : A) → Le compar x x
  Le_refl x = elim (Bool-cases (is_positive (compar x x))) [ inl e ↦ c.flips x x e | inr e ↦ e ]

  inner-le_self : (x : A) (xs : List A) → Le compar (inner compar x xs).0 x
  unfolding inner
  inner-le_self x [] = Le_refl x
  inner-le_self x (y ∷ ys) = elim (Bool-cases (is_positive (compar x y))) [
    | inl gt ↦ rw gt (c.chains _ y x (inner-le_self y ys) (c.flips x y gt))
    | inr le ↦ rw le (inner-le_self x ys)
  ]

  inner-le : (x : A) (xs : List A) → All (Le compar (inner compar x xs).0) (inner compar x xs).1
  inner-le x [] = unfold inner in tt
  inner-le x (y ∷ ys) = elim (Bool-cases (is_positive (compar x y))) [
    | inl gt ↦
        rw (inner_greater compar x y ys gt)
          (c.chains _ y x (inner-le_self y ys) (c.flips x y gt), inner-le y ys)
    | inr le ↦
        rw (inner_rest compar x y ys le) (c.chains _ x y (inner-le_self x ys) le, inner-le x ys)
  ]

  outer-Ascending : (n : ℕ) (xs : List A) → length xs ≤ n → Ascending compar (outer compar n xs)
  unfolding outer
  outer-Ascending zero [] h = tt
  outer-Ascending zero (x ∷ xs) h = absurd (omega arith)
  outer-Ascending (suc n) [] h = tt
  outer-Ascending (suc n) (x ∷ xs) h =
      let r = inner compar x xs in
      (
        outer-All compar (Le compar r.0) n r.1 (inner-le x xs),
        outer-Ascending n r.1 (omega (arith, length-inner compar x xs)),
      )

  -- qsort returns the elements that it is given, each as often, in ascending order, if the caller's
  -- comparison is a total preorder.
  pub qsort-Ascending :
      (xs : List A) → Ascending compar (qsort compar xs) × Perm (qsort compar xs) xs
  unfolding qsort
  qsort-Ascending xs =
      (outer-Ascending (length xs) xs (omega arith), outer-perm compar (length xs) xs)
