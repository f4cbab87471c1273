-- ===== src/Tree/Find.antt =====
-- tfind of src/search_tree.c against a search of the keys in order, and tfind after tsearch.
use vlibc.Base.{
  ◌≡◌, refl, Bool, true, false, ◌||◌, not, List, [], ◌∷◌, ◌++◌, Option, none, some, arith,
  if◌then◌else◌, inl, inr, ◌⊎◌, Bool-cases,
}
use vlibc.Base.Int.{ℤ, is_positive, is_negative, sign_cases, negative_not_positive}
use vlibc.Tree.{Tree, null, node, tsearch, tfind}
use vlibc.Tree.Ordered.{IsOrder, AllKeys, AllKeys-map, Lt, IsSearchTree}

module _ {ℓ} {K : Type ℓ} where
  -- The keys from left to right.
  unfoldable pub to_list : Tree K → List K
  to_list null = []
  to_list (node l k r) = to_list l ++ k ∷ to_list r

module _ {ℓ} {K : Type ℓ} (compar : K → K → ℤ) where
  -- The two keys compare equal.
  abbrev pub equals : K → K → Bool
  equals a b = not (is_negative (compar a b) || is_positive (compar a b))

  unfoldable pub find_equal : K → List K → Option K
  find_equal key [] = none
  find_equal key (x ∷ xs) = if equals key x then some x else find_equal key xs

  unfoldable pub or_else : Option K → Option K → Option K
  or_else none b = b
  or_else (some a) b = some a

  pub find_equal-append :
      (key : K) (xs ys : List K)
      → find_equal key (xs ++ ys) ≡ or_else (find_equal key xs) (find_equal key ys)
  unfolding find_equal or_else
  find_equal-append key [] ys = refl
  find_equal-append key (x ∷ xs) ys = elim (Bool-cases (equals key x)) [
    | inl e ↦ rw e
    | inr e ↦ rw e (find_equal-append key xs ys)
  ]

  -- Nothing is found among keys that do not compare equal.
  pub find_equal-none :
      (key : K) (t : Tree K)
      → AllKeys (λ x. equals key x ≡ false) t
      → find_equal key (to_list t) ≡ none
  unfolding find_equal to_list or_else
  find_equal-none key null h = refl
  find_equal-none key (node l k r) (hl, hk, hr) =
      rw find_equal-append (rw (find_equal-none key l hl, hk) (find_equal-none key r hr))

  equals_sign :
      (a b : K)
      → (is_negative (compar a b) ≡ true) ⊎ (is_positive (compar a b) ≡ true)
      → equals a b ≡ false
  equals_sign a b h = ground arith

  pub equals_zero :
      (a b : K)
      → is_negative (compar a b) ≡ false
      → is_positive (compar a b) ≡ false
      → equals a b ≡ true
  equals_zero a b h k = ground arith

module _ {ℓ} {K : Type ℓ} (compar : K → K → ℤ) (o : IsOrder compar) where
  -- The keys on either side of a key that stands on this side of `key`, or at it, do not equal it.
  pub unequal_above :
      (key k : K) (t : Tree K)
      → is_positive (compar key k) ≡ false
      → AllKeys (λ x. Lt compar k x) t
      → AllKeys (λ x. equals compar key x ≡ false) t
  unequal_above key k t nonpos h =
      AllKeys-map _ _ t
        (λ x lt. equals_sign compar key x (
          inl (elim (sign_cases (compar key k)) [
            | inl neg ↦ o.chains key k x neg lt
            | inr (inl (_, positive)) ↦ cc
            | inr (inr (_, _, zero)) ↦ rw (o.equal_negative key k x zero) lt
          ])))
        h

  pub unequal_below :
      (key k : K) (t : Tree K)
      → is_negative (compar key k) ≡ false
      → AllKeys (λ x. Lt compar x k) t
      → AllKeys (λ x. equals compar key x ≡ false) t
  unequal_below key k t nonneg h =
      AllKeys-map _ _ t
        (λ x lt. equals_sign compar key x (
          inr (elim (sign_cases (compar key k)) [
            | inl neg ↦ cc
            | inr (inl (_, positive)) ↦
                rw (o.flips key x) (o.chains x k key lt (rw (o.flips key k) at positive))
            | inr (inr (_, _, zero)) ↦ rw (o.equal_positive key k x zero, o.flips k x) lt
          ])))
        h

  -- If the comparison is a total order, in a search tree tfind finds a key exactly if one that compares equal stands in the tree, and then
  -- the first of them from the left.
  pub tfind-find_equal :
      (key : K) (t : Tree K)
      → IsSearchTree compar t
      → tfind compar key t ≡ find_equal compar key (to_list t)
  unfolding tfind find_equal to_list or_else
  tfind-find_equal key null h = refl
  tfind-find_equal key (node l k r) (hl, al, ar, hr) =
      rw find_equal-append (elim (sign_cases (compar key k)) [
        | inl neg ↦ ground (
          arith,
          tfind-find_equal key l hl,
          find_equal-none compar key r
              (unequal_above key k r (negative_not_positive (compar key k) neg) ar),
          negative_not_positive (compar key k) neg,
        )
        | inr (inl (nonneg, positive)) ↦ ground (
          arith,
          tfind-find_equal key r hr,
          find_equal-none compar key l (unequal_below key k l nonneg al),
        )
        | inr (inr (nonneg, nonpos, zero)) ↦
            ground (arith, find_equal-none compar key l (unequal_below key k l nonneg al))
      ])

  pub same_side :
      (a b c : K)
      → equals compar a b ≡ true
      → (is_negative (compar a c) ≡ is_negative (compar b c))
        × (is_positive (compar a c) ≡ is_positive (compar b c))
  same_side a b c h = elim (sign_cases (compar a b)) [
    | inl neg ↦ ground arith
    | inr (inl (_, positive)) ↦ ground arith
    | inr (inr (_, _, zero)) ↦ (o.equal_negative a b c zero, o.equal_positive a b c zero)
  ]

  -- If the comparison is a total order, what tfind gives after a tsearch that can allocate, in any tree: a key that equals the one searched
  -- is found, the old one if there was one and else the new one; what is found for others stays.
  pub tfind-tsearch :
      (key k' : K) (t : Tree K)
      → tfind compar k' (tsearch compar true key t).1 ≡ (
          if equals compar k' key
          then or_else compar (tfind compar k' t) (some key)
          else tfind compar k' t)
  unfolding tsearch tfind or_else
  tfind-tsearch key k' null = ground arith
  tfind-tsearch key k' (node l k r) = elim (Bool-cases (equals compar k' key)) [
    | inl same ↦
        let (n, p) = same_side k' key k same in
        ground (arith, n, p, tfind-tsearch key k' l, tfind-tsearch key k' r)
    | inr other ↦ ground (arith, tfind-tsearch key k' l, tfind-tsearch key k' r)
  ]
