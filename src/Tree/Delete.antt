-- ===== src/Tree/Delete.antt =====
-- tdelete of src/search_tree.c: the order of the tree after it, and what tfind then finds.
use vlibc.Base.{
  ◌≡◌, refl, sym, ◌∙◌, ap, false, List, ◌∷◌, ◌++◌, append-nil, none, arith, if◌then◌else◌, inl, inr,
  Bool-cases,
}
use vlibc.Base.Int.{ℤ, pos, is_positive, is_negative, sign_cases}
use vlibc.Tree.{Tree, null, node, tfind, tdelete, tdelete_at, unlink, least, drop_least, Ret}
use vlibc.Tree.Ordered.{IsOrder, AllKeys, AllKeys-map, Lt, IsSearchTree}
use vlibc.Tree.Find.{
  to_list, equals, find_equal, or_else, find_equal-append, find_equal-none, unequal_above,
  unequal_below, same_side, tfind-find_equal,
}

module _ {ℓ} {K : Type ℓ} where
  least-AllKeys : (P : K → Type 0) (l : Tree K) (k : K) → AllKeys P l → P k → P (least l k)
  unfolding least
  least-AllKeys P null k h p = p
  least-AllKeys P (node l k' r) k (hl, hk, hr) p = least-AllKeys P l k' hl hk

  drop_least-AllKeys :
      (P : K → Type 0) (l : Tree K) (k : K) (r : Tree K)
      → AllKeys P l
      → P k
      → AllKeys P r
      → AllKeys P (drop_least l k r)
  unfolding drop_least
  drop_least-AllKeys P null k r h p hr = hr
  drop_least-AllKeys P (node l k' r') k r (hl, hk, hr') p hr =
      (drop_least-AllKeys P l k' r' hl hk hr', p, hr)

  unlink-AllKeys :
      (P : K → Type 0) (l r : Tree K) → AllKeys P l → AllKeys P r → AllKeys P (unlink l r)
  unfolding unlink
  unlink-AllKeys P null r hl hr = hr
  unlink-AllKeys P (node l k l') null hl hr = hl
  unlink-AllKeys P (node l k l') (node rl rk rr) hl (h1, h2, h3) =
      (hl, least-AllKeys P rl rk h1 h2, drop_least-AllKeys P rl rk rr h1 h2 h3)

  -- The least key stands first, and the rest in order behind it.
  least-to_list :
      (l : Tree K) (k : K) (r : Tree K)
      → to_list (node l k r) ≡ least l k ∷ to_list (drop_least l k r)
  unfolding to_list least drop_least
  least-to_list null k r = refl
  least-to_list (node l k' r') k r = ap (λ (t : List K). t ++ k ∷ to_list r) (least-to_list l k' r')

  -- What stands in place of a node holds the keys of its two subtrees, in order.
  unlink-to_list : (l r : Tree K) → to_list (unlink l r) ≡ to_list l ++ to_list r
  unfolding unlink
  unlink-to_list null r = unfold to_list in refl
  unlink-to_list (node l k l') null = unfold to_list in sym (append-nil (to_list (node l k l')))
  unlink-to_list (node l k l') (node rl rk rr) =
      rw (least-to_list rl rk rr) (unfold to_list in refl)

module _ {ℓ} {K : Type ℓ} (compar : K → K → ℤ) (o : IsOrder compar) where
  drop_least-IsSearchTree :
      (l : Tree K) (k : K) (r : Tree K)
      → IsSearchTree compar (node l k r)
      → IsSearchTree compar (drop_least l k r)
        × AllKeys (λ x. Lt compar (least l k) x) (drop_least l k r)
  unfolding drop_least least
  drop_least-IsSearchTree null k r (hl, al, ar, hr) = (hr, ar)
  drop_least-IsSearchTree (node l k' r') k r (hl, (a1, a2, a3), ar, hr) =
      let (keeps, above) = drop_least-IsSearchTree l k' r' hl in
      let low = least-AllKeys (λ x. Lt compar x k) l k' a1 a2 in
      (
        (keeps, drop_least-AllKeys (λ x. Lt compar x k) l k' r' a1 a2 a3, ar, hr),
        (above, low, AllKeys-map _ _ r (λ x lt. o.chains (least l k') k x low lt) ar),
      )

  unlink-IsSearchTree :
      (l : Tree K) (k : K) (r : Tree K)
      → IsSearchTree compar (node l k r)
      → IsSearchTree compar (unlink l r)
  unfolding unlink
  unlink-IsSearchTree null k r (hl, al, ar, hr) = hr
  unlink-IsSearchTree (node l k' l') k null (hl, al, ar, hr) = hl
  unlink-IsSearchTree (node l k' l') k (node rl rk rr) (hl, al, (r1, r2, r3), hr) =
      let (keeps, above) = drop_least-IsSearchTree rl rk rr hr in
      let low = least-AllKeys (λ x. Lt compar k x) rl rk r1 r2 in
      (
        hl,
        AllKeys-map _ _ (node l k' l') (λ x lt. o.chains x k (least rl rk) lt low) al,
        above,
        keeps,
      )

  tdelete_at-AllKeys :
      (P : K → Type 0) (key : K) (ret : Ret K) (t : Tree K)
      → AllKeys P t
      → AllKeys P (tdelete_at compar key ret t).1
  unfolding tdelete_at
  tdelete_at-AllKeys P key ret null h = tt
  tdelete_at-AllKeys P key ret (node l k r) (hl, hk, hr) = elim (sign_cases (compar key k)) [
    | inl neg ↦ rw neg (tdelete_at-AllKeys P key (Ret.parent k) l hl, hk, hr)
    | inr (inl (nonneg, positive)) ↦
        rw (nonneg, positive) (hl, hk, tdelete_at-AllKeys P key (Ret.parent k) r hr)
    | inr (inr (nonneg, nonpos, zero)) ↦ rw (nonneg, nonpos) (unlink-AllKeys P l r hl hr)
  ]

  tdelete_at-IsSearchTree :
      (key : K) (ret : Ret K) (t : Tree K)
      → IsSearchTree compar t
      → IsSearchTree compar (tdelete_at compar key ret t).1
  unfolding tdelete_at
  tdelete_at-IsSearchTree key ret null h = tt
  tdelete_at-IsSearchTree key ret (node l k r) (hl, al, ar, hr) = elim (sign_cases (compar key k)) [
    | inl neg ↦ rw neg (
      tdelete_at-IsSearchTree key (Ret.parent k) l hl,
      tdelete_at-AllKeys (λ x. Lt compar x k) key (Ret.parent k) l al,
      ar,
      hr,
    )
    | inr (inl (nonneg, positive)) ↦
        rw (nonneg, positive)
          (
            hl,
            al,
            tdelete_at-AllKeys (λ x. Lt compar k x) key (Ret.parent k) r ar,
            tdelete_at-IsSearchTree key (Ret.parent k) r hr,
          )
    | inr (inr (nonneg, nonpos, zero)) ↦
        rw (nonneg, nonpos) (unlink-IsSearchTree l k r (hl, al, ar, hr))
  ]

  -- tdelete makes a search tree of a search tree, if the comparison is a total order.
  pub tdelete-IsSearchTree :
      (key : K) (t : Tree K) → IsSearchTree compar t → IsSearchTree compar (tdelete compar key t).1
  unfolding tdelete
  tdelete-IsSearchTree key t h = tdelete_at-IsSearchTree key Ret.root t h

  -- Unlinking a node hides what equals its key, and nothing else.
  tfind-unlink :
      (key : K) (l : Tree K) (k : K) (r : Tree K)
      → IsSearchTree compar (node l k r)
      → tfind compar key (unlink l r)
        ≡ (if equals compar key k then none else tfind compar key (node l k r))
  tfind-unlink key l k r h =
      rw
        (
          tfind-find_equal compar o key (unlink l r) (unlink-IsSearchTree l k r h),
          tfind-find_equal compar o key (node l k r) h,
          unlink-to_list,
          find_equal-append,
        )
        (elim (Bool-cases (equals compar key k)) [
          | inl same ↦
              let nonneg : is_negative (compar key k) ≡ false = ground arith in
              let nonpos : is_positive (compar key k) ≡ false = ground arith in
              rw
                (
                  find_equal-none compar key l (unequal_below compar o key k l nonneg h.1),
                  find_equal-none compar key r (unequal_above compar o key k r nonpos h.2),
                  same,
                )
                (unfold or_else in refl)
          | inr other ↦
              rw other (unfold to_list in rw find_equal-append (unfold find_equal in rw other refl))
        ])

  same_right :
      (a b c : K)
      → compar b c ≡ pos 0
      → (is_negative (compar a b) ≡ is_negative (compar a c))
        × (is_positive (compar a b) ≡ is_positive (compar a c))
  same_right a b c zero = (
    sym (o.flips b a) ∙ o.equal_positive b c a zero ∙ o.flips c a,
    o.flips a b ∙ o.equal_negative b c a zero ∙ sym (o.flips a c),
  )

  tfind-tdelete_at :
      (key k' : K) (ret : Ret K) (t : Tree K)
      → IsSearchTree compar t
      → tfind compar k' (tdelete_at compar key ret t).1
        ≡ (if equals compar k' key then none else tfind compar k' t)
  unfolding tdelete_at tfind
  tfind-tdelete_at key k' ret null h = ground arith
  tfind-tdelete_at key k' ret (node l k r) (hl, al, ar, hr) = elim (sign_cases (compar key k)) [
    | inl neg ↦ elim (Bool-cases (equals compar k' key)) [
      | inl same ↦
          let (n, p) = same_side compar o k' key k same in
          ground (arith, n, p, tfind-tdelete_at key k' (Ret.parent k) l hl)
      | inr other ↦ ground (arith, tfind-tdelete_at key k' (Ret.parent k) l hl)
    ]
    | inr (inl (nonneg, positive)) ↦ elim (Bool-cases (equals compar k' key)) [
      | inl same ↦
          let (n, p) = same_side compar o k' key k same in
          ground (arith, n, p, tfind-tdelete_at key k' (Ret.parent k) r hr)
      | inr other ↦ ground (arith, tfind-tdelete_at key k' (Ret.parent k) r hr)
    ]
    | inr (inr (nonneg, nonpos, zero)) ↦
        let (n, p) = same_right k' key k zero in
        rw (nonneg, nonpos) (ground (arith, n, p, tfind-unlink k' l k r (hl, al, ar, hr)))
  ]

  -- If the comparison is a total order, after tdelete in a search tree no key that equals the one deleted is found; what is found for any
  -- other key is what was found before.
  pub tfind-tdelete :
      (key k' : K) (t : Tree K)
      → IsSearchTree compar t
      → tfind compar k' (tdelete compar key t).1
        ≡ (if equals compar k' key then none else tfind compar k' t)
  unfolding tdelete
  tfind-tdelete key k' t h = tfind-tdelete_at key k' Ret.root t h
