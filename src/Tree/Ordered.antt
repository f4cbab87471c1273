-- ===== src/Tree/Ordered.antt =====
-- The order of a search tree of src/search_tree.c, and that tsearch and tdelete keep it.
use vlibc.Base.{◌≡◌, Bool, true, false, inl, inr}
use vlibc.Base.Int.{ℤ, pos, is_positive, is_negative, sign_cases}
use vlibc.Tree.{Tree, null, node, tsearch}

-- What C asks of a comparison: a total order on the classes of keys that compare equal.
pub record IsOrder {ℓ} {K : Type ℓ} (compar : K → K → ℤ) : Type ℓ where
  pub flips : (a b : K) → is_positive (compar a b) ≡ is_negative (compar b a)
  pub chains :
      (a b c : K)
      → is_negative (compar a b) ≡ true
      → is_negative (compar b c) ≡ true
      → is_negative (compar a c) ≡ true
  pub equal_negative :
      (a b c : K) → compar a b ≡ pos 0 → is_negative (compar a c) ≡ is_negative (compar b c)
  pub equal_positive :
      (a b c : K) → compar a b ≡ pos 0 → is_positive (compar a c) ≡ is_positive (compar b c)

module _ {ℓ} {K : Type ℓ} where
  -- Every key of the tree.
  abbrev pub AllKeys {κ} : (K → Type κ) → Tree K → Type κ
  AllKeys P null = Unit
  AllKeys P (node l k r) = AllKeys P l × P k × AllKeys P r

  pub AllKeys-map {κ} :
      (P Q : K → Type κ) (t : Tree K) → ((k : K) → P k → Q k) → AllKeys P t → AllKeys Q t
  AllKeys-map P Q null f h = tt
  AllKeys-map P Q (node l k r) f (hl, hk, hr) =
      (AllKeys-map P Q l f hl, f k hk, AllKeys-map P Q r f hr)

module _ {ℓ} {K : Type ℓ} (compar : K → K → ℤ) where
  abbrev pub Lt : K → K → Type 0
  Lt a b = is_negative (compar a b) ≡ true

  -- Smaller keys on the left, greater ones on the right, at every node.
  abbrev pub IsSearchTree : Tree K → Type 0
  IsSearchTree null = Unit
  IsSearchTree (node l k r) =
      IsSearchTree l × AllKeys (λ x. Lt x k) l × AllKeys (λ x. Lt k x) r × IsSearchTree r

module _ {ℓ} {K : Type ℓ} (compar : K → K → ℤ) (o : IsOrder compar) where
  tsearch-AllKeys :
      (P : K → Type 0) (alloc : Bool) (key : K) (t : Tree K)
      → P key
      → AllKeys P t
      → AllKeys P (tsearch compar alloc key t).1
  unfolding tsearch
  tsearch-AllKeys P true key null h all = (tt, h, tt)
  tsearch-AllKeys P false key null h all = tt
  tsearch-AllKeys P alloc key (node l k r) h (hl, hk, hr) = elim (sign_cases (compar key k)) [
    | inl neg ↦ rw neg (tsearch-AllKeys P alloc key l h hl, hk, hr)
    | inr (inl (nonneg, positive)) ↦
        rw (nonneg, positive) (hl, hk, tsearch-AllKeys P alloc key r h hr)
    | inr (inr (nonneg, nonpos, zero)) ↦ rw (nonneg, nonpos) (hl, hk, hr)
  ]

  -- tsearch makes a search tree of a search tree, whether or not it adds a node and malloc answers, if
  -- the comparison is a total order.
  pub tsearch-IsSearchTree :
      (alloc : Bool) (key : K) (t : Tree K)
      → IsSearchTree compar t
      → IsSearchTree compar (tsearch compar alloc key t).1
  unfolding tsearch
  tsearch-IsSearchTree true key null h = (tt, tt, tt, tt)
  tsearch-IsSearchTree false key null h = tt
  tsearch-IsSearchTree alloc key (node l k r) (hl, al, ar, hr) = elim (sign_cases (compar key k)) [
    | inl neg ↦ rw neg (
      tsearch-IsSearchTree alloc key l hl,
      tsearch-AllKeys (λ x. Lt compar x k) alloc key l neg al,
      ar,
      hr,
    )
    | inr (inl (nonneg, positive)) ↦
        rw (nonneg, positive)
          (
            hl,
            al,
            tsearch-AllKeys (λ x. Lt compar k x) alloc key r (rw (o.flips key k) at positive) ar,
            tsearch-IsSearchTree alloc key r hr,
          )
    | inr (inr (nonneg, nonpos, zero)) ↦ rw (nonneg, nonpos) (hl, al, ar, hr)
  ]
