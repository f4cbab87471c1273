-- ===== src/Path/Component.antt =====
-- src/path.c: basename and dirname find the last component of a path and what stands before it.
use vlibc.Base.{
  ℕ, zero, suc, ◌+◌, ◌-◌, ◌<◌, ◌≤◌, ◌≡◌, ◌≢◌, ◌⊎◌, inl, inr, refl, ap, ◌∙◌, true, false, List, [],
  ◌∷◌, some, ◌==◌, if◌then◌else◌, length, get_or, take, drop, arith,
}
use vlibc.Path.{slash, dot, before_slashes, before_name, base_of, basename, dir_of, dirname}

-- From `a` to `b` the last component stands, which has no slash, and behind it only slashes. From `len` to `a`
-- stand only slashes, and before them nothing or a byte that is not one.
pub record Parts (path : List ℕ) (len a b : ℕ) : Type 0 where
  pub name_not_empty : a < b
  pub inside : b ≤ length path
  pub front : len ≤ a
  pub trailing : (i : ℕ) → b ≤ i → i < length path → get_or path i 0 ≡ slash
  pub name : (i : ℕ) → a ≤ i → i < b → get_or path i 0 ≢ slash
  pub between : (i : ℕ) → len ≤ i → i < a → get_or path i 0 ≡ slash
  pub separated : (a ≡ 0) ⊎ (len < a)
  pub dir : (len ≡ 0) ⊎ (get_or path (len - 1) 0 ≢ slash)

before_slashes-run :
    (path : List ℕ) (k p e : ℕ)
    → p ≡ k + e
    → ((i : ℕ) → e ≤ i → i < p → get_or path i 0 ≡ slash)
    → before_slashes path p ≡ before_slashes path e
unfolding before_slashes
before_slashes-run path zero p e q h = ap (before_slashes path) (omega arith)
before_slashes-run path (suc k) zero e q h = absurd (omega arith)
before_slashes-run path (suc k) (suc p) e q h =
    rw (h p (omega arith) (omega arith))
      (before_slashes-run path k p e (omega arith) (λ i lo hi. h i lo (omega arith)))

before_slashes-stop :
    (path : List ℕ) (p : ℕ) → (p ≡ 0) ⊎ (get_or path (p - 1) 0 ≢ slash) → before_slashes path p ≡ p
unfolding before_slashes
before_slashes-stop path zero h = refl
before_slashes-stop path (suc p) h = ground arith

before_name-run :
    (path : List ℕ) (k p e : ℕ)
    → p ≡ k + e
    → ((i : ℕ) → e ≤ i → i < p → get_or path i 0 ≢ slash)
    → before_name path p ≡ before_name path e
unfolding before_name
before_name-run path zero p e q h = ap (before_name path) (omega arith)
before_name-run path (suc k) zero e q h = absurd (omega arith)
before_name-run path (suc k) (suc p) e q h =
    let other : get_or path p 0 ≢ slash = h p (omega arith) (omega arith) in
    let rest = before_name-run path k p e (omega arith) (λ i lo hi. h i lo (omega arith)) in
    ground arith

before_name-stop :
    (path : List ℕ) (p : ℕ) → (p ≡ 0) ⊎ (get_or path (p - 1) 0 ≡ slash) → before_name path p ≡ p
unfolding before_name
before_name-stop path zero h = refl
before_name-stop path (suc p) h = ground arith

basename-base_of : (path : List ℕ) → 0 < length path → basename true (some path) ≡ base_of true path
unfolding basename
basename-base_of [] lt = absurd (omega arith)
basename-base_of (c ∷ path) lt = refl

dirname-dir_of : (path : List ℕ) → 0 < length path → dirname true (some path) ≡ dir_of true path
unfolding dirname
dirname-dir_of [] lt = absurd (omega arith)
dirname-dir_of (c ∷ path) lt = refl

module _ (path : List ℕ) (len a b : ℕ) (parts : Parts path len a b) where
  end_eq : before_slashes path (length path) ≡ b
  end_eq =
      before_slashes-run path (length path - b) (length path) b (omega (arith, parts.inside))
        parts.trailing
      ∙ before_slashes-stop path b (
          inr (
            parts.name (b - 1) (omega (arith, parts.name_not_empty))
              (omega (arith, parts.name_not_empty))))

  name_eq : before_name path b ≡ a
  name_eq =
      before_name-run path (b - a) b a (omega (arith, parts.name_not_empty)) parts.name
      ∙ before_name-stop path a (elim parts.separated [
        | inl z ↦ inl z
        | inr lt ↦ inr (parts.between (a - 1) (omega arith) (omega arith))
      ])

  len_eq : before_slashes path a ≡ len
  len_eq =
      before_slashes-run path (a - len) a len (omega (arith, parts.front)) parts.between
      ∙ before_slashes-stop path len parts.dir

  not_empty : (b == 0) ≡ false
  not_empty = ground (arith, parts.name_not_empty)

  basename-Parts : basename true (some path) ≡ some (take (b - a) (drop a path))
  unfolding base_of
  basename-Parts =
      basename-base_of path (omega (arith, parts.name_not_empty, parts.inside))
      ∙ rw end_eq (rw (name_eq, not_empty) refl)

  dirname-Parts : dirname true (some path) ≡ some (if len == 0 then dot ∷ [] else take len path)
  unfolding dir_of
  dirname-Parts =
      dirname-dir_of path (omega (arith, parts.name_not_empty, parts.inside))
      ∙ rw end_eq (rw (name_eq, len_eq, not_empty) (ground arith))

  -- Where the allocator answers and the path has a component, basename gives the last one, and dirname
  -- the text before the slashes that stand before it, and "." where that text is empty, be the path
  -- absolute or not.
  pub basename-dirname-Parts :
      (basename true (some path) ≡ some (take (b - a) (drop a path)))
      × (dirname true (some path) ≡ some (if len == 0 then dot ∷ [] else take len path))
  basename-dirname-Parts = (basename-Parts, dirname-Parts)
