-- ===== src/StringExtra/Span.antt =====
-- strspn, strcspn, strpbrk and strsep of src/string_extra.c.
use vlibc.Base.{
  ℕ, zero, suc, ◌+◌, ◌<◌, ◌≡◌, Bool, true, false, ◌||◌, List, [], ◌∷◌, none, some, arith, length,
  ◌==◌, if◌then◌else◌,
}
use vlibc.Memory.{Mem, store, StrAt}
use vlibc.StringExtra.{
  any_of, strspn_loop, strspn, strcspn_loop, strcspn, strpbrk, strsep_loop, strsep,
}

-- The characters of the list hold the character.
unfoldable pub is_in : ℕ → List ℕ → Bool
is_in c [] = false
is_in c (x ∷ s) = c == x || is_in c s

any_of-is_in :
    (g c a : ℕ) (m : Mem) (s : List ℕ)
    → StrAt m a s
    → length s < g
    → any_of g c a m ≡ some (is_in c s)
unfolding any_of is_in
any_of-is_in zero c a m s h lt = absurd (omega arith)
any_of-is_in (suc g) c a m [] h lt = ground arith
any_of-is_in (suc g) c a m (x ∷ s) h lt = ground (arith, any_of-is_in g c (a + 1) m s)

-- The length of the longest prefix whose characters are (`want` is true) or are not in the set.
unfoldable pub prefix : Bool → List ℕ → List ℕ → ℕ
prefix want set [] = 0
prefix true set (c ∷ s) = if is_in c set then suc (prefix true set s) else 0
prefix false set (c ∷ s) = if is_in c set then 0 else suc (prefix false set s)

module _ (g a : ℕ) (m : Mem) (set : List ℕ) (accept : StrAt m a set) (fuel : length set < g) where
  strspn_loop-prefix :
      (f n p : ℕ) (s : List ℕ)
      → StrAt m p s
      → length s < f
      → strspn_loop f g n p a m ≡ some (n + prefix true set s)
  unfolding strspn_loop prefix
  strspn_loop-prefix zero n p s h lt = absurd (omega arith)
  strspn_loop-prefix (suc f) n p [] h lt = ground arith
  strspn_loop-prefix (suc f) n p (c ∷ s) (e, nz, h) lt =
      ground (arith, any_of-is_in g c a m set, strspn_loop-prefix f (n + 1) (p + 1) s)

  strcspn_loop-prefix :
      (f n p : ℕ) (s : List ℕ)
      → StrAt m p s
      → length s < f
      → strcspn_loop f g n p a m ≡ some (n + prefix false set s)
  unfolding strcspn_loop prefix
  strcspn_loop-prefix zero n p s h lt = absurd (omega arith)
  strcspn_loop-prefix (suc f) n p [] h lt = ground arith
  strcspn_loop-prefix (suc f) n p (c ∷ s) (e, nz, h) lt =
      ground (arith, any_of-is_in g c a m set, strcspn_loop-prefix f (n + 1) (p + 1) s)

  -- With fuel for both strings, strspn gives the length of the longest prefix of the string whose
  -- characters are all in the set, and strcspn that of the longest prefix with none of them.
  pub strspn-prefix :
      (f p : ℕ) (s : List ℕ)
      → StrAt m p s
      → length s < f
      → (strspn f g p a m ≡ some (prefix true set s))
        × (strcspn f g p a m ≡ some (prefix false set s))
  unfolding strspn strcspn
  strspn-prefix f p s h lt = (
    ground (arith, strspn_loop-prefix f 0 p s h lt),
    ground (arith, strcspn_loop-prefix f 0 p s h lt),
  )

  -- With fuel for both strings, strpbrk gives NULL where no character of the string is in the set, and
  -- else the address behind the longest prefix with none of them, which strcspn measures.
  pub strpbrk-strcspn :
      (f p : ℕ) (s : List ℕ)
      → StrAt m p s
      → length s < f
      → strpbrk f g p a m
        ≡ some (if prefix false set s == length s then none else some (p + prefix false set s))
  unfolding strpbrk prefix
  strpbrk-strcspn zero p s h lt = absurd (omega arith)
  strpbrk-strcspn (suc f) p [] h lt = ground arith
  strpbrk-strcspn (suc f) p (c ∷ s) (e, nz, h) lt =
      ground (arith, any_of-is_in g c a m set, strpbrk-strcspn f (p + 1) s)

  strsep_loop-prefix :
      (f p : ℕ) (s : List ℕ)
      → StrAt m p s
      → length s < f
      → strsep_loop f g p a m
        ≡ some (
            if prefix false set s == length s
            then (none, m)
            else (some (p + prefix false set s + 1), store m (p + prefix false set s) 0))
  unfolding strsep_loop prefix
  strsep_loop-prefix zero p s h lt = absurd (omega arith)
  strsep_loop-prefix (suc f) p [] h lt = ground arith
  strsep_loop-prefix (suc f) p (c ∷ s) (e, nz, h) lt =
      ground (arith, any_of-is_in g c a m set, strsep_loop-prefix f (p + 1) s)

  -- With fuel for both strings, strsep answers the start of the string; where no character is in the set
  -- `*stringp` becomes NULL, and else the first of them becomes NUL and `*stringp` is behind it.
  pub strsep-prefix :
      (f p : ℕ) (s : List ℕ)
      → StrAt m p s
      → length s < f
      → strsep f g (some (some p)) a m
        ≡ some (
            if prefix false set s == length s then (some p, some none, m) else (
              some p,
              some (some (p + prefix false set s + 1)),
              store m (p + prefix false set s) 0,
            ))
  unfolding strsep
  strsep-prefix f p s h lt = rw (strsep_loop-prefix f p s h lt) (ground arith)
