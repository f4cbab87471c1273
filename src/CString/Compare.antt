-- ===== src/CString/Compare.antt =====
-- vstrncmp and strcmp of src/string.c against the lists of bytes that stand in memory.
use vlibc.Base.{ℕ, zero, suc, ◌+◌, ◌<◌, ◌≡◌, ◌↔◌, refl, List, [], ◌∷◌, arith, length, take}
use vlibc.Base.Int.{pos, neg_part}
use vlibc.Memory.{Mem, StrAt}
use vlibc.CString.{vstrncmp}

-- The order of strings as lists of unsigned bytes, a proper prefix first.
pub data Before : List ℕ → List ℕ → Type 0 where
  prefix : {c : ℕ} {t : List ℕ} → Before [] (c ∷ t)
  less : {c d : ℕ} {s t : List ℕ} → c < d → Before (c ∷ s) (d ∷ t)
  same : {c : ℕ} {s t : List ℕ} → Before s t → Before (c ∷ s) (c ∷ t)

vstrncmp-take :
    (n p q : ℕ) (m : Mem) (s t : List ℕ)
    → StrAt m p s
    → StrAt m q t
    → vstrncmp p q n m ≡ pos 0
    → take n s ≡ take n t
unfolding vstrncmp
vstrncmp-take zero p q m s t h k e = refl
vstrncmp-take (suc n) p q m [] [] h k e = refl
vstrncmp-take (suc n) p q m [] (d ∷ t) h k e = ground arith
vstrncmp-take (suc n) p q m (c ∷ s) [] h k e = ground arith
vstrncmp-take (suc n) p q m (c ∷ s) (d ∷ t) h k e =
    ground (arith, vstrncmp-take n (p + 1) (q + 1) m s t)

take-vstrncmp :
    (n p q : ℕ) (m : Mem) (s t : List ℕ)
    → StrAt m p s
    → StrAt m q t
    → take n s ≡ take n t
    → vstrncmp p q n m ≡ pos 0
unfolding vstrncmp
take-vstrncmp zero p q m s t h k e = refl
take-vstrncmp (suc n) p q m [] [] h k e = ground arith
take-vstrncmp (suc n) p q m [] (d ∷ t) h k e = ground arith
take-vstrncmp (suc n) p q m (c ∷ s) [] h k e = ground arith
take-vstrncmp (suc n) p q m (c ∷ s) (d ∷ t) h k e =
    ground (arith, take-vstrncmp n (p + 1) (q + 1) m s t)

-- vstrncmp answers 0 exactly where the first n bytes of the two strings are the same.
pub vstrncmp_iff :
    (n p q : ℕ) (m : Mem) (s t : List ℕ)
    → StrAt m p s
    → StrAt m q t
    → (vstrncmp p q n m ≡ pos 0) ↔ (take n s ≡ take n t)
vstrncmp_iff n p q m s t h k = (vstrncmp-take n p q m s t h k, take-vstrncmp n p q m s t h k)

vstrncmp-Before :
    (n p q : ℕ) (m : Mem) (s t : List ℕ)
    → StrAt m p s
    → StrAt m q t
    → length s < n
    → Before s t
    → 0 < neg_part (vstrncmp p q n m)
unfolding vstrncmp
vstrncmp-Before zero p q m s t h k lt b = absurd (omega arith)
vstrncmp-Before (suc n) p q m _ _ h k lt prefix = ground arith
vstrncmp-Before (suc n) p q m _ _ h k lt (less r) = ground arith
vstrncmp-Before (suc n) p q m _ _ h k lt (same {s = s} {t = t} b) =
    ground (arith, vstrncmp-Before n (p + 1) (q + 1) m s t)
