-- ===== src/CString/Length.antt =====
-- vstrlen, strnlen and strchr of src/string.c against the list of bytes that stands in memory.
use vlibc.Base.{
  ℕ, zero, suc, ◌+◌, ◌<◌, ◌≡◌, List, [], ◌∷◌, ◌++◌, Option, none, some, arith, length, ◌==◌,
  if◌then◌else◌, ◌%◌, min, ◌%◌,
}
use mathlib.Core.Option
use vlibc.Memory.{Mem, StrAt}
use vlibc.CString.{scan_end, vstrlen, strnlen_loop, strnlen, strchr_loop, strchr}

pub scan_end-StrAt :
    (f p : ℕ) (m : Mem) (s : List ℕ)
    → StrAt m p s
    → length s < f
    → scan_end f p m ≡ some (p + length s)
unfolding scan_end
scan_end-StrAt zero p m s h lt = absurd (omega arith)
scan_end-StrAt (suc f) p m [] h lt = ground arith
scan_end-StrAt (suc f) p m (c ∷ s) h lt = ground (arith, scan_end-StrAt f (p + 1) m s)

-- With fuel for the whole string and its NUL, vstrlen ends and gives the number of bytes before
-- the NUL.
pub vstrlen-StrAt :
    (f p : ℕ) (m : Mem) (s : List ℕ) → StrAt m p s → length s < f → vstrlen f p m ≡ some (length s)
unfolding vstrlen
vstrlen-StrAt f p m s h lt = ground (arith, scan_end-StrAt f p m s h lt)

strnlen_loop-StrAt :
    (n p : ℕ) (m : Mem) (s : List ℕ) → StrAt m p s → strnlen_loop n p m ≡ p + min n (length s)
unfolding strnlen_loop
strnlen_loop-StrAt zero p m s h = omega arith
strnlen_loop-StrAt (suc n) p m [] h = ground arith
strnlen_loop-StrAt (suc n) p m (c ∷ s) h = ground (arith, strnlen_loop-StrAt n (p + 1) m s)

-- strnlen gives the smaller of the length and the bound.
pub strnlen-StrAt :
    (n p : ℕ) (m : Mem) (s : List ℕ) → StrAt m p s → strnlen p n m ≡ min n (length s)
unfolding strnlen
strnlen-StrAt n p m s h = omega (arith, strnlen_loop-StrAt n p m s h)

-- How many bytes stand before the first `c`.
unfoldable pub find_first : ℕ → List ℕ → Option ℕ
find_first c [] = none
find_first c (x ∷ s) = if x == c then some 0 else Option.map suc (find_first c s)

strchr_loop-find_first :
    (f p ch : ℕ) (m : Mem) (s : List ℕ)
    → StrAt m p s
    → length s < f
    → strchr_loop f p ch m ≡ some (Option.map (λ i. p + i) (find_first ch (s ++ 0 ∷ [])))
unfolding strchr_loop find_first
strchr_loop-find_first zero p ch m s h lt = absurd (omega arith)
strchr_loop-find_first (suc f) p ch m [] h lt = ground arith
strchr_loop-find_first (suc f) p ch m (c ∷ s) h lt =
    ground (arith, strchr_loop-find_first f (p + 1) ch m s)

-- strchr gives the address of the first byte equal to (unsigned char)c, the NUL included, and NULL
-- where there is none; fuel for the string and its NUL is enough.
pub strchr-find_first :
    (f p c : ℕ) (m : Mem) (s : List ℕ)
    → StrAt m p s
    → length s < f
    → strchr f p c m ≡ some (Option.map (λ i. p + i) (find_first (c % 256) (s ++ 0 ∷ [])))
unfolding strchr
strchr-find_first f p c m s h lt = strchr_loop-find_first f p (c % 256) m s h lt
