-- ===== src/Samples/Strings.antt =====
-- src/memory_ops.c, src/string.c and src/string_extra.c at small inputs.
use vlibc.Base.{◌≡◌, refl, arith, [], ◌∷◌, some}
use vlibc.Memory.{Mem, store, StrAt}
use vlibc.Memory.Block.{vmemmove}
use vlibc.Memory.Block.Overlap.{vmemmove-moved}
use vlibc.CString.{strtok_r}
use vlibc.CString.Token.{strtok_r_token, member}
use vlibc.Samples.{holding}

-- "ab" at 0 and "ac" at 3, and from 6 on only NULs.
abbrev two : Mem
two = holding (97 ∷ 98 ∷ 0 ∷ 97 ∷ 99 ∷ 0 ∷ [])

two-ab : StrAt two 0 (97 ∷ 98 ∷ [])
two-ab = (refl, omega arith, (refl, omega arith, refl))

two-ac : StrAt two 3 (97 ∷ 99 ∷ [])
two-ac = (refl, omega arith, (refl, omega arith, refl))

vmemmove-moved_example : ((vmemmove 1 0 2 two).0 ≡ 1) × ((vmemmove 1 0 2 two).1 2 ≡ 98)
vmemmove-moved_example = vmemmove-moved 1 0 2 two 2

-- ",a,b" at 0 and "," at 5.
abbrev listed : Mem
listed = holding (44 ∷ 97 ∷ 44 ∷ 98 ∷ 0 ∷ 44 ∷ 0 ∷ [])

strtok_r_token_example :
    (strtok_r 9 (some 0) 5 (some (some 0)) listed ≡ some (some 1, some (some 3), store listed 2 0))
    × StrAt (store listed 2 0) 1 (97 ∷ [])
    × StrAt (store listed 2 0) 3 (98 ∷ [])
unfolding member
strtok_r_token_example =
    strtok_r_token 9 0 5 0 listed (44 ∷ []) (44 ∷ []) (refl, omega arith, refl)
      (omega arith, refl, tt) 97 [] (omega arith, refl, tt) 44 (98 ∷ []) (omega arith, refl)
      (refl, omega arith, (refl, omega arith, (refl, omega arith, (refl, omega arith, refl))))
      (omega arith) 2 refl
