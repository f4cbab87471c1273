-- ===== src/StringExtra/Bounded.antt =====
-- strlcpy and strlcat of src/string_extra.c: the bytes that are stored, exactly, and the length answered.
use vlibc.Base.{
  ap, ℕ, zero, suc, ◌+◌, ◌-◌, ◌<◌, ◌≤◌, ◌≡◌, refl, List, [], ◌∷◌, ◌++◌, some, arith, length, take,
  if◌then◌else◌, ltb, leb, ◌==◌, min, Bool-cases, inl, inr, ◌∙◌,
}
use vlibc.Memory.{Mem, store, put, StrAt}
use vlibc.Memory.Block.{copy_up, vmemcpy}
use vlibc.CString.Length.{vstrlen-StrAt}
use vlibc.CString.Copy.{Apart, StrAt-store}
use vlibc.StringExtra.{strlcpy, strlcat}

-- A copy of part of a string and a NUL behind it.
copy_up-put :
    (n d src q : ℕ) (m : Mem) (s : List ℕ)
    → q ≡ d + n
    → StrAt m src s
    → n ≤ length s
    → Apart d n src (length s + 1)
    → store (copy_up n d src m) q 0 ≡ put m d (take n s ++ 0 ∷ [])
unfolding copy_up put
copy_up-put zero d src q m s eq h le apart = ground arith
copy_up-put (suc n) d src q m [] eq h le apart = absurd (omega arith)
copy_up-put (suc n) d src q m (c ∷ s) eq (e, nz, h) le apart =
    ground (arith, StrAt-store m d c (src + 1) s, copy_up-put n (d + 1) (src + 1) q (store m d c) s)

take-min : (k n : ℕ) (s : List ℕ) → k ≡ min n (length s) → take k s ≡ take n s
take-min zero zero s e = refl
take-min zero (suc n) [] e = refl
take-min zero (suc n) (c ∷ s) e = absurd (omega arith)
take-min (suc k) zero s e = absurd (omega arith)
take-min (suc k) (suc n) [] e = refl
take-min (suc k) (suc n) (c ∷ s) e = ap (λ t. c ∷ t) (take-min k n s (omega arith))

-- The copy of both routines, of k bytes, where n is the room less the NUL.
bounded-put :
    (k n d src : ℕ) (m : Mem) (s : List ℕ)
    → k ≡ min n (length s)
    → StrAt m src s
    → Apart d (n + 1) src (length s + 1)
    → store (vmemcpy d src k m).1 (d + k) 0 ≡ put m d (take n s ++ 0 ∷ [])
unfolding vmemcpy
bounded-put k n d src m s e h apart =
    copy_up-put k d src (d + k) m s refl h (omega arith) (omega arith)
    ∙ ap (λ t. put m d (t ++ 0 ∷ [])) (take-min k n s e)

-- strlcpy answers the length of src, and where size is not 0 it stores the first size - 1 bytes of src
-- (all of them where src is shorter) and a NUL at dst, and nothing else; src does not meet the size
-- bytes at dst, and the fuel is more than the length of src.
pub strlcpy-put :
    (f dst src size : ℕ) (m : Mem) (s : List ℕ)
    → StrAt m src s
    → length s < f
    → Apart dst size src (length s + 1)
    → strlcpy f dst src size m
      ≡ some (length s, if size == 0 then m else put m dst (take (size - 1) s ++ 0 ∷ []))
unfolding strlcpy
strlcpy-put f dst src size m s h lt apart =
    let n : ℕ = length s in
    let k : ℕ = if leb size n then size - 1 else n in
    rw (vstrlen-StrAt f src m s h lt) (elim (Bool-cases (size == 0)) [
      | inl e ↦ rw e refl
      | inr e ↦ rw e (
          ap (λ t. some (n, t))
            (bounded-put k (size - 1) dst src m s (ground arith) h (ground arith)))
    ])

-- strlcat answers the sum of the two lengths; where the string at dst is shorter than size it stores, from
-- its NUL on, the bytes of src that leave room for a NUL within size bytes, and a NUL, and else
-- it stores nothing. src does not meet the size bytes at dst, and the fuel is more than either length.
pub strlcat-put :
    (f dst src size : ℕ) (m : Mem) (a s : List ℕ)
    → StrAt m dst a
    → StrAt m src s
    → length a < f
    → length s < f
    → Apart dst size src (length s + 1)
    → strlcat f dst src size m
      ≡ some (
        length a + length s,
        if ltb (length a) size
            then put m (dst + length a) (take (size - length a - 1) s ++ 0 ∷ [])
            else m,
      )
unfolding strlcat
strlcat-put f dst src size m a s ha hs la ls apart =
    let n : ℕ = length s in
    let d : ℕ = length a in
    let k : ℕ = if leb (size - d) n then size - d - 1 else n in
    rw (vstrlen-StrAt f dst m a ha la) (
      rw (vstrlen-StrAt f src m s hs ls) (elim (Bool-cases (ltb d size)) [
        | inl e ↦ rw e (
            ap (λ t. some (d + n, t))
              (bounded-put k (size - d - 1) (dst + d) src m s (ground arith) hs (ground arith)))
        | inr e ↦ rw e refl
      ]))
