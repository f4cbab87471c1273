-- ===== src/StringExtra.antt =====
-- src/string_extra.c over the byte store: the searches, the bounded copies and strsep. (memchr, memrchr,
-- mempcpy and memccpy are in Memory/Block.) A loop that a byte in memory ends takes fuel; the
-- loops over a string and over a set of characters each have their own.
pub mod Span
pub mod Bounded
use vlibc.Base.{
  ℕ, zero, suc, ◌+◌, ◌-◌, Bool, true, false, not, ◌&&◌, ◌||◌, Option, none, some, ltb, leb, ◌==◌,
  if◌then◌else◌, ◌>>=◌,
}
use vlibc.Base.Int.{ℤ, pos, is_zero}
use vlibc.Memory.{Mem, store}
use vlibc.Memory.Block.{uchar, vmemcpy, vmemset, memcmp}
use vlibc.CString.{vstrlen, vstrncmp}

-- The loop of memmem, with the rounds left.
memmem_loop : ℕ → ℕ → ℕ → ℕ → Mem → Option ℕ
memmem_loop zero h n needlelen m = none
memmem_loop (suc r) h n needlelen m =
    let rest = memmem_loop r (h + 1) n needlelen m in
    if m h == m n && is_zero (memcmp h n needlelen m) then some h else rest

pub memmem : ℕ → ℕ → ℕ → ℕ → Mem → Option ℕ
memmem haystack haystacklen needle needlelen m =
    if needlelen == 0
    then some haystack
    else if ltb haystacklen needlelen
    then none
    else memmem_loop (haystacklen - needlelen + 1) haystack needle needlelen m

-- The loop of strrchr. `*s == ch` compares a signed char with an unsigned one, so that it holds of no
-- byte from 128 on.
strrchr_loop : ℕ → Option ℕ → ℕ → ℕ → Mem → Option (Option ℕ)
strrchr_loop zero ret s ch m = none
strrchr_loop (suc f) ret s ch m =
    let ret' = if ltb (m s) 128 && m s == ch then some s else ret in
    let rest = strrchr_loop f ret' (s + 1) ch m in if m s == 0 then some ret' else rest

pub strrchr : ℕ → ℕ → ℕ → Mem → Option (Option ℕ)
strrchr f s c m = strrchr_loop f none s (uchar c) m

strstr_loop : ℕ → ℕ → ℕ → ℕ → Mem → Option (Option ℕ)
strstr_loop zero haystack needle nlen m = none
strstr_loop (suc f) haystack needle nlen m =
    let rest = strstr_loop f (haystack + 1) needle nlen m in
    if m haystack == 0
    then some none
    else if m haystack == m needle && is_zero (vstrncmp haystack needle nlen m)
    then some (some haystack)
    else rest

pub strstr : ℕ → ℕ → ℕ → Mem → Option (Option ℕ)
strstr f haystack needle m =
    if m needle == 0
    then some (some haystack)
    else vstrlen f needle m >>= λ nlen. strstr_loop f haystack needle nlen m

unfoldable pub strlcpy : ℕ → ℕ → ℕ → ℕ → Mem → Option (ℕ × Mem)
strlcpy f dst src size m = vstrlen f src m >>= λ len.
    let copy = if leb size len then size - 1 else len in
    some (len, if size == 0 then m else store (vmemcpy dst src copy m).1 (dst + copy) 0)

unfoldable pub strlcat : ℕ → ℕ → ℕ → ℕ → Mem → Option (ℕ × Mem)
strlcat f dst src size m = vstrlen f dst m >>= λ dlen. vstrlen f src m >>= λ slen.
    let copy = if leb (size - dlen) slen then size - dlen - 1 else slen in
    some (
      dlen + slen,
      if ltb dlen size then store (vmemcpy (dst + dlen) src copy m).1 (dst + dlen + copy) 0 else m,
    )

-- `while (*a) { if (*s == *a) ...; a++; }`
unfoldable pub any_of : ℕ → ℕ → ℕ → Mem → Option Bool
any_of zero c a m = none
any_of (suc g) c a m =
    let rest = any_of g c (a + 1) m in
    if m a == 0 then some false else if c == m a then some true else rest

unfoldable pub strspn_loop : ℕ → ℕ → ℕ → ℕ → ℕ → Mem → Option ℕ
strspn_loop zero g count s accept m = none
strspn_loop (suc f) g count s accept m =
    let rest = strspn_loop f g (count + 1) (s + 1) accept m in
    if m s == 0
    then some count
    else any_of g (m s) accept m >>= λ found. if found then rest else some count

unfoldable pub strspn : ℕ → ℕ → ℕ → ℕ → Mem → Option ℕ
strspn f g s accept m = strspn_loop f g 0 s accept m

unfoldable pub strcspn_loop : ℕ → ℕ → ℕ → ℕ → ℕ → Mem → Option ℕ
strcspn_loop zero g count s reject m = none
strcspn_loop (suc f) g count s reject m =
    let rest = strcspn_loop f g (count + 1) (s + 1) reject m in
    if m s == 0
    then some count
    else any_of g (m s) reject m >>= λ stop. if stop then some count else rest

unfoldable pub strcspn : ℕ → ℕ → ℕ → ℕ → Mem → Option ℕ
strcspn f g s reject m = strcspn_loop f g 0 s reject m

unfoldable pub strpbrk : ℕ → ℕ → ℕ → ℕ → Mem → Option (Option ℕ)
strpbrk zero g s accept m = none
strpbrk (suc f) g s accept m =
    let rest = strpbrk f g (s + 1) accept m in
    if m s == 0
    then some none
    else any_of g (m s) accept m >>= λ found. if found then some (some s) else rest

-- The loop of strsep: what `*stringp` becomes, and the memory.
unfoldable pub strsep_loop : ℕ → ℕ → ℕ → ℕ → Mem → Option (Option ℕ × Mem)
strsep_loop zero g s delim m = none
strsep_loop (suc f) g s delim m =
    let rest = strsep_loop f g (s + 1) delim m in
    if m s == 0
    then some (none, m)
    else any_of g (m s) delim m >>= λ hit. if hit then some (some (s + 1), store m s 0) else rest

-- `stringp` is what it points to; the outer `none` is a NULL `stringp`. The token, the new `*stringp`
-- and the memory.
unfoldable pub strsep :
    ℕ → ℕ → Option (Option ℕ) → ℕ → Mem → Option (Option ℕ × Option (Option ℕ) × Mem)
strsep f g (some (some tok)) delim m = do
  (next, m') ← strsep_loop f g tok delim m
  some (some tok, some next, m')
strsep f g stringp delim m = some (none, stringp, m)

-- `while ((*d++ = *src++) != '\0') ;`
stpcpy_loop : ℕ → ℕ → ℕ → Mem → Option (ℕ × Mem)
stpcpy_loop zero d src m = none
stpcpy_loop (suc f) d src m =
    let c = m src in
    let m' = store m d c in
    let rest = stpcpy_loop f (d + 1) (src + 1) m' in if c == 0 then some (d + 1, m') else rest

pub stpcpy : ℕ → ℕ → ℕ → Mem → Option (ℕ × Mem)
stpcpy f dest src m = do (d, m') ← stpcpy_loop f dest src m; some (d - 1, m')

stpncpy_loop : ℕ → ℕ → ℕ → Mem → ℕ × ℕ × Mem
stpncpy_loop zero d src m = (d, 0, m)
stpncpy_loop (suc n) d src m =
    let rest = stpncpy_loop n (d + 1) (src + 1) (store m d (m src)) in
    if m src == 0 then (d, suc n, m) else rest

pub stpncpy : ℕ → ℕ → ℕ → Mem → ℕ × Mem
stpncpy dest src n m =
    let (d, left, m') = stpncpy_loop n dest src m in
    if left == 0 then (d, m') else (d + left, (vmemset d 0 left m').1)
