-- ===== src/Memory/Block.antt =====
-- src/memory_ops.c, and memchr, memrchr, mempcpy and memccpy of src/string_extra.c. A loop
-- `while (n--)` is a recursion on the rounds left.
pub mod Overlap
use vlibc.Base.{
  ℕ, zero, suc, ◌+◌, ◌-◌, ◌%◌, ◌<◌, ◌≤◌, ◌≡◌, refl, Bool, true, false, ◌&&◌, ◌||◌, Option, none,
  some, arith, ltb, leb, ◌==◌, if◌then◌else◌,
}
use vlibc.Base.Int.{ℤ, pos, sub_ℕ}
use vlibc.Memory.{Mem, store}

-- `(unsigned char)c`
abbrev pub uchar : ℕ → ℕ
uchar c = c % 256

pub memset_loop : ℕ → ℕ → ℕ → Mem → Mem
memset_loop zero p c m = m
memset_loop (suc n) p c m = memset_loop n (p + 1) c (store m p (uchar c))

pub vmemset : ℕ → ℕ → ℕ → Mem → ℕ × Mem
vmemset s c n m = (s, memset_loop n s c m)

-- `while (n--) *d++ = *s++;`
unfoldable pub copy_up : ℕ → ℕ → ℕ → Mem → Mem
copy_up zero d s m = m
copy_up (suc n) d s m = copy_up n (d + 1) (s + 1) (store m d (m s))

-- `while (n--) *--d = *--s;`
pub copy_down : ℕ → ℕ → ℕ → Mem → Mem
copy_down zero d s m = m
copy_down (suc n) d s m = copy_down n (d - 1) (s - 1) (store m (d - 1) (m (s - 1)))

unfoldable pub vmemcpy : ℕ → ℕ → ℕ → Mem → ℕ × Mem
vmemcpy dest src n m = (dest, copy_up n dest src m)

unfoldable pub vmemmove : ℕ → ℕ → ℕ → Mem → ℕ × Mem
vmemmove d s n m =
    if d == s || n == 0
    then (d, m)
    else if ltb d s
    then (d, copy_up n d s m)
    else (d, copy_down n (d + n) (s + n) m)

-- The difference of the first two bytes that differ.
pub vmemcmp : ℕ → ℕ → ℕ → Mem → ℤ
vmemcmp p1 p2 zero m = pos 0
vmemcmp p1 p2 (suc n) m =
    let rest = vmemcmp (p1 + 1) (p2 + 1) n m in if m p1 == m p2 then rest else sub_ℕ (m p1) (m p2)

pub memset : ℕ → ℕ → ℕ → Mem → ℕ × Mem
memset = vmemset

pub memcpy : ℕ → ℕ → ℕ → Mem → ℕ × Mem
memcpy = vmemcpy

pub memmove : ℕ → ℕ → ℕ → Mem → ℕ × Mem
memmove = vmemmove

pub memcmp : ℕ → ℕ → ℕ → Mem → ℤ
memcmp = vmemcmp

memchr_loop : ℕ → ℕ → ℕ → Mem → Option ℕ
memchr_loop zero p ch m = none
memchr_loop (suc n) p ch m =
    let rest = memchr_loop n (p + 1) ch m in if m p == ch then some p else rest

pub memchr : ℕ → ℕ → ℕ → Mem → Option ℕ
memchr s c n m = memchr_loop n s (uchar c) m

memrchr_loop : ℕ → ℕ → ℕ → Mem → Option ℕ
memrchr_loop zero p ch m = none
memrchr_loop (suc n) p ch m =
    let rest = memrchr_loop n (p - 1) ch m in if m (p - 1) == ch then some (p - 1) else rest

pub memrchr : ℕ → ℕ → ℕ → Mem → Option ℕ
memrchr s c n m = memrchr_loop n (s + n) (uchar c) m

unfoldable pub mempcpy : ℕ → ℕ → ℕ → Mem → ℕ × Mem
unfolding vmemcpy
mempcpy dest src n m = (dest + n, (vmemcpy dest src n m).1)

memccpy_loop : ℕ → ℕ → ℕ → ℕ → Mem → Option ℕ × Mem
memccpy_loop zero d s ch m = (none, m)
memccpy_loop (suc n) d s ch m =
    let byte = m s in
    let m' = store m d byte in
    let rest = memccpy_loop n (d + 1) (s + 1) ch m' in
    if byte == ch then (some (d + 1), m') else rest

pub memccpy : ℕ → ℕ → ℕ → ℕ → Mem → Option ℕ × Mem
memccpy dest src c n m = memccpy_loop n dest src (uchar c) m
