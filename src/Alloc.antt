-- ===== src/Alloc.antt =====
-- src/memory.c as it is built with HAVE_SBRK, and strdup of src/string.c. `size` is the word that a header holds
-- first, at the header's address, and the chain of `next` from `free_list` on is a list of headers.
-- posix_align_hdr lies over a header: its `magic` is the low half of the word `size`, and `orig` is
-- kept apart. The answers of sbrk are arguments: whether sbrk(0) answers, and the region, `none` for -1.
-- The mutex is held around the accesses of the list alone.
pub mod Fit
pub mod Separate
pub mod Release
pub mod Reach
pub mod Contents
pub mod Aligned
use Prim.Native.Nat.{bit_and}
use mathlib.Core.Option
use vlibc.Base.{
  ℕ, zero, suc, ◌+◌, ◌-◌, ◌*◌, ◌/◌, ◌%◌, ◌^◌, Bool, true, false, not, ◌&&◌, ◌||◌, List, [], ◌∷◌,
  Option, none, some, ltb, leb, ◌==◌, if◌then◌else◌,
}
use vlibc.Memory.{Mem}
use vlibc.Memory.Block.{vmemset, vmemcpy}
use vlibc.CString.{vstrlen, vstrcpy, size_max}

pub data Errno : Type 0 where
  enomem einval : Errno

-- `fail_after` is vlibc_test_alloc_fail_after, `none` where that is negative.
pub record Heap : Type 0 where
  pub fail_after : Option ℕ
  pub errno : Option Errno
  pub free_list : List ℕ
  pub size : ℕ → ℕ
  pub orig : ℕ → ℕ
  pub bytes : Mem

-- sizeof(struct block_header), and sizeof(struct posix_align_hdr)
abbrev pub header : ℕ
header = 16

-- POSIX_ALIGN_MAGIC
abbrev pub magic : ℕ
magic = 0x50414C47

abbrev pub write : (ℕ → ℕ) → ℕ → ℕ → ℕ → ℕ
write f a v b = if b == a then v else f b

-- What sbrk answers to the calls of one malloc.
pub record Sbrk : Type 0 where
  pub probed : Bool
  pub region : Option ℕ

abbrev pub fails : Heap → Option ℕ × Heap
fails h = (none, record h { errno = some enomem })

-- The first header whose size is enough, and the list without it.
unfoldable pub first_fit : (ℕ → ℕ) → ℕ → List ℕ → Option (ℕ × List ℕ)
first_fit size n [] = none
first_fit size n (b ∷ bs) =
    if leb n (size b)
    then some (b, bs)
    else elim (first_fit size n bs) [ none ↦ none | some (c, rest) ↦ some (c, b ∷ rest) ]

-- The block with the header `b`, out of a list that becomes `rest`.
abbrev pub hand_out : Heap → ℕ → ℕ → List ℕ → Option ℕ × Heap
hand_out h n b rest = (some (b + header), record h { free_list = rest; size = write h.size b n })

-- "allocate new block from the system"
unfoldable pub grow : Option ℕ → ℕ → Heap → Option ℕ × Heap
grow none n h = fails h
grow (some b) n h = hand_out h n b h.free_list

unfoldable pub from_list : Option ℕ → ℕ → Heap → Option (ℕ × List ℕ) → Option ℕ × Heap
unfolding grow
from_list region n h none = grow region n h
from_list region n h (some (b, rest)) = hand_out h n b rest

-- malloc behind the test of vlibc_test_alloc_fail_after.
unfoldable pub malloc_body : Sbrk → ℕ → Heap → Option ℕ × Heap
unfolding first_fit from_list
malloc_body s n h =
    if n == 0
    then fails h
    else if not s.probed
    then fails h
    else if ltb (size_max - header) n
    then fails h
    else from_list s.region n h (first_fit h.size n h.free_list)

unfoldable pub counted : Option ℕ → Sbrk → ℕ → Heap → Option ℕ × Heap
unfolding malloc_body
counted none s n h = malloc_body s n h
counted (some zero) s n h = (none, record h { errno = some enomem; fail_after = none })
counted (some (suc k)) s n h = malloc_body s n (record h { fail_after = some k })

unfoldable pub malloc : Sbrk → ℕ → Heap → Option ℕ × Heap
unfolding counted
malloc s n h = counted h.fail_after s n h

unfoldable pub free_impl : ℕ → Heap → Heap
free_impl ptr h = if ptr == 0 then h else record h { free_list = (ptr - header) ∷ h.free_list }

unfoldable pub free : ℕ → Heap → Heap
unfolding free_impl
free ptr h =
    let ph = ptr - header in
    if ptr == 0
    then h
    else if h.size ph % 2 ^ 32 == magic
    then free_impl (h.orig ph) (record h { size = write h.size ph (h.size ph - magic) })
    else free_impl ptr h

abbrev pub overflows : ℕ → ℕ → Bool
overflows nmemb n = not (n == 0) && ltb (size_max / n) nmemb

-- `if (ptr) vmemset(ptr, 0, total);`
unfoldable pub zeroed : ℕ → Option ℕ × Heap → Option ℕ × Heap
zeroed total (none, h) = (none, h)
zeroed total (some ptr, h) = (some ptr, record h { bytes = (vmemset ptr 0 total h.bytes).1 })

unfoldable pub calloc : Sbrk → ℕ → ℕ → Heap → Option ℕ × Heap
unfolding malloc zeroed
calloc s nmemb n h =
    if overflows nmemb n then fails h else zeroed (nmemb * n) (malloc s (nmemb * n) h)

-- From the test of `new_ptr` on.
unfoldable pub moved_to : ℕ → ℕ → Option ℕ × Heap → Option ℕ × Heap
unfolding free
moved_to ptr copy (none, h) = (none, h)
moved_to ptr copy (some new_ptr, h) =
    (some new_ptr, free ptr (record h { bytes = (vmemcpy new_ptr ptr copy h.bytes).1 }))

-- A NULL pointer is 0.
unfoldable pub realloc : Sbrk → ℕ → ℕ → Heap → Option ℕ × Heap
unfolding malloc free moved_to
realloc s ptr n h =
    let old = h.size (ptr - header) in
    if ptr == 0
    then malloc s n h
    else if n == 0
    then (none, free ptr h)
    else moved_to ptr (if ltb old n then old else n) (malloc s n h)

-- `if (!new_ptr && size != 0) free(ptr);`
unfoldable pub freed_on_failure : ℕ → ℕ → Option ℕ × Heap → Option ℕ × Heap
unfolding free
freed_on_failure ptr n (none, h) = (none, if n == 0 then h else free ptr h)
freed_on_failure ptr n (some new_ptr, h) = (some new_ptr, h)

unfoldable pub reallocf : Sbrk → ℕ → ℕ → Heap → Option ℕ × Heap
unfolding realloc freed_on_failure
reallocf s ptr n h = freed_on_failure ptr n (realloc s ptr n h)

-- `(addr + alignment - 1) & ~(alignment - 1)`: the bits of the sum, less those that `alignment - 1` has as well.
unfoldable pub align_up : ℕ → ℕ → ℕ
align_up addr alignment = let sum = addr + alignment - 1 in sum - bit_and sum (alignment - 1)

-- Where malloc has answered: `*memptr`, with the header before it.
unfoldable pub place_aligned : ℕ → Option ℕ × Heap → Option Errno × Option ℕ × Heap
place_aligned alignment (none, h) = (some enomem, none, h)
place_aligned alignment (some orig, h) =
    let aligned = align_up (orig + header) alignment in
    let ph = aligned - header in
    (
      none,
      some aligned,
      record h {
        size = write h.size ph (h.size ph / 2 ^ 32 * 2 ^ 32 + magic);
        orig = write h.orig ph orig;
      },
    )

abbrev pub bad_alignment : ℕ → Bool
bad_alignment alignment =
    alignment == 0 || not (bit_and alignment (alignment - 1) == 0) || not (alignment % 8 == 0)

-- The code that is returned, what is stored in `*memptr`, and the heap. `memptr` is not NULL.
unfoldable pub posix_memalign : Sbrk → ℕ → ℕ → Heap → Option Errno × Option ℕ × Heap
unfolding malloc place_aligned
posix_memalign s alignment n h =
    let extra = alignment - 1 + header in
    if bad_alignment alignment
    then (some einval, none, h)
    else if ltb (size_max - header) (alignment - 1)
    then (some enomem, none, h)
    else if ltb (size_max - extra) n
    then (some enomem, none, h)
    else place_aligned alignment (malloc s (n + extra) h)

-- `if (rc != 0) { errno = rc; return NULL; }`
unfoldable pub pointer_of : Option Errno × Option ℕ × Heap → Option ℕ × Heap
pointer_of (none, p, h) = (p, h)
pointer_of (some e, p, h) = (none, record h { errno = some e })

unfoldable pub aligned_alloc : Sbrk → ℕ → ℕ → Heap → Option ℕ × Heap
unfolding posix_memalign pointer_of
aligned_alloc s alignment n h =
    if not (n % alignment == 0)
    then (none, record h { errno = some einval })
    else pointer_of (posix_memalign s alignment n h)

unfoldable pub reallocarray : Sbrk → ℕ → ℕ → ℕ → Heap → Option ℕ × Heap
unfolding realloc
reallocarray s ptr nmemb n h = if overflows nmemb n then fails h else realloc s ptr (nmemb * n) h

-- `vmemset(new_ptr + old_size, 0, total - old_size)` where there is more than before.
unfoldable pub tail_zeroed : ℕ → ℕ → Option ℕ × Heap → Option ℕ × Heap
tail_zeroed old total (none, h) = (none, h)
tail_zeroed old total (some new_ptr, h) = (
  some new_ptr,
  if ltb old total
      then record h { bytes = (vmemset (new_ptr + old) 0 (total - old) h.bytes).1 }
      else h,
)

unfoldable pub recallocarray : Sbrk → ℕ → ℕ → ℕ → Heap → Option ℕ × Heap
unfolding calloc realloc free tail_zeroed
recallocarray s ptr nmemb n h =
    if overflows nmemb n
    then fails h
    else if ptr == 0
    then calloc s nmemb n h
    else if nmemb * n == 0
    then (none, free ptr h)
    else tail_zeroed (h.size (ptr - header)) (nmemb * n) (realloc s ptr (nmemb * n) h)

-- The copy of strdup; the outer `none` is fuel that ran out.
unfoldable pub duplicate : ℕ → ℕ → Option ℕ × Heap → Option (Option ℕ × Heap)
duplicate f str (none, h) = some (fails h)
duplicate f str (some dup, h) =
    Option.map (λ (r : ℕ × Mem). (some dup, record h { bytes = r.1 })) (vstrcpy f dup str h.bytes)

unfoldable pub strdup : ℕ → Sbrk → ℕ → Heap → Option (Option ℕ × Heap)
unfolding malloc duplicate
strdup f s str h = elim (vstrlen f str h.bytes) [
  | none ↦ none
  | some len ↦ duplicate f str (malloc s (len + 1) h)
]
