-- ===== src/Memory/Block/Overlap.antt =====
-- What the block routines of src/memory_ops.c leave in memory, overlapping regions included.
use vlibc.Base.{
  ℕ, zero, suc, ◌+◌, ◌-◌, ◌%◌, ◌≤◌, ◌≡◌, refl, ◌&&◌, ◌⊎◌, ◌↔◌, arith, ltb, leb, if◌then◌else◌,
}
use vlibc.Base.Int.{pos}
use vlibc.Memory.{Mem, store}
use vlibc.Memory.Block.{copy_up, copy_down, memset_loop, vmemset, vmemcpy, vmemmove, vmemcmp}

-- Memory `m` with the `n` bytes from `s` on, as they are in `m`, at `d`.
abbrev pub moved : ℕ → ℕ → ℕ → Mem → Mem
moved d s n m q = if leb d q && ltb q (d + n) then m (s + (q - d)) else m q

copy_up-moved :
    (n d s : ℕ) (m : Mem) (q : ℕ) → (d ≤ s) ⊎ (s + n ≤ d) → copy_up n d s m q ≡ moved d s n m q
unfolding copy_up
copy_up-moved zero d s m q h = ground arith
copy_up-moved (suc n) d s m q h =
    ground (arith, copy_up-moved n (d + 1) (s + 1) (store m d (m s)) q)

copy_down-moved :
    (n d s : ℕ) (m : Mem) (q e t : ℕ)
    → s ≤ d
    → e ≡ d + n
    → t ≡ s + n
    → copy_down n e t m q ≡ moved d s n m q
unfolding copy_down
copy_down-moved zero d s m q e t h he ht = ground arith
copy_down-moved (suc n) d s m q e t h he ht =
    ground (arith, copy_down-moved n d s (store m (e - 1) (m (t - 1))) q (e - 1) (t - 1))

-- vmemmove leaves at dest the bytes that stood at src before, whether or not the regions overlap,
-- and every other byte as it was; it returns dest.
pub vmemmove-moved :
    (d s n : ℕ) (m : Mem) (q : ℕ)
    → ((vmemmove d s n m).0 ≡ d) × ((vmemmove d s n m).1 q ≡ moved d s n m q)
unfolding vmemmove
vmemmove-moved d s n m q =
    ground (arith, copy_up-moved n d s m q, copy_down-moved n d s m q (d + n) (s + n))

-- Where the regions do not overlap, or dest lies below src, vmemcpy leaves at dest the bytes that stood
-- at src before, and every other byte as it was; it returns dest.
pub vmemcpy-moved :
    (d s n : ℕ) (m : Mem) (q : ℕ)
    → (d ≤ s) ⊎ (s + n ≤ d)
    → ((vmemcpy d s n m).0 ≡ d) × ((vmemcpy d s n m).1 q ≡ moved d s n m q)
unfolding vmemcpy
vmemcpy-moved d s n m q h = (refl, copy_up-moved n d s m q h)

memset_loop-filled :
    (n p c : ℕ) (m : Mem) (q : ℕ)
    → memset_loop n p c m q ≡ (if leb p q && ltb q (p + n) then c % 256 else m q)
unfolding memset_loop
memset_loop-filled zero p c m q = ground arith
memset_loop-filled (suc n) p c m q =
    ground (arith, memset_loop-filled n (p + 1) c (store m p (c % 256)) q)

-- vmemset sets the n bytes from s on to the low byte of c, leaves every other byte as it was, and
-- returns s.
pub vmemset-filled :
    (s c n : ℕ) (m : Mem) (q : ℕ)
    → ((vmemset s c n m).0 ≡ s)
      × ((vmemset s c n m).1 q ≡ (if leb s q && ltb q (s + n) then c % 256 else m q))
unfolding vmemset
vmemset-filled s c n m q = (refl, memset_loop-filled n s c m q)

-- The blocks of `n` bytes at `p` and at `q` agree.
abbrev pub SameBlock : Mem → ℕ → ℕ → ℕ → Type 0
SameBlock m p q zero = Unit
SameBlock m p q (suc n) = (m p ≡ m q) × SameBlock m (p + 1) (q + 1) n

vmemcmp-zero : (p q n : ℕ) (m : Mem) → vmemcmp p q n m ≡ pos 0 → SameBlock m p q n
unfolding vmemcmp
vmemcmp-zero p q zero m h = tt
vmemcmp-zero p q (suc n) m h = ground (arith, vmemcmp-zero (p + 1) (q + 1) n m)

vmemcmp-same : (p q n : ℕ) (m : Mem) → SameBlock m p q n → vmemcmp p q n m ≡ pos 0
unfolding vmemcmp
vmemcmp-same p q zero m h = refl
vmemcmp-same p q (suc n) m h = ground (arith, vmemcmp-same (p + 1) (q + 1) n m)

-- vmemcmp is zero exactly where the two blocks hold the same bytes.
pub vmemcmp_iff : (p q n : ℕ) (m : Mem) → (vmemcmp p q n m ≡ pos 0) ↔ SameBlock m p q n
vmemcmp_iff p q n m = (vmemcmp-zero p q n m, vmemcmp-same p q n m)
