-- ===== src/Printf/Allocated.antt =====
-- src/printf.c: vasprintf and asprintf, over the allocator of src/memory.c.
use vlibc.Base.{
  ℕ,
  ◌+◌,
  ◌-◌,
  ◌^◌,
  ◌<◌,
  ◌≤◌,
  ◌≡◌,
  refl,
  ap,
  ◌∙◌,
  Bool,
  true,
  false,
  List,
  [],
  ◌∷◌,
  ◌++◌,
  Option,
  none,
  some,
  arith,
  ◌==◌,
  length,
  ◌>>=◌,
  Int.{ℤ, pos, negsuc},
}
use vlibc.Memory.{Mem, put}
use vlibc.Alloc.{enomem, Heap, Sbrk, header, malloc, free}
use vlibc.Alloc.Separate.{Ledger, IsHeap, Fresh, handed, Served, malloc-Served}
use vlibc.Printf.Format.{Arg}
use vlibc.Printf.Buffer.{vsnprintf}
use vlibc.Printf.Ends.{Makes, vsnprintf-Makes}
use vlibc.Strto.{to_int}
use vlibc.Printf.Bounded.{take_short}

-- The int that is returned, `*strp`, which is `none` for NULL, and the heap.
abbrev pub Answer : Type 0
Answer = ℤ × Option ℕ × Heap

-- From `if (r < 0)` on; `strp` is whether the pointer is not NULL.
unfoldable pub handed_over : Bool → ℤ → ℕ → Heap → Answer
unfolding free
handed_over strp (negsuc r) buf h = (negsuc 0, none, free buf h)
handed_over true (pos r) buf h = (pos r, some buf, h)
handed_over false (pos r) buf h = (pos r, none, free buf h)

-- From the test of `buf` on.
unfoldable pub print_into : Bool → ℕ → List ℕ → List Arg → Option ℕ × Heap → Option Answer
unfolding vsnprintf handed_over
print_into strp len format args (none, h) = some (negsuc 0, none, record h { errno = some enomem })
print_into strp len format args (some buf, h) = do
  (r, m) ← vsnprintf buf (len + 1) format args h.bytes
  some (handed_over strp r buf (record h { bytes = m }))

-- From `if (len < 0)` on.
unfoldable pub measured : Sbrk → Bool → ℤ → List ℕ → List Arg → Heap → Option Answer
unfolding print_into malloc
measured s strp (negsuc len) format args h = some (negsuc 0, none, h)
measured s strp (pos len) format args h = print_into strp len format args (malloc s (len + 1) h)

unfoldable pub vasprintf : Sbrk → Bool → List ℕ → List Arg → Heap → Option Answer
unfolding measured
vasprintf s strp format args h = do
  (len, m) ← vsnprintf 0 0 format args h.bytes
  measured s strp len format args (record h { bytes = m })

unfoldable pub asprintf : Sbrk → Bool → List ℕ → List Arg → Heap → Option Answer
unfolding vasprintf
asprintf s strp format args h = vasprintf s strp format args h

-- What vasprintf promises for the text `t`.
abbrev pub Printed : Ledger → List ℕ → Heap → Option Answer → Type 0
Printed g t old none = ⊥
Printed g t old (some (r, none, h)) =
    (r ≡ negsuc 0) × IsHeap h g × (h.bytes ≡ old.bytes) × (h.errno ≡ some enomem)
Printed g t old (some (r, some p, h)) =
    (r ≡ pos (length t))
    × (b : ℕ) × (p ≡ b + header)
    × IsHeap h (handed g b (length t + 1))
    × (h.bytes ≡ put old.bytes p (t ++ 0 ∷ []))

to_int-small : (n : ℕ) → n < 2 ^ 31 → to_int (pos n) ≡ pos n
to_int-small n h = ground arith

whole_text :
    (p : ℕ) (fmt : List ℕ) (args : List Arg) (m : Mem) (t : List ℕ)
    → Makes fmt args t
    → length t < 2 ^ 31
    → vsnprintf p (length t + 1) fmt args m ≡ some (pos (length t), put m p (t ++ 0 ∷ []))
whole_text p fmt args m t e fits =
    let some_room : (length t + 1 == 0) ≡ false = ground arith in
    let room : length t + 1 - 1 ≡ length t = omega arith in
    vsnprintf-Makes p (length t + 1) fmt args t m e
    ∙ rw (some_room, room, take_short (length t) t (omega arith))
        (ap (λ (r : ℤ). some (r, put m p (t ++ 0 ∷ []))) (to_int-small (length t) fits))

print_into-Printed :
    (g : Ledger) (fmt : List ℕ) (args : List Arg) (t : List ℕ) (h : Heap) (r : Option ℕ × Heap)
    → Makes fmt args t
    → length t < 2 ^ 31
    → Served g (length t + 1) h r
    → Printed g t h (print_into true (length t) fmt args r)
unfolding print_into handed_over
print_into-Printed g fmt args t h (none, k) e fits (sound, same, code) = (refl, sound, same, refl)
print_into-Printed g fmt args t h (some p, k) e fits block =
    rw (whole_text p fmt args k.bytes t e fits) (
      refl,
      block.base,
      block.pointer,
      block.sound,
      ap (λ (m : Mem). put m p (t ++ 0 ∷ [])) block.same,
    )

-- vasprintf, where a format makes the text `t` of the arguments, of fewer than 2 ^ 31 bytes, and the heap agrees with its
-- ledger, with a region from sbrk that is no part of a block: it answers -1, NULL and ENOMEM and changes no block and
-- no byte, or it answers the length of the text and a block of its own, in which the whole text and a NUL stand, and
-- no other byte has changed.
pub vasprintf-Printed :
    (g : Ledger) (s : Sbrk) (fmt : List ℕ) (args : List Arg) (t : List ℕ) (h : Heap)
    → Makes fmt args t
    → length t < 2 ^ 31
    → IsHeap h g
    → Fresh g (length t + 1) s.region
    → Printed g t h (vasprintf s true fmt args h)
unfolding vasprintf measured
vasprintf-Printed g s fmt args t h e fits sound new =
    let length_first : vsnprintf 0 0 fmt args h.bytes ≡ some (pos (length t), h.bytes) =
      vsnprintf-Makes 0 0 fmt args t h.bytes e
      ∙ ap (λ (r : ℤ). some (r, h.bytes)) (to_int-small (length t) fits) in
    rw length_first (
      print_into-Printed g fmt args t h (malloc s (length t + 1) h) e fits
        (malloc-Served g (length t + 1) h s sound new))

-- And where the text has from 2 ^ 31 to 2 ^ 32 - 1 bytes, the length is a negative int: vasprintf answers -1 and NULL,
-- asks malloc for nothing and leaves errno.
pub vasprintf-long :
    (s : Sbrk) (strp : Bool) (fmt : List ℕ) (args : List Arg) (t : List ℕ) (h : Heap)
    → Makes fmt args t
    → 2 ^ 31 ≤ length t
    → length t < 2 ^ 32
    → vasprintf s strp fmt args h ≡ some (negsuc 0, none, h)
unfolding vasprintf measured
vasprintf-long s strp fmt args t h e long word =
    let negative : to_int (pos (length t)) ≡ negsuc (2 ^ 32 - length t - 1) = ground arith in
    let first : vsnprintf 0 0 fmt args h.bytes ≡ some (negsuc (2 ^ 32 - length t - 1), h.bytes) =
      vsnprintf-Makes 0 0 fmt args t h.bytes e ∙ ap (λ (r : ℤ). some (r, h.bytes)) negative in
    rw first refl
