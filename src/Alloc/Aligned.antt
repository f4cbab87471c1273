-- ===== src/Alloc/Aligned.antt =====
-- src/memory.c: posix_memalign, and free of what it gave.
use native.Mathlib.Nat.{mod-add-div', mod-lt, mul-mod_left}
use Prim.Native.Nat.{bit_and}
use vlibc.Base.Bits.{bit_and-remainder, bit_and-complement}
use vlibc.Base.{
  ℕ, ◌+◌, ◌-◌, ◌*◌, ◌/◌, ◌%◌, ◌^◌, ◌≤◌, ◌<◌, ◌≡◌, ◌≢◌, refl, sym, ap, ◌∙◌, subst, true, false, List,
  ◌∷◌, Option, none, some, arith, ltb, ◌==◌, Bool-cases, inl, inr,
}
use vlibc.Alloc.Release.{given_back-Sound}
use vlibc.CString.{size_max}
use vlibc.Alloc.{
  Errno, Heap, Sbrk, header, magic, write, align_up, bad_alignment, malloc, place_aligned,
  posix_memalign, free_impl, free,
}
use vlibc.Alloc.Separate.{Ledger, Sound, IsHeap, Fresh, handed, given_back, Served, malloc-Served}

-- On words of 64 bits, align_up is the code's mask.
align_up-mask :
    (addr alignment : ℕ)
    → alignment ≢ 0
    → addr + alignment ≤ 2 ^ 64
    → align_up addr alignment ≡ bit_and (addr + alignment - 1) (2 ^ 64 - 1 - (alignment - 1))
unfolding align_up
align_up-mask addr alignment positive fits = omega (
  arith,
  bit_and-complement 64 (addr + alignment - 1) (alignment - 1) (omega arith) (omega arith),
)

align_up_bounds :
    (addr alignment : ℕ)
    → alignment ≢ 0
    → bit_and alignment (alignment - 1) ≡ 0
    → (addr ≤ align_up addr alignment)
      × (align_up addr alignment < addr + alignment)
      × (align_up addr alignment % alignment ≡ 0)
unfolding align_up
align_up_bounds addr alignment positive power =
    let mask = bit_and-remainder alignment (addr + alignment - 1) positive power in
    let whole = mod-add-div' (addr + alignment - 1) alignment in
    let part = mod-lt (addr + alignment - 1) {m = alignment} (omega arith) in
    (
      omega (arith, mask, whole, part),
      omega (arith, mask, whole, part),
      subst (λ (y : ℕ). y % alignment ≡ 0) (omega (arith, mask, whole))
          (mul-mod_left ((addr + alignment - 1) / alignment) alignment),
    )

on_word_of : (p alignment : ℕ) → p % alignment ≡ 0 → alignment % 8 ≡ 0 → p % 8 ≡ 0
on_word_of p alignment e f =
    let eights : alignment / 8 * 8 ≡ alignment = omega arith in
    let whole : p / alignment * (alignment / 8) * 8 ≡ p / alignment * alignment =
      regroup (p / alignment) (alignment / 8) ∙ ap (λ (y : ℕ). p / alignment * y) eights in
    let back : p / alignment * alignment ≡ p = omega (arith, mod-add-div' p alignment) in
    subst (λ (y : ℕ). y % 8 ≡ 0) (whole ∙ back) (mul-mod_left (p / alignment * (alignment / 8)) 8)
  where
    regroup : (k a : ℕ) → k * a * 8 ≡ k * (a * 8)
    regroup k a = grind arith

-- A word that is no header of the ledger may be written.
write-Sound :
    (g : Ledger) (list : List ℕ) (size : ℕ → ℕ) (ph v : ℕ)
    → Sound list size g
    → ((a : ℕ) → g.known a ≡ true → a ≢ ph)
    → Sound list (write size ph v) g
write-Sound g list size ph v s other = record {
  apart = s.apart;
  sized = λ a ka. ground (arith, s.sized a, other a);
  recorded = s.recorded;
  listed = s.listed;
  once = s.once;
}

-- A pointer `p` that `alignment` and the 8 of a word divide, to `n` bytes, with its mark before it, inside a block of `total` bytes.
pub record AlignedBlock (g : Ledger) (alignment n total : ℕ) (p : ℕ) (h : Heap) : Type 0 where
  pub base : ℕ
  pub aligned : p % alignment ≡ 0
  pub on_word : p % 8 ≡ 0
  pub above : base + header + header ≤ p
  pub fits : p + n ≤ base + header + total
  pub sound : IsHeap h (handed g base total)
  pub was_free : g.live base ≡ false
  pub room : total ≤ (handed g base total).extent base
  pub marked : h.size (p - header) % 2 ^ 32 ≡ magic
  pub origin : h.orig (p - header) ≡ base + header

-- What posix_memalign promises of its answer.
abbrev pub Placed : Ledger → ℕ → ℕ → Option Errno × Option ℕ × Heap → Type 0
Placed g alignment n (some e, p, h) = IsHeap h g × (p ≡ none)
Placed g alignment n (none, none, h) = ⊥
Placed g alignment n (none, some p, h) =
    AlignedBlock g alignment n (n + (alignment - 1 + header)) p h

-- No header stands inside a block.
inside :
    (g : Ledger) (base total : ℕ) (list : List ℕ) (size : ℕ → ℕ) (ph : ℕ)
    → Sound list size (handed g base total)
    → total ≤ (handed g base total).extent base
    → base + header ≤ ph
    → ph < base + header + total
    → (a : ℕ) → (handed g base total).known a ≡ true
    → a ≢ ph
inside g base total list size ph s room lo hi a ka = ground (arith, s.apart a base)

place_aligned-Placed :
    (g : Ledger) (alignment n : ℕ) (h : Heap) (r : Option ℕ × Heap)
    → alignment ≢ 0
    → bit_and alignment (alignment - 1) ≡ 0
    → alignment % 8 ≡ 0
    → Served g (n + (alignment - 1 + header)) h r
    → Placed g alignment n (place_aligned alignment r)
unfolding place_aligned
place_aligned-Placed g alignment n h (none, k) positive power words (sound, same, e) = (sound, refl)
place_aligned-Placed g alignment n h (some orig, k) positive power words block =
    let total : ℕ = n + (alignment - 1 + header) in
    let p : ℕ = align_up (orig + header) alignment in
    let (lo, hi, even) = align_up_bounds (orig + header) alignment positive power in
    let far =
      inside g block.base total k.free_list k.size (p - header) block.sound block.room
        (omega (arith, block.pointer)) (omega (arith, block.pointer)) in
    record {
      base = block.base;
      aligned = even;
      on_word = on_word_of p alignment even words;
      above = omega (arith, block.pointer);
      fits = omega (arith, block.pointer);
      sound =
          write-Sound (handed g block.base total) k.free_list k.size (p - header) _ block.sound far;
      was_free = block.was_free;
      room = block.room;
      marked = ground arith;
      origin = ground (arith, block.pointer);
    }

good_alignment :
    (alignment : ℕ)
    → bad_alignment alignment ≡ false
    → (alignment ≢ 0) × (bit_and alignment (alignment - 1) ≡ 0) × (alignment % 8 ≡ 0)
good_alignment alignment e = (λ z. absurd (ground arith), ground arith, ground arith)

-- posix_memalign, in a heap that agrees with its ledger and with a new region from sbrk, refuses with a code,
-- stores no pointer and changes no block, or stores a pointer that the alignment and 8 divide, to n bytes
-- inside a block of its own, with the mark and the block's pointer before it.
pub posix_memalign-Placed :
    (g : Ledger) (s : Sbrk) (alignment n : ℕ) (h : Heap)
    → IsHeap h g
    → Fresh g (n + (alignment - 1 + header)) s.region
    → Placed g alignment n (posix_memalign s alignment n h)
unfolding posix_memalign
posix_memalign-Placed g s alignment n h sound new = elim (Bool-cases (bad_alignment alignment)) [
  | inl e ↦ rw e (sound, refl)
  | inr e ↦ rw e (elim (Bool-cases (ltb (size_max - header) (alignment - 1))) [
    | inl f ↦ rw f (sound, refl)
    | inr f ↦ rw f (elim (Bool-cases (ltb (size_max - (alignment - 1 + header)) n)) [
      | inl o ↦ rw o (sound, refl)
      | inr o ↦ rw o (
          place_aligned-Placed g alignment n h (malloc s (n + (alignment - 1 + header)) h)
            (good_alignment alignment e).0 (good_alignment alignment e).1
            (good_alignment alignment e).2
            (malloc-Served g (n + (alignment - 1 + header)) h s sound new))
    ])
  ])
]

free-marked :
    (p base : ℕ) (h : Heap)
    → h.size (p - header) % 2 ^ 32 ≡ magic
    → h.orig (p - header) ≡ base + header
    → p ≢ 0
    → free p h ≡ record h {
      free_list = base ∷ h.free_list;
      size = write h.size (p - header) (h.size (p - header) - magic);
    }
unfolding free free_impl
free-marked p base h marked origin present =
    let a : (p == 0) ≡ false = ground arith in
    let b : (h.size (p - header) % 2 ^ 32 == magic) ≡ true = ground arith in
    let c : (h.orig (p - header) == 0) ≡ false = ground arith in
    let d : h.orig (p - header) - header ≡ base = omega arith in rw (a, b) (rw (c, d) refl)

-- free of a pointer that posix_memalign stored puts the block that it is in back on the list, and the heap agrees
-- with the ledger that says so.
pub free-AlignedBlock :
    (g : Ledger) (alignment n total p : ℕ) (h : Heap) (block : AlignedBlock g alignment n total p h)
    → IsHeap (free p h) (given_back (handed g block.base total) block.base)
unfolding free free_impl
free-AlignedBlock g alignment n total p h block =
    let base : ℕ = block.base in
    let ph : ℕ = p - header in
    let ledger : Ledger = handed g base total in
    let far =
      inside g base total h.free_list h.size ph block.sound block.room (omega (arith, block.above))
        (omega (arith, block.above, block.fits)) in
    let clear : ℕ → ℕ = write h.size ph (h.size ph - magic) in
    let sound : Sound (base ∷ h.free_list) clear (given_back ledger base) =
      given_back-Sound ledger base h.free_list clear
        (write-Sound ledger h.free_list h.size ph _ block.sound far) (ground arith) in
    subst (λ k. IsHeap k (given_back ledger base))
      (sym (free-marked p base h block.marked block.origin (omega (arith, block.above)))) sound
