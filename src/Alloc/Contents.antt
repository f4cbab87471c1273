-- ===== src/Alloc/Contents.antt =====
-- src/memory.c: what stands in the block that calloc or realloc gives.
use vlibc.Base.{
  ℕ, ◌+◌, ◌-◌, ◌*◌, ◌/◌, ◌%◌, ◌^◌, ◌≤◌, ◌<◌, ◌≡◌, ◌≢◌, ◌⊎◌, inl, inr, refl, sym, ap, ◌∙◌, subst,
  true, false, Option, none, some, arith, ltb, ◌==◌, if◌then◌else◌, Bool-cases,
}
use vlibc.Memory.{Mem}
use vlibc.Memory.Block.{vmemcpy}
use vlibc.Memory.Block.Overlap.{vmemset-filled, vmemcpy-moved}
use vlibc.CString.{size_max}
use vlibc.Alloc.{
  enomem, Heap, Sbrk, header, magic, overflows, malloc, zeroed, calloc, moved_to, realloc,
}
use vlibc.Alloc.Separate.{Ledger, IsHeap, Fresh, handed, given_back, Block, Served, malloc-Served}
use vlibc.Alloc.Release.{free-IsHeap, free-pushes}

-- The bytes of the answer are 0, and it is an answer only if the product fits.
abbrev pub Zeroed : ℕ → Option ℕ × Heap → Type 0
Zeroed total (none, h) = Unit
Zeroed total (some p, h) = (total ≤ size_max) × ((q : ℕ) → p ≤ q → q < p + total → h.bytes q ≡ 0)

zeroed-Zeroed : (total : ℕ) (r : Option ℕ × Heap) → total ≤ size_max → Zeroed total (zeroed total r)
unfolding zeroed
zeroed-Zeroed total (none, h) fits = tt
zeroed-Zeroed total (some p, h) fits =
    (fits, λ q lo hi. ground (arith, vmemset-filled p 0 total h.bytes q))

product_fits : (nmemb n : ℕ) → overflows nmemb n ≡ false → nmemb * n ≤ size_max
product_fits nmemb n h = elim (Bool-cases (n == 0)) [
  | inl e ↦ grind arith
  | inr e ↦ let bound : nmemb ≤ size_max / n = ground arith in grind arith
]

product_exceeds : (nmemb n : ℕ) → size_max < nmemb * n → overflows nmemb n ≡ true
product_exceeds nmemb n h = elim (Bool-cases (overflows nmemb n)) [
  | inl e ↦ e
  | inr e ↦ absurd (omega (arith, product_fits nmemb n e))
]

-- calloc fails with ENOMEM and changes nothing where the product of its arguments is above SIZE_MAX; where it
-- answers a block, the product fits and all its bytes are 0.
pub calloc-Zeroed :
    (s : Sbrk) (nmemb n : ℕ) (h : Heap)
    → (size_max < nmemb * n → calloc s nmemb n h ≡ (none, record h { errno = some enomem }))
      × Zeroed (nmemb * n) (calloc s nmemb n h)
unfolding calloc
calloc-Zeroed s nmemb n h = (
  λ large. rw (product_exceeds nmemb n large) refl,
  elim (Bool-cases (overflows nmemb n)) [
    | inl e ↦ rw e tt
    | inr e ↦ rw e (zeroed-Zeroed (nmemb * n) (malloc s (nmemb * n) h) (product_fits nmemb n e))
  ],
)

copied_at :
    (d s n i : ℕ) (m : Mem)
    → (d ≤ s) ⊎ (s + n ≤ d)
    → i < n
    → (vmemcpy d s n m).1 (d + i) ≡ m (s + i)
copied_at d s n i m gap lt =
    let same : s + (d + i - d) ≡ s + i = omega arith in
    ground (arith, vmemcpy-moved d s n m (d + i) gap, ap m same)

-- A block of `n` bytes at `p` that took the place of the one behind the header `b`.
pub record Moved (g : Ledger) (b n : ℕ) (old : Heap) (p : ℕ) (h : Heap) : Type 0 where
  pub base : ℕ
  pub pointer : p ≡ base + header
  pub other : base ≢ b
  pub sound : IsHeap h (given_back (handed g base n) b)
  pub kept : (i : ℕ) → i < old.size b → i < n → h.bytes (p + i) ≡ old.bytes (b + header + i)

-- What realloc promises of its answer.
abbrev pub Resized : Ledger → ℕ → ℕ → Heap → Option ℕ × Heap → Type 0
Resized g b n old (none, h) = IsHeap h g × (h.bytes ≡ old.bytes)
Resized g b n old (some p, h) = Moved g b n old p h

module _ (g : Ledger) (b n : ℕ) (h : Heap) (sound : IsHeap h g) (l : g.live b ≡ true)
    (ordinary : h.size b % 2 ^ 32 ≢ magic) where
  copy_length : ℕ
  copy_length = if ltb (h.size b) n then h.size b else n

  moved_to-Moved :
      (p : ℕ) (k : Heap)
      → Block g n h p k
      → Resized g b n h (moved_to (b + header) copy_length (some p, k))
  unfolding moved_to copy_length
  moved_to-Moved p k block =
      let other : block.base ≢ b =
        λ e. absurd (let m : false ≡ true = sym block.was_free ∙ ap g.live e ∙ l in cc) in
      let copied : Heap = record k { bytes = (vmemcpy p (b + header) copy_length k.bytes).1 } in
      let same : k.size b ≡ h.size b = block.others b (λ e. other (sym e)) in
      let plain : k.size b % 2 ^ 32 ≢ magic =
        λ e. ordinary (ap (λ (w : ℕ). w % 2 ^ 32) (sym same) ∙ e) in
      let pushed = free-pushes b copied plain in
      record {
        base = block.base;
        pointer = block.pointer;
        other = other;
        sound = free-IsHeap (handed g block.base n) b copied block.sound (ground arith) plain;
        kept = λ i in_old in_new.
            let gap : (p ≤ b + header) ⊎ (b + header + copy_length ≤ p) = ground (
              arith,
              sound.recorded b,
              sound.sized b,
              block.sound.apart b block.base,
              block.pointer,
            ) in
            ap (λ (x : Heap). x.bytes (p + i)) pushed
            ∙ copied_at p (b + header) copy_length i k.bytes gap (ground arith)
            ∙ ap (λ (m : Mem). m (b + header + i)) block.same;
      }

  -- realloc of a block that is handed out to a positive size, with a region from sbrk that is no part of a
  -- block and where the low half of the block's size is not the mark of an aligned block: on failure
  -- the blocks and the bytes are as before; else the answer is another block, the old one is free, and
  -- the bytes up to the smaller of the two sizes are the old ones.
  pub realloc-Resized :
      (s : Sbrk) → Fresh g n s.region → n ≢ 0 → Resized g b n h (realloc s (b + header) n h)
  unfolding realloc moved_to copy_length
  realloc-Resized s new positive =
      let present : (b + header == 0) ≡ false = ground arith in
      let some_bytes : (n == 0) ≡ false = ground arith in
      rw (present, some_bytes) (go (malloc s n h) (malloc-Served g n h s sound new))
    where
      go :
          (r : Option ℕ × Heap)
          → Served g n h r
          → Resized g b n h (
              moved_to
                (b + header)
                (if ltb (h.size (b + header - header)) n then h.size (b + header - header) else n)
                r)
      go (none, k) (ok, same, e) = (ok, same)
      go (some p, k) block =
          subst
            (λ (c : ℕ).
              Resized g b n h
                (moved_to (b + header) (if ltb (h.size c) n then h.size c else n) (some p, k)))
            (sym (omega arith)) (moved_to-Moved p k block)
