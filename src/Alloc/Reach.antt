-- ===== src/Alloc/Reach.antt =====
-- src/memory.c: every run of malloc, calloc, realloc and free.
use vlibc.Base.{
  ℕ, ◌+◌, ◌*◌, ◌%◌, ◌^◌, ◌≤◌, ◌≡◌, ◌≢◌, ◌⊎◌, inl, inr, subst, Bool-cases, true, false, List, [],
  Option, none, some, arith,
}
use vlibc.Alloc.{Heap, Sbrk, header, magic, overflows, zeroed, malloc, calloc, free, realloc}
use vlibc.Alloc.Separate.{
  Ledger, Sound, IsHeap, Fresh, handed, given_back, Block, Served, malloc-Served,
}
use vlibc.Alloc.Contents.{Moved, Resized, realloc-Resized}
use vlibc.Alloc.Release.{free-IsHeap}

-- A call of malloc or calloc with a region that is no part of a block; of free with a block that is handed out; of
-- realloc with such a block, a positive size and such a region.
pub data Step (h : Heap) (g : Ledger) : Heap → Ledger → Type 0 where
  got :
      (s : Sbrk) (n b : ℕ) (h' : Heap)
      → Fresh g n s.region
      → malloc s n h ≡ (some (b + header), h')
      → Step h g h' (handed g b n)
  refused :
      (s : Sbrk) (n : ℕ) (h' : Heap)
      → Fresh g n s.region
      → malloc s n h ≡ (none, h')
      → Step h g h' g
  cleared :
      (s : Sbrk) (m n b : ℕ) (h' : Heap)
      → Fresh g (m * n) s.region
      → calloc s m n h ≡ (some (b + header), h')
      → Step h g h' (handed g b (m * n))
  not_cleared :
      (s : Sbrk) (m n : ℕ) (h' : Heap)
      → Fresh g (m * n) s.region
      → calloc s m n h ≡ (none, h')
      → Step h g h' g
  released :
      (b : ℕ)
      → g.live b ≡ true
      → h.size b % 2 ^ 32 ≢ magic
      → Step h g (free (b + header) h) (given_back g b)
  resized :
      (s : Sbrk) (b n c : ℕ) (h' : Heap)
      → g.live b ≡ true
      → h.size b % 2 ^ 32 ≢ magic
      → Fresh g n s.region
      → n ≢ 0
      → realloc s (b + header) n h ≡ (some (c + header), h')
      → Step h g h' (given_back (handed g c n) b)
  not_resized :
      (s : Sbrk) (b n : ℕ) (h' : Heap)
      → g.live b ≡ true
      → h.size b % 2 ^ 32 ≢ magic
      → Fresh g n s.region
      → n ≢ 0
      → realloc s (b + header) n h ≡ (none, h')
      → Step h g h' g

abbrev pub empty : Ledger
empty = record { known = λ a. false; live = λ a. false; extent = λ a. 0 }

pub data Reachable : Heap → Ledger → Type 0 where
  start : (h : Heap) → h.free_list ≡ [] → Reachable h empty
  after : {h h' : Heap} {g g' : Ledger} → Reachable h g → Step h g h' g' → Reachable h' g'

-- What calloc does to the blocks.
abbrev Given : Ledger → ℕ → Option ℕ × Heap → Type 0
Given g total (none, h) = IsHeap h g
Given g total (some p, h) = (b : ℕ) × (p ≡ b + header) × IsHeap h (handed g b total)

zeroed-Given :
    (g : Ledger) (total : ℕ) (h : Heap) (r : Option ℕ × Heap)
    → Served g total h r
    → Given g total (zeroed total r)
unfolding zeroed
zeroed-Given g total h (none, k) (sound, same, e) = sound
zeroed-Given g total h (some p, k) block = (block.base, block.pointer, block.sound)

calloc-Given :
    (g : Ledger) (s : Sbrk) (m n : ℕ) (h : Heap)
    → IsHeap h g
    → Fresh g (m * n) s.region
    → Given g (m * n) (calloc s m n h)
unfolding calloc
calloc-Given g s m n h sound new = elim (Bool-cases (overflows m n)) [
  | inl e ↦ rw e sound
  | inr e ↦
      rw e (zeroed-Given g (m * n) h (malloc s (m * n) h) (malloc-Served g (m * n) h s sound new))
]

step-IsHeap : (h h' : Heap) (g g' : Ledger) → Step h g h' g' → IsHeap h g → IsHeap h' g'
step-IsHeap h h' g g' (got s n b k new e) sound =
    let block : Block g n h (b + header) k =
      subst (Served g n h) e (malloc-Served g n h s sound new) in
    let same : block.base ≡ b = omega (arith, block.pointer) in
    subst (λ c. IsHeap k (handed g c n)) same block.sound
step-IsHeap h h' g g' (refused s n k new e) sound =
    (subst (Served g n h) e (malloc-Served g n h s sound new)).0
step-IsHeap h h' g g' (cleared s m n b k new e) sound =
    let (base, pointer, kept) : Given g (m * n) (some (b + header), k) =
      subst (λ r. Given g (m * n) r) e (calloc-Given g s m n h sound new) in
    let same : base ≡ b = omega arith in subst (λ c. IsHeap k (handed g c (m * n))) same kept
step-IsHeap h h' g g' (not_cleared s m n k new e) sound =
    subst (λ r. Given g (m * n) r) e (calloc-Given g s m n h sound new)
step-IsHeap h h' g g' (resized s b n c k l ordinary new positive e) sound =
    let moved : Moved g b n h (c + header) k =
      subst (λ r. Resized g b n h r) e (realloc-Resized g b n h sound l ordinary s new positive) in
    let same : moved.base ≡ c = omega (arith, moved.pointer) in
    subst (λ a. IsHeap k (given_back (handed g a n) b)) same moved.sound
step-IsHeap h h' g g' (not_resized s b n k l ordinary new positive e) sound =
    (subst (λ r. Resized g b n h r) e (realloc-Resized g b n h sound l ordinary s new positive)).0
step-IsHeap h h' g g' (released b l ordinary) sound = free-IsHeap g b h sound l ordinary

empty-Sound : (list : List ℕ) (size : ℕ → ℕ) → list ≡ [] → Sound list size empty
empty-Sound list size e = rw e (record {
  apart = λ a b ka kb ne. absurd (cc ka);
  sized = λ a ka. absurd (cc ka);
  recorded = λ a la. cc;
  listed = tt;
  once = tt;
})

pub reachable-IsHeap : (h : Heap) (g : Ledger) → Reachable h g → IsHeap h g
reachable-IsHeap h g (start k e) = empty-Sound k.free_list k.size e
reachable-IsHeap h' g' (after {h} {g} r step) = step-IsHeap h h' g g' step (reachable-IsHeap h g r)

-- After any run of malloc, calloc and of realloc to a positive size, with regions from sbrk that are no part of a
-- block, and of free; free and realloc with pointers that those gave and that were not freed since, of blocks the
-- low half of whose size is not the mark of an aligned block: two different blocks that are handed out do
-- not overlap, headers included.
pub reachable-apart :
    (h : Heap) (g : Ledger) (a b : ℕ)
    → Reachable h g
    → g.live a ≡ true
    → g.live b ≡ true
    → a ≢ b
    → (a + header + h.size a ≤ b) ⊎ (b + header + h.size b ≤ a)
reachable-apart h g a b r la lb ne =
    let s = reachable-IsHeap h g r in
    ground (arith, s.recorded a, s.recorded b, s.apart a b, s.sized a, s.sized b)
