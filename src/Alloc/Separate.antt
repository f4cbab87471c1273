-- ===== src/Alloc/Separate.antt =====
-- src/memory.c: the blocks that malloc hands out stay apart.
use vlibc.Base.{
  ℕ, zero, suc, ◌+◌, ◌-◌, ◌≤◌, ◌≡◌, ◌≢◌, ◌⊎◌, refl, sym, ap, ◌∙◌, Bool, true, false, not, ◌&&◌,
  List, [], ◌∷◌, Option, none, some, arith, ltb, ◌==◌, if◌then◌else◌, All,
}
use vlibc.CString.{size_max}
use vlibc.Alloc.{
  enomem, Heap, Sbrk, header, write, fails, first_fit, grow, from_list, malloc_body, counted,
  malloc,
}
use vlibc.Alloc.Fit.{
  Distinct, Holds, Splits, HasRoom, first_fit-Holds, first_fit-Splits, first_fit-HasRoom,
}

-- Which addresses became headers, which of them stand before a block that is handed out, and how many bytes
-- were got for each.
pub record Ledger : Type 0 where
  pub known : ℕ → Bool
  pub live : ℕ → Bool
  pub extent : ℕ → ℕ

-- `n` bytes behind the header `b` do not meet the region of the header `a`; both with their headers.
abbrev pub Apart : Ledger → ℕ → ℕ → ℕ → Type 0
Apart g b n a = (b + header + n ≤ a) ⊎ (a + header + g.extent a ≤ b)

-- A list of free headers and the sizes in the headers agree with the ledger.
pub record Sound (list : List ℕ) (size : ℕ → ℕ) (g : Ledger) : Type 0 where
  pub apart : (a b : ℕ) → g.known a ≡ true → g.known b ≡ true → a ≢ b → Apart g b (g.extent b) a
  pub sized : (a : ℕ) → g.known a ≡ true → size a ≤ g.extent a
  pub recorded : (a : ℕ) → g.live a ≡ true → g.known a ≡ true
  pub listed : All (λ a. (g.known a ≡ true) × (g.live a ≡ false)) list
  pub once : Distinct list

abbrev pub IsHeap : Heap → Ledger → Type 0
IsHeap h g = Sound h.free_list h.size g

-- sbrk's documented promise: the region, if it answers one, is no part of a block.
abbrev pub Fresh : Ledger → ℕ → Option ℕ → Type 0
Fresh g n none = Unit
Fresh g n (some b) = (a : ℕ) → g.known a ≡ true → Apart g b n a

-- The ledger after `n` bytes behind the header `b` are handed out, and after they are given back.
abbrev pub handed : Ledger → ℕ → ℕ → Ledger
handed g b n = record {
  known = λ a. if a == b then true else g.known a;
  live = λ a. if a == b then true else g.live a;
  extent = λ a. if a == b && not (g.known b) then n else g.extent a;
}

abbrev pub given_back : Ledger → ℕ → Ledger
given_back g b = record g { live = λ a. if a == b then false else g.live a }

-- A block got for `n` bytes at `p`: its header is new or was free, and has room; the other headers and the
-- bytes are as before.
pub record Block (g : Ledger) (n : ℕ) (old : Heap) (p : ℕ) (h : Heap) : Type 0 where
  pub base : ℕ
  pub pointer : p ≡ base + header
  pub sound : IsHeap h (handed g base n)
  pub was_free : g.live base ≡ false
  pub room : n ≤ (handed g base n).extent base
  pub labelled : h.size base ≡ n
  pub others : (a : ℕ) → a ≢ base → h.size a ≡ old.size a
  pub same : h.bytes ≡ old.bytes

-- What malloc promises of its answer.
abbrev pub Served : Ledger → ℕ → Heap → Option ℕ × Heap → Type 0
Served g n old (none, h) = IsHeap h g × (h.bytes ≡ old.bytes) × (h.errno ≡ some enomem)
Served g n old (some p, h) = Block g n old p h

All-handed :
    (g : Ledger) (n b : ℕ) (rest : List ℕ)
    → All (λ a. (g.known a ≡ true) × (g.live a ≡ false)) rest
    → All (λ c. c ≢ b) rest
    → All (λ a. ((handed g b n).known a ≡ true) × ((handed g b n).live a ≡ false)) rest
All-handed g n b [] all others = tt
All-handed g n b (c ∷ rest) ((k, l), all) (ne, others) =
    ((ground arith, ground arith), All-handed g n b rest all others)

not_listed :
    (g : Ledger) (b : ℕ) (l : List ℕ)
    → g.known b ≡ false
    → All (λ a. (g.known a ≡ true) × (g.live a ≡ false)) l
    → All (λ c. c ≢ b) l
not_listed g b [] u all = tt
not_listed g b (c ∷ l) u ((k, _), all) =
    (λ e. absurd (let m : true ≡ false = sym k ∙ ap g.known e ∙ u in cc), not_listed g b l u all)

module _ (g : Ledger) (n b : ℕ) (size : ℕ → ℕ) (rest : List ℕ) (s : Sound rest size g) where
  -- A block out of the list.
  reuse :
      g.known b ≡ true
      → g.live b ≡ false
      → All (λ c. c ≢ b) rest
      → n ≤ size b
      → Sound rest (write size b n) (handed g b n)
  reuse k l others room = record {
    apart = λ a c ka kc ne. ground (arith, s.apart a c, k);
    sized = λ a ka. ground (arith, s.sized a, k);
    recorded = λ a la. ground (arith, s.recorded a, k);
    listed = All-handed g n b rest s.listed others;
    once = s.once;
  }

  unknown : ((a : ℕ) → g.known a ≡ true → Apart g b n a) → g.known b ≡ false
  unknown new = ground (arith, new b)

  fresh : ((a : ℕ) → g.known a ≡ true → Apart g b n a) → Sound rest (write size b n) (handed g b n)
  fresh new = record {
    apart = λ a c ka kc ne. ground (arith, s.apart a c, new a, new c, unknown new);
    sized = λ a ka. ground (arith, s.sized a, unknown new);
    recorded = λ a la. ground (arith, s.recorded a);
    listed = All-handed g n b rest s.listed (not_listed g b rest (unknown new) s.listed);
    once = s.once;
  }

Served-if :
    (g : Ledger) (n : ℕ) (old : Heap) (b : Bool) (x y : Option ℕ × Heap)
    → Served g n old x
    → Served g n old y
    → Served g n old (if b then x else y)
Served-if g n old true x y hx hy = hx
Served-if g n old false x y hx hy = hy

module _ (g : Ledger) (n : ℕ) (h : Heap) (sound : IsHeap h g) where
  grow-Served : (region : Option ℕ) → Fresh g n region → Served g n h (grow region n h)
  unfolding grow
  grow-Served none new = (sound, refl, refl)
  grow-Served (some b) new =
      let u = unknown g n b h.size h.free_list sound new in
      record {
        base = b;
        pointer = refl;
        sound = fresh g n b h.size h.free_list sound new;
        was_free = ground (arith, sound.recorded b);
        room = ground arith;
        labelled = ground arith;
        others = λ a ne. ground arith;
        same = refl;
      }

  from_list-Served :
      (region : Option ℕ) (o : Option (ℕ × List ℕ))
      → Fresh g n region
      → Holds (λ a. (g.known a ≡ true) × (g.live a ≡ false)) o
      → Splits o
      → HasRoom h.size n o
      → Served g n h (from_list region n h o)
  unfolding from_list
  from_list-Served region none new held split room = grow-Served region new
  from_list-Served region (some (b, rest)) new ((k, l), all) (others, once) room =
      let s : Sound rest h.size g = record {
        apart = sound.apart;
        sized = sound.sized;
        recorded = sound.recorded;
        listed = all;
        once = once;
      } in
      record {
        base = b;
        pointer = refl;
        sound = reuse g n b h.size rest s k l others room;
        was_free = l;
        room = ground (arith, sound.sized b);
        labelled = ground arith;
        others = λ a ne. ground arith;
        same = refl;
      }

  malloc_body-Served : (s : Sbrk) → Fresh g n s.region → Served g n h (malloc_body s n h)
  unfolding malloc_body
  malloc_body-Served s new =
      let found = first_fit h.size n h.free_list in
      let served =
        from_list-Served s.region found new (first_fit-Holds h.size n _ h.free_list sound.listed)
          (first_fit-Splits h.size n h.free_list sound.once)
          (first_fit-HasRoom h.size n h.free_list) in
      let refused : Served g n h (fails h) = (sound, refl, refl) in
      Served-if g n h (n == 0) _ _ refused (
        Served-if g n h (not s.probed) _ _ refused
          (Served-if g n h (ltb (size_max - header) n) _ _ refused served))

Served-frame :
    (g : Ledger) (n : ℕ) (old old' : Heap) (r : Option ℕ × Heap)
    → old'.bytes ≡ old.bytes
    → old'.size ≡ old.size
    → Served g n old' r
    → Served g n old r
Served-frame g n old old' (none, h) eb es (sound, same, e) = (sound, same ∙ eb, e)
Served-frame g n old old' (some p, h) eb es b = record {
  base = b.base;
  pointer = b.pointer;
  sound = b.sound;
  was_free = b.was_free;
  room = b.room;
  labelled = b.labelled;
  others = λ a ne. b.others a ne ∙ ap (λ (f : ℕ → ℕ). f a) es;
  same = b.same ∙ eb;
}

-- malloc, in a heap that agrees with its ledger and with a new region from sbrk, fails with ENOMEM and changes
-- no block, or gives a pointer behind a header that is new or was free, whose block has room and meets
-- no other one; the other headers and all bytes stay.
pub malloc-Served :
    (g : Ledger) (n : ℕ) (h : Heap) (s : Sbrk)
    → IsHeap h g
    → Fresh g n s.region
    → Served g n h (malloc s n h)
unfolding malloc counted
malloc-Served g n h s sound new = go h.fail_after
  where
    go : (k : Option ℕ) → Served g n h (counted k s n h)
    go none = malloc_body-Served g n h sound s new
    go (some zero) = (sound, refl, refl)
    go (some (suc k)) =
        let old : Heap = record h { fail_after = some k } in
        Served-frame g n h old _ refl refl (malloc_body-Served g n old sound s new)
