-- ===== src/Alloc/Release.antt =====
-- src/memory.c: free of a block that malloc handed out.
use vlibc.Base.{
  ℕ, ◌+◌, ◌-◌, ◌%◌, ◌^◌, ◌≡◌, ◌≢◌, refl, sym, ap, ◌∙◌, subst, true, false, List, [], ◌∷◌, arith,
  ◌==◌, All,
}
use vlibc.Alloc.{Heap, header, magic, free_impl, free}
use vlibc.Alloc.Separate.{Ledger, Sound, IsHeap, given_back}

pub free-pushes :
    (b : ℕ) (h : Heap)
    → h.size b % 2 ^ 32 ≢ magic
    → free (b + header) h ≡ record h { free_list = b ∷ h.free_list }
unfolding free free_impl
free-pushes b h ordinary =
    let back : b + header - header ≡ b = omega arith in
    let present : (b + header == 0) ≡ false = ground arith in
    let other : (h.size b % 2 ^ 32 == magic) ≡ false = ground arith in
    rw back (rw (present, other) refl)

All-given_back :
    (g : Ledger) (b : ℕ) (list : List ℕ)
    → All (λ a. (g.known a ≡ true) × (g.live a ≡ false)) list
    → All (λ a. (g.known a ≡ true) × ((given_back g b).live a ≡ false)) list
All-given_back g b [] all = tt
All-given_back g b (c ∷ list) ((k, l), all) = ((k, ground arith), All-given_back g b list all)

not_live :
    (g : Ledger) (b : ℕ) (list : List ℕ)
    → g.live b ≡ true
    → All (λ a. (g.known a ≡ true) × (g.live a ≡ false)) list
    → All (λ c. c ≢ b) list
not_live g b [] l all = tt
not_live g b (c ∷ list) l ((_, k), all) =
    (λ e. absurd (let m : false ≡ true = sym k ∙ ap g.live e ∙ l in cc), not_live g b list l all)

pub given_back-Sound :
    (g : Ledger) (b : ℕ) (list : List ℕ) (size : ℕ → ℕ)
    → Sound list size g
    → g.live b ≡ true
    → Sound (b ∷ list) size (given_back g b)
given_back-Sound g b list size s l = record {
  apart = s.apart;
  sized = s.sized;
  recorded = λ a la. ground (arith, s.recorded a);
  listed = ((ground (arith, s.recorded b), ground arith), All-given_back g b list s.listed);
  once = (not_live g b list l s.listed, s.once);
}

-- free of a live block, the low half of whose size is not the mark of an aligned block, puts it back on the
-- list, and the heap agrees with the ledger that says so.
pub free-IsHeap :
    (g : Ledger) (b : ℕ) (h : Heap)
    → IsHeap h g
    → g.live b ≡ true
    → h.size b % 2 ^ 32 ≢ magic
    → IsHeap (free (b + header) h) (given_back g b)
free-IsHeap g b h sound l ordinary =
    subst (λ k. IsHeap k (given_back g b)) (sym (free-pushes b h ordinary))
      (given_back-Sound g b h.free_list h.size sound l)
