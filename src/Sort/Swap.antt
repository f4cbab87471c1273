-- ===== src/Sort/Swap.antt =====
-- `swap` of src/qsort.c exchanges two elements that do not meet.
use vlibc.Base.{
  ℕ, zero, suc, ◌+◌, ◌-◌, ◌≤◌, ◌<◌, ◌≡◌, refl, ◌⊎◌, ◌&&◌, arith, ◌∙◌, ltb, leb, if◌then◌else◌,
}
use vlibc.Memory.{Mem, store, Outside}
use vlibc.Sort.{swap}

-- Memory `m` with the `n` bytes at `a` and those at `b` exchanged.
abbrev pub exchanged : ℕ → ℕ → ℕ → Mem → Mem
exchanged a b n m q =
    if leb a q && ltb q (a + n)
    then m (b + (q - a))
    else if leb b q && ltb q (b + n)
    then m (a + (q - b))
    else m q

swap-Outside : (n a b : ℕ) (m : Mem) (q : ℕ) → Outside a n q → Outside b n q → swap a b n m q ≡ m q
unfolding swap
swap-Outside zero a b m q h k = refl
swap-Outside (suc n) a b m q h k =
    swap-Outside n (a + 1) (b + 1) (store (store m a (m b)) b (m a)) q (omega arith) (omega arith)
    ∙ ground arith

swap-first :
    (n a b i : ℕ) (m : Mem) → (a + n ≤ b) ⊎ (b + n ≤ a) → i < n → swap a b n m (a + i) ≡ m (b + i)
unfolding swap
swap-first zero a b i m h lt = elim lt [ ]
swap-first (suc n) a b zero m h lt =
    ground (arith, swap-Outside n (a + 1) (b + 1) (store (store m a (m b)) b (m a)) a)
swap-first (suc n) a b (suc i) m h lt =
    ground (arith, swap-first n (a + 1) (b + 1) i (store (store m a (m b)) b (m a)))

swap-second :
    (n a b i : ℕ) (m : Mem) → (a + n ≤ b) ⊎ (b + n ≤ a) → i < n → swap a b n m (b + i) ≡ m (a + i)
unfolding swap
swap-second zero a b i m h lt = elim lt [ ]
swap-second (suc n) a b zero m h lt =
    ground (arith, swap-Outside n (a + 1) (b + 1) (store (store m a (m b)) b (m a)) b)
swap-second (suc n) a b (suc i) m h lt =
    ground (arith, swap-second n (a + 1) (b + 1) i (store (store m a (m b)) b (m a)))

-- swap exchanges the size bytes at a with those at b, if the two elements do not overlap, and changes
-- no other byte.
pub swap-exchanged :
    (n a b : ℕ) (m : Mem) (q : ℕ) → (a + n ≤ b) ⊎ (b + n ≤ a) → swap a b n m q ≡ exchanged a b n m q
swap-exchanged n a b m q h =
    ground
      (arith, swap-Outside n a b m q, swap-first n a b (q - a) m h, swap-second n a b (q - b) m h)
