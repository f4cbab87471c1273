-- ===== src/Memory.antt =====
-- The byte store that the routines of src/memory_ops.c, src/string.c and src/string_extra.c walk:
-- a byte at each address, one store, a run of stores, and what it means for a NUL terminated
-- string to stand at an address. An address is a number; no object reaches the end of the
-- address space, so pointer arithmetic does not wrap.
pub mod Block
use vlibc.Base.{
  ℕ, zero, suc, ◌+◌, ◌<◌, ◌≤◌, ◌≡◌, ◌≢◌, refl, Bool, true, List, [], ◌∷◌, ◌++◌, ◌⊎◌, inl, inr,
  arith, ◌==◌, if◌then◌else◌, length,
}

abbrev pub Mem : Type 0
Mem = ℕ → ℕ

abbrev pub store : Mem → ℕ → ℕ → Mem
store m p v q = if q == p then v else m q

-- The bytes of a list at consecutive addresses.
unfoldable pub put : Mem → ℕ → List ℕ → Mem
put m p [] = m
put m p (c ∷ s) = put (store m p c) (p + 1) s

-- The string `s` stands at `p`: its bytes, none of them NUL, and a NUL behind them.
abbrev pub StrAt : Mem → ℕ → List ℕ → Type 0
StrAt m p [] = m p ≡ 0
StrAt m p (c ∷ s) = (m p ≡ c) × (c ≢ 0) × StrAt m (p + 1) s

-- The address `q` lies outside the `n` addresses from `p` on.
abbrev pub Outside : ℕ → ℕ → ℕ → Type 0
Outside p n q = (q < p) ⊎ (p + n ≤ q)

pub put-Outside :
    (m : Mem) (p : ℕ) (s : List ℕ) (q : ℕ) → Outside p (length s) q → put m p s q ≡ m q
unfolding put
put-Outside m p [] q h = refl
put-Outside m p (c ∷ s) q h = ground (arith, put-Outside (store m p c) (p + 1) s q)

-- A string keeps standing where no store meets it.
pub StrAt-same :
    (m m' : Mem) (p : ℕ) (s : List ℕ)
    → ((q : ℕ) → p ≤ q → q < p + (length s + 1) → m' q ≡ m q)
    → StrAt m p s
    → StrAt m' p s
StrAt-same m m' p [] same h = ground (arith, same p)
StrAt-same m m' p (c ∷ s) same (e, ne, h) = (
  ground (arith, same p),
  ne,
  StrAt-same m m' (p + 1) s (λ q lo hi. same q (omega arith) (omega arith)) h,
)

-- None of the bytes is NUL.
abbrev pub NoNul : List ℕ → Type 0
NoNul [] = Unit
NoNul (c ∷ s) = (c ≢ 0) × NoNul s

pub StrAt-NoNul : (m : Mem) (p : ℕ) (s : List ℕ) → StrAt m p s → NoNul s
StrAt-NoNul m p [] h = tt
StrAt-NoNul m p (c ∷ s) (e, ne, h) = (ne, StrAt-NoNul m (p + 1) s h)

-- The bytes of a text and a NUL, once stored, are that text.
pub StrAt-put : (m : Mem) (p : ℕ) (s rest : List ℕ) → NoNul s → StrAt (put m p (s ++ 0 ∷ rest)) p s
unfolding put
StrAt-put m p [] rest h = ground (arith, put-Outside (store m p 0) (p + 1) rest p)
StrAt-put m p (c ∷ s) rest (ne, h) = (
  ground (arith, put-Outside (store m p c) (p + 1) (s ++ 0 ∷ rest) p),
  ne,
  StrAt-put (store m p c) (p + 1) s rest h,
)
