-- ===== src/Alloc/Fit.antt =====
-- src/memory.c: the first-fit search through the free list.
use vlibc.Base.{
  ℕ, ◌≤◌, ◌≢◌, sym, List, [], ◌∷◌, Option, none, some, arith, leb, Bool-cases, inl, inr, All,
}
use vlibc.Alloc.{first_fit}

-- No header twice.
abbrev pub Distinct : List ℕ → Type 0
Distinct [] = Unit
Distinct (b ∷ bs) = All (λ c. c ≢ b) bs × Distinct bs

abbrev Found : Type 0
Found = Option (ℕ × List ℕ)

-- What holds of the header found and of each that is left.
abbrev pub Holds : (ℕ → Type 0) → Found → Type 0
Holds P none = Unit
Holds P (some (b, rest)) = P b × All P rest

-- The header found and those that are left are all different.
abbrev pub Splits : Found → Type 0
Splits none = Unit
Splits (some (b, rest)) = All (λ c. c ≢ b) rest × Distinct rest

abbrev pub HasRoom : (ℕ → ℕ) → ℕ → Found → Type 0
HasRoom size n none = Unit
HasRoom size n (some (b, rest)) = n ≤ size b

-- A search that goes on behind `c`.
abbrev behind : ℕ → Found → Found
behind c o = elim o [ none ↦ none | some (b, rest) ↦ some (b, c ∷ rest) ]

behind-Holds : (P : ℕ → Type 0) (c : ℕ) (o : Found) → P c → Holds P o → Holds P (behind c o)
behind-Holds P c none pc h = tt
behind-Holds P c (some (b, rest)) pc (pb, all) = (pb, (pc, all))

behind-Splits : (c : ℕ) (o : Found) → Holds (λ d. d ≢ c) o → Splits o → Splits (behind c o)
behind-Splits c none other h = tt
behind-Splits c (some (b, rest)) (ne, others) (apart, once) =
    ((λ e. ne (sym e), apart), (others, once))

behind-HasRoom :
    (size : ℕ → ℕ) (n c : ℕ) (o : Found) → HasRoom size n o → HasRoom size n (behind c o)
behind-HasRoom size n c none h = tt
behind-HasRoom size n c (some (b, rest)) h = h

module _ (size : ℕ → ℕ) (n : ℕ) where
  pub first_fit-Holds : (P : ℕ → Type 0) (bs : List ℕ) → All P bs → Holds P (first_fit size n bs)
  unfolding first_fit
  first_fit-Holds P [] all = tt
  first_fit-Holds P (c ∷ bs) (pc, all) = elim (Bool-cases (leb n (size c))) [
    | inl e ↦ rw e (pc, all)
    | inr e ↦ rw e (behind-Holds P c (first_fit size n bs) pc (first_fit-Holds P bs all))
  ]

  pub first_fit-Splits : (bs : List ℕ) → Distinct bs → Splits (first_fit size n bs)
  unfolding first_fit
  first_fit-Splits [] once = tt
  first_fit-Splits (c ∷ bs) (others, once) = elim (Bool-cases (leb n (size c))) [
    | inl e ↦ rw e (others, once)
    | inr e ↦ rw e (
        behind-Splits c (first_fit size n bs) (first_fit-Holds (λ d. d ≢ c) bs others)
          (first_fit-Splits bs once))
  ]

  pub first_fit-HasRoom : (bs : List ℕ) → HasRoom size n (first_fit size n bs)
  unfolding first_fit
  first_fit-HasRoom [] = tt
  first_fit-HasRoom (c ∷ bs) = elim (Bool-cases (leb n (size c))) [
    | inl e ↦ rw e (ground arith)
    | inr e ↦ rw e (behind-HasRoom size n c (first_fit size n bs) (first_fit-HasRoom bs))
  ]
