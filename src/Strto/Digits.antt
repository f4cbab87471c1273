-- ===== src/Strto/Digits.antt =====
-- The digit loop of src/strto.c against the number that the digits spell: its overflow test refuses
-- exactly the numbers above the cutoff, and what it computes never wraps.
use vlibc.Base.{
  ℕ, ◌+◌, ◌*◌, ◌≤◌, ◌<◌, ◌≡◌, refl, Bool, true, false, List, [], ◌∷◌, ◌++◌, Option, none, some,
  arith, ltb, ◌==◌, ◌||◌, ◌&&◌,
}
use native.Mathlib.Decide.{dec_lt}
use vlibc.Strto.{Acc, digit_val, digit_loop, push_digit, ulong_mod}

-- The bytes are digits of the base, and spell the digits given.
abbrev pub Spells : ℕ → List ℕ → List ℕ → Type 0
Spells base [] [] = Unit
Spells base (c ∷ s) (d ∷ ds) = (digit_val c ≡ some d) × (d < base) × Spells base s ds
Spells base _ _ = ⊥

abbrev pub is_below : ℕ → Option ℕ → Bool
is_below base none = false
is_below base (some d) = ltb d base

-- The text does not go on with a digit of the base.
abbrev pub NoDigit : ℕ → List ℕ → Type 0
NoDigit base [] = Unit
NoDigit base (c ∷ s) = is_below base (digit_val c) ≡ false

-- The number that digits spell behind `n`, with no bound.
unfoldable pub value : ℕ → ℕ → List ℕ → ℕ
value base n [] = n
value base n (d ∷ ds) = value base (n * base + d) ds

le-value : (base n : ℕ) (ds : List ℕ) → 1 ≤ base → n ≤ value base n ds
unfolding value
le-value base n [] h = omega arith
le-value base n (d ∷ ds) h =
    let more : n ≤ n * base + d = grind arith in
    omega (arith, le-value base (n * base + d) ds h, more)

mul_step : (v q d base : ℕ) → v < q → d < base → v * base + d < q * base
mul_step v q d base h k = grind arith

-- Division of the cutoff by the base decides whether one more digit still fits.
fits_iff :
    (v d base q r : ℕ)
    → r < base
    → d < base
    → (ltb q v || (v == q && ltb r d)) ≡ ltb (q * base + r) (v * base + d)
fits_iff v d base q r hr hd = ground (arith, mul_step v q d base, mul_step q v r base)

module _ (base q r : ℕ) (positive : 1 ≤ base) (small : r < base)
    (word : q * base + r < ulong_mod) where
  abbrev cutoff : ℕ
  cutoff = q * base + r

  push_digit-fits :
      (a : Acc) (d : ℕ)
      → a.overflow ≡ false
      → d < base
      → a.val * base + d ≤ cutoff
      → push_digit base q r a d ≡ record { val = a.val * base + d; overflow = false }
  unfolding push_digit
  push_digit-fits a d clear hd fits = rw (clear, fits_iff a.val d base q r small hd) (ground arith)

  push_digit-exceeds :
      (a : Acc) (d : ℕ)
      → a.overflow ≡ false
      → d < base
      → cutoff < a.val * base + d
      → push_digit base q r a d ≡ record { val = a.val; overflow = true }
  unfolding push_digit
  push_digit-exceeds a d clear hd more =
      rw (clear, fits_iff a.val d base q r small hd) (ground arith)

  -- Once the flag is set the loop only moves over the digits.
  digit_loop-stuck :
      (s ds rest : List ℕ) (a : Acc)
      → a.overflow ≡ true
      → Spells base s ds
      → NoDigit base rest
      → digit_loop base q r (s ++ rest) a ≡ (a, rest)
  unfolding digit_loop push_digit
  digit_loop-stuck [] [] [] a set sp no_digit = refl
  digit_loop-stuck [] [] (c ∷ rest) a set sp no_digit = ground arith
  digit_loop-stuck [] (d ∷ ds) rest a set sp no_digit = absurd sp
  digit_loop-stuck (c ∷ s) [] rest a set sp no_digit = absurd sp
  digit_loop-stuck (c ∷ s) (d ∷ ds) rest a set (e, lt, sp) no_digit =
      ground (arith, digit_loop-stuck s ds rest a set sp no_digit)

  -- A number up to the cutoff is read exactly.
  pub digit_loop-fits :
      (s ds rest : List ℕ) (n : ℕ)
      → Spells base s ds
      → NoDigit base rest
      → value base n ds ≤ cutoff
      → digit_loop base q r (s ++ rest) (record { val = n; overflow = false })
        ≡ (record { val = value base n ds; overflow = false }, rest)
  unfolding digit_loop value
  digit_loop-fits [] [] [] n sp no_digit fits = refl
  digit_loop-fits [] [] (c ∷ rest) n sp no_digit fits = ground arith
  digit_loop-fits [] (d ∷ ds) rest n sp no_digit fits = absurd sp
  digit_loop-fits (c ∷ s) [] rest n sp no_digit fits = absurd sp
  digit_loop-fits (c ∷ s) (d ∷ ds) rest n (e, lt, sp) no_digit fits = ground (
    arith,
    push_digit-fits (record { val = n; overflow = false }) d,
    le-value base (n * base + d) ds positive,
    digit_loop-fits s ds rest (n * base + d) sp no_digit,
  )

  -- A number above the cutoff sets the flag, and all its digits are passed over.
  pub digit_loop-exceeds :
      (s ds rest : List ℕ) (n : ℕ)
      → n ≤ cutoff
      → Spells base s ds
      → NoDigit base rest
      → cutoff < value base n ds
      → ((digit_loop base q r (s ++ rest) (record { val = n; overflow = false })).0.overflow ≡ true)
        × ((digit_loop base q r (s ++ rest) (record { val = n; overflow = false })).1 ≡ rest)
  unfolding digit_loop value
  digit_loop-exceeds [] [] rest n low sp no_digit more = absurd (omega arith)
  digit_loop-exceeds [] (d ∷ ds) rest n low sp no_digit more = absurd sp
  digit_loop-exceeds (c ∷ s) [] rest n low sp no_digit more = absurd sp
  digit_loop-exceeds (c ∷ s) (d ∷ ds) rest n low (e, lt, sp) no_digit more =
      elim (dec_lt cutoff (n * base + d)) [
        | yes big ↦ ground (
          arith,
          push_digit-exceeds (record { val = n; overflow = false }) d,
          digit_loop-stuck s ds rest (record { val = n; overflow = true }) refl sp no_digit,
        )
        | no fits ↦ ground (
          arith,
          push_digit-fits (record { val = n; overflow = false }) d,
          digit_loop-exceeds s ds rest (n * base + d),
        )
      ]
