-- ===== src/Strto/Split.antt =====
-- Every text splits as strtol reads it, and so does the text that a number is printed as.
use vlibc.Base.{
  ℕ, ◌≤◌, ◌<◌, ◌≡◌, refl, Bool, true, false, List, [], ◌∷◌, ◌++◌, Option, none, some, arith, ap,
  if◌then◌else◌,
}
use mathlib.Core.List.{cons-ne-nil}
use native.Mathlib.Decide.{dec_lt}
use vlibc.Strto.{digit_val, take_sign, skip_space, pick_base, strtol, signed_cutoff}
use vlibc.Strto.Digits.{Spells, NoDigit, value}
use vlibc.Strto.Range.{Numeral, strtol-clamp_long, clamp_long, range_errno}

-- The longest run of digits of a base, with the digits.
record Run (base : ℕ) (s : List ℕ) : Type 0 where
  bytes : List ℕ
  digits : List ℕ
  rest : List ℕ
  whole : s ≡ bytes ++ rest
  spelled : Spells base bytes digits
  ended : NoDigit base rest

run_more :
    (base c d : ℕ) {s : List ℕ} → digit_val c ≡ some d → d < base → Run base s → Run base (c ∷ s)
run_more base c d e lt r = record {
  bytes = c ∷ r.bytes;
  digits = d ∷ r.digits;
  rest = r.rest;
  whole = ap (λ (t : List ℕ). c ∷ t) r.whole;
  spelled = (e, lt, r.spelled);
  ended = r.ended;
}

run_none : (base : ℕ) (s : List ℕ) → NoDigit base s → Run base s
run_none base s stop = record {
  bytes = [];
  digits = [];
  rest = s;
  whole = refl;
  spelled = tt;
  ended = stop;
}

run_of : (base : ℕ) (s : List ℕ) → Run base s
run_of base [] = run_none base [] tt
run_of base (c ∷ s) = go (digit_val c) refl (run_of base s)
  where
    go : (o : Option ℕ) → digit_val c ≡ o → Run base s → Run base (c ∷ s)
    go none e r = run_none base (c ∷ s) (rw e)
    go (some d) e r = elim (dec_lt d base) [
      | yes lt ↦ run_more base c d e lt r
      | no ge ↦ run_none base (c ∷ s) (rw e (ground arith))
    ]

pick_base-positive : (base : ℕ) (s : List ℕ) → 1 ≤ (pick_base base s).0
unfolding pick_base
pick_base-positive base s = ground arith

-- Every text is a Numeral in every base: the theorems about strtol and strtoul leave none out.
pub numeral_of : (nptr : List ℕ) (base : ℕ) → Numeral nptr base
numeral_of nptr base =
    let p = pick_base base (take_sign (skip_space nptr)).1 in
    let r = run_of p.0 p.1 in
    record {
      neg = (take_sign (skip_space nptr)).0;
      radix = p.0;
      bytes = r.bytes;
      digits = r.digits;
      rest = r.rest;
      sign_read = refl;
      base_read = ap (λ (t : List ℕ). (p.0, t)) r.whole;
      spelled = r.spelled;
      ended = r.ended;
      positive = pick_base-positive base (take_sign (skip_space nptr)).1;
    }

-- A sign, as printf writes it.
abbrev pub signed : Bool → List ℕ → List ℕ
signed neg s = if neg then b'-' ∷ s else s

digit_decimal : (c d : ℕ) → digit_val c ≡ some d → d < 10 → (b'0' ≤ c) × (c ≤ b'9')
unfolding digit_val
digit_decimal c d e lt = ground arith

sign_split :
    (neg : Bool) (c : ℕ) (s : List ℕ)
    → b'0' ≤ c
    → c ≤ b'9'
    → take_sign (skip_space (signed neg (c ∷ s))) ≡ (neg, c ∷ s)
unfolding take_sign skip_space
sign_split true c s lo hi = refl
sign_split false c s lo hi = ground arith

first_decimal :
    (c : ℕ) (bytes digits : List ℕ) → Spells 10 (c ∷ bytes) digits → (b'0' ≤ c) × (c ≤ b'9')
first_decimal c bytes [] sp = absurd sp
first_decimal c bytes (d ∷ ds) (e, lt, sp) = digit_decimal c d e lt

module _ (neg : Bool) (c : ℕ) (bytes digits rest : List ℕ) (sp : Spells 10 (c ∷ bytes) digits)
    (stop : NoDigit 10 rest) where
  abbrev decimal_numeral : Numeral (signed neg ((c ∷ bytes) ++ rest)) 10
  decimal_numeral =
      let (lo, hi) = first_decimal c bytes digits sp in
      let split = sign_split neg c (bytes ++ rest) lo hi in
      record {
        neg = neg;
        radix = 10;
        bytes = c ∷ bytes;
        digits = digits;
        rest = rest;
        sign_read = ap (λ (t : Bool × List ℕ). t.0) split;
        base_read = rw split (unfold pick_base in refl);
        spelled = sp;
        ended = stop;
        positive = omega arith;
      }

  -- A printed number, a minus sign or none and one or more decimal digits, with anything but a digit
  -- behind it, is read back by strtol in base 10: its value if it is a long, else the bound that it
  -- passes and ERANGE. *endptr is the text behind the digits.
  pub strtol-decimal : strtol (signed neg ((c ∷ bytes) ++ rest)) 10 ≡ record {
    value = clamp_long neg (value 10 0 digits);
    endptr = rest;
    errno = range_errno (signed_cutoff neg) (value 10 0 digits);
  }
  strtol-decimal = strtol-clamp_long decimal_numeral refl (cons-ne-nil c bytes)
