-- ===== src/Strto/Range.antt =====
-- What strtol and strtoul return, for every text: the number that its digits spell, or the bound of
-- the type that it passes, and errno and *endptr.
use vlibc.Base.{
  ℕ, zero, suc, ◌+◌, ◌-◌, ◌*◌, ◌/◌, ◌%◌, ◌≤◌, ◌<◌, ◌≡◌, ◌≢◌, refl, Bool, true, false, List, [], ◌∷◌,
  ◌++◌, Option, none, some, arith, leb, ◌==◌, if◌then◌else◌, length, length-append,
}
use native.Mathlib.Nat.{mod-lt}
use native.Mathlib.Decide.{dec_le}
use vlibc.Base.Int.{ℤ, pos, negsuc, neg_ℕ}
use vlibc.Strto.{
  Errno, erange, take_sign, skip_space, pick_base, scan, bad_base, signed64, long_max, ulong_mod,
  signed_cutoff, unsigned_cutoff, strtol, strtoul,
}
use vlibc.Strto.Digits.{Spells, NoDigit, value, digit_loop-fits, digit_loop-exceeds}

value_nil :
    (radix : ℕ) (bytes digits : List ℕ)
    → Spells radix bytes digits
    → bytes ≡ []
    → value radix 0 digits ≡ 0
unfolding value
value_nil radix [] [] sp e = refl
value_nil radix [] (d ∷ ds) sp e = absurd sp
value_nil radix (c ∷ bytes) digits sp e = cc

-- The sign and base that the text begins with, the bytes of its digits, the digits, and the text
-- behind them.
pub record Numeral (nptr : List ℕ) (base : ℕ) : Type 0 where
  pub neg : Bool
  pub radix : ℕ
  pub bytes : List ℕ
  pub digits : List ℕ
  pub rest : List ℕ
  pub sign_read : (take_sign (skip_space nptr)).0 ≡ neg
  pub base_read : pick_base base (take_sign (skip_space nptr)).1 ≡ (radix, bytes ++ rest)
  pub spelled : Spells radix bytes digits
  pub ended : NoDigit radix rest
  pub positive : 1 ≤ radix

module _ {nptr : List ℕ} {base : ℕ} (num : Numeral nptr base) where
  abbrev pub magnitude : ℕ
  magnitude = value num.radix 0 num.digits

  scan-fits :
      (cutoff : Bool → ℕ)
      → cutoff num.neg < ulong_mod
      → magnitude ≤ cutoff num.neg
      → scan cutoff base nptr ≡ record {
        neg = num.neg;
        acc = record { val = magnitude; overflow = false };
        start = num.bytes ++ num.rest;
        stop = num.rest;
      }
  unfolding scan
  scan-fits cutoff word fits =
      let c = cutoff num.neg in
      let whole : c / num.radix * num.radix + c % num.radix ≡ c = omega arith in
      let small : c % num.radix < num.radix = mod-lt c num.positive in
      rw (num.sign_read, num.base_read)
        (ground (
          arith,
          digit_loop-fits num.radix (c / num.radix) (c % num.radix) num.positive small (omega arith)
              num.bytes num.digits num.rest 0 num.spelled num.ended (omega arith),
        ))

  scan-exceeds :
      (cutoff : Bool → ℕ)
      → cutoff num.neg < ulong_mod
      → cutoff num.neg < magnitude
      → ((scan cutoff base nptr).neg ≡ num.neg)
        × ((scan cutoff base nptr).acc.overflow ≡ true)
        × ((scan cutoff base nptr).start ≡ num.bytes ++ num.rest)
        × ((scan cutoff base nptr).stop ≡ num.rest)
  unfolding scan
  scan-exceeds cutoff word more =
      let c = cutoff num.neg in
      let whole : c / num.radix * num.radix + c % num.radix ≡ c = omega arith in
      let small : c % num.radix < num.radix = mod-lt c num.positive in
      rw (num.sign_read, num.base_read)
        (ground (
          arith,
          digit_loop-exceeds num.radix (c / num.radix) (c % num.radix) num.positive small
              (omega arith) num.bytes num.digits num.rest 0 (omega arith) num.spelled num.ended
              (omega arith),
        ))

-- The long that a sign and a magnitude stand for, or the bound that it passes.
abbrev pub clamp_long : Bool → ℕ → ℤ
clamp_long neg n =
    if neg
    then (if leb n (long_max + 1) then neg_ℕ n else negsuc long_max)
    else if leb n long_max
    then pos n
    else pos long_max

-- The unsigned long that they stand for: a minus sign negates in the unsigned type.
abbrev pub clamp_ulong : Bool → ℕ → ℕ
clamp_ulong neg n =
    if leb n (ulong_mod - 1)
    then (if neg then (ulong_mod - n) % ulong_mod else n)
    else ulong_mod - 1

abbrev pub range_errno : ℕ → ℕ → Option Errno
range_errno cutoff n = if leb n cutoff then none else some erange

signed64_clamp :
    (neg : Bool) (n : ℕ)
    → n ≤ signed_cutoff neg
    → signed64 (if neg then (ulong_mod - n) % ulong_mod else n) ≡ clamp_long neg n
signed64_clamp true zero h = refl
signed64_clamp true (suc n) h = ground arith
signed64_clamp false n h = ground arith

place_moved : (bytes rest : List ℕ) → bytes ≢ [] → (length rest == length (bytes ++ rest)) ≡ false
place_moved [] rest ne = absurd (ne refl)
place_moved (c ∷ bytes) rest ne = ground (arith, length-append bytes rest)

same_place_refl : (n : ℕ) → (n == n) ≡ true
same_place_refl n = ground arith

signed_cutoff_word : (neg : Bool) → signed_cutoff neg < ulong_mod
signed_cutoff_word true = omega arith
signed_cutoff_word false = omega arith

module _ {nptr : List ℕ} {base : ℕ} (num : Numeral nptr base) (valid : bad_base base ≡ false) where
  -- strtol in a valid base, on a text that has a digit of the base behind its spaces, sign and prefix,
  -- returns the number that the digits spell or the bound of long that it passes, sets errno to ERANGE
  -- exactly if it passes one, and leaves *endptr behind the last digit.
  pub strtol-clamp_long :
      num.bytes ≢ []
      → strtol nptr base ≡ record {
        value = clamp_long num.neg (magnitude num);
        endptr = num.rest;
        errno = range_errno (signed_cutoff num.neg) (magnitude num);
      }
  unfolding strtol
  strtol-clamp_long some_digit = elim (dec_le (magnitude num) (signed_cutoff num.neg)) [
    | yes fits ↦
        rw
          (
            valid,
            scan-fits num signed_cutoff (signed_cutoff_word num.neg) fits,
            place_moved num.bytes num.rest some_digit,
          )
          (ground (arith, signed64_clamp num.neg (magnitude num) fits))
    | no more ↦
        let (sign, over, first, last) =
          scan-exceeds num signed_cutoff (signed_cutoff_word num.neg) (omega arith) in
        rw (valid, sign, over, first, last, place_moved num.bytes num.rest some_digit)
          (ground arith)
  ]

  -- strtoul in a valid base, on a text that has a digit of the base behind its spaces, sign and prefix,
  -- returns the number that the digits spell, its negation in unsigned long behind a minus sign, or
  -- ULONG_MAX with ERANGE where the number is larger, and leaves *endptr behind the last digit.
  pub strtoul-clamp_ulong :
      num.bytes ≢ []
      → strtoul nptr base ≡ record {
        value = clamp_ulong num.neg (magnitude num);
        endptr = num.rest;
        errno = range_errno (ulong_mod - 1) (magnitude num);
      }
  unfolding strtoul
  strtoul-clamp_ulong some_digit = elim (dec_le (magnitude num) (ulong_mod - 1)) [
    | yes fits ↦
        rw
          (
            valid,
            scan-fits num unsigned_cutoff (omega arith) fits,
            place_moved num.bytes num.rest some_digit,
          )
          (ground arith)
    | no more ↦
        let (sign, over, first, last) =
          scan-exceeds num unsigned_cutoff (omega arith) (omega arith) in
        rw (valid, sign, over, first, last, place_moved num.bytes num.rest some_digit)
          (ground arith)
  ]

  -- With no digit strtol and strtoul return 0, leave errno alone and set *endptr to the start of the
  -- text, the spaces and the sign included.
  pub strtol_no_digits :
      num.bytes ≡ []
      → (strtol nptr base ≡ record { value = pos 0; endptr = nptr; errno = none })
        × (strtoul nptr base ≡ record { value = 0; endptr = nptr; errno = none })
  unfolding strtol strtoul
  strtol_no_digits empty =
      let zero_value : magnitude num ≡ 0 =
        value_nil num.radix num.bytes num.digits num.spelled empty in
      let same : (length num.rest == length (num.bytes ++ num.rest)) ≡ true =
        rw empty (same_place_refl (length num.rest)) in
      (
        rw (valid, scan-fits num signed_cutoff (signed_cutoff_word num.neg) (omega arith), same),
        rw (valid, scan-fits num unsigned_cutoff (omega arith) (omega arith), same),
      )
