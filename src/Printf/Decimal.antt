-- ===== src/Printf/Decimal.antt =====
-- src/printf.c and src/strto.c: a long that printf writes with %ld is read back by strtol.
use vlibc.Base.{
  ℕ,
  zero,
  suc,
  ◌+◌,
  ◌-◌,
  ◌*◌,
  ◌/◌,
  ◌%◌,
  ◌^◌,
  ◌≤◌,
  Bool,
  length,
  ◌<◌,
  ◌≡◌,
  refl,
  sym,
  ap,
  ◌∙◌,
  subst,
  true,
  false,
  Bool-cases,
  inl,
  inr,
  List,
  [],
  ◌∷◌,
  ◌++◌,
  append-nil,
  append_assoc,
  none,
  some,
  arith,
  ◌==◌,
  leb,
  length,
  ◌>>=◌,
  Int.{ℤ, pos, negsuc, is_negative},
}
use vlibc.Printf.{digit_char, to_base, ull_to_base, no_flags, len_l, to_signed, to_unsigned}
use vlibc.Printf.Format.{
  counts_int, number, integer, Directive, Number, magnitude, sign_of, out_str, out_times,
  out_number, format_loop,
}
use vlibc.Printf.Buffer.{behind, formatted}
use vlibc.Strto.{Conv, digit_val, signed_cutoff, strtol}
use vlibc.Strto.Digits.{Spells, value}
use vlibc.Strto.Range.{clamp_long}
use vlibc.Strto.Split.{signed, strtol-decimal}

-- A text of one or more decimal digits that spells `n`.
pub record Decimal (s : List ℕ) (n : ℕ) : Type 0 where
  pub first : ℕ
  pub others : List ℕ
  pub digits : List ℕ
  pub whole : s ≡ first ∷ others
  pub spelled : Spells 10 (first ∷ others) digits
  pub number : value 10 0 digits ≡ n

digit_val-digit_char : (d : ℕ) → d < 10 → digit_val (digit_char false d) ≡ some d
unfolding digit_val digit_char
digit_val-digit_char d h = ground arith

power_step : (f v : ℕ) → v < 10 ^ suc f → v / 10 < 10 ^ f
power_step f v h = omega arith

to_base-Decimal :
    (f v c : ℕ) (buf es : List ℕ)
    → v < 10 ^ f
    → Spells 10 (c ∷ buf) es
    → Decimal (to_base f v 10 false (c ∷ buf)) (value 10 v es)
unfolding to_base value
to_base-Decimal zero v c buf es h sp =
    let z : v ≡ 0 = omega arith in
    record {
      first = c;
      others = buf;
      digits = es;
      whole = refl;
      spelled = sp;
      number = ap (λ (n : ℕ). value 10 n es) (sym z);
    }
to_base-Decimal (suc f) v c buf es h sp =
    let d = v % 10 in
    let lt : d < 10 = omega arith in
    let e : v / 10 * 10 + v % 10 ≡ v = omega arith in
    elim (Bool-cases (v / 10 == 0)) [
      | inl t ↦
          let small : 0 * 10 + v % 10 ≡ v = ground arith in
          rw t (record {
            first = digit_char false d;
            others = c ∷ buf;
            digits = d ∷ es;
            whole = refl;
            spelled = (digit_val-digit_char d lt, lt, sp);
            number = ap (λ (n : ℕ). value 10 n es) small;
          })
      | inr t ↦ rw t (
          subst (λ (n : ℕ). Decimal (to_base f (v / 10) 10 false (digit_char false d ∷ c ∷ buf)) n)
            (ap (λ (n : ℕ). value 10 n es) e)
            (to_base-Decimal f (v / 10) (digit_char false d) (c ∷ buf) (d ∷ es) (power_step f v h)
              (digit_val-digit_char d lt, lt, sp)))
    ]

from_empty : (f v : ℕ) → v < 10 ^ suc f → Decimal (to_base (suc f) v 10 false []) v
unfolding to_base value
from_empty f v h =
    let d = v % 10 in
    let lt : d < 10 = omega arith in
    let e : v / 10 * 10 + v % 10 ≡ v = omega arith in
    elim (Bool-cases (v / 10 == 0)) [
      | inl t ↦
          let small : 0 * 10 + v % 10 ≡ v = ground arith in
          rw t (record {
            first = digit_char false d;
            others = [];
            digits = d ∷ [];
            whole = refl;
            spelled = (digit_val-digit_char d lt, lt, tt);
            number = small;
          })
      | inr t ↦ rw t (
          subst (λ (n : ℕ). Decimal (to_base f (v / 10) 10 false (digit_char false d ∷ [])) n) e
            (to_base-Decimal f (v / 10) (digit_char false d) [] (d ∷ []) (power_step f v h)
              (digit_val-digit_char d lt, lt, tt)))
    ]

-- ull_to_base in base 10 spells every number of unsigned long long.
pub ull_to_base-Decimal : (v : ℕ) → v < 2 ^ 64 → Decimal (ull_to_base v 10 false) v
unfolding ull_to_base
ull_to_base-Decimal v h = from_empty 63 v (omega arith)

length-to_base :
    (f v base : ℕ) (upper : Bool) (buf : List ℕ)
    → length (to_base f v base upper buf) ≤ f + length buf
unfolding to_base
length-to_base zero v base upper buf = omega arith
length-to_base (suc f) v base upper buf =
    let rest = length-to_base f (v / base) base upper (digit_char upper (v % base) ∷ buf) in
    ground (arith, rest)

-- tmp has room for 64 digits.
pub length-ull_to_base : (v base : ℕ) (upper : Bool) → length (ull_to_base v base upper) ≤ 64
unfolding ull_to_base
length-ull_to_base v base upper = omega (arith, length-to_base 64 v base upper [])

length-sign_of : (i : ℤ) → length (sign_of no_flags i) ≤ 1
length-sign_of (pos n) = omega arith
length-sign_of (negsuc n) = omega arith

pub out_str-behind : (s k : List ℕ) → out_str behind s k ≡ k ++ s
unfolding out_str
out_str-behind [] k = sym (append-nil k)
out_str-behind (c ∷ s) k = out_str-behind s (k ++ c ∷ []) ∙ append_assoc k (c ∷ []) s

-- A directive with nothing but its length puts out the sign, the prefix and the digits.
pub out_number-plain :
    (d : Directive) (n : Number) (k : List ℕ)
    → d.flags ≡ no_flags
    → d.width ≡ 0
    → d.precision ≡ none
    → out_number behind d n k ≡ k ++ (n.sign ++ (n.prefix ++ n.digits))
unfolding out_number out_times
out_number-plain d n k g w p =
    let a : length n.digits - length n.digits ≡ 0 = omega arith in
    let b : (x : ℕ) → 0 - x ≡ 0 = λ x. omega arith in
    rw (g, w, p)
      (rw (a, b (length n.prefix + length n.sign + 0 + length n.digits))
        (simp (out_str-behind, append_assoc)))

-- "%ld"
abbrev pub long_format : List ℕ
long_format = b'%' ∷ b'l' ∷ b'd' ∷ []

abbrev pub printed : ℤ → List ℕ
printed i = sign_of no_flags i ++ ull_to_base (magnitude i) 10 false

-- A value of long whose negation is one too.
abbrev pub IsLong : ℤ → Type 0
IsLong (pos n) = n < 2 ^ 63
IsLong (negsuc n) = n + 1 < 2 ^ 63

to_signed-IsLong : (i : ℤ) → IsLong i → to_signed 64 i ≡ i
unfolding to_signed to_unsigned
to_signed-IsLong (pos n) h = ground arith
to_signed-IsLong (negsuc n) h = ground arith

formatted-long : (i : ℤ) → IsLong i → formatted long_format (integer i ∷ []) ≡ some (printed i)
unfolding formatted format_loop counts_int
formatted-long i h =
    let d : Directive = record {
      flags = no_flags;
      width = 0;
      precision = none;
      length_modifier = len_l;
    } in
    let n : Number = record {
      sign = sign_of no_flags i;
      prefix = [];
      digits = ull_to_base (magnitude i) 10 false;
    } in
    let few : counts_int d (number n) ≡ true =
      ground (arith, length-sign_of i, length-ull_to_base (magnitude i) 10 false) in
    rw (to_signed-IsLong i h, few)
      (ap (λ (s : List ℕ). some s) (out_number-plain d n [] refl refl refl))

clamp_long-IsLong : (i : ℤ) → IsLong i → clamp_long (is_negative i) (magnitude i) ≡ i
unfolding is_negative
clamp_long-IsLong (pos n) h = ground arith
clamp_long-IsLong (negsuc n) h = ground arith

cutoff-IsLong : (i : ℤ) → IsLong i → leb (magnitude i) (signed_cutoff (is_negative i)) ≡ true
unfolding is_negative
cutoff-IsLong (pos n) h = ground arith
cutoff-IsLong (negsuc n) h = ground arith

printed-signed : (i : ℤ) → printed i ≡ signed (is_negative i) (ull_to_base (magnitude i) 10 false)
unfolding is_negative
printed-signed (pos n) = refl
printed-signed (negsuc n) = refl

strtol-printed :
    (i : ℤ) → IsLong i → strtol (printed i) 10 ≡ record { value = i; endptr = []; errno = none }
strtol-printed i h =
    let o = ull_to_base-Decimal (magnitude i) (small i h) in
    let read = strtol-decimal (is_negative i) o.first o.others o.digits [] o.spelled tt in
    let text : printed i ≡ signed (is_negative i) ((o.first ∷ o.others) ++ []) =
      printed-signed i
      ∙ ap (λ (s : List ℕ). signed (is_negative i) s)
          (o.whole ∙ sym (append-nil (o.first ∷ o.others))) in
    rw text (read ∙ rw (o.number, clamp_long-IsLong i h, cutoff-IsLong i h) refl)
  where
    small : (i : ℤ) → IsLong i → magnitude i < 2 ^ 64
    small (pos n) h = omega (arith, h)
    small (negsuc n) h = omega (arith, h)

-- What "%ld" makes of a long other than the least, strtol in base 10 reads back as that long, with no errno and
-- *endptr at the end.
pub strtol-formatted :
    (i : ℤ)
    → IsLong i
    → (formatted long_format (integer i ∷ []) >>= λ text. some (strtol text 10))
      ≡ some (record { value = i; endptr = []; errno = none })
strtol-formatted i h = rw (formatted-long i h) (ap (λ (c : Conv ℤ). some c) (strtol-printed i h))
