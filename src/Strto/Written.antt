-- ===== src/Strto/Written.antt =====
-- The texts that the standard describes for strtol and strtoul: blanks, a sign, a prefix for the base, digits, and what
-- follows them, by their bytes.
use vlibc.Base.{
  ℕ, ◌+◌, ◌≤◌, ◌<◌, ◌≡◌, ◌≢◌, refl, ◌⊎◌, inl, inr, Bool, true, false, List, [], ◌∷◌, ◌++◌, All,
  Option, none, some, leb, ◌&&◌, Bool-cases, arith, ◌==◌, subst, sym, ap, ◌∙◌,
}
use mathlib.Core.List.{cons-ne-nil}
use vlibc.Strto.{
  digit_val, is_blank, skip_space, take_sign, is_x, pick_base, bad_base, signed_cutoff, strtol,
}
use vlibc.Strto.Digits.{Spells, NoDigit, is_below, value}
use vlibc.Strto.Range.{Numeral, clamp_long, range_errno, strtol-clamp_long}

-- A space, or one of the five bytes from tab to carriage return.
abbrev pub Blank : ℕ → Type 0
Blank c = (c ≡ 32) ⊎ ((9 ≤ c) × (c ≤ 13))

-- The byte is a digit of that value, from 0 to 9 or a letter of either case.
abbrev pub Digit : ℕ → ℕ → Type 0
Digit c d =
    ((c ≡ 48 + d) × (d < 10))
    ⊎ ((c + 10 ≡ 97 + d) × (10 ≤ d) × (d < 36))
    ⊎ ((c + 10 ≡ 65 + d) × (10 ≤ d) × (d < 36))

-- The bytes are digits of the values, in the base.
abbrev pub Digits : ℕ → List ℕ → List ℕ → Type 0
Digits radix [] [] = Unit
Digits radix (c ∷ bytes) (d ∷ digits) = Digit c d × (d < radix) × Digits radix bytes digits
Digits radix _ _ = ⊥

-- No digit of the base comes first.
abbrev pub Ends : ℕ → List ℕ → Type 0
Ends radix [] = Unit
Ends radix (c ∷ rest) = (d : ℕ) → Digit c d → radix ≤ d

pub data Sign : Type 0 where
  unsigned plus minus : Sign

abbrev pub sign_bytes : Sign → List ℕ
sign_bytes unsigned = []
sign_bytes plus = 43 ∷ []
sign_bytes minus = 45 ∷ []

abbrev pub is_minus : Sign → Bool
is_minus minus = true
is_minus _ = false

-- `x` or `X`.
abbrev pub Ex : ℕ → Type 0
Ex c = (c ≡ 120) ⊎ (c ≡ 88)

-- A text that does not begin with the prefix of base 16.
abbrev pub NoPrefix : List ℕ → Type 0
NoPrefix (a ∷ b ∷ _) = a ≡ 48 → ¬ Ex b
NoPrefix _ = Unit

-- The base that is asked for, the prefix that stands before the text, and the base to read it in.
pub data InRadix : ℕ → List ℕ → List ℕ → ℕ → Type 0 where
  decimal : {c : ℕ} {s : List ℕ} → c ≢ 48 → InRadix 0 [] (c ∷ s) 10
  octal : {c : ℕ} {s : List ℕ} → ¬ Ex c → InRadix 0 (48 ∷ []) (c ∷ s) 8
  hex : {x : ℕ} {s : List ℕ} → Ex x → InRadix 0 (48 ∷ x ∷ []) s 16
  given : {base : ℕ} {s : List ℕ} → 2 ≤ base → base ≤ 36 → base ≢ 16 → InRadix base [] s base
  sixteen : {s : List ℕ} → NoPrefix s → InRadix 16 [] s 16
  sixteen_hex : {x : ℕ} {s : List ℕ} → Ex x → InRadix 16 (48 ∷ x ∷ []) s 16

digit_val-Digit : (c d : ℕ) → Digit c d → digit_val c ≡ some d
unfolding digit_val
digit_val-Digit c d h = ground arith

Digit-digit_val : (c d : ℕ) → digit_val c ≡ some d → Digit c d
unfolding digit_val
Digit-digit_val c d h = elim (Bool-cases (leb b'0' c && leb c b'9')) [
  | inl e ↦ inl (ground arith)
  | inr f ↦ elim (Bool-cases (leb b'a' c && leb c b'z')) [
    | inl e ↦ inr (inl (ground arith))
    | inr g ↦ inr (inr (ground arith))
  ]
]

Digits-Spells :
    (radix : ℕ) (bytes digits : List ℕ) → Digits radix bytes digits → Spells radix bytes digits
Digits-Spells radix [] [] h = tt
Digits-Spells radix [] (d ∷ digits) h = elim h [ ]
Digits-Spells radix (c ∷ bytes) [] h = elim h [ ]
Digits-Spells radix (c ∷ bytes) (d ∷ digits) (h, l, rest) =
    (digit_val-Digit c d h, l, Digits-Spells radix bytes digits rest)

Ends-NoDigit : (radix : ℕ) (rest : List ℕ) → Ends radix rest → NoDigit radix rest
Ends-NoDigit radix [] h = tt
Ends-NoDigit radix (c ∷ rest) h = by_value (digit_val c) refl
  where
    by_value : (o : Option ℕ) → digit_val c ≡ o → is_below radix (digit_val c) ≡ false
    by_value none e = rw e refl
    by_value (some d) e = let more = h d (Digit-digit_val c d e) in rw e (ground arith)

skip_blanks :
    (blanks : List ℕ) (c : ℕ) (s : List ℕ)
    → All Blank blanks
    → is_blank c ≡ false
    → skip_space (blanks ++ c ∷ s) ≡ c ∷ s
unfolding skip_space is_blank
skip_blanks [] c s h e = rw e refl
skip_blanks (b ∷ blanks) c s (h, hs) e =
    let blank : is_blank b ≡ true = ground arith in rw blank (skip_blanks blanks c s hs e)

-- A byte that a number begins with.
abbrev Opens : ℕ → Type 0
Opens c = (is_blank c ≡ false) × ((c == 43) ≡ false) × ((c == 45) ≡ false)

sign_taken :
    (blanks : List ℕ) (sign : Sign) (c : ℕ) (s : List ℕ)
    → All Blank blanks
    → Opens c
    → take_sign (skip_space (blanks ++ (sign_bytes sign ++ c ∷ s))) ≡ (is_minus sign, c ∷ s)
unfolding take_sign is_blank skip_space
sign_taken blanks unsigned c s h (o, p, m) =
    subst (λ (t : List ℕ). take_sign t ≡ (false, c ∷ s)) (sym (skip_blanks blanks c s h o))
      (rw (p, m) refl)
sign_taken blanks plus c s h (o, p, m) =
    subst (λ (t : List ℕ). take_sign t ≡ (false, c ∷ s))
      (sym (skip_blanks blanks 43 (c ∷ s) h refl)) refl
sign_taken blanks minus c s h (o, p, m) =
    subst (λ (t : List ℕ). take_sign t ≡ (true, c ∷ s)) (sym (skip_blanks blanks 45 (c ∷ s) h refl))
      refl

Ex-is_x : (c : ℕ) → Ex c → is_x c ≡ true
unfolding is_x
Ex-is_x c h = ground arith

no_x : (c : ℕ) → ¬ Ex c → is_x c ≡ false
unfolding is_x
no_x c h = elim (Bool-cases (c == b'x')) [
  | inl lower ↦ absurd (h (inl (ground arith)))
  | inr l ↦ elim (Bool-cases (c == b'X')) [
    | inl upper ↦ absurd (h (inr (ground arith)))
    | inr u ↦ ground arith
  ]
]

no_prefix : (s : List ℕ) → NoPrefix s → pick_base 16 s ≡ (16, s)
unfolding pick_base
no_prefix [] h = refl
no_prefix (a ∷ []) h = ground arith
no_prefix (a ∷ b ∷ s) h = elim (Bool-cases (a == 48)) [
  | inl t ↦ let e = no_x b (h (ground arith)) in rw t (rw e refl)
  | inr f ↦ rw f refl
]

base_picked :
    (base : ℕ) (prefix s : List ℕ) (radix : ℕ)
    → InRadix base prefix s radix
    → (pick_base base (prefix ++ s) ≡ (radix, s)) × (bad_base base ≡ false) × (1 ≤ radix)
unfolding pick_base
base_picked base prefix s radix (decimal {c = c} e) =
    let d : (c == 48) ≡ false = ground arith in (rw d refl, refl, omega arith)
base_picked base prefix s radix (octal {c = c} e) = (rw (no_x c e) refl, refl, omega arith)
base_picked base prefix s radix (hex {x = x} e) = (rw (Ex-is_x x e) refl, refl, omega arith)
base_picked base prefix s radix (given l h e) =
    let a : (base == 0) ≡ false = ground arith in
    let b : (base == 16) ≡ false = ground arith in (rw (a, b) refl, ground arith, omega arith)
base_picked base prefix s radix (sixteen e) = (no_prefix s e, refl, omega arith)
base_picked base prefix s radix (sixteen_hex {x = x} e) = (rw (Ex-is_x x e) refl, refl, omega arith)

Digit-Opens : (c d : ℕ) → Digit c d → Opens c
unfolding is_blank
Digit-Opens c d h = ground arith

-- What a number begins with, the digit or the 0 of the prefix.
sign_of_number :
    (blanks : List ℕ) (sign : Sign) (base : ℕ) (prefix : List ℕ) (c d : ℕ) (s : List ℕ) (radix : ℕ)
    → All Blank blanks
    → Digit c d
    → InRadix base prefix (c ∷ s) radix
    → take_sign (skip_space (blanks ++ (sign_bytes sign ++ (prefix ++ c ∷ s))))
      ≡ (is_minus sign, prefix ++ c ∷ s)
unfolding is_blank
sign_of_number blanks sign base [] c d s radix h g i =
    sign_taken blanks sign c s h (Digit-Opens c d g)
sign_of_number blanks sign base (a ∷ prefix) c d s radix h g i =
    sign_taken blanks sign a (prefix ++ c ∷ s) h (prefix-Opens base a prefix (c ∷ s) radix i)
  where
    prefix-Opens :
        (base a : ℕ) (prefix s : List ℕ) (radix : ℕ) → InRadix base (a ∷ prefix) s radix → Opens a
    prefix-Opens base a prefix s radix (octal e) = (refl, refl, refl)
    prefix-Opens base a prefix s radix (hex e) = (refl, refl, refl)
    prefix-Opens base a prefix s radix (sixteen_hex e) = (refl, refl, refl)

-- The numeral of a text that is written down.
abbrev written :
    (blanks : List ℕ) (sign : Sign) (base : ℕ) (prefix : List ℕ) (c d : ℕ)
    (bytes digits rest : List ℕ) (radix : ℕ)
    → All Blank blanks
    → InRadix base prefix (c ∷ bytes ++ rest) radix
    → Digits radix (c ∷ bytes) (d ∷ digits)
    → Ends radix rest
    → Numeral (blanks ++ (sign_bytes sign ++ (prefix ++ (c ∷ bytes ++ rest)))) base
written blanks sign base prefix c d bytes digits rest radix h i (g, l, more) e =
    let begins = sign_of_number blanks sign base prefix c d (bytes ++ rest) radix h g i in
    let (picked, valid, positive) = base_picked base prefix (c ∷ bytes ++ rest) radix i in
    record {
      neg = is_minus sign;
      radix = radix;
      bytes = c ∷ bytes;
      digits = d ∷ digits;
      rest = rest;
      sign_read = ap (λ (r : Bool × List ℕ). r.0) begins;
      base_read = ap (λ (r : Bool × List ℕ). pick_base base r.1) begins ∙ picked;
      spelled = Digits-Spells radix (c ∷ bytes) (d ∷ digits) (g, l, more);
      ended = Ends-NoDigit radix rest e;
      positive = positive;
    }

-- strtol of blanks, a sign or none, the prefix of a base or none, at least one digit of that base, and a text that does
-- not go on with such a digit, returns the number that the digits spell, under the sign, or the bound of long that it
-- passes; it sets errno to ERANGE exactly if the number passes one, and leaves *endptr behind the last digit.
pub strtol-written :
    (blanks : List ℕ) (sign : Sign) (base : ℕ) (prefix : List ℕ) (c d : ℕ)
    (bytes digits rest : List ℕ) (radix : ℕ)
    → All Blank blanks
    → InRadix base prefix (c ∷ bytes ++ rest) radix
    → Digits radix (c ∷ bytes) (d ∷ digits)
    → Ends radix rest
    → strtol (blanks ++ (sign_bytes sign ++ (prefix ++ (c ∷ bytes ++ rest)))) base ≡ record {
      value = clamp_long (is_minus sign) (value radix 0 (d ∷ digits));
      endptr = rest;
      errno = range_errno (signed_cutoff (is_minus sign)) (value radix 0 (d ∷ digits));
    }
strtol-written blanks sign base prefix c d bytes digits rest radix h i g e =
    strtol-clamp_long (written blanks sign base prefix c d bytes digits rest radix h i g e)
      (base_picked base prefix (c ∷ bytes ++ rest) radix i).1 (cons-ne-nil c bytes)
