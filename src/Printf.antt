-- ===== src/Printf.antt =====
-- src/printf.c: what a directive of a format is made of, and the digits of a number. A format is the list of its
-- bytes without the NUL.
pub mod Format
pub mod Buffer
pub mod Same
pub mod Bounded
pub mod Pieces
pub mod Ends
pub mod Allocated
pub mod Decimal
use vlibc.Base.{
  ℕ,
  zero,
  suc,
  ◌+◌,
  ◌-◌,
  ◌*◌,
  ◌/◌,
  ◌%◌,
  ◌^◌,
  Bool,
  true,
  false,
  ◌&&◌,
  ◌||◌,
  List,
  [],
  ◌∷◌,
  Option,
  none,
  some,
  ltb,
  leb,
  ◌==◌,
  if◌then◌else◌,
  Int.{ℤ, pos, negsuc},
}

-- `left`, `plus`, `spacef`, `zero` and `alt`.
pub record Flags : Type 0 where
  pub left : Bool
  pub plus : Bool
  pub spacef : Bool
  pub zero_flag : Bool
  pub alt : Bool

abbrev pub no_flags : Flags
no_flags = record { left = false; plus = false; spacef = false; zero_flag = false; alt = false }

abbrev pub is_flag : ℕ → Bool
is_flag c = c == b'-' || c == b'+' || c == b' ' || c == b'0' || c == b'#'

abbrev pub add_flag : ℕ → Flags → Flags
add_flag c g = record {
  left = g.left || c == b'-';
  plus = g.plus || c == b'+';
  spacef = g.spacef || c == b' ';
  zero_flag = g.zero_flag || c == b'0';
  alt = g.alt || c == b'#';
}

unfoldable pub read_flags : Flags → List ℕ → Flags × List ℕ
read_flags g [] = (g, [])
read_flags g (c ∷ p) =
    let rest = read_flags (add_flag c g) p in if is_flag c then rest else (g, c ∷ p)

-- `while (*p >= '0' && *p <= '9')`. A number that overflows int leaves the call without an answer (fits_int).
unfoldable pub read_number : ℕ → List ℕ → ℕ × List ℕ
read_number n [] = (n, [])
read_number n (c ∷ p) =
    let rest = read_number (n * 10 + (c - b'0')) p in
    if leb b'0' c && leb c b'9' then rest else (n, c ∷ p)

abbrev pub given : ℕ × List ℕ → Option ℕ × List ℕ
given (n, p) = (some n, p)

-- A precision of -1 is `none`.
unfoldable pub read_precision : List ℕ → Option ℕ × List ℕ
unfolding read_number
read_precision [] = (none, [])
read_precision (c ∷ p) = if c == b'.' then given (read_number 0 p) else (none, c ∷ p)

pub data Length : Type 0 where
  len_none len_hh len_h len_l len_ll len_j len_z len_t len_ld : Length

-- A second letter, as in `hh`.
abbrev pub doubled : ℕ → Length → Length → List ℕ → Length × List ℕ
doubled c once twice [] = (once, [])
doubled c once twice (d ∷ p) = if d == c then (twice, p) else (once, d ∷ p)

unfoldable pub read_length : List ℕ → Length × List ℕ
read_length [] = (len_none, [])
read_length (c ∷ p) =
    if c == b'h'
    then doubled b'h' len_h len_hh p
    else if c == b'l'
    then doubled b'l' len_l len_ll p
    else if c == b'j'
    then (len_j, p)
    else if c == b'z'
    then (len_z, p)
    else if c == b't'
    then (len_t, p)
    else if c == b'L'
    then (len_ld, p)
    else (len_none, c ∷ p)

-- The bits of the type that an integer argument is taken as.
abbrev pub bits : Length → ℕ
bits len_none = 32
bits len_hh = 8
bits len_h = 16
bits len_ld = 32
bits _ = 64

-- The value of an argument in an unsigned type of w bits.
unfoldable pub to_unsigned : ℕ → ℤ → ℕ
to_unsigned w (pos n) = n % 2 ^ w
to_unsigned w (negsuc n) = 2 ^ w - 1 - n % 2 ^ w

-- And in a signed one.
unfoldable pub to_signed : ℕ → ℤ → ℤ
unfolding to_unsigned
to_signed w i =
    let u = to_unsigned w i in if ltb u (2 ^ (w - 1)) then pos u else negsuc (2 ^ w - 1 - u)

-- `digits[d]`
unfoldable pub digit_char : Bool → ℕ → ℕ
digit_char upper d =
    if ltb d 10 then b'0' + d else if upper then b'A' + (d - 10) else b'a' + (d - 10)

-- The loop of ull_to_base and uint_to_base, which fills at most `f` places of tmp, and the copy of tmp from its
-- end on: every digit goes in front of those before it.
unfoldable pub to_base : ℕ → ℕ → ℕ → Bool → List ℕ → List ℕ
unfolding digit_char
to_base zero value base upper buf = buf
to_base (suc f) value base upper buf =
    let buf_1 = digit_char upper (value % base) ∷ buf in
    let rest = to_base f (value / base) base upper buf_1 in
    if value / base == 0 then buf_1 else rest

unfoldable pub ull_to_base : ℕ → ℕ → Bool → List ℕ
unfolding to_base
ull_to_base value base upper = to_base 64 value base upper []

unfoldable pub uint_to_base : ℕ → ℕ → Bool → List ℕ
unfolding to_base
uint_to_base value base upper = to_base 32 value base upper []
