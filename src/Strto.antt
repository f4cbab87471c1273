-- ===== src/Strto.antt =====
-- src/strto.c without its floating point half: strtol, strtoul, strtoll, strtoull, strtoimax,
-- strtoumax and atoi, where long and long long have 64 bits. A pointer into the text is the list of
-- the bytes from there to the NUL; `*s` is `peek s`, and `*endptr` is such a list.
pub mod Digits
pub mod Range
pub mod Split
pub mod Tail
pub mod Written
use vlibc.Base.{
  ℕ, zero, suc, ◌+◌, ◌-◌, ◌*◌, ◌/◌, ◌%◌, ◌^◌, ◌≤◌, ◌<◌, Bool, true, false, not, ◌&&◌, ◌||◌, List,
  [], ◌∷◌, Option, none, some, ltb, leb, ◌==◌, if◌then◌else◌, length,
}
use vlibc.Base.Int.{ℤ, pos, negsuc}

pub data Errno : Type 0 where
  einval erange : Errno

-- What a conversion returns, stores in `*endptr` and leaves in errno (`none`: not set).
pub record Conv (V : Type 0) : Type 0 where
  pub value : V
  pub endptr : List ℕ
  pub errno : Option Errno

abbrev pub peek : List ℕ → ℕ
peek [] = 0
peek (c ∷ s) = c

abbrev pub advance : List ℕ → List ℕ
advance [] = []
advance (c ∷ s) = s

-- -1 is `none`.
unfoldable pub digit_val : ℕ → Option ℕ
digit_val c =
    if leb b'0' c && leb c b'9'
    then some (c - b'0')
    else if leb b'a' c && leb c b'z'
    then some (c - b'a' + 10)
    else if leb b'A' c && leb c b'Z'
    then some (c - b'A' + 10)
    else none

unfoldable pub is_blank : ℕ → Bool
is_blank c = c == b' ' || c == 9 || c == 10 || c == 13 || c == 12 || c == 11

unfoldable pub skip_space : List ℕ → List ℕ
unfolding is_blank
skip_space [] = []
skip_space (c ∷ s) = if is_blank c then skip_space s else c ∷ s

-- `neg` and the text behind the sign.
unfoldable pub take_sign : List ℕ → Bool × List ℕ
take_sign s = if peek s == b'+' || peek s == b'-' then (peek s == b'-', advance s) else (false, s)

unfoldable pub is_x : ℕ → Bool
is_x c = c == b'x' || c == b'X'

-- The base to read in, and where the digits start.
unfoldable pub pick_base : ℕ → List ℕ → ℕ × List ℕ
unfolding is_x
pick_base base s =
    if base == 0
    then (if peek s == b'0'
        then (if is_x (peek (advance s)) then (16, advance (advance s)) else (8, advance s))
        else (10, s))
    else if base == 16 && peek s == b'0' && is_x (peek (advance s))
    then (16, advance (advance s))
    else (base, s)

-- The variables of the digit loop.
pub record Acc : Type 0 where
  pub val : ℕ
  pub overflow : Bool

abbrev pub ulong_mod : ℕ
ulong_mod = 2 ^ 64

-- The body of the digit loop.
unfoldable pub push_digit : ℕ → ℕ → ℕ → Acc → ℕ → Acc
push_digit base cutdiv cutlim a d =
    if a.overflow
    then a
    else if ltb cutdiv a.val || (a.val == cutdiv && ltb cutlim d)
    then record a { overflow = true }
    else record a { val = (a.val * base + d) % ulong_mod }

-- `while ((d = digit_val(*s)) >= 0 && d < base)`
unfoldable pub digit_loop : ℕ → ℕ → ℕ → List ℕ → Acc → Acc × List ℕ
digit_loop base cutdiv cutlim [] a = (a, [])
digit_loop base cutdiv cutlim (c ∷ s) a = elim (digit_val c) [
  | none ↦ (a, c ∷ s)
  | some d ↦
      let rest = digit_loop base cutdiv cutlim s (push_digit base cutdiv cutlim a d) in
      if ltb d base then rest else (a, c ∷ s)
]

-- The part that the four conversions share word for word: sign, digits read against the cutoff, and
-- the text behind them. `start` and `stop` are the two ends of the digits.
pub record Scan : Type 0 where
  pub neg : Bool
  pub acc : Acc
  pub start : List ℕ
  pub stop : List ℕ

unfoldable pub scan : (Bool → ℕ) → ℕ → List ℕ → Scan
scan cutoff base nptr =
    let (neg, s) = take_sign (skip_space nptr) in
    let (b, start) = pick_base base s in
    let (acc, stop) =
      digit_loop b (cutoff neg / b) (cutoff neg % b) start (record { val = 0; overflow = false }) in
    record { neg = neg; acc = acc; start = start; stop = stop }

-- `base != 0 && (base < 2 || base > 36)`
abbrev pub bad_base : ℕ → Bool
bad_base base = not (base == 0) && (ltb base 2 || ltb 36 base)

-- `s == start`, where `s` is a tail of `start`.
abbrev pub same_place : List ℕ → List ℕ → Bool
same_place s t = length s == length t

abbrev pub long_max : ℕ
long_max = 2 ^ 63 - 1

-- A 64-bit pattern as a long.
abbrev pub signed64 : ℕ → ℤ
signed64 w = if leb w long_max then pos w else negsuc (ulong_mod - w - 1)

abbrev pub signed_cutoff : Bool → ℕ
signed_cutoff neg = if neg then long_max + 1 else long_max

-- The negation wraps, as it does for LONG_MIN on the machines that vlibc runs on.
pub strtol : List ℕ → ℕ → Conv ℤ
strtol nptr base =
    if bad_base base
    then record { value = pos 0; endptr = nptr; errno = some einval }
    else let r = scan signed_cutoff base nptr in
      if same_place r.stop r.start
      then record { value = pos 0; endptr = nptr; errno = none }
      else if r.acc.overflow
      then record {
        value = if r.neg then negsuc long_max else pos long_max;
        endptr = r.stop;
        errno = some erange;
      }
      else record {
        value = signed64 (if r.neg then (ulong_mod - r.acc.val) % ulong_mod else r.acc.val);
        endptr = r.stop;
        errno = none;
      }

abbrev pub unsigned_cutoff : Bool → ℕ
unsigned_cutoff neg = ulong_mod - 1

pub strtoul : List ℕ → ℕ → Conv ℕ
strtoul nptr base =
    if bad_base base
    then record { value = 0; endptr = nptr; errno = some einval }
    else let r = scan unsigned_cutoff base nptr in
      if same_place r.stop r.start
      then record { value = 0; endptr = nptr; errno = none }
      else if r.acc.overflow
      then record { value = ulong_mod - 1; endptr = r.stop; errno = some erange }
      else record {
        value = if r.neg then (ulong_mod - r.acc.val) % ulong_mod else r.acc.val;
        endptr = r.stop;
        errno = none;
      }

-- The bodies of strtoll and strtoull are those of strtol and strtoul with LL for L.
pub strtoll : List ℕ → ℕ → Conv ℤ
strtoll = strtol

pub strtoull : List ℕ → ℕ → Conv ℕ
strtoull = strtoul

pub strtoimax : List ℕ → ℕ → Conv ℤ
strtoimax = strtoll

pub strtoumax : List ℕ → ℕ → Conv ℕ
strtoumax = strtoull

-- `(int)` of a long: its low 32 bits, read as an int.
abbrev pub to_int : ℤ → ℤ
to_int (pos n) = let w = n % 2 ^ 32 in if ltb w (2 ^ 31) then pos w else negsuc (2 ^ 32 - w - 1)
to_int (negsuc n) = let w = n % 2 ^ 32 in if ltb w (2 ^ 31) then negsuc w else pos (2 ^ 32 - w - 1)

pub atoi : List ℕ → ℤ
atoi nptr = to_int (strtol nptr 10).value
