-- ===== src/Printf/Format.antt =====
-- src/printf.c: vsnprintf_impl. The arguments are a list, and a call that takes one that is not there or not of the
-- kind asked for has no answer. All output goes through out_char, which is a parameter.
use vlibc.Base.{
  ℕ,
  zero,
  suc,
  ◌+◌,
  ◌-◌,
  ◌^◌,
  Bool,
  true,
  false,
  not,
  ◌&&◌,
  ◌||◌,
  List,
  [],
  ◌∷◌,
  Option,
  none,
  some,
  ltb,
  ◌==◌,
  if◌then◌else◌,
  length,
  take,
  ◌>>=◌,
  Int.{ℤ, pos, negsuc},
}
use vlibc.Printf.{
  Flags, no_flags, read_flags, read_number, read_precision, Length, bits, read_length, to_unsigned,
  to_signed, ull_to_base, uint_to_base,
}

pub data Arg : Type 0 where
  integer : ℤ → Arg
  -- NULL is `none`.
  string : Option (List ℕ) → Arg
  pointer : ℕ → Arg

-- A directive between its "%" and its letter.
pub record Directive : Type 0 where
  pub flags : Flags
  pub width : ℕ
  pub precision : Option ℕ
  pub length_modifier : Length

unfoldable pub read_directive : List ℕ → Directive × List ℕ
unfolding read_flags read_number read_precision read_length
read_directive p =
    let (g, q) = read_flags no_flags p in
    let (w, r) = read_number 0 q in
    let (n, t) = read_precision r in
    let (l, u) = read_length t in
    (record { flags = g; width = w; precision = n; length_modifier = l }, u)

-- `sign_char`, `prefix` and `buf`, which may be empty.
pub record Number : Type 0 where
  pub sign : List ℕ
  pub prefix : List ℕ
  pub digits : List ℕ

abbrev pub sign_of : Flags → ℤ → List ℕ
sign_of g (negsuc n) = b'-' ∷ []
sign_of g (pos n) = if g.plus then b'+' ∷ [] else if g.spacef then b' ' ∷ [] else []

-- `uv = (unsigned long long)(-sv)`
abbrev pub magnitude : ℤ → ℕ
magnitude (pos n) = n
magnitude (negsuc n) = n + 1

-- `case 'd'`
unfoldable pub signed_number : Directive → ℤ → Number
unfolding to_signed
signed_number d i =
    let sv = to_signed (bits d.length_modifier) i in
    record { sign = sign_of d.flags sv; prefix = []; digits = ull_to_base (magnitude sv) 10 false }

abbrev pub is_zero_precision : Option ℕ → Bool
is_zero_precision none = false
is_zero_precision (some n) = n == 0

-- `case 'u'`, `case 'x'`, `case 'X'` and `case 'o'`
unfoldable pub unsigned_number : Directive → ℕ → ℤ → Number
unfolding to_unsigned
unsigned_number d spec i =
    let uv = to_unsigned (bits d.length_modifier) i in
    if spec == b'u'
    then record { sign = []; prefix = []; digits = ull_to_base uv 10 false }
    else if spec == b'o'
    then record {
      sign = [];
      prefix =
          if d.flags.alt && (not (uv == 0) || is_zero_precision d.precision) then b'0' ∷ [] else [];
      digits = ull_to_base uv 8 false;
    }
    else record {
      sign = [];
      prefix =
          if d.flags.alt && not (uv == 0)
          then b'0' ∷ (if spec == b'X' then b'X' else b'x') ∷ []
          else [];
      digits = ull_to_base uv 16 (spec == b'X');
    }

-- What a letter asks of its argument: a number, a text, or no such letter.
pub data Converted : Type 0 where
  number : Number → Converted
  text : List ℕ → Converted

abbrev pub is_unsigned : ℕ → Bool
is_unsigned spec = spec == b'u' || spec == b'x' || spec == b'X' || spec == b'o'

abbrev pub is_letter : ℕ → Bool
is_letter spec = spec == b's' || spec == b'd' || is_unsigned spec || spec == b'p' || spec == b'c'

abbrev pub null_text : List ℕ
null_text = b'(' ∷ b'n' ∷ b'u' ∷ b'l' ∷ b'l' ∷ b')' ∷ []

unfoldable pub convert : Directive → ℕ → Arg → Option Converted
unfolding signed_number unsigned_number to_unsigned uint_to_base
convert d spec (string none) = if spec == b's' then some (text null_text) else none
convert d spec (string (some s)) = if spec == b's' then some (text s) else none
convert d spec (pointer v) =
    if spec == b'p'
    then some
        (number (record { sign = []; prefix = b'0' ∷ b'x' ∷ []; digits = uint_to_base v 16 false }))
    else none
convert d spec (integer i) =
    if spec == b'd'
    then some (number (signed_number d i))
    else if is_unsigned spec
    then some (number (unsigned_number d spec i))
    else if spec == b'c'
    then some (number (record { sign = []; prefix = []; digits = to_unsigned 8 i ∷ [] }))
    else none

-- Width and precision are ints, and the answer is undefined where they overflow.
unfoldable pub fits_int : Directive → Bool
fits_int d = ltb d.width (2 ^ 31) && (elim d.precision [ none ↦ true | some n ↦ ltb n (2 ^ 31) ])

-- `num_len`, and the test `precision < 0`.
abbrev pub at_least : Option ℕ → ℕ → ℕ
at_least none len = len
at_least (some p) len = if ltb len p then p else len

abbrev pub is_absent : Option ℕ → Bool
is_absent none = true
is_absent (some p) = false

-- The first `slen` bytes.
abbrev pub at_most : Option ℕ → List ℕ → List ℕ
at_most none s = s
at_most (some p) s = take p s

-- `total`, without the zeros that a width asks for, and `slen` are ints as well.
unfoldable pub counts_int : Directive → Converted → Bool
counts_int d (number n) =
    ltb (length n.prefix + length n.sign + at_least d.precision (length n.digits)) (2 ^ 31)
counts_int d (text s) = ltb (length (at_most d.precision s)) (2 ^ 31)

module _ {S : Type 0} (out_char : ℕ → S → S) where
  unfoldable pub out_str : List ℕ → S → S
  out_str [] k = k
  out_str (c ∷ s) k = out_str s (out_char c k)

  -- `for (int i = 0; i < n; i++) out_char(str, size, &pos, c);`
  unfoldable pub out_times : ℕ → ℕ → S → S
  out_times zero c k = k
  out_times (suc n) c k = out_times n c (out_char c k)

  -- What follows the switch.
  unfoldable pub out_number : Directive → Number → S → S
  unfolding out_str out_times
  out_number d n k =
      let g = d.flags in
      let len = length n.digits in
      let num_len = at_least d.precision len in
      let prefix_total = length n.prefix + length n.sign in
      let padded = g.zero_flag && is_absent d.precision && not g.left in
      let zero_pad = if padded then d.width - (prefix_total + num_len) else 0 in
      let total = prefix_total + zero_pad + num_len in
      let spaces_pre = if g.left then 0 else d.width - total in
      let spaces_post = if g.left then d.width - total else 0 in
      let k_1 = out_str n.sign (out_times spaces_pre b' ' k) in
      let k_2 = out_times zero_pad b'0' (out_str n.prefix k_1) in
      let k_3 = out_str n.digits (out_times (num_len - len) b'0' k_2) in
      out_times spaces_post b' ' k_3

  -- `case 's'`
  unfoldable pub out_text : Directive → List ℕ → S → S
  unfolding out_str out_times
  out_text d s k =
      let cut = at_most d.precision s in
      let pad = d.width - length cut in
      if d.flags.left
      then out_times pad b' ' (out_str cut k)
      else out_str cut (out_times pad (if d.flags.zero_flag then b'0' else b' ') k)

  unfoldable pub out_converted : Directive → Converted → S → S
  unfolding out_number out_text
  out_converted d (number n) k = out_number d n k
  out_converted d (text s) k = out_text d s k

  -- One directive: the rest of the format, of the arguments, and the output. A "%" at the end, maybe with flags, a
  -- width, a precision or a length behind it, sends the loop behind the NUL.
  unfoldable pub out_argument :
      Directive → ℕ → List ℕ → List Arg → S → Option (List ℕ × List Arg × S)
  unfolding out_converted convert counts_int
  out_argument d spec p [] k = none
  out_argument d spec p (a ∷ args) k = do
    c ← convert d spec a
    if counts_int d c then some (p, args, out_converted d c k) else none

  unfoldable pub out_directive : Directive × List ℕ → List Arg → S → Option (List ℕ × List Arg × S)
  unfolding out_argument
  out_directive (d, []) args k = none
  out_directive (d, spec ∷ p) args k =
      if is_letter spec
      then out_argument d spec p args k
      else some (p, args, out_char spec (out_char b'%' k))

  unfoldable pub behind_percent : List ℕ → List Arg → S → Option (List ℕ × List Arg × S)
  unfolding out_directive read_directive fits_int
  behind_percent [] args k = none
  behind_percent (c ∷ p) args k =
      if c == b'%'
      then some (p, args, out_char b'%' k)
      else if fits_int (read_directive (c ∷ p)).0
      then out_directive (read_directive (c ∷ p)) args k
      else none

  -- A round of the loop.
  unfoldable pub format_round : ℕ → List ℕ → List Arg → S → Option (List ℕ × List Arg × S)
  unfolding behind_percent
  format_round c p args k =
      if c == b'%' then behind_percent p args k else some (p, args, out_char c k)

  -- Every round takes a byte of the format at least.
  unfoldable pub format_loop : ℕ → List ℕ → List Arg → S → Option S
  unfolding format_round
  format_loop zero p args k = none
  format_loop (suc f) [] args k = some k
  format_loop (suc f) (c ∷ p) args k = do
    (q, rest, t) ← format_round c p args k
    format_loop f q rest t
