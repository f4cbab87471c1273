-- ===== src/Printf/Ends.antt =====
-- src/printf.c: the loop of vsnprintf_impl ends, and the text that it puts out.
use vlibc.Base.{
  ℕ,
  zero,
  suc,
  ◌+◌,
  ◌-◌,
  ◌*◌,
  ◌<◌,
  ◌≤◌,
  ◌≡◌,
  refl,
  ap,
  ◌∙◌,
  true,
  false,
  ◌&&◌,
  Bool-cases,
  inl,
  inr,
  List,
  [],
  ◌∷◌,
  some,
  arith,
  ◌==◌,
  leb,
  length,
  take,
  ◌++◌,
  if◌then◌else◌,
  append-nil,
  append_assoc,
  subst,
  sym,
  Int.{pos},
}
use vlibc.Strto.{to_int}
use vlibc.Printf.Pieces.{piece, out_converted-behind}
use vlibc.Printf.{
  Flags, is_flag, add_flag, read_flags, read_number, read_precision, Length, len_h, len_hh, len_l,
  len_ll, doubled, read_length, no_flags,
}
use vlibc.Printf.Format.{
  Arg, Directive, Converted, read_directive, is_letter, fits_int, counts_int, convert,
  out_converted, out_argument, out_directive, behind_percent, format_round, format_loop,
}
use vlibc.Printf.Buffer.{vsnprintf, behind, formatted}
use vlibc.Printf.Bounded.{vsnprintf-formatted}
use vlibc.Memory.{Mem, put}

read_flags_short : (g : Flags) (p : List ℕ) → length (read_flags g p).1 ≤ length p
unfolding read_flags
read_flags_short g [] = omega arith
read_flags_short g (c ∷ p) = elim (Bool-cases (is_flag c)) [
  | inl e ↦ rw e (omega (arith, read_flags_short (add_flag c g) p))
  | inr e ↦ rw e (omega arith)
]

read_number_short : (n : ℕ) (p : List ℕ) → length (read_number n p).1 ≤ length p
unfolding read_number
read_number_short n [] = omega arith
read_number_short n (c ∷ p) = elim (Bool-cases (leb b'0' c && leb c b'9')) [
  | inl e ↦ rw e (omega (arith, read_number_short (n * 10 + (c - b'0')) p))
  | inr e ↦ rw e (omega arith)
]

read_precision_short : (p : List ℕ) → length (read_precision p).1 ≤ length p
unfolding read_precision
read_precision_short [] = omega arith
read_precision_short (c ∷ p) = elim (Bool-cases (c == b'.')) [
  | inl e ↦ rw e (omega (arith, read_number_short 0 p))
  | inr e ↦ rw e (omega arith)
]

doubled_short :
    (c : ℕ) (once twice : Length) (p : List ℕ) → length (doubled c once twice p).1 ≤ length p
doubled_short c once twice [] = omega arith
doubled_short c once twice (d ∷ p) = ground arith

read_length_short : (p : List ℕ) → length (read_length p).1 ≤ length p
unfolding read_length
read_length_short [] = omega arith
read_length_short (c ∷ p) =
    let h = doubled_short b'h' len_h len_hh p in
    let l = doubled_short b'l' len_l len_ll p in ground (arith, h, l)

pub read_directive_short : (p : List ℕ) → length (read_directive p).1 ≤ length p
unfolding read_directive
read_directive_short p =
    let a = read_flags_short no_flags p in
    let q = (read_flags no_flags p).1 in
    let b = read_number_short 0 q in
    let r = (read_number 0 q).1 in
    let c = read_precision_short r in
    let d = read_length_short (read_precision r).1 in omega (arith, a, b, c, d)

-- The text that a format makes of its arguments: they are those that the directives ask for, in their order and of
-- their kinds, no directive stops at the end of the format, and the counts of each fit an int.
pub data Makes : List ℕ → List Arg → List ℕ → Type 0 where
  finished : {args : List Arg} → Makes [] args []
  byte :
      {c : ℕ} {p t : List ℕ} {args : List Arg}
      → (c == b'%') ≡ false
      → Makes p args t
      → Makes (c ∷ p) args (c ∷ t)
  percent :
      {c d : ℕ} {p t : List ℕ} {args : List Arg}
      → (c == b'%') ≡ true
      → (d == b'%') ≡ true
      → Makes p args t
      → Makes (c ∷ d ∷ p) args (b'%' ∷ t)
  unknown :
      {c e spec : ℕ} {p q t : List ℕ} {d : Directive} {args : List Arg}
      → (c == b'%') ≡ true
      → (e == b'%') ≡ false
      → read_directive (e ∷ p) ≡ (d, spec ∷ q)
      → fits_int d ≡ true
      → is_letter spec ≡ false
      → Makes q args t
      → Makes (c ∷ e ∷ p) args (b'%' ∷ spec ∷ t)
  argument :
      {c e spec : ℕ} {p q t : List ℕ} {d : Directive} {a : Arg} {v : Converted} {args : List Arg}
      → (c == b'%') ≡ true
      → (e == b'%') ≡ false
      → read_directive (e ∷ p) ≡ (d, spec ∷ q)
      → fits_int d ≡ true
      → is_letter spec ≡ true
      → convert d spec a ≡ some v
      → counts_int d v ≡ true
      → Makes q args t
      → Makes (c ∷ e ∷ p) (a ∷ args) (piece d v ++ t)

rest_short :
    (p q : List ℕ) (d : Directive) (spec : ℕ)
    → read_directive p ≡ (d, spec ∷ q)
    → length q < length p
rest_short p q d spec e =
    let h = read_directive_short p in
    let k : length (read_directive p).1 ≡ suc (length q) =
      ap (λ (x : Directive × List ℕ). length x.1) e in
    omega arith

fits_read :
    (p : List ℕ) (d : Directive) (q : List ℕ)
    → read_directive p ≡ (d, q)
    → fits_int d ≡ true
    → fits_int (read_directive p).0 ≡ true
fits_read p d q r g = subst (λ (x : Directive × List ℕ). fits_int x.0 ≡ true) (sym r) g

format_loop-Makes :
    (f : ℕ) (p : List ℕ) (args : List Arg) (t : List ℕ)
    → length p < f
    → Makes p args t
    → (k : List ℕ) → format_loop behind f p args k ≡ some (k ++ t)
unfolding format_loop format_round behind_percent out_directive out_argument
format_loop-Makes zero p args t lt s k = absurd (omega arith)
format_loop-Makes (suc f) [] args [] lt finished k = rw (append-nil k) refl
format_loop-Makes (suc f) [] args (_ ∷ t) lt s k = elim s [ ]
format_loop-Makes (suc f) (c ∷ p) args (_ ∷ t) lt (byte e s) k = rw e (
    format_loop-Makes f p args t (omega arith) s (k ++ c ∷ [])
    ∙ ap (λ (x : List ℕ). some x) (append_assoc k (c ∷ []) t))
format_loop-Makes (suc f) (c ∷ d ∷ p) args (_ ∷ t) lt (percent e h s) k =
    rw (e, h)
      (format_loop-Makes f p args t (omega arith) s (k ++ b'%' ∷ [])
        ∙ ap (λ (x : List ℕ). some x) (append_assoc k (b'%' ∷ []) t))
format_loop-Makes (suc f) (c ∷ e ∷ p) args _ lt (unknown {spec} {q} {t} {d} u h r g n s) k =
    let short = rest_short (e ∷ p) q d spec r in
    let whole = fits_read (e ∷ p) d (spec ∷ q) r g in
    rw (u, h, whole, r, n)
      (format_loop-Makes f q args t (omega arith) s (k ++ b'%' ∷ [] ++ spec ∷ [])
        ∙ ap (λ (x : List ℕ). some x)
            (append_assoc (k ++ b'%' ∷ []) (spec ∷ []) t ∙ append_assoc k (b'%' ∷ []) (spec ∷ t)))
format_loop-Makes (suc f) (c ∷ e ∷ p) (a ∷ args) _ lt
      (argument {spec} {q} {t} {d} {v} u h r g l v_is few s) k =
    let short = rest_short (e ∷ p) q d spec r in
    let whole = fits_read (e ∷ p) d (spec ∷ q) r g in
    rw (u, h, whole, r, l)
      (rw v_is (
        rw few (
          format_loop-Makes f q args t (omega arith) s (out_converted behind d v k)
          ∙ ap (λ (x : List ℕ). some x)
              (ap (λ (y : List ℕ). y ++ t) (out_converted-behind d v k)
                ∙ append_assoc k (piece d v) t))))

pub formatted-Makes :
    (fmt : List ℕ) (args : List Arg) (t : List ℕ) → Makes fmt args t → formatted fmt args ≡ some t
unfolding formatted
formatted-Makes fmt args t s = format_loop-Makes (length fmt + 1) fmt args t (omega arith) s []

-- Where a format makes a text of the arguments, vsnprintf ends and returns the length of the text, cast to int; and where
-- size is not 0 it stores the first size - 1 bytes of the text (all of them where it is shorter) and a NUL at str, and
-- nothing else. A text is made where no width, precision or field passes what an int holds.
pub vsnprintf-Makes :
    (str size : ℕ) (fmt : List ℕ) (args : List Arg) (t : List ℕ) (m : Mem)
    → Makes fmt args t
    → vsnprintf str size fmt args m
      ≡ some (
        to_int (pos (length t)),
        if size == 0 then m else put m str (take (size - 1) t ++ 0 ∷ []),
      )
vsnprintf-Makes str size fmt args t m s =
    vsnprintf-formatted str size fmt args m ∙ rw (formatted-Makes fmt args t s) refl
