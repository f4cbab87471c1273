-- ===== src/Printf/Pieces.antt =====
-- What a directive puts out, as one text: the layout that the standard describes, against the counts of src/printf.c.
use vlibc.Base.{
  ℕ, zero, suc, ◌+◌, ◌-◌, ◌≡◌, refl, sym, ap, ◌∙◌, Bool, true, false, not, ◌&&◌, Bool-cases, inl,
  inr, List, [], ◌∷◌, ◌++◌, append_assoc, append-nil, Option, none, some, arith, length,
  length-append, length-replicate, if◌then◌else◌, replicate,
}
use vlibc.Printf.Format.{
  Directive, Number, Converted, number, text, at_least, at_most, is_absent, out_times, out_number,
  out_text, out_converted,
}
use vlibc.Printf.Buffer.{behind}
use vlibc.Printf.Decimal.{out_str-behind}

-- The zeros that a precision asks for before `len` digits.
abbrev pub missing_digits : Option ℕ → ℕ → ℕ
missing_digits none len = 0
missing_digits (some p) len = p - len

-- A text in a field of `width` bytes.
abbrev pub in_field : Bool → ℕ → ℕ → List ℕ → List ℕ
in_field left filler width s =
    let gap = replicate (width - length s) filler in if left then s ++ gap else gap ++ s

-- A number: sign, prefix and digits, as many as the precision asks for, in the field; or with zeros between prefix and
-- digits, where the flag `0` stands with neither `-` nor a precision.
abbrev pub number_piece : Directive → Number → List ℕ
number_piece d n =
    let fill = replicate (missing_digits d.precision (length n.digits)) b'0' in
    let full = n.sign ++ (n.prefix ++ (fill ++ n.digits)) in
    if d.flags.zero_flag && is_absent d.precision && not d.flags.left
    then n.sign ++ (n.prefix ++ (replicate (d.width - length full) b'0' ++ n.digits))
    else in_field d.flags.left b' ' d.width full

abbrev pub piece : Directive → Converted → List ℕ
piece d (number n) = number_piece d n
piece d (text s) =
    in_field d.flags.left (if d.flags.left then b' ' else if d.flags.zero_flag then b'0' else b' ')
      d.width (at_most d.precision s)

out_times-behind : (n c : ℕ) (k : List ℕ) → out_times behind n c k ≡ k ++ replicate n c
unfolding out_times
out_times-behind zero c k = sym (append-nil k)
out_times-behind (suc n) c k =
    out_times-behind n c (k ++ c ∷ []) ∙ append_assoc k (c ∷ []) (replicate n c)

-- The runs that out_number puts out one behind the other.
abbrev runs : ℕ → ℕ → ℕ → ℕ → Number → List ℕ
runs pre pad fill post n =
    replicate pre b' '
    ++ (n.sign
        ++ (n.prefix
            ++ (replicate pad b'0' ++ (replicate fill b'0' ++ (n.digits ++ replicate post b' ')))))

same_runs :
    (n : Number) (pre pad fill post pre' pad' fill' post' : ℕ)
    → pre ≡ pre'
    → pad ≡ pad'
    → fill ≡ fill'
    → post ≡ post'
    → runs pre pad fill post n ≡ runs pre' pad' fill' post' n
same_runs n pre pad fill post pre' pad' fill' post' a b c d = rw (a, b, c, d) refl

runs_field :
    (n : Number) (fill post : ℕ)
    → runs 0 0 fill post n
      ≡ (n.sign ++ (n.prefix ++ (replicate fill b'0' ++ n.digits))) ++ replicate post b' '
runs_field n fill post = simp append_assoc

runs_plain :
    (n : Number) (pre pad fill : ℕ)
    → runs pre pad fill 0 n
      ≡ replicate pre b' '
        ++ (n.sign ++ (n.prefix ++ (replicate pad b'0' ++ (replicate fill b'0' ++ n.digits))))
runs_plain n pre pad fill = simp append-nil

length-full :
    (z : ℕ) (n : Number)
    → length (n.sign ++ (n.prefix ++ (replicate z b'0' ++ n.digits)))
      ≡ length n.prefix + length n.sign + (z + length n.digits)
length-full z n = omega (
  arith,
  length-append n.sign (n.prefix ++ (replicate z b'0' ++ n.digits)),
  length-append n.prefix (replicate z b'0' ++ n.digits),
  length-append (replicate z b'0') n.digits,
  length-replicate {A = ℕ} z b'0',
)

at_least-missing : (p : Option ℕ) (len : ℕ) → at_least p len ≡ missing_digits p len + len
at_least-missing none len = omega arith
at_least-missing (some p) len = ground arith

none_missing : (p : Option ℕ) (len : ℕ) → is_absent p ≡ true → missing_digits p len ≡ 0
none_missing none len h = refl
none_missing (some p) len h = absurd (ground arith)

abbrev padded : Directive → Bool
padded d = d.flags.zero_flag && is_absent d.precision && not d.flags.left

-- The counts of the code.
abbrev zero_pad : Directive → Number → ℕ
zero_pad d n =
    if padded d
    then d.width - (length n.prefix + length n.sign + at_least d.precision (length n.digits))
    else 0

abbrev spaces : Directive → Number → ℕ
spaces d n =
    d.width
    - (length n.prefix + length n.sign + zero_pad d n + at_least d.precision (length n.digits))

out_number-runs :
    (d : Directive) (n : Number) (k : List ℕ)
    → out_number behind d n k
      ≡ k
        ++ runs
            (if d.flags.left then 0 else spaces d n)
            (zero_pad d n)
            (at_least d.precision (length n.digits) - length n.digits)
            (if d.flags.left then spaces d n else 0)
            n
unfolding out_number
out_number-runs d n k = simp (out_str-behind, out_times-behind, append_assoc)

runs-number_piece :
    (d : Directive) (n : Number)
    → runs
        (if d.flags.left then 0 else spaces d n)
        (zero_pad d n)
        (at_least d.precision (length n.digits) - length n.digits)
        (if d.flags.left then spaces d n else 0)
        n
      ≡ number_piece d n
runs-number_piece d n =
    let missed = missing_digits d.precision (length n.digits) in
    let full = n.sign ++ (n.prefix ++ (replicate missed b'0' ++ n.digits)) in
    let gap = d.width - length full in
    let l = length-full missed n in
    let m = at_least-missing d.precision (length n.digits) in
    elim (Bool-cases (padded d)) [
      | inl p ↦
          let e : d.flags.left ≡ false = ground arith in
          let absent : is_absent d.precision ≡ true = ground arith in
          let z = none_missing d.precision (length n.digits) absent in
          rw p (
            rw e (
              same_runs n _ _ _ _ 0 gap 0 0 (omega arith) (omega (arith, l, m))
                (omega (arith, m, z)) refl
              ∙ runs_plain n 0 gap 0))
      | inr p ↦ rw p (elim (Bool-cases d.flags.left) [
        | inl e ↦ rw e (
            same_runs n _ _ _ _ 0 0 missed gap refl refl (omega (arith, m)) (omega (arith, l, m))
            ∙ runs_field n missed gap)
        | inr e ↦ rw e (
            same_runs n _ _ _ _ gap 0 missed 0 (omega (arith, l, m)) refl (omega (arith, m)) refl
            ∙ runs_plain n gap 0 missed)
      ])
    ]

out_text-behind : (d : Directive) (s k : List ℕ) → out_text behind d s k ≡ k ++ piece d (text s)
unfolding out_text
out_text-behind d s k = elim (Bool-cases d.flags.left) [
  | inl e ↦ rw e (simp (out_str-behind, out_times-behind, append_assoc))
  | inr e ↦ rw e (simp (out_str-behind, out_times-behind, append_assoc))
]

pub out_converted-behind :
    (d : Directive) (v : Converted) (k : List ℕ) → out_converted behind d v k ≡ k ++ piece d v
unfolding out_converted
out_converted-behind d (number n) k =
    out_number-runs d n k ∙ ap (λ (s : List ℕ). k ++ s) (runs-number_piece d n)
out_converted-behind d (text s) k = out_text-behind d s k
