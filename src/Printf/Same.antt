-- ===== src/Printf/Same.antt =====
-- src/printf.c: where the output goes does not change what is put out. A map between two kinds of output that
-- takes each byte along takes the whole run along.
use vlibc.Base.{
  ℕ, zero, suc, ◌≡◌, refl, Bool-cases, inl, inr, List, [], ◌∷◌, Option, none, some, ◌==◌, ◌>>=◌,
  if◌then◌else◌,
}
use vlibc.Printf.Format.{
  Arg, Directive, Converted, number, text, convert, out_str, out_times, out_number, out_text,
  out_converted, out_argument, out_directive, behind_percent, format_round, format_loop,
  read_directive, is_letter, fits_int, counts_int,
}

module _ {S T : Type 0} (out : ℕ → S → S) (put_out : ℕ → T → T) (h : S → T)
    (same : (c : ℕ) (k : S) → put_out c (h k) ≡ h (out c k)) where
  out_str-same : (s : List ℕ) (k : S) → out_str put_out s (h k) ≡ h (out_str out s k)
  unfolding out_str
  out_str-same [] k = refl
  out_str-same (c ∷ s) k = rw (same c k) (out_str-same s (out c k))

  out_times-same : (n c : ℕ) (k : S) → out_times put_out n c (h k) ≡ h (out_times out n c k)
  unfolding out_times
  out_times-same zero c k = refl
  out_times-same (suc n) c k = rw (same c k) (out_times-same n c (out c k))

  out_converted-same :
      (d : Directive) (c : Converted) (k : S)
      → out_converted put_out d c (h k) ≡ h (out_converted out d c k)
  unfolding out_converted out_number out_text
  out_converted-same d (number n) k = simp (out_str-same, out_times-same)
  out_converted-same d (text s) k = elim (Bool-cases d.flags.left) [
    | inl e ↦ rw e (simp (out_str-same, out_times-same))
    | inr e ↦ rw e (simp (out_str-same, out_times-same))
  ]

  abbrev pub carried : Option (List ℕ × List Arg × S) → Option (List ℕ × List Arg × T)
  carried none = none
  carried (some (p, args, k)) = some (p, args, h k)

  abbrev pub mapped : Option S → Option T
  mapped none = none
  mapped (some k) = some (h k)

  out_argument-same :
      (d : Directive) (spec : ℕ) (p : List ℕ) (args : List Arg) (k : S)
      → out_argument put_out d spec p args (h k) ≡ carried (out_argument out d spec p args k)
  unfolding out_argument
  out_argument-same d spec p [] k = refl
  out_argument-same d spec p (a ∷ args) k = go (convert d spec a)
    where
      go :
          (o : Option Converted)
          → (o >>= λ c.
              if counts_int d c then some (p, args, out_converted put_out d c (h k)) else none)
            ≡ carried (
                o >>= λ c. if counts_int d c then some (p, args, out_converted out d c k) else none)
      go none = refl
      go (some c) = elim (Bool-cases (counts_int d c)) [
        | inl e ↦ rw e (rw (out_converted-same d c k) refl)
        | inr e ↦ rw e refl
      ]

  out_directive-same :
      (d : Directive × List ℕ) (args : List Arg) (k : S)
      → out_directive put_out d args (h k) ≡ carried (out_directive out d args k)
  unfolding out_directive
  out_directive-same (d, []) args k = refl
  out_directive-same (d, spec ∷ p) args k = elim (Bool-cases (is_letter spec)) [
    | inl e ↦ rw e (out_argument-same d spec p args k)
    | inr e ↦ rw e (simp same)
  ]

  behind_percent-same :
      (p : List ℕ) (args : List Arg) (k : S)
      → behind_percent put_out p args (h k) ≡ carried (behind_percent out p args k)
  unfolding behind_percent
  behind_percent-same [] args k = refl
  behind_percent-same (c ∷ p) args k = elim (Bool-cases (c == b'%')) [
    | inl e ↦ rw e (simp same)
    | inr e ↦ rw e (elim (Bool-cases (fits_int (read_directive (c ∷ p)).0)) [
      | inl g ↦ rw g (out_directive-same (read_directive (c ∷ p)) args k)
      | inr g ↦ rw g refl
    ])
  ]

  format_round-same :
      (c : ℕ) (p : List ℕ) (args : List Arg) (k : S)
      → format_round put_out c p args (h k) ≡ carried (format_round out c p args k)
  unfolding format_round
  format_round-same c p args k = elim (Bool-cases (c == b'%')) [
    | inl e ↦ rw e (behind_percent-same p args k)
    | inr e ↦ rw e (simp same)
  ]

  pub format_loop-same :
      (f : ℕ) (p : List ℕ) (args : List Arg) (k : S)
      → format_loop put_out f p args (h k) ≡ mapped (format_loop out f p args k)
  unfolding format_loop
  format_loop-same zero p args k = refl
  format_loop-same (suc f) [] args k = refl
  format_loop-same (suc f) (c ∷ p) args k =
      rw (format_round-same c p args k)
        (go (format_round out c p args k) (λ q rest t. format_loop-same f q rest t))
    where
      go :
          (r : Option (List ℕ × List Arg × S))
          → ((q : List ℕ) (rest : List Arg) (t : S)
              → format_loop put_out f q rest (h t) ≡ mapped (format_loop out f q rest t))
          → (carried r >>= λ x. format_loop put_out f x.0 x.1 x.2)
            ≡ mapped (r >>= λ x. format_loop out f x.0 x.1 x.2)
      go none more = refl
      go (some (q, rest, t)) more = more q rest t
