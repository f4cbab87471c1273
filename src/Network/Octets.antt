-- ===== src/Network/Octets.antt =====
-- src/inet_ntop.c and src/inet_pton.c: one number of an address, as printf writes it and strtol reads it.
use vlibc.Base.{
  ℕ,
  zero,
  suc,
  ◌+◌,
  ◌/◌,
  ◌%◌,
  ◌^◌,
  ◌≤◌,
  ◌<◌,
  ◌≡◌,
  ◌≢◌,
  refl,
  sym,
  ap,
  true,
  false,
  Bool-cases,
  inl,
  inr,
  List,
  [],
  ◌∷◌,
  ◌++◌,
  Option,
  none,
  some,
  arith,
  ◌==◌,
  length,
  ◌>>=◌,
  Int.{pos},
}
use vlibc.Memory.{NoNul}
use vlibc.Printf.{no_flags, len_none, digit_char, to_base, ull_to_base, to_unsigned}
use vlibc.Printf.Format.{counts_int, number, Arg, integer, Directive, Number, format_loop}
use vlibc.Printf.Buffer.{behind}
use vlibc.Printf.Decimal.{length-ull_to_base, ull_to_base-Decimal, out_number-plain}
use vlibc.Address.{at_end, parse_ipv4, inet_aton}
use vlibc.Address.Dotted.{Octet, text}

abbrev pub decimal : ℕ → List ℕ
decimal n = ull_to_base n 10 false

pub to_base-length :
    (f g v : ℕ) (buf : List ℕ)
    → v < 10 ^ suc g
    → length (to_base f v 10 false buf) ≤ suc g + length buf
unfolding to_base
to_base-length zero g v buf h = omega arith
to_base-length (suc f) zero v buf h =
    let t : (v / 10 == 0) ≡ true = ground arith in rw t (omega arith)
to_base-length (suc f) (suc g) v buf h = elim (Bool-cases (v / 10 == 0)) [
  | inl t ↦ rw t (omega arith)
  | inr t ↦
      let small : v / 10 < 10 ^ suc g = omega arith in
      rw t (omega (arith, to_base-length f g (v / 10) (digit_char false (v % 10) ∷ buf) small))
]

pub to_base-NoNul : (f v : ℕ) (buf : List ℕ) → NoNul buf → NoNul (to_base f v 10 false buf)
unfolding to_base digit_char
to_base-NoNul zero v buf h = h
to_base-NoNul (suc f) v buf h =
    let nz : digit_char false (v % 10) ≢ 0 = ground arith in
    elim (Bool-cases (v / 10 == 0)) [
      | inl t ↦ rw t (nz, h)
      | inr t ↦ rw t (to_base-NoNul f (v / 10) (digit_char false (v % 10) ∷ buf) (nz, h))
    ]

pub NoNul-append : (s t : List ℕ) → NoNul s → NoNul t → NoNul (s ++ t)
NoNul-append [] t hs ht = ht
NoNul-append (c ∷ s) t (nz, hs) ht = (nz, NoNul-append s t hs ht)

pub decimal-NoNul : (n : ℕ) → NoNul (decimal n)
unfolding ull_to_base
decimal-NoNul n = to_base-NoNul 64 n [] tt

pub decimal-length : (n : ℕ) → n < 256 → length (decimal n) ≤ 3
unfolding ull_to_base
decimal-length n h = let k = to_base-length 64 2 n [] (omega arith) in omega (arith, k)

pub octet : (n : ℕ) → n < 256 → (o : Octet n) × (text o ≡ decimal n)
octet n h =
    let s = ull_to_base-Decimal n (omega arith) in
    (
      record {
        first = s.first;
        others = s.others;
        digits = s.digits;
        spelled = s.spelled;
        number = s.number;
        fits = omega arith;
      },
      sym s.whole,
    )

pub parse_ipv4-inet_aton :
    (s : List ℕ) (x : ℕ) → inet_aton (λ y. y) (some s) ≡ some x → parse_ipv4 s ≡ some x
unfolding inet_aton
parse_ipv4-inet_aton s x h = go (parse_ipv4 s) h
  where
    go : (o : Option ℕ) → (o >>= λ ip. some ip) ≡ some x → o ≡ some x
    go none e = e
    go (some y) e = e

pub joined : (s t u v : List ℕ) → s ≡ t → u ≡ v → s ++ b'.' ∷ u ≡ t ++ b'.' ∷ v
joined s t u v e h = rw (e, h) refl

pub at_end_nil : at_end [] ≡ true
unfolding at_end
at_end_nil = refl

-- "%u" puts a number of unsigned int behind what is there.
pub format-u :
    (f n : ℕ) (p k : List ℕ) (args : List Arg)
    → n < 2 ^ 32
    → format_loop behind (suc f) (b'%' ∷ b'u' ∷ p) (integer (pos n) ∷ args) k
      ≡ format_loop behind f p args (k ++ decimal n)
unfolding format_loop to_unsigned counts_int
format-u f n p k args h =
    let e : n % 2 ^ 32 ≡ n = omega arith in
    let d : Directive = record {
      flags = no_flags;
      width = 0;
      precision = none;
      length_modifier = len_none;
    } in
    let plain : Number = record { sign = []; prefix = []; digits = decimal n } in
    let few : counts_int d (number plain) ≡ true = ground (arith, length-ull_to_base n 10 false) in
    rw (e, few)
      (ap (λ (s : List ℕ). format_loop behind f p args s)
        (out_number-plain d plain k refl refl refl))

pub format-dot :
    (f : ℕ) (p k : List ℕ) (args : List Arg)
    → format_loop behind (suc f) (b'.' ∷ p) args k ≡ format_loop behind f p args (k ++ b'.' ∷ [])
unfolding format_loop
format-dot f p k args = refl

pub format-end :
    (f : ℕ) (k : List ℕ) (args : List Arg) → format_loop behind (suc f) [] args k ≡ some k
unfolding format_loop
format-end f k args = refl
