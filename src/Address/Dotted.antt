-- ===== src/Address/Dotted.antt =====
-- src/inet_aton.c on a text in dotted form.
use vlibc.Base.{
  ℕ, ◌+◌, ◌*◌, ◌^◌, ◌≤◌, ◌≡◌, refl, true, false, List, [], ◌∷◌, ◌++◌, some, arith, leb,
}
use vlibc.Strto.{long_max, digit_val}
use vlibc.Strto.Digits.{Spells, NoDigit, value}
use vlibc.Strto.Split.{strtol-decimal}
use vlibc.Address.{in_byte, part, behind_dot, at_end, parse_ipv4, inet_aton}

-- A text of one or more decimal digits that spells a number of at most 255.
pub record Octet (n : ℕ) : Type 0 where
  pub first : ℕ
  pub others : List ℕ
  pub digits : List ℕ
  pub spelled : Spells 10 (first ∷ others) digits
  pub number : value 10 0 digits ≡ n
  pub fits : n ≤ 255

abbrev pub text : {n : ℕ} → Octet n → List ℕ
text o = o.first ∷ o.others

part-Octet :
    (n : ℕ) (o : Octet n) (rest : List ℕ) → NoDigit 10 rest → part (text o ++ rest) ≡ some (n, rest)
unfolding part in_byte
part-Octet n o rest stop =
    let long : leb n long_max ≡ true = ground (arith, o.fits) in
    let byte : leb n 255 ≡ true = ground (arith, o.fits) in
    rw (strtol-decimal false o.first o.others o.digits rest o.spelled stop)
      (rw o.number (rw (long, byte) refl))

dot-NoDigit : (s : List ℕ) → NoDigit 10 (b'.' ∷ s)
unfolding digit_val
dot-NoDigit s = refl

at_end-NoDigit : (s : List ℕ) → at_end s ≡ true → NoDigit 10 s
unfolding at_end digit_val
at_end-NoDigit [] h = tt
at_end-NoDigit (c ∷ s) h = ground arith

module _ (htonl : ℕ → ℕ) (a b c d : ℕ) (oa : Octet a) (ob : Octet b) (oc : Octet c)
    (od : Octet d) where
  abbrev pub dotted : List ℕ → List ℕ
  dotted rest = text oa ++ b'.' ∷ (text ob ++ b'.' ∷ (text oc ++ b'.' ∷ (text od ++ rest)))

  -- inet_aton on four decimal numbers of at most 255 with dots between them, and the end of the text, a
  -- space or a tab behind them, stores the address of which they are the bytes, the first the
  -- highest, in network order.
  pub inet_aton-dotted :
      (rest : List ℕ)
      → at_end rest ≡ true
      → inet_aton htonl (some (dotted rest))
        ≡ some (htonl (a * 2 ^ 24 + b * 2 ^ 16 + c * 2 ^ 8 + d))
  unfolding inet_aton parse_ipv4 behind_dot
  inet_aton-dotted rest ended =
      let u : List ℕ = text od ++ rest in
      let v : List ℕ = text oc ++ b'.' ∷ u in
      let w : List ℕ = text ob ++ b'.' ∷ v in
      rw (part-Octet a oa (b'.' ∷ w) (dot-NoDigit w)) (
        rw (part-Octet b ob (b'.' ∷ v) (dot-NoDigit v)) (
          rw (part-Octet c oc (b'.' ∷ u) (dot-NoDigit u))
            (rw (part-Octet d od rest (at_end-NoDigit rest ended)) (rw ended refl))))
