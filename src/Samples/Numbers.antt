-- ===== src/Samples/Numbers.antt =====
-- src/strto.c, src/time_r.c, src/time_conv.c and src/rand48.c at small inputs.
use vlibc.Base.{ℕ, ◌≡◌, refl, arith, true, List, [], ◌∷◌, none, inl, inr}
use vlibc.Base.Int.{negsuc}
use vlibc.Strto.{strtol, digit_val}
use vlibc.Strto.Digits.{Spells, value}
use vlibc.Strto.Written.{InRadix, sixteen_hex, Digits, Ends, minus, strtol-written}
use vlibc.Address.{at_end}

-- " -0x1fz"
abbrev text : List ℕ
text = 32 ∷ 45 ∷ 48 ∷ 120 ∷ 49 ∷ 102 ∷ 122 ∷ []

after_prefix : InRadix 16 (48 ∷ 120 ∷ []) (49 ∷ 102 ∷ 122 ∷ []) 16
after_prefix = sixteen_hex (inl refl)

one_fifteen : Digits 16 (49 ∷ 102 ∷ []) (1 ∷ 15 ∷ [])
one_fifteen = (
  inl (refl, omega arith),
  omega arith,
  (inr (inl (refl, omega arith, omega arith)), omega arith, tt),
)

Ends-z : Ends 16 (122 ∷ [])
Ends-z d h = ground arith

strtol-written_example :
    strtol text 16 ≡ record { value = negsuc 30; endptr = 122 ∷ []; errno = none }
unfolding value
strtol-written_example =
    strtol-written (32 ∷ []) minus 16 (48 ∷ 120 ∷ []) 49 1 (102 ∷ []) (15 ∷ []) (122 ∷ []) 16
      (inl refl, tt) after_prefix one_fifteen Ends-z

forty_two : Spells 10 (52 ∷ 50 ∷ []) (4 ∷ 2 ∷ [])
unfolding digit_val
forty_two = (refl, omega arith, (refl, omega arith, tt))

ended : at_end [] ≡ true
unfolding at_end
ended = refl
