-- ===== src/Network/Parse.antt =====
-- src/inet_pton.c: parse_ipv6 and inet_pton.
use vlibc.Base.{
  ℕ,
  zero,
  suc,
  ◌-◌,
  ◌/◌,
  ◌%◌,
  ◌^◌,
  Bool,
  true,
  false,
  List,
  [],
  ◌∷◌,
  ◌++◌,
  Option,
  none,
  some,
  leb,
  ltb,
  ◌==◌,
  if◌then◌else◌,
  length,
  take,
  drop,
  replicate,
  ◌>>=◌,
  Int.{ℤ, pos, negsuc},
}
use vlibc.Strto.{strtol}
use vlibc.Address.{parse_ipv4}
use vlibc.Network.{Address, inet, inet6, Errno, einval, eafnosupport}

-- The locals of parse_ipv6: what is left of the text, the words so far, of which there are `cur`, and `zpos`.
pub record State : Type 0 where
  pub text : List ℕ
  pub words : List ℕ
  pub zpos : Option ℕ

abbrev pub starts_colon : List ℕ → Bool
starts_colon [] = false
starts_colon (c ∷ s) = c == b':'

-- `val < 0 || val > 0xffff` the other way round.
abbrev pub in_word : ℤ → Option ℕ
in_word (pos n) = if leb n 65535 then some n else none
in_word (negsuc n) = none

-- A colon where a word should be: the second of "::".
abbrev pub second_colon : Option ℕ → List ℕ → List ℕ → Option State
second_colon (some z) s words = none
second_colon none s words =
    if starts_colon s
    then none
    else some (record { text = s; words = words; zpos = some (length words) })

-- An address with dots at the end, which is read from the dot on.
unfoldable pub dotted_tail : List ℕ → List ℕ → Option ℕ → Option State
unfolding parse_ipv4
dotted_tail s words zpos = if ltb 6 (length words) then none else do
  ipv4 ← parse_ipv4 s
  some (record {
    text = [];
    words = words ++ ipv4 / 2 ^ 16 % 2 ^ 16 ∷ ipv4 % 2 ^ 16 ∷ [];
    zpos = zpos;
  })

-- What stands behind a word, which is in `words`.
unfoldable pub behind_word : List ℕ → List ℕ → Option ℕ → Option State
unfolding dotted_tail
behind_word [] words zpos = some (record { text = []; words = words; zpos = zpos })
behind_word (c ∷ s) words zpos =
    if c == b'.'
    then dotted_tail (c ∷ s) words zpos
    else if c == b':'
    then some (record { text = s; words = words; zpos = zpos })
    else none

-- A round of the loop; `none` where the address is refused.
unfoldable pub parse_round : ℕ → List ℕ → State → Option State
unfolding behind_word
parse_round c s t =
    if c == b':'
    then second_colon t.zpos s t.words
    else let r = strtol (c ∷ s) 16 in
      do val ← in_word r.value; behind_word r.endptr (t.words ++ val ∷ []) t.zpos

-- `while (*s && cur < 8)`. A round adds a word, or sets `zpos`, which no later round does: 9 rounds are enough.
unfoldable pub parse_loop : ℕ → State → List ℕ → Option State
unfolding parse_round
parse_loop zero t s = none
parse_loop (suc f) t [] = some t
parse_loop (suc f) t (c ∷ s) =
    let next = do u ← parse_round c s t; parse_loop f u u.text
    in if ltb (length t.words) 8 then next else some t

-- The words from `zpos` on move to the end, with zeros before them.
unfoldable pub fill_words : Option ℕ → List ℕ → Option (List ℕ)
fill_words none words = if length words == 8 then some words else none
fill_words (some z) words = some (take z words ++ (replicate (8 - length words) 0 ++ drop z words))

abbrev pub bytes_of : List ℕ → List ℕ
bytes_of [] = []
bytes_of (w ∷ words) = w / 2 ^ 8 ∷ w % 2 ^ 8 ∷ bytes_of words

-- `if (*s) return -1;` and what follows.
unfoldable pub finish : State → Option (List ℕ)
unfolding fill_words
finish t =
    let out = fill_words t.zpos t.words >>= λ words. some (bytes_of words) in
    if length t.text == 0 then out else none

-- A colon at the start must be one of two.
unfoldable pub begin : List ℕ → Option State
begin [] = some (record { text = []; words = []; zpos = none })
begin (c ∷ []) =
    if c == b':' then none else some (record { text = c ∷ []; words = []; zpos = none })
begin (c ∷ d ∷ s) =
    if c == b':'
    then (if d == b':' then some (record { text = s; words = []; zpos = some 0 }) else none)
    else some (record { text = c ∷ d ∷ s; words = []; zpos = none })

unfoldable pub parse_ipv6 : List ℕ → Option (List ℕ)
unfolding begin parse_loop finish
parse_ipv6 s = do t ← begin s; u ← parse_loop 10 t t.text; finish u

-- The family asked for.
pub data Family : Type 0 where
  af_inet af_inet6 af_other : Family

-- What inet_pton answers: -1 with errno, 0, or 1 with the address in *dst.
pub data Result : Type 0 where
  failed : Errno → Result
  refused : Result
  parsed : Address → Result

abbrev pub result_of : Option Address → Result
result_of none = refused
result_of (some a) = parsed a

unfoldable pub inet_pton : (ℕ → ℕ) → Family → Option (List ℕ) → Bool → Result
unfolding parse_ipv4 parse_ipv6
inet_pton htonl af none has_dst = failed einval
inet_pton htonl af_inet (some src) true = result_of (do ip ← parse_ipv4 src; some (inet (htonl ip)))
inet_pton htonl af_inet6 (some src) true = result_of (do buf ← parse_ipv6 src; some (inet6 buf))
inet_pton htonl af_other (some src) true = failed eafnosupport
inet_pton htonl af (some src) false = failed einval
