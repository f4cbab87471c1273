-- ===== src/Wide.antt =====
-- src/wchar_conv.c: multibyte and wide characters. The conversions of the host's C library, which the code calls for all
-- that is not ASCII, are parameters. A wchar_t is its 32 bits as a number; a string is the list of its bytes or of its
-- wide characters before the terminator, and a place in it the list from there on. What is stored at `dst` is a list;
-- `dst` itself is whether it is there. The conversions to floating point are not here.
pub mod Number
pub mod Restart
use vlibc.Base.{
  ℕ, zero, suc, ◌+◌, ◌-◌, ◌%◌, ◌^◌, Bool, true, false, not, ◌&&◌, ◌||◌, List, [], ◌∷◌, ◌++◌, Option,
  none, some, ltb, leb, ◌==◌, if◌then◌else◌, length, take, drop, ◌>>=◌,
}

-- What mbrtowc answers: -1, -2, 0, or a character of `r` + 1 bytes.
pub data Decoded : Type 0 where
  invalid incomplete ended : Decoded
  char : ℕ → ℕ → Decoded

-- wint_t and int results of which -1 is `none`.
pub record Host : Type 0 where
  pub host_mbrtowc : List ℕ → ℕ → Decoded
  pub host_wcrtomb : ℕ → Option (List ℕ)
  pub host_mbstowcs : Bool → List ℕ → ℕ → Option ℕ × List ℕ
  pub host_wcstombs : Bool → List ℕ → ℕ → Option ℕ × List ℕ

unfoldable pub has_non_ascii : List ℕ → Bool
has_non_ascii [] = false
has_non_ascii (c ∷ s) = let rest = has_non_ascii s in if leb 128 c then true else rest

-- The loops of mbstowcs and wcstombs over ASCII: `n` more may be stored.
unfoldable pub copy_ascii : ℕ → List ℕ → List ℕ
copy_ascii zero s = []
copy_ascii (suc n) [] = 0 ∷ []
copy_ascii (suc n) (c ∷ s) = c ∷ copy_ascii n s

-- The count, and what is stored.
unfoldable pub convert_ascii : Bool → List ℕ → ℕ → Option ℕ × List ℕ
unfolding copy_ascii
convert_ascii true src n = (some (if ltb n (length src) then n else length src), copy_ascii n src)
convert_ascii false src n = (some (length src), [])

module _ (host : Host) where
  -- mbrtowc where there is a byte to look at.
  unfoldable pub first_char : List ℕ → ℕ → Decoded
  first_char [] n = ended
  first_char (c ∷ s) n =
      if ltb c 128 then (if c == 0 then ended else char 0 c) else host.host_mbrtowc (c ∷ s) n

  -- `s` is none for NULL.
  unfoldable pub mbrtowc : Option (List ℕ) → ℕ → Decoded
  unfolding first_char
  mbrtowc none n = ended
  mbrtowc (some s) n = if n == 0 then incomplete else first_char s n

  unfoldable pub mbrlen : Option (List ℕ) → ℕ → Decoded
  unfolding mbrtowc
  mbrlen = mbrtowc

  -- The bytes of a character, if `s` is not NULL.
  unfoldable pub wcrtomb : ℕ → Option (List ℕ)
  wcrtomb wc = if ltb wc 128 then some (wc ∷ []) else host.host_wcrtomb wc

  abbrev pub one_of : Decoded → Option ℕ
  one_of invalid = none
  one_of incomplete = none
  one_of ended = some 0
  one_of (char r wc) = some wc

  -- `c` is the int modulo 2 ^ 32.
  unfoldable pub btowc : ℕ → Option ℕ
  unfolding mbrtowc
  btowc c = if c == 2 ^ 32 - 1 then none else one_of (mbrtowc (some (c % 256 ∷ [])) 1)

  abbrev pub single : Option (List ℕ) → Option ℕ
  single (some (b ∷ [])) = some b
  single _ = none

  unfoldable pub wctob : ℕ → Option ℕ
  unfolding wcrtomb
  wctob wc = single (wcrtomb wc)

  unfoldable pub mbstowcs : Bool → List ℕ → ℕ → Option ℕ × List ℕ
  unfolding has_non_ascii convert_ascii
  mbstowcs dst src n =
      if has_non_ascii src then host.host_mbstowcs dst src n else convert_ascii dst src n

  unfoldable pub wcstombs : Bool → List ℕ → ℕ → Option ℕ × List ℕ
  unfolding has_non_ascii convert_ascii
  wcstombs dst src n =
      if has_non_ascii src then host.host_wcstombs dst src n else convert_ascii dst src n

-- The count or -1, what is stored, and `*src`, which is NULL at the end and `src` left alone after an error.
pub record Restarted : Type 0 where
  pub count : Option ℕ
  pub stored : List ℕ
  pub src : Option (List ℕ)

abbrev pub stored_if : Bool → List ℕ → List ℕ
stored_if true s = s
stored_if false s = []

module _ (host : Host) (dst : Bool) (n : ℕ) (start : List ℕ) where
  -- A round of mbsrtowcs at `s`, with what it goes on with.
  unfoldable pub mb_round :
      (List ℕ → ℕ → List ℕ → Option Restarted) → Decoded → List ℕ → ℕ → List ℕ → Option Restarted
  mb_round again invalid s count out =
      some (record { count = none; stored = out; src = some start })
  mb_round again incomplete s count out =
      some (record { count = some count; stored = out; src = some s })
  mb_round again ended s count out = some (record {
    count = some count;
    stored = if dst && ltb count n then out ++ 0 ∷ [] else out;
    src = none;
  })
  mb_round again (char r wc) s count out =
      if leb n count
      then some (record { count = some count; stored = out; src = some s })
      else again (drop r (drop 1 s)) (count + 1) (out ++ stored_if dst (wc ∷ []))

  -- Each round takes a byte at least, so that fuel for the bytes and a round more is enough.
  unfoldable pub mb_loop : ℕ → List ℕ → ℕ → List ℕ → Option Restarted
  unfolding mbrtowc mb_round
  mb_loop zero s count out = none
  mb_loop (suc f) s count out =
      mb_round (mb_loop f) (mbrtowc host (some s) (length s + 1)) s count out

  -- A round of wcsrtombs, with what it goes on with.
  unfoldable pub wc_round :
      (ℕ → List ℕ → Restarted) → Option (List ℕ) → List ℕ → ℕ → List ℕ → Restarted
  wc_round again none s count out = record { count = none; stored = out; src = some start }
  wc_round again (some bytes) s count out =
      if ltb n (count + length bytes)
      then record { count = some count; stored = out; src = some s }
      else again (count + length bytes) (out ++ stored_if dst bytes)

  unfoldable pub wc_loop : List ℕ → ℕ → List ℕ → Restarted
  unfolding wcrtomb wc_round
  wc_loop [] count out = record {
    count = some count;
    stored = if dst && leb (count + 1) n then out ++ 0 ∷ [] else out;
    src = none;
  }
  wc_loop (wc ∷ s) count out = wc_round (wc_loop s) (wcrtomb host wc) (wc ∷ s) count out

-- `n`, or (size_t)-1 if nothing is stored.
abbrev pub limit : Bool → ℕ → ℕ
limit true n = n
limit false n = 2 ^ 64 - 1

module _ (host : Host) where
  unfoldable pub mbsrtowcs : Bool → List ℕ → ℕ → Option Restarted
  unfolding mb_loop
  mbsrtowcs dst src n = mb_loop host dst (limit dst n) src (length src + 1) src 0 []

  unfoldable pub wcsrtombs : Bool → List ℕ → ℕ → Restarted
  unfolding wc_loop
  wcsrtombs dst src n = wc_loop host dst (limit dst n) src src 0 []
