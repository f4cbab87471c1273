-- ===== src/Wide/Number/Ascii.antt =====
-- src/wchar_conv.c: the conversions to integers agree with those of src/strto.c.
use vlibc.Base.{
  ℕ, zero, suc, ◌+◌, ◌≤◌, ◌<◌, ◌≡◌, refl, sym, ap, ◌∙◌, subst, ◌⊎◌, Bool, true, false, ◌||◌, List,
  [], ◌∷◌, Option, ltb, leb, ◌==◌, length, All, arith,
}
use vlibc.Base.Int.{pos}
use vlibc.Strto.{Conv, strtol, strtoul, strtoll, strtoull, strtoimax, strtoumax}
use vlibc.Strto.Tail.{
  IsTail, strtol-IsTail, strtoul-IsTail, strtoll-IsTail, strtoull-IsTail, strtoimax-IsTail,
  strtoumax-IsTail, drop-IsTail,
}
use vlibc.Wide.{Host, has_non_ascii, copy_ascii, convert_ascii, wcstombs}
use vlibc.Wide.Number.{
  number_errno, text_of, Text, text, with_length, wcs_to_mb_tmp, WideConv, wide_number, wcstol,
  wcstoul, wcstoll, wcstoull, wcstoimax, wcstoumax,
}

-- Characters of ASCII, none of them a terminator.
abbrev pub IsAscii : List ℕ → Type 0
IsAscii s = All (λ (c : ℕ). (1 ≤ c) × (c < 128)) s

ascii-has_non_ascii : (s : List ℕ) → IsAscii s → has_non_ascii s ≡ false
unfolding has_non_ascii
ascii-has_non_ascii [] h = refl
ascii-has_non_ascii (c ∷ s) ((_, b), h) =
    let t : leb 128 c ≡ false = ground arith in rw t (ascii-has_non_ascii s h)

text_of-copy_ascii :
    (n : ℕ) (s : List ℕ) → IsAscii s → length s ≤ n → text_of (copy_ascii (n + 1) s) ≡ s
unfolding text_of copy_ascii
text_of-copy_ascii n s a h =
    subst (λ (m : ℕ). text_of (copy_ascii m s) ≡ s) {x = suc n} (omega arith) (go n s a h)
  where
    go : (n : ℕ) (s : List ℕ) → IsAscii s → length s ≤ n → text_of (copy_ascii (suc n) s) ≡ s
    go n [] a h = refl
    go zero (c ∷ s) a h = elim h [ ]
    go (suc n) (c ∷ s) ((b, _), a) h =
        let t : (c == 0) ≡ false = ground arith in rw t (ap (c ∷◌) (go n s a (omega arith)))

wcstombs-convert_ascii :
    (host : Host) (dst : Bool) (s : List ℕ) (n : ℕ)
    → IsAscii s
    → wcstombs host dst s n ≡ convert_ascii dst s n
unfolding wcstombs
wcstombs-convert_ascii host dst s n a = rw (ascii-has_non_ascii s a) refl

wcs_to_mb_tmp-text :
    (host : Host) (room : Bool) (s : List ℕ)
    → IsAscii s
    → (length s < 128) ⊎ (room ≡ true)
    → wcs_to_mb_tmp host room s ≡ text s
unfolding wcs_to_mb_tmp with_length convert_ascii
wcs_to_mb_tmp-text host room s a h =
    let t : (ltb (length s) 128 || room) ≡ true = ground arith in
    rw (wcstombs-convert_ascii host false s 0 a, t)
      (ap (λ (r : Option ℕ × List ℕ). text (text_of r.1))
          (wcstombs-convert_ascii host true s (length s + 1) a)
        ∙ ap text (text_of-copy_ascii (length s) s a (omega arith)))

-- A conversion of src/strto.c, told of as one of wide strings.
abbrev pub widened : {V : Type 0} → Conv V → WideConv V
widened c = record { value = c.value; endptr = c.endptr; errno = number_errno c.errno }

wide_number-widened :
    {V : Type 0} (z : V) (strto : List ℕ → ℕ → Conv V) (s : List ℕ) (base : ℕ) (t : Text)
    → t ≡ text s
    → IsTail (strto s base).endptr s
    → wide_number z strto t s base ≡ widened (strto s base)
unfolding wide_number
wide_number-widened z strto s base t e h =
    subst (λ (u : Text). wide_number z strto u s base ≡ widened (strto s base)) (sym e)
      (ap
        (λ (p : List ℕ). record {
          value = (strto s base).value;
          endptr = p;
          errno = number_errno (strto s base).errno;
        })
        (drop-IsTail _ s h))

-- For a wide string of ASCII, which is shorter than 128 characters or for which the allocator answers, in every base the
-- six conversions have the value, the place where they stop and the error of the conversion of src/strto.c on the
-- characters as bytes, whatever the conversions of the host are.
pub wcstol-strtol :
    (host : Host) (room : Bool) (nptr : List ℕ) (base : ℕ)
    → IsAscii nptr
    → (length nptr < 128) ⊎ (room ≡ true)
    → (wcstol host room nptr base ≡ widened (strtol nptr base))
      × (wcstoul host room nptr base ≡ widened (strtoul nptr base))
      × (wcstoll host room nptr base ≡ widened (strtoll nptr base))
      × (wcstoull host room nptr base ≡ widened (strtoull nptr base))
      × (wcstoimax host room nptr base ≡ widened (strtoimax nptr base))
      × (wcstoumax host room nptr base ≡ widened (strtoumax nptr base))
unfolding wcstol wcstoul wcstoll wcstoull wcstoimax wcstoumax
wcstol-strtol host room nptr base a h =
    let e = wcs_to_mb_tmp-text host room nptr a h in
    (
      wide_number-widened (pos 0) strtol nptr base _ e (strtol-IsTail nptr base),
      wide_number-widened 0 strtoul nptr base _ e (strtoul-IsTail nptr base),
      wide_number-widened (pos 0) strtoll nptr base _ e (strtoll-IsTail nptr base),
      wide_number-widened 0 strtoull nptr base _ e (strtoull-IsTail nptr base),
      wide_number-widened (pos 0) strtoimax nptr base _ e (strtoimax-IsTail nptr base),
      wide_number-widened 0 strtoumax nptr base _ e (strtoumax-IsTail nptr base),
    )
