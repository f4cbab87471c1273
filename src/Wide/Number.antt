-- ===== src/Wide/Number.antt =====
-- src/wchar_conv.c: wcs_to_mb_tmp and the conversions to integers by way of it. The text on the stack has room for 128
-- bytes; `room` is whether malloc answers for a longer one.
pub mod Ascii
use vlibc.Base.{
  ℕ, zero, suc, ◌+◌, ◌-◌, Bool, true, false, not, ◌||◌, List, [], ◌∷◌, Option, none, some, ltb,
  ◌==◌, if◌then◌else◌, length, drop,
}
use vlibc.Base.Int.{ℤ, pos}
use vlibc.Strto.{Conv, Errno, strtol, strtoul, strtoll, strtoull, strtoimax, strtoumax}
use vlibc.Wide.{Host, wcstombs}

pub data WideErrno : Type 0 where
  bad_sequence no_memory : WideErrno
  of_number : Errno → WideErrno

-- The bytes before the terminator.
unfoldable pub text_of : List ℕ → List ℕ
text_of [] = []
text_of (c ∷ s) = let rest = text_of s in if c == 0 then [] else c ∷ rest

pub data Text : Type 0 where
  text : List ℕ → Text
  no_text : WideErrno → Text

module _ (host : Host) (room : Bool) where
  -- The text of `len` bytes.
  unfoldable pub with_length : List ℕ → Option ℕ → Text
  unfolding wcstombs text_of
  with_length s none = no_text bad_sequence
  with_length s (some len) =
      if ltb len 128 || room
      then text (text_of (wcstombs host true s (len + 1)).1)
      else no_text no_memory

  unfoldable pub wcs_to_mb_tmp : List ℕ → Text
  unfolding wcstombs with_length
  wcs_to_mb_tmp s = with_length s (wcstombs host false s 0).0

pub record WideConv (V : Type 0) : Type 0 where
  pub value : V
  pub endptr : List ℕ
  pub errno : Option WideErrno

abbrev pub number_errno : Option Errno → Option WideErrno
number_errno none = none
number_errno (some e) = some (of_number e)

module _ {V : Type 0} (zero_value : V) (strto : List ℕ → ℕ → Conv V) where
  -- The body that they share: `nptr + (end - mb)` is the place as far in the wide string as `end` is in the text.
  unfoldable pub wide_number : Text → List ℕ → ℕ → WideConv V
  wide_number (no_text e) nptr base = record { value = zero_value; endptr = nptr; errno = some e }
  wide_number (text mb) nptr base =
      let v = strto mb base in
      record {
        value = v.value;
        endptr = drop (length mb - length v.endptr) nptr;
        errno = number_errno v.errno;
      }

module _ (host : Host) (room : Bool) where
  unfoldable pub wcstol : List ℕ → ℕ → WideConv ℤ
  unfolding wide_number wcs_to_mb_tmp
  wcstol nptr base = wide_number (pos 0) strtol (wcs_to_mb_tmp host room nptr) nptr base

  unfoldable pub wcstoul : List ℕ → ℕ → WideConv ℕ
  unfolding wide_number wcs_to_mb_tmp
  wcstoul nptr base = wide_number 0 strtoul (wcs_to_mb_tmp host room nptr) nptr base

  unfoldable pub wcstoll : List ℕ → ℕ → WideConv ℤ
  unfolding wide_number wcs_to_mb_tmp
  wcstoll nptr base = wide_number (pos 0) strtoll (wcs_to_mb_tmp host room nptr) nptr base

  unfoldable pub wcstoull : List ℕ → ℕ → WideConv ℕ
  unfolding wide_number wcs_to_mb_tmp
  wcstoull nptr base = wide_number 0 strtoull (wcs_to_mb_tmp host room nptr) nptr base

  unfoldable pub wcstoimax : List ℕ → ℕ → WideConv ℤ
  unfolding wide_number wcs_to_mb_tmp
  wcstoimax nptr base = wide_number (pos 0) strtoimax (wcs_to_mb_tmp host room nptr) nptr base

  unfoldable pub wcstoumax : List ℕ → ℕ → WideConv ℕ
  unfolding wide_number wcs_to_mb_tmp
  wcstoumax nptr base = wide_number 0 strtoumax (wcs_to_mb_tmp host room nptr) nptr base
