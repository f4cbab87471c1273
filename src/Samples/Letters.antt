-- ===== src/Samples/Letters.antt =====
-- Wide strings, with a host whose encoding is UTF-8 of two bytes.
use vlibc.Base.{
  ℕ, ◌+◌, ◌-◌, ◌*◌, ◌/◌, ◌%◌, ◌≤◌, ◌≡◌, refl, subst, inl, ◌++◌, Bool, true, false, List, [], ◌∷◌,
  none, some, ltb, leb, if◌then◌else◌, length, arith,
}
use vlibc.Strto.{strtol, strtoul, strtoll, strtoull, strtoimax, strtoumax}
use vlibc.Wide.{Host, Decoded, invalid, incomplete, char, mbsrtowcs, wcsrtombs, wcrtomb}
use vlibc.Wide.Restart.{Leads, Agrees, mbsrtowcs-wcsrtombs}
use vlibc.Wide.Number.{wcstol, wcstoul, wcstoll, wcstoull, wcstoimax, wcstoumax}
use vlibc.Wide.Number.Ascii.{widened, wcstol-strtol}

abbrev encode : ℕ → List ℕ
encode wc = (192 + wc / 64) ∷ (128 + wc % 64) ∷ []

abbrev decode : List ℕ → ℕ → Decoded
decode (b ∷ c ∷ s) n = if ltb n 2 then incomplete else char 1 ((b - 192) * 64 + (c - 128))
decode _ n = invalid

abbrev latin : Host
latin = record {
  host_mbrtowc = decode;
  host_wcrtomb = λ wc. if ltb wc 256 then some (encode wc) else none;
  host_mbstowcs = λ dst s n. (none, []);
  host_wcstombs = λ dst s n. (none, []);
}

encode-decode : (wc : ℕ) (rest : List ℕ) (n : ℕ) → 2 ≤ n → decode (encode wc ++ rest) n ≡ char 1 wc
encode-decode wc rest n h =
    let t : ltb n 2 ≡ false = ground arith in
    let e : (192 + wc / 64 - 192) * 64 + (128 + wc % 64 - 128) ≡ wc = omega arith in rw (t, e) refl

latin-Agrees : Agrees latin
latin-Agrees wc bytes h e = by_test (ltb wc 256) e
  where
    by_test :
        (x : Bool)
        → (if x then some (encode wc) else none) ≡ some bytes
        → Leads bytes
          × ((rest : List ℕ) (n : ℕ)
              → length bytes ≤ n
              → decode (bytes ++ rest) n ≡ char (length bytes - 1) wc)
    by_test true q =
        let b : encode wc ≡ bytes = ground arith in
        subst
          (λ (v : List ℕ).
            Leads v
            × ((rest : List ℕ) (n : ℕ)
                → length v ≤ n
                → decode (v ++ rest) n ≡ char (length v - 1) wc))
          b (omega arith, (λ rest n l. encode-decode wc rest n l))
    by_test false q = absurd (ground arith)

-- "caf" and an e with an accent.
abbrev cafe : List ℕ
cafe = 99 ∷ 97 ∷ 102 ∷ 233 ∷ []

converted : (wcsrtombs latin true cafe 6).src ≡ none
unfolding wcsrtombs wcrtomb
converted = refl

mbsrtowcs-wcsrtombs_example :
    (bytes : List ℕ) × ((wcsrtombs latin true cafe 6).count ≡ some (length bytes))
    × ((wcsrtombs latin true cafe 6).stored
        ≡ (if leb (length bytes + 1) 6 then bytes ++ 0 ∷ [] else bytes))
    × (mbsrtowcs latin true bytes 5
        ≡ some (record { count = some 4; stored = cafe ++ 0 ∷ []; src = none }))
mbsrtowcs-wcsrtombs_example =
    mbsrtowcs-wcsrtombs latin latin-Agrees cafe 6 5
      (omega arith, (omega arith, (omega arith, (omega arith, tt)))) converted (omega arith)

-- " -12x"
abbrev numeral : List ℕ
numeral = 32 ∷ 45 ∷ 49 ∷ 50 ∷ 120 ∷ []

wcstol-strtol_example :
    (wcstol latin false numeral 10 ≡ widened (strtol numeral 10))
    × (wcstoul latin false numeral 10 ≡ widened (strtoul numeral 10))
    × (wcstoll latin false numeral 10 ≡ widened (strtoll numeral 10))
    × (wcstoull latin false numeral 10 ≡ widened (strtoull numeral 10))
    × (wcstoimax latin false numeral 10 ≡ widened (strtoimax numeral 10))
    × (wcstoumax latin false numeral 10 ≡ widened (strtoumax numeral 10))
wcstol-strtol_example =
    wcstol-strtol latin false numeral 10
      (
        (omega arith, omega arith),
        (
          (omega arith, omega arith),
          (
            (omega arith, omega arith),
            ((omega arith, omega arith), ((omega arith, omega arith), tt)),
          ),
        ),
      )
      (inl (omega arith))
