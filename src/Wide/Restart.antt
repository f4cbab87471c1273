-- ===== src/Wide/Restart.antt =====
-- src/wchar_conv.c: mbsrtowcs reads back what wcsrtombs writes.
use vlibc.Base.{
  ℕ, zero, suc, ◌+◌, ◌-◌, ◌≤◌, ◌<◌, ◌≡◌, refl, sym, ap, ◌∙◌, subst, Bool, true, false, List, [],
  ◌∷◌, ◌++◌, append_assoc, append-nil, Option, none, some, ltb, leb, ◌==◌, if◌then◌else◌, length,
  drop, All, arith, length-append,
}
use vlibc.Wide.{
  Host, Decoded, char, mbrtowc, wcrtomb, Restarted, mb_round, mb_loop, wc_round, wc_loop, mbsrtowcs,
  wcsrtombs,
}

-- Bytes of which the first is not ASCII.
abbrev pub Leads : List ℕ → Type 0
Leads [] = ⊥
Leads (c ∷ s) = 128 ≤ c

-- That the host decodes what it encodes: the bytes of a character that is not ASCII begin with one that is not, and
-- mbrtowc takes them for that character when it may look at all of them.
abbrev pub Agrees : Host → Type 0
Agrees host =
    (wc : ℕ) (bytes : List ℕ)
    → 128 ≤ wc
    → host.host_wcrtomb wc ≡ some bytes
    → Leads bytes
      × ((rest : List ℕ) (n : ℕ)
          → length bytes ≤ n
          → host.host_mbrtowc (bytes ++ rest) n ≡ char (length bytes - 1) wc)

module _ (host : Host) (agrees : Agrees host) where
  -- The bytes of the characters, one after another.
  abbrev Encodes : List ℕ → List ℕ → Type 0
  Encodes [] bytes = bytes ≡ []
  Encodes (wc ∷ s) bytes =
      (b : List ℕ) × (rest : List ℕ) × (wcrtomb host wc ≡ some b)
      × Encodes s rest
      × (bytes ≡ b ++ rest)

  -- One character: it is decoded, has a byte at least, and the bytes behind it are left.
  abbrev Decodes : ℕ → List ℕ → List ℕ → Type 0
  Decodes wc b rest =
      (mbrtowc host (some (b ++ rest)) (length (b ++ rest) + 1) ≡ char (length b - 1) wc)
      × (1 ≤ length b)
      × (drop (length b - 1) (drop 1 (b ++ rest)) ≡ rest)

  drop_bytes : (b rest : List ℕ) → drop (length b) (b ++ rest) ≡ rest
  drop_bytes [] rest = refl
  drop_bytes (c ∷ b) rest = drop_bytes b rest

  led-Decodes :
      (wc : ℕ) (b rest : List ℕ)
      → Leads b
      → ((rest : List ℕ) (n : ℕ)
          → length b ≤ n
          → host.host_mbrtowc (b ++ rest) n ≡ char (length b - 1) wc)
      → Decodes wc b rest
  unfolding mbrtowc
  led-Decodes wc [] rest l h = elim l [ ]
  led-Decodes wc (c ∷ b) rest l h =
      let t : ltb c 128 ≡ false = ground arith in
      let n = suc (length (b ++ rest)) + 1 in
      let u : (n == 0) ≡ false = ground arith in
      (
        rw (u, t) (h rest n (omega (arith, length-append b rest))),
        omega arith,
        ap (λ (k : ℕ). drop k (b ++ rest)) {x = suc (length b) - 1} (omega arith)
            ∙ drop_bytes b rest,
      )

  wcrtomb-Decodes :
      (wc : ℕ) (b rest : List ℕ) → 1 ≤ wc → wcrtomb host wc ≡ some b → Decodes wc b rest
  unfolding wcrtomb mbrtowc
  wcrtomb-Decodes wc b rest p e = by_test (ltb wc 128) refl e
    where
      ascii : (b : List ℕ) → wc ∷ [] ≡ b → wc < 128 → Decodes wc b rest
      ascii b q l =
          let t : ltb wc 128 ≡ true = ground arith in
          let n : (suc (length rest) + 1 == 0) ≡ false = ground arith in
          let z : (wc == 0) ≡ false = ground arith in
          subst (λ (v : List ℕ). Decodes wc v rest) q (rw (n, t, z) refl, omega arith, refl)

      by_test :
          (x : Bool)
          → ltb wc 128 ≡ x
          → (if x then some (wc ∷ []) else host.host_wcrtomb wc) ≡ some b
          → Decodes wc b rest
      by_test true t q = ascii b (ground arith) (ground arith)
      by_test false t q = let a = agrees wc b (ground arith) q in led-Decodes wc b rest a.0 a.1

  abbrev Converted : List ℕ → ℕ → List ℕ → ℕ → Restarted → Type 0
  Converted s count out n r =
      (bytes : List ℕ) × Encodes s bytes
      × (r.count ≡ some (count + length bytes))
      × (r.stored
          ≡ (if leb (count + length bytes + 1) n then out ++ bytes ++ 0 ∷ [] else out ++ bytes))

  wc_loop-Converted :
      (n : ℕ) (start s : List ℕ) (count : ℕ) (out : List ℕ)
      → (wc_loop host true n start s count out).src ≡ none
      → Converted s count out n (wc_loop host true n start s count out)
  unfolding wc_loop
  wc_loop-Converted n start [] count out e =
      let k : count + 0 ≡ count = omega arith in
      ([], refl, ap some (sym k), rw (k, append-nil out) refl)
  wc_loop-Converted n start (wc ∷ s) count out e =
      by_bytes (wcrtomb host wc) refl e (λ c o. wc_loop-Converted n start s c o)
    where
      go_on :
          (b : List ℕ)
          → wcrtomb host wc ≡ some b
          → Converted s
              (count + length b)
              (out ++ b)
              n
              (wc_loop host true n start s (count + length b) (out ++ b))
          → Converted
              (wc ∷ s)
              count
              out
              n
              (wc_loop host true n start s (count + length b) (out ++ b))
      go_on b w (bytes, h, c, q) =
          let k : count + length b + length bytes ≡ count + length (b ++ bytes) =
            omega (arith, length-append b bytes) in
          (
            b ++ bytes,
            (b, bytes, w, h, refl),
            c ∙ ap some k,
            q
                ∙ ap
                    (λ (m : ℕ).
                      if leb (m + 1) n then out ++ b ++ bytes ++ 0 ∷ [] else out ++ b ++ bytes)
                    k
                ∙ ap
                    (λ (v : List ℕ).
                      if leb (count + length (b ++ bytes) + 1) n then v ++ 0 ∷ [] else v)
                    (append_assoc out b bytes),
          )

      by_test :
          (x : Bool) (b : List ℕ)
          → wcrtomb host wc ≡ some b
          → (if x
              then record { count = some count; stored = out; src = some (wc ∷ s) }
              else wc_loop host true n start s (count + length b) (out ++ b)).src
            ≡ none
          → ((c : ℕ) (o : List ℕ)
              → (wc_loop host true n start s c o).src ≡ none
              → Converted s c o n (wc_loop host true n start s c o))
          → Converted (wc ∷ s) count out n (
              if x
              then record { count = some count; stored = out; src = some (wc ∷ s) }
              else wc_loop host true n start s (count + length b) (out ++ b))
      by_test true b w k again = absurd (ground arith)
      by_test false b w k again = go_on b w (again (count + length b) (out ++ b) k)

      by_bytes :
          (r : Option (List ℕ))
          → wcrtomb host wc ≡ r
          → (wc_round host true n start (wc_loop host true n start s) r (wc ∷ s) count out).src
            ≡ none
          → ((c : ℕ) (o : List ℕ)
              → (wc_loop host true n start s c o).src ≡ none
              → Converted s c o n (wc_loop host true n start s c o))
          → Converted
              (wc ∷ s)
              count
              out
              n
              (wc_round host true n start (wc_loop host true n start s) r (wc ∷ s) count out)
      by_bytes none w k again = absurd (ground arith)
      by_bytes (some b) w k again = by_test (ltb n (count + length b)) b w k again

  abbrev restarted : List ℕ → ℕ → List ℕ → Option Restarted
  restarted s count out =
      some (record { count = some (count + length s); stored = out ++ (s ++ 0 ∷ []); src = none })

  go_on :
      (wc : ℕ) (s : List ℕ) (count : ℕ) (out : List ℕ)
      → restarted s (count + 1) (out ++ wc ∷ []) ≡ restarted (wc ∷ s) count out
  go_on wc s count out =
      let k : count + 1 + length s ≡ count + suc (length s) = omega arith in
      rw (k, append_assoc out (wc ∷ []) (s ++ 0 ∷ [])) refl

  mb_loop-Encodes :
      (n : ℕ) (start s bytes : List ℕ) (f count : ℕ) (out : List ℕ)
      → Encodes s bytes
      → All (λ (wc : ℕ). 1 ≤ wc) s
      → length bytes < f
      → count + length s < n
      → mb_loop host true n start f bytes count out ≡ restarted s count out
  unfolding mb_loop
  mb_loop-Encodes n start s bytes zero count out h p l m = elim l [ ]
  mb_loop-Encodes n start [] bytes (suc f) count out e p l m =
      let k : ltb count n ≡ true = ground arith in
      let j : count + 0 ≡ count = omega arith in
      subst
        (λ (v : List ℕ).
          mb_loop host true n start (suc f) v count out
          ≡ some (record { count = some (count + 0); stored = out ++ 0 ∷ []; src = none }))
        (sym e) (rw (j, k) refl)
  mb_loop-Encodes n start (wc ∷ s) bytes (suc f) count out (b, rest, w, h, e) (p, q) l m =
      let d = wcrtomb-Decodes wc b rest p w in
      let again = mb_loop host true n start f in
      let k : leb n count ≡ false = ground arith in
      subst
        (λ (v : List ℕ).
          mb_loop host true n start (suc f) v count out ≡ restarted (wc ∷ s) count out)
        (sym e)
        (ap (λ (x : Decoded). mb_round host true n start again x (b ++ rest) count out) d.0
          ∙ (rw k (ap (λ (v : List ℕ). again v (count + 1) (out ++ wc ∷ [])) d.2)
              ∙ (mb_loop-Encodes n start s rest f (count + 1) (out ++ wc ∷ []) h q
                    (omega (arith, ap length e, length-append b rest, d.1)) (omega arith)
                  ∙ go_on wc s count out)))

  -- If the host decodes what it encodes, a wide string without a terminator in it that wcsrtombs converts to its end is
  -- stored as bytes, as many as it counts and with a terminator if there is room for it, from which mbsrtowcs returns
  -- exactly the string, its length and a terminator, and takes them to their end, given room.
  pub mbsrtowcs-wcsrtombs :
      (s : List ℕ) (n m : ℕ)
      → All (λ (wc : ℕ). 1 ≤ wc) s
      → (wcsrtombs host true s n).src ≡ none
      → length s < m
      → (bytes : List ℕ) × ((wcsrtombs host true s n).count ≡ some (length bytes))
        × ((wcsrtombs host true s n).stored
            ≡ (if leb (length bytes + 1) n then bytes ++ 0 ∷ [] else bytes))
        × (mbsrtowcs host true bytes m
            ≡ some (record { count = some (length s); stored = s ++ 0 ∷ []; src = none }))
  unfolding wcsrtombs mbsrtowcs
  mbsrtowcs-wcsrtombs s n m p e l =
      let c = wc_loop-Converted n s s 0 [] e in
      let bytes = c.0 in
      let z : 0 + length bytes ≡ length bytes = omega arith in
      let y : 0 + length s ≡ length s = omega arith in
      (
        bytes,
        c.2 ∙ ap some z,
        c.3 ∙ ap (λ (k : ℕ). if leb (k + 1) n then bytes ++ 0 ∷ [] else bytes) z,
        mb_loop-Encodes m bytes s bytes (length bytes + 1) 0 [] c.1 p (omega arith) (omega arith)
            ∙ ap (λ (k : ℕ). some (record { count = some k; stored = s ++ 0 ∷ []; src = none })) y,
      )
