-- ===== src/Vis/Decode.antt =====
-- unvis of src/vis.c reads back what nvis writes.
use vlibc.Base.{
  ℕ, ◌/◌, ◌<◌, ◌≤◌, ◌≡◌, refl, true, false, List, [], ◌∷◌, none, some, arith, ◌==◌, ==_false,
  Bool-cases, inl, inr, ◌≢◌, ◌⊎◌,
}
use vlibc.Vis.{nvis, unvis, need_octal, cstyle, octal, has, vis_cstyle, vis_noslash, plain_octal}

-- The bytes that the calls of unvis store, and the state at the end.
pub decode : ℕ → List ℕ → List ℕ × ℕ
decode state [] = ([], state)
decode state (c ∷ s) =
    let step = unvis c state in
    let rest = decode step.state s in elim step.cp [ none ↦ rest | some b ↦ (b ∷ rest.0, rest.1) ]

decode_char :
    (c : ℕ) (s : List ℕ)
    → c < 256
    → c ≢ b'\\'
    → decode 0 (c ∷ s) ≡ (c ∷ (decode 0 s).0, (decode 0 s).1)
unfolding decode unvis
decode_char c s byte ne = ground arith

decode_slash : decode 0 (b'\\' ∷ b'\\' ∷ []) ≡ (b'\\' ∷ [], 0)
unfolding decode unvis
decode_slash = refl

-- A byte that nvis leaves as it is, or doubles as a backslash, is read back by unvis.
pub decode-nvis_plain :
    (dlen c flag nextc : ℕ) {out : List ℕ}
    → c < 256
    → need_octal c flag ≡ false
    → has flag vis_noslash ≡ false
    → nvis dlen c flag nextc ≡ some out
    → decode 0 out ≡ (c ∷ [], 0)
unfolding nvis
decode-nvis_plain dlen c flag nextc {out} byte plain keep h = elim (Bool-cases (c == b'\\')) [
  | inl slash ↦
      let e : out ≡ b'\\' ∷ b'\\' ∷ [] = ground arith in
      let same : c ≡ b'\\' = ground arith in rw (e, same) decode_slash
  | inr other ↦
      let e : out ≡ c ∷ [] = ground arith in
      rw (e, decode_char c [] byte (==_false c b'\\' other)) (unfold decode in refl)
]

-- The bytes that VIS_CSTYLE has a letter for: 7 to 13, and the backslash.
abbrev pub IsLettered : ℕ → Type 0
IsLettered c = (7 ≤ c) × (c ≤ 13) ⊎ (c ≡ b'\\')

decode-cstyle : (c nextc : ℕ) → IsLettered c → decode 0 (cstyle c nextc) ≡ (c ∷ [], 0)
unfolding decode unvis cstyle
decode-cstyle c nextc h = ground arith

-- A byte that VIS_CSTYLE writes as a backslash and a letter is read back by unvis.
pub decode-nvis_lettered :
    (dlen c flag nextc : ℕ) {out : List ℕ}
    → IsLettered c
    → need_octal c flag ≡ true
    → has flag vis_cstyle ≡ true
    → nvis dlen c flag nextc ≡ some out
    → decode 0 out ≡ (c ∷ [], 0)
unfolding nvis
decode-nvis_lettered dlen c flag nextc {out} lettered escaped style h =
    let e : out ≡ cstyle c nextc = ground arith in rw e (decode-cstyle c nextc lettered)

decode-octal : (c : ℕ) → c < 256 → decode 0 (b'\\' ∷ octal c) ≡ (c / 8 ∷ [], 0)
unfolding decode unvis
decode-octal c h = ground arith

-- A byte that nvis, with neither VIS_CSTYLE nor VIS_NOSLASH, writes as a backslash and three octal digits is
-- not read back: unvis stores the number of the first two digits, c / 8, and drops the third.
pub decode-nvis_octal :
    (dlen c flag nextc : ℕ) {out : List ℕ}
    → c < 256
    → need_octal c flag ≡ true
    → has flag vis_cstyle ≡ false
    → has flag vis_noslash ≡ false
    → nvis dlen c flag nextc ≡ some out
    → decode 0 out ≡ (c / 8 ∷ [], 0)
unfolding nvis plain_octal
decode-nvis_octal dlen c flag nextc {out} byte escaped style slash h =
    let e : out ≡ b'\\' ∷ octal c = ground arith in rw e (decode-octal c byte)
