-- ===== src/Vis/Length.antt =====
-- nvis of src/vis.c never writes behind its buffer.
use vlibc.Base.{ℕ, ◌+◌, ◌%◌, ◌≤◌, ◌≡◌, List, some, arith, length}
use vlibc.Vis.{nvis, cstyle, plain_octal}

length-cstyle : (ch nextc : ℕ) → (2 ≤ length (cstyle ch nextc)) × (length (cstyle ch nextc) ≤ 4)
unfolding cstyle
length-cstyle ch nextc = ground arith

length-plain_octal :
    (dlen ch flag : ℕ) {out : List ℕ}
    → plain_octal dlen ch flag ≡ some out
    → (5 ≤ dlen) × (3 ≤ length out) × (length out ≤ 4)
unfolding plain_octal
length-plain_octal dlen ch flag h = ground arith

-- Where nvis does not fail, what it writes, with the NUL behind it, fits in the dlen bytes of the buffer, and is at most four
-- bytes and the NUL.
pub length-nvis :
    (dlen c flag nextc : ℕ) {out : List ℕ}
    → nvis dlen c flag nextc ≡ some out
    → (length out + 1 ≤ dlen) × (length out ≤ 4) × (1 ≤ length out)
unfolding nvis
length-nvis dlen c flag nextc {out} h = ground (
  arith,
  length-cstyle (c % 256) nextc,
  λ (e : plain_octal dlen (c % 256) flag ≡ some out). length-plain_octal dlen (c % 256) flag e,
)
