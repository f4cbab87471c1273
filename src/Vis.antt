-- ===== src/Vis.antt =====
-- src/vis.c: nvis, vis and unvis. What nvis writes before the NUL is a list of bytes, and its -1 is
-- `none`; the number that it returns is the length of the list.
pub mod Length
pub mod Decode
use vlibc.Base.{
  ℕ, zero, suc, ◌+◌, ◌-◌, ◌*◌, ◌/◌, ◌%◌, ◌^◌, Bool, true, false, not, ◌&&◌, ◌||◌, List, [], ◌∷◌,
  Option, none, some, ltb, leb, ◌==◌, if◌then◌else◌, length,
}

-- `flag & bit` for a power of two.
abbrev pub has : ℕ → ℕ → Bool
has flag bit = flag / bit % 2 == 1

abbrev pub vis_octal : ℕ
vis_octal = 0x01

abbrev pub vis_cstyle : ℕ
vis_cstyle = 0x02

abbrev pub vis_sp : ℕ
vis_sp = 0x04

abbrev pub vis_tab : ℕ
vis_tab = 0x08

abbrev pub vis_nl : ℕ
vis_nl = 0x10

abbrev pub vis_noslash : ℕ
vis_noslash = 0x40

-- `flag & VIS_WHITE`, which is VIS_SP | VIS_TAB | VIS_NL: any of the three.
abbrev pub has_white : ℕ → Bool
has_white flag = has flag vis_sp || has flag vis_tab || has flag vis_nl

unfoldable pub is_print : ℕ → Bool
is_print c = leb 0x20 c && leb c 0x7e

unfoldable pub need_octal : ℕ → ℕ → Bool
unfolding is_print
need_octal c flag =
    has flag vis_octal
    || not (is_print c)
    || (c == b' ' && has_white flag)
    || (c == 9 && has_white flag)
    || (c == 10 && has_white flag)

unfoldable pub isoctal : ℕ → Bool
isoctal c = leb b'0' c && leb c b'7'

-- The three octal digits of a byte.
abbrev pub octal : ℕ → List ℕ
octal ch = (ch / 64 % 8 + b'0') ∷ (ch / 8 % 8 + b'0') ∷ (ch % 8 + b'0') ∷ []

-- `if (dlen < n + 1) return -1;` before n bytes are written.
abbrev pub fits : ℕ → List ℕ → Option (List ℕ)
fits dlen out = if ltb dlen (length out + 1) then none else some out

-- A backslash and one byte more.
abbrev pub slash : ℕ → List ℕ
slash c = b'\\' ∷ c ∷ []

-- The `switch` under VIS_CSTYLE.
unfoldable pub cstyle : ℕ → ℕ → List ℕ
unfolding isoctal
cstyle ch nextc =
    if ch == 10
    then slash b'n'
    else if ch == 13
    then slash b'r'
    else if ch == 8
    then slash b'b'
    else if ch == 7
    then slash b'a'
    else if ch == 11
    then slash b'v'
    else if ch == 9
    then slash b't'
    else if ch == 12
    then slash b'f'
    else if ch == 0
    then (if isoctal nextc then b'\\' ∷ b'0' ∷ b'0' ∷ b'0' ∷ [] else slash b'0')
    else if ch == b'\\'
    then slash b'\\'
    else b'\\' ∷ octal ch

-- The last part: room for four bytes is asked for also where VIS_NOSLASH leaves three.
unfoldable pub plain_octal : ℕ → ℕ → ℕ → Option (List ℕ)
plain_octal dlen ch flag =
    if ltb dlen 5 then none else some (if has flag vis_noslash then octal ch else b'\\' ∷ octal ch)

unfoldable pub nvis : ℕ → ℕ → ℕ → ℕ → Option (List ℕ)
nvis dlen c flag nextc =
    let ch = c % 256 in
    if not (need_octal ch flag)
    then (if ch == b'\\' && not (has flag vis_noslash)
        then fits dlen (slash b'\\')
        else fits dlen (ch ∷ []))
    else if has flag vis_cstyle
    then fits dlen (cstyle ch nextc)
    else plain_octal dlen ch flag

pub vis : ℕ → ℕ → ℕ → Option (List ℕ)
vis c flag nextc = nvis (2 ^ 64 - 1) c flag nextc

pub data Unvis : Type 0 where
  valid nochar synbad : Unvis

-- The state word, what is stored in *cp, and the code returned.
pub record Step : Type 0 where
  pub state : ℕ
  pub cp : Option ℕ
  pub code : Unvis

abbrev pub ground_state : ℕ
ground_state = 0

-- The inner `switch` of S_ESCAPE.
unfoldable pub named : ℕ → ℕ
named ch =
    if ch == b'n'
    then 10
    else if ch == b'r'
    then 13
    else if ch == b'b'
    then 8
    else if ch == b'a'
    then 7
    else if ch == b'v'
    then 11
    else if ch == b't'
    then 9
    else if ch == b'f'
    then 12
    else ch

-- The second octal digit of two, or the byte behind an escape.
abbrev pub finish : ℕ → Step
finish val = record { state = ground_state; cp = some val; code = Unvis.valid }

unfoldable pub unvis : ℕ → ℕ → Step
unfolding isoctal named
unvis c state =
    let ch = c % 256 in
    let st = state % 256 in
    let val = state / 256 % 256 in
    if st == 0
    then (if ch == b'\\'
        then record { state = 1; cp = none; code = Unvis.nochar }
        else record { state = state; cp = some ch; code = Unvis.valid })
    else if st == 1
    then (if isoctal ch
        then record { state = (ch - b'0') * 256 + 2; cp = none; code = Unvis.nochar }
        else finish (named ch))
    else if st == 2
    then (if isoctal ch
        then record { state = (val * 8 + (ch - b'0')) * 256 + 3; cp = none; code = Unvis.nochar }
        else finish val)
    else if st == 3
    then finish val
    else record { state = ground_state; cp = none; code = Unvis.synbad }
