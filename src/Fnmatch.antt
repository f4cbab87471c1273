-- ===== src/Fnmatch.antt =====
-- src/fnmatch.c. A pattern and a string are lists of bytes without the NUL; `noescape` is the flag FNM_NOESCAPE,
-- the only one that the code reads. `char` is signed.
pub mod Relation
pub mod Bracket
pub mod Ranges
pub mod Decides
use vlibc.Base.{
  ℕ, zero, suc, ◌+◌, ◌%◌, Bool, true, false, not, ◌&&◌, ◌||◌, List, [], ◌∷◌, leb, ◌==◌,
  if◌then◌else◌, length,
}

-- What a run comes to: an answer, a read behind the NUL of the pattern, or fuel that ran out.
pub data Outcome : Type 0 where
  answer : Bool → Outcome
  past_end : Outcome
  out_of_fuel : Outcome

-- `start <= c && c <= end` on signed characters.
abbrev pub signed_key : ℕ → ℕ
signed_key c = (c + 128) % 256

unfoldable pub in_range : ℕ → ℕ → ℕ → Bool
in_range start end c = leb (signed_key start) (signed_key c) && leb (signed_key c) (signed_key end)

-- One character of a bracket at `*p`, which is `c`, with the rest behind it.
unfoldable pub char_of : Bool → ℕ → List ℕ → ℕ × List ℕ
char_of noescape c [] = (c, [])
char_of noescape c (d ∷ p) = if c == b'\\' && not noescape then (d, p) else (c, d ∷ p)

-- The end of the range that `start` begins, `start` itself if there is none.
unfoldable pub range_end : Bool → ℕ → List ℕ → ℕ × List ℕ
unfolding char_of
range_end noescape start [] = (start, [])
range_end noescape start (x ∷ []) = (start, x ∷ [])
range_end noescape start (x ∷ y ∷ p) =
    if x == b'-' && not (y == b']') then char_of noescape y p else (start, x ∷ y ∷ p)

-- `while (*p && *p != ']')`: `ok` and where `p` stands. Every round takes a byte at least, so that fuel for the
-- bytes of `p` is enough.
unfoldable pub range_loop : Bool → ℕ → List ℕ → ℕ → Bool → Bool × List ℕ
unfolding range_end in_range
range_loop noescape zero p c ok = (ok, p)
range_loop noescape (suc f) [] c ok = (ok, [])
range_loop noescape (suc f) (d ∷ p) c ok =
    let (start, q) = char_of noescape d p in
    let (end, r) = range_end noescape start q in
    let more = range_loop noescape f r c (ok || in_range start end c) in
    if d == b']' then (ok, d ∷ p) else more

-- `if (*p == ']') p++;`
unfoldable pub behind_bracket : List ℕ → List ℕ
behind_bracket [] = []
behind_bracket (c ∷ p) = if c == b']' then p else c ∷ p

unfoldable pub range_from : Bool → Bool → List ℕ → ℕ → Bool × List ℕ
unfolding range_loop behind_bracket
range_from noescape neg p c =
    let (ok, q) = range_loop noescape (length p) p c false in
    ((if neg then not ok else ok), behind_bracket q)

-- Whether the character is in the bracket that `p` stands in, and `*ep`.
unfoldable pub match_range : Bool → List ℕ → ℕ → Bool × List ℕ
unfolding range_from
match_range noescape [] c = range_from noescape false [] c
match_range noescape (d ∷ p) c =
    if d == b'!' || d == b'^'
    then range_from noescape true p c
    else range_from noescape false (d ∷ p) c

abbrev pub Next : Type 0
Next = List ℕ → List ℕ → Outcome

-- `case '?'`
unfoldable pub any_one : Next → List ℕ → List ℕ → Outcome
any_one next p [] = answer false
any_one next p (c ∷ s) = next p s

-- `while (*p == '*') p++;`
unfoldable pub drop_stars : List ℕ → List ℕ
drop_stars [] = []
drop_stars (c ∷ p) = if c == b'*' then drop_stars p else c ∷ p

abbrev pub or_else : Outcome → Outcome → Outcome
or_else (answer true) o = answer true
or_else (answer false) o = o
or_else past_end o = past_end
or_else out_of_fuel o = out_of_fuel

-- `while (*s) { if (do_match(p, s, flags)) return 1; s++; }`; the next round is made only if it is reached.
unfoldable pub star_loop : Next → List ℕ → List ℕ → Outcome
star_loop next p [] = answer false
star_loop next p (c ∷ s) = or_else (next p (c ∷ s)) (star_loop next p s)

unfoldable pub star : Next → List ℕ → List ℕ → Outcome
unfolding star_loop
star next [] s = answer true
star next (c ∷ p) s = star_loop next (c ∷ p) s

unfoldable pub bracket : Bool → Next → List ℕ → List ℕ → Outcome
unfolding match_range
bracket noescape next p [] = answer false
bracket noescape next p (c ∷ s) =
    let (ok, q) = match_range noescape p c in if ok then next q s else answer false

unfoldable pub literal : Next → ℕ → List ℕ → List ℕ → Outcome
literal next pc p [] = answer false
literal next pc p (c ∷ s) = if c == pc then next p s else answer false

-- `starts(s, '\\')`, and then the loop reads behind the end of the pattern.
unfoldable pub dangling : List ℕ → Outcome
dangling [] = answer false
dangling (c ∷ s) = if c == b'\\' then past_end else answer false

unfoldable pub escaped : Next → List ℕ → List ℕ → Outcome
unfolding literal dangling
escaped next [] s = dangling s
escaped next (c ∷ p) s = literal next c p s

unfoldable pub at_end : List ℕ → Bool
at_end [] = true
at_end (c ∷ s) = false

-- One round of the loop takes a byte of the pattern at least.
unfoldable pub do_match : Bool → ℕ → Next
unfolding any_one star drop_stars bracket escaped literal at_end
do_match noescape zero p s = out_of_fuel
do_match noescape (suc f) [] s = answer (at_end s)
do_match noescape (suc f) (pc ∷ p) s =
    if pc == b'?'
    then any_one (do_match noescape f) p s
    else if pc == b'*'
    then star (do_match noescape f) (drop_stars p) s
    else if pc == b'['
    then bracket noescape (do_match noescape f) p s
    else if pc == b'\\' && not noescape
    then escaped (do_match noescape f) p s
    else literal (do_match noescape f) pc p s

-- The answer true is 0, and false FNM_NOMATCH.
unfoldable pub fnmatch : Bool → List ℕ → List ℕ → Outcome
unfolding do_match
fnmatch noescape pattern string = do_match noescape (length pattern + 1) pattern string
