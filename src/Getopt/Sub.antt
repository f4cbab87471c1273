-- ===== src/Getopt/Sub.antt =====
-- src/getsubopt.c. The option string is the list of its bytes; the NULs that the code writes over "=" and "," cut it
-- up, and *optionp is the part behind the cut.
use vlibc.Base.{
  ℕ,
  ◌+◌,
  ◌≡◌,
  ◌≢◌,
  refl,
  true,
  false,
  ◌||◌,
  List,
  [],
  ◌∷◌,
  ◌++◌,
  Option,
  none,
  some,
  arith,
  ◌==◌,
  if◌then◌else◌,
  Int.{ℤ, pos, negsuc},
}
use vlibc.Getopt.{Text}
use vlibc.Getopt.Long.{same_text}

-- `while (*end && *end != ',' && *end != '=') end++;`: what is passed, and `end`.
unfoldable pub to_delimiter : Text → Text × Text
to_delimiter [] = ([], [])
to_delimiter (c ∷ s) =
    let (name, end) = to_delimiter s in
    if c == b',' || c == b'=' then ([], c ∷ s) else (c ∷ name, end)

-- `while (*end && *end != ',') end++;`: the value, and `next`, or the end where there is none.
unfoldable pub to_comma : Text → Text × Text
to_comma [] = ([], [])
to_comma (c ∷ s) = let (val, next) = to_comma s in if c == b',' then ([], s) else (c ∷ val, next)

-- `if (val[0] == '\0') val = NULL;`
abbrev pub or_null : Text → Option Text
or_null [] = none
or_null (c ∷ s) = some (c ∷ s)

-- `val` and *optionp, by what stands at `end`.
unfoldable pub value_at : Text → Option Text × Text
unfolding to_comma
value_at [] = (none, [])
value_at (c ∷ s) =
    let (val, next) = to_comma s in if c == b'=' then (or_null val, next) else (none, s)

-- The loop over the tokens, whose next index is `i`, and -1.
unfoldable pub token_index : List Text → ℕ → Text → ℤ
unfolding same_text
token_index [] i arg = negsuc 0
token_index (t ∷ tokens) i arg =
    let rest = token_index tokens (i + 1) arg in if same_text arg t then pos i else rest

-- What is returned, *valuep (`none` for a NULL) and *optionp; `none` where the string is empty and nothing is stored.
unfoldable pub getsubopt : Text → List Text → Option (ℤ × Option Text × Text)
unfolding to_delimiter value_at token_index
getsubopt [] tokens = none
getsubopt (c ∷ s) tokens =
    let (name, end) = to_delimiter (c ∷ s) in
    let (val, next) = value_at end in some (token_index tokens 0 name, val, next)

-- A name has neither of the two, and a value no comma.
abbrev pub IsName : Text → Type 0
IsName [] = Unit
IsName (c ∷ s) = (c ≢ b',') × (c ≢ b'=') × IsName s

abbrev pub IsValue : Text → Type 0
IsValue [] = Unit
IsValue (c ∷ s) = (c ≢ b',') × IsValue s

to_delimiter-name :
    (name : Text) (d : ℕ) (s : Text)
    → IsName name
    → (d == b',' || d == b'=') ≡ true
    → to_delimiter (name ++ d ∷ s) ≡ (name, d ∷ s)
unfolding to_delimiter
to_delimiter-name [] d s h e = rw e refl
to_delimiter-name (c ∷ name) d s (a, b, h) e =
    let n : (c == b',' || c == b'=') ≡ false = ground arith in
    rw (n, to_delimiter-name name d s h e) refl

to_comma-value : (val s : Text) → IsValue val → to_comma (val ++ b',' ∷ s) ≡ (val, s)
unfolding to_comma
to_comma-value [] s h = refl
to_comma-value (c ∷ val) s (a, h) =
    let n : (c == b',') ≡ false = ground arith in rw (n, to_comma-value val s h) refl

-- getsubopt on a name, "=" and a value that is not empty, with a comma and more behind them, gives the index of the
-- name among the tokens, the value, and the rest behind the comma.
pub getsubopt-value :
    (c v : ℕ) (name val rest : Text) (tokens : List Text)
    → IsName (c ∷ name)
    → IsValue (v ∷ val)
    → getsubopt ((c ∷ name) ++ b'=' ∷ ((v ∷ val) ++ b',' ∷ rest)) tokens
      ≡ some (token_index tokens 0 (c ∷ name), some (v ∷ val), rest)
unfolding getsubopt value_at
getsubopt-value c v name val rest tokens hn hv =
    rw (to_delimiter-name (c ∷ name) b'=' ((v ∷ val) ++ b',' ∷ rest) hn refl)
      (rw (to_comma-value (v ∷ val) rest hv) refl)
