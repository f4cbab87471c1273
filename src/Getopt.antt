-- ===== src/Getopt.antt =====
-- src/getopt.c, with src/getopt_long.c and src/getopt_long_only.c in Long. argv is a list of strings, a string the
-- list of its bytes without the NUL. What goes to stderr, and opterr with it, is left out. The file getopt.c has a
-- getopt_long too, which is in Older.
pub mod Line
pub mod Long
pub mod Older
pub mod Sub
pub mod Parse
use vlibc.Base.{
  ℕ,
  zero,
  suc,
  ◌+◌,
  ◌-◌,
  Bool,
  true,
  false,
  not,
  ◌&&◌,
  List,
  [],
  ◌∷◌,
  Option,
  none,
  some,
  ltb,
  ◌==◌,
  if◌then◌else◌,
  length,
  get_elem?,
  drop,
  Int.{ℤ, pos, negsuc},
}

abbrev pub Text : Type 0
Text = List ℕ

-- The statics. `next` is what is left of a cluster of letters: NULL and the end of the string are both [], since
-- the code asks for the one or the other.
pub record Getopt : Type 0 where
  pub next : Text
  pub optind : ℕ
  pub optarg : Option Text
  pub optopt : ℤ

abbrev pub fresh : Getopt
fresh = record { next = []; optind = 1; optarg = none; optopt = pos 0 }

-- A char, which is signed, as an int.
abbrev pub char_int : ℕ → ℤ
char_int c = if ltb c 128 then pos c else negsuc (255 - c)

abbrev pub is_empty : Text → Bool
is_empty [] = true
is_empty (c ∷ s) = false

-- `*p == c`, where c is not 0.
abbrev pub starts : ℕ → Text → Bool
starts c [] = false
starts c (d ∷ s) = d == c

-- `strchr(s, c)`: what is behind the first c.
unfoldable pub behind_char : ℕ → Text → Option Text
behind_char c [] = none
behind_char c (d ∷ s) = if d == c then some s else behind_char c s

-- The next element of argv: whether it opens a cluster of letters, and the statics.
unfoldable pub open_word : Option Text → Getopt → Bool × Getopt
open_word none s = (false, s)
open_word (some []) s = (false, s)
open_word (some (d ∷ [])) s = (false, s)
open_word (some (d ∷ e ∷ arg)) s =
    if not (d == b'-')
    then (false, s)
    else if e == b'-' && is_empty arg
    then (
      false,
      record { next = s.next; optind = s.optind + 1; optarg = s.optarg; optopt = s.optopt },
    )
    else (
      true,
      record { next = e ∷ arg; optind = s.optind + 1; optarg = s.optarg; optopt = s.optopt },
    )

-- `optstring[0] == ':' ? ':' : '?'`
abbrev pub missing : Text → ℤ
missing optstring = if starts b':' optstring then pos b':' else pos b'?'

-- The argument of the letter c: the rest of the cluster, or the next element of argv.
unfoldable pub letter_argument : Text → ℕ → Text → Option Text → Getopt → ℤ × Getopt
letter_argument optstring c (d ∷ rest) a s = (
  char_int c,
  record { next = []; optind = s.optind; optarg = some (d ∷ rest); optopt = s.optopt },
)
letter_argument optstring c [] (some a) s =
    (char_int c, record { next = []; optind = s.optind + 1; optarg = some a; optopt = s.optopt })
letter_argument optstring c [] none s = (
  missing optstring,
  record { next = []; optind = s.optind; optarg = s.optarg; optopt = char_int c },
)

-- The letter c with `rest` behind it, by what is behind c in optstring.
unfoldable pub letter : List Text → Text → Option Text → ℕ → Text → Getopt → ℤ × Getopt
unfolding letter_argument
letter argv optstring none c rest s =
    (pos b'?', record { next = rest; optind = s.optind; optarg = s.optarg; optopt = char_int c })
letter argv optstring (some pos_1) c rest s =
    if starts b':' pos_1
    then letter_argument optstring c rest (get_elem? argv s.optind) s
    else (char_int c, record { next = rest; optind = s.optind; optarg = none; optopt = s.optopt })

-- `char c = *next++` and what follows. The end of the cluster is never reached here.
unfoldable pub take_letter : List Text → Text → Text → Getopt → ℤ × Getopt
unfolding letter behind_char
take_letter argv optstring [] s = (negsuc 0, s)
take_letter argv optstring (c ∷ rest) s = letter argv optstring (behind_char c optstring) c rest s

unfoldable pub opened : List Text → Text → Bool × Getopt → ℤ × Getopt
unfolding take_letter
opened argv optstring (ok, s) = if ok then take_letter argv optstring s.next s else (negsuc 0, s)

-- -1 is `negsuc 0`.
unfoldable pub getopt : List Text → Text → Getopt → ℤ × Getopt
unfolding open_word opened
getopt argv optstring s =
    opened argv optstring
      (if is_empty s.next then open_word (get_elem? argv s.optind) s else (true, s))
