-- ===== src/Getopt/Long.antt =====
-- src/getopt_long.c, src/getopt_long_only.c: options by name, before those of getopt.
use vlibc.Base.{
  ℕ,
  ◌+◌,
  Bool,
  true,
  false,
  not,
  ◌&&◌,
  ◌||◌,
  List,
  [],
  ◌∷◌,
  Option,
  none,
  some,
  ◌==◌,
  if◌then◌else◌,
  get_elem?,
  Int.{ℤ, pos, negsuc},
}
use vlibc.Getopt.{Text, Getopt, missing, behind_char, getopt}

-- `struct option`; `flag` is whether the pointer is not NULL.
pub record LongOption : Type 0 where
  pub name : Text
  pub has_arg : ℕ
  pub flag : Bool
  pub val : ℤ

-- What a call answers, what it writes to *longindex, what it writes to *flag, and the statics.
pub record Answer : Type 0 where
  pub value : ℤ
  pub longindex : Option ℕ
  pub stored : Option ℤ
  pub statics : Getopt

-- The first `len` bytes: those before the "=".
unfoldable pub before_equals : Text → Text
before_equals [] = []
before_equals (c ∷ arg) = if c == b'=' then [] else c ∷ before_equals arg

-- `strncmp(arg, name, len) == 0 && name[len] == '\0'`
unfoldable pub same_text : Text → Text → Bool
same_text [] [] = true
same_text [] (d ∷ name) = false
same_text (c ∷ arg) [] = false
same_text (c ∷ arg) (d ∷ name) = c == d && same_text arg name

-- The loop over longopts, whose next index is `i`.
unfoldable pub find_long : List LongOption → ℕ → Text → Option (ℕ × LongOption)
unfolding same_text
find_long [] i arg = none
find_long (o ∷ longopts) i arg =
    let rest = find_long longopts (i + 1) arg in if same_text arg o.name then some (i, o) else rest

-- `optind++`, and the answer that the option asks for.
abbrev pub chosen : ℕ → LongOption → ℕ → Option Text → Getopt → Answer
chosen i o optind optarg s = record {
  value = if o.flag then pos 0 else o.val;
  longindex = some i;
  stored = if o.flag then some o.val else none;
  statics = record { next = s.next; optind = optind; optarg = optarg; optopt = s.optopt };
}

-- An argument that must be: behind the "=", or the next element of argv.
unfoldable pub required : Text → ℕ → LongOption → Option Text → Option Text → Getopt → Answer
required optstring i o (some v) next_arg s = chosen i o (s.optind + 1) (some v) s
required optstring i o none (some a) s = chosen i o (s.optind + 2) (some a) s
required optstring i o none none s = record {
  value = missing optstring;
  longindex = some i;
  stored = none;
  statics = record { next = s.next; optind = s.optind + 1; optarg = s.optarg; optopt = o.val };
}

unfoldable pub found_long : List Text → Text → Option Text → ℕ × LongOption → Getopt → Answer
unfolding required
found_long argv optstring eq (i, o) s =
    if o.has_arg == 1
    then required optstring i o eq (get_elem? argv (s.optind + 1)) s
    else if o.has_arg == 2
    then chosen i o (s.optind + 1) eq s
    else chosen i o (s.optind + 1) none s

-- An answer of getopt.
abbrev pub short : ℤ × Getopt → Answer
short (r, s) = record { value = r; longindex = none; stored = none; statics = s }

abbrev pub unknown : Getopt → Answer
unknown s = record {
  value = pos b'?';
  longindex = none;
  stored = none;
  statics = record { next = s.next; optind = s.optind + 1; optarg = s.optarg; optopt = s.optopt };
}

abbrev pub or_found : List Text → Text → Text → Option (ℕ × LongOption) → Answer → Getopt → Answer
or_found argv optstring arg none a s = a
or_found argv optstring arg (some f) a s = found_long argv optstring (behind_char b'=' arg) f s

unfoldable pub long_word : List Text → Text → List LongOption → Option Text → Getopt → Answer
unfolding found_long find_long before_equals behind_char
long_word argv optstring longopts none s = record {
  value = negsuc 0;
  longindex = none;
  stored = none;
  statics = s;
}
long_word argv optstring longopts (some (d ∷ e ∷ arg)) s =
    if not (d == b'-') || not (e == b'-')
    then short (getopt argv optstring s)
    else or_found argv optstring arg (find_long longopts 0 (before_equals arg)) (unknown s) s
long_word argv optstring longopts (some arg) s = short (getopt argv optstring s)

unfoldable pub getopt_long : List Text → Text → List LongOption → Getopt → Answer
unfolding long_word
getopt_long argv optstring longopts s =
    long_word argv optstring longopts (get_elem? argv s.optind) s

unfoldable pub only_word : List Text → Text → List LongOption → Option Text → Getopt → Answer
unfolding found_long find_long before_equals behind_char
only_word argv optstring longopts none s = record {
  value = negsuc 0;
  longindex = none;
  stored = none;
  statics = s;
}
only_word argv optstring longopts (some (d ∷ e ∷ arg)) s =
    let name = if e == b'-' then arg else e ∷ arg in
    if not (d == b'-')
    then short (getopt argv optstring s)
    else or_found argv optstring name (find_long longopts 0 (before_equals name))
        (short (getopt argv optstring s)) s
only_word argv optstring longopts (some arg) s = short (getopt argv optstring s)

unfoldable pub getopt_long_only : List Text → Text → List LongOption → Getopt → Answer
unfolding only_word
getopt_long_only argv optstring longopts s =
    only_word argv optstring longopts (get_elem? argv s.optind) s
