-- ===== src/Getopt/Line.antt =====
-- src/getopt.c: a command line of options, and what the calls of getopt read from it.
use vlibc.Base.{
  ℕ,
  zero,
  suc,
  ◌+◌,
  ◌≡◌,
  ◌≢◌,
  refl,
  subst,
  Bool,
  true,
  false,
  List,
  [],
  ◌∷◌,
  Option,
  none,
  some,
  arith,
  ◌==◌,
  if◌then◌else◌,
  length,
  get_elem?,
  drop,
  Int.{ℤ, negsuc},
}
use vlibc.Getopt.{
  Text, Getopt, char_int, starts, behind_char, open_word, letter_argument, letter, take_letter,
  opened, getopt,
}

-- One element of the command line, or two: letters in a cluster, the last of them with its argument behind it or
-- in the next element, or with none.
pub data Word : Type 0 where
  flags : ℕ → Text → Word
  attached : Text → ℕ → ℕ → Text → Word
  apart : Text → ℕ → Text → Word

-- Letters of a cluster and what is behind them.
abbrev pub cluster : Text → Text → Text
cluster [] tail = tail
cluster (c ∷ cs) tail = c ∷ cluster cs tail

abbrev pub written : List Word → List Text → List Text
written [] operands = operands
written (flags c cs ∷ ws) operands = (b'-' ∷ c ∷ cluster cs []) ∷ written ws operands
written (attached cs c d arg ∷ ws) operands =
    (b'-' ∷ cluster cs (c ∷ d ∷ arg)) ∷ written ws operands
written (apart cs c arg ∷ ws) operands = (b'-' ∷ cluster cs (c ∷ [])) ∷ arg ∷ written ws operands

-- What a call answers, and optarg behind it.
abbrev pub Result : Type 0
Result = ℤ × Option Text

abbrev pub plain_letters : Text → List Result → List Result
plain_letters [] rest = rest
plain_letters (c ∷ cs) rest = (char_int c, none) ∷ plain_letters cs rest

abbrev pub meant : List Word → List Result
meant [] = []
meant (flags c cs ∷ ws) = (char_int c, none) ∷ plain_letters cs (meant ws)
meant (attached cs c d arg ∷ ws) = plain_letters cs ((char_int c, some (d ∷ arg)) ∷ meant ws)
meant (apart cs c arg ∷ ws) = plain_letters cs ((char_int c, some arg) ∷ meant ws)

abbrev pub argv_length : List Word → ℕ
argv_length [] = 0
argv_length (apart cs c arg ∷ ws) = suc (suc (argv_length ws))
argv_length (w ∷ ws) = suc (argv_length ws)

-- optstring declares the letter, with a ":" behind it or without.
abbrev pub Declares : Bool → Option Text → Type 0
Declares b none = ⊥
Declares b (some p) = starts b':' p ≡ b

abbrev pub Letter : Text → Bool → ℕ → Type 0
Letter optstring b c = (c ≢ b'-') × Declares b (behind_char c optstring)

abbrev pub Letters : Text → Text → Type 0
Letters optstring [] = Unit
Letters optstring (c ∷ cs) = Letter optstring false c × Letters optstring cs

abbrev pub Declared : Text → List Word → Type 0
Declared optstring [] = Unit
Declared optstring (flags c cs ∷ ws) =
    (Letter optstring false c × Letters optstring cs) × Declared optstring ws
Declared optstring (attached cs c d arg ∷ ws) =
    (Letters optstring cs × Letter optstring true c) × Declared optstring ws
Declared optstring (apart cs c arg ∷ ws) =
    (Letters optstring cs × Letter optstring true c) × Declared optstring ws

-- The options end before an element that is not one, at "--", or at the end of argv.
abbrev pub Ends : List Text → Type 0
Ends ((c ∷ d ∷ []) ∷ more) = c ≡ b'-' → d ≡ b'-'
Ends ((c ∷ d ∷ e ∷ s) ∷ more) = c ≢ b'-'
Ends operands = Unit

-- "--" is passed.
abbrev pub terminator : List Text → ℕ
terminator ((c ∷ d ∷ []) ∷ more) = if c == b'-' then 1 else 0
terminator operands = 0

-- The answers of `n` calls, and the statics behind them.
unfoldable pub calls : List Text → Text → ℕ → Getopt → List Result × Getopt
calls argv optstring zero s = ([], s)
calls argv optstring (suc n) s =
    let (r, t) = getopt argv optstring s in
    let (rs, u) = calls argv optstring n t in ((r, t.optarg) ∷ rs, u)

-- All results are there, the next call answers -1, and optind is `k` behind that.
abbrev pub Over : List Text → Text → List Result → ℕ → List Result × Getopt → Type 0
Over argv optstring rs k (answers, s) =
    (answers ≡ rs)
    × ((getopt argv optstring s).0 ≡ negsuc 0)
    × ((getopt argv optstring s).1.optind ≡ k)

abbrev pub Yields : List Text → Text → List Result → ℕ → Getopt → Type 0
Yields argv optstring rs k s = Over argv optstring rs k (calls argv optstring (length rs) s)

abbrev pub call_then : List Text → Text → ℕ → ℤ × Getopt → List Result × Getopt
call_then argv optstring n (r, t) =
    let (rs, u) = calls argv optstring n t in ((r, t.optarg) ∷ rs, u)

pub calls-suc :
    (argv : List Text) (optstring : Text) (n : ℕ) (s : Getopt)
    → calls argv optstring (suc n) s ≡ call_then argv optstring n (getopt argv optstring s)
unfolding calls
calls-suc argv optstring n s = refl

pub drop-some :
    (argv more : List Text) (i : ℕ) (w : Text) → drop i argv ≡ w ∷ more → get_elem? argv i ≡ some w
drop-some [] more zero w e = absurd (let k : [] ≡ w ∷ more = e in cc)
drop-some [] more (suc i) w e = absurd (let k : [] ≡ w ∷ more = e in cc)
drop-some (x ∷ argv) more zero w e = cc
drop-some (x ∷ argv) more (suc i) w e = drop-some argv more i w e

drop_past :
    (argv more : List Text) (i : ℕ) (w : Text) → drop i argv ≡ w ∷ more → drop (suc i) argv ≡ more
drop_past [] more zero w e = absurd (let k : [] ≡ w ∷ more = e in cc)
drop_past [] more (suc i) w e = absurd (let k : [] ≡ w ∷ more = e in cc)
drop_past (x ∷ argv) more zero w e = cc
drop_past (x ∷ argv) more (suc i) w e = drop_past argv more i w e

pub drop_suc :
    (argv more : List Text) (i : ℕ) (w : Text) → drop i argv ≡ w ∷ more → drop (i + 1) argv ≡ more
drop_suc argv more i w e =
    let k : suc i ≡ i + 1 = omega arith in
    subst (λ (j : ℕ). drop j argv ≡ more) k (drop_past argv more i w e)

pub drop-none : (argv : List Text) (i : ℕ) → drop i argv ≡ [] → get_elem? argv i ≡ none
drop-none [] i e = refl
drop-none (x ∷ argv) zero e = absurd (let k : x ∷ argv ≡ [] = e in cc)
drop-none (x ∷ argv) (suc i) e = drop-none argv i e

abbrev pub at : Text → ℕ → Option Text → ℤ → Getopt
at next i a o = record { next = next; optind = i; optarg = a; optopt = o }

module _ (argv : List Text) (optstring : Text) where
  letter-flag :
      (p : Option Text) (c : ℕ) (rest : Text) (i : ℕ) (a : Option Text) (o : ℤ)
      → Declares false p
      → letter argv optstring p c rest (at (c ∷ rest) i a o) ≡ (char_int c, at rest i none o)
  unfolding letter
  letter-flag none c rest i a o h = absurd h
  letter-flag (some p) c rest i a o h = rw h refl

  letter-argument :
      (p : Option Text) (c : ℕ) (rest : Text) (s : Getopt)
      → Declares true p
      → letter argv optstring p c rest s
        ≡ letter_argument optstring c rest (get_elem? argv s.optind) s
  unfolding letter
  letter-argument none c rest s h = absurd h
  letter-argument (some p) c rest s h = rw h refl

  pub getopt-flag :
      (c : ℕ) (rest : Text) (i : ℕ) (a : Option Text) (o : ℤ)
      → Letter optstring false c
      → getopt argv optstring (at (c ∷ rest) i a o) ≡ (char_int c, at rest i none o)
  unfolding getopt opened take_letter
  getopt-flag c rest i a o (ne, h) = letter-flag (behind_char c optstring) c rest i a o h

  pub getopt-attached :
      (c d : ℕ) (arg : Text) (i : ℕ) (a : Option Text) (o : ℤ)
      → Letter optstring true c
      → getopt argv optstring (at (c ∷ d ∷ arg) i a o) ≡ (char_int c, at [] i (some (d ∷ arg)) o)
  unfolding getopt opened take_letter letter_argument
  getopt-attached c d arg i a o (ne, h) =
      letter-argument (behind_char c optstring) c (d ∷ arg) (at (c ∷ d ∷ arg) i a o) h

  pub getopt-apart :
      (c : ℕ) (arg : Text) (more : List Text) (i : ℕ) (a : Option Text) (o : ℤ)
      → Letter optstring true c
      → drop i argv ≡ arg ∷ more
      → getopt argv optstring (at (c ∷ []) i a o) ≡ (char_int c, at [] (i + 1) (some arg) o)
  unfolding getopt opened take_letter letter_argument
  getopt-apart c arg more i a o (ne, h) e =
      let first = drop-some argv more i arg e in
      rw (letter-argument (behind_char c optstring) c [] (at (c ∷ []) i a o) h, first) refl

  pub getopt-open :
      (c : ℕ) (arg : Text) (more : List Text) (i : ℕ) (a : Option Text) (o : ℤ)
      → c ≢ b'-'
      → drop i argv ≡ (b'-' ∷ c ∷ arg) ∷ more
      → getopt argv optstring (at [] i a o) ≡ getopt argv optstring (at (c ∷ arg) (i + 1) a o)
  unfolding getopt open_word
  getopt-open c arg more i a o ne e =
      let other : (c == b'-') ≡ false = ground arith in
      rw (drop-some argv more i (b'-' ∷ c ∷ arg) e, other) refl
