-- ===== src/Getopt/Older.antt =====
-- src/getopt.c: the getopt_long of that file, beside that of src/getopt_long.c.
use vlibc.Base.{
  ℕ,
  zero,
  suc,
  Bool,
  ◌+◌,
  ◌≡◌,
  ◌≢◌,
  refl,
  true,
  false,
  not,
  ◌&&◌,
  Bool-cases,
  inl,
  inr,
  arith,
  List,
  [],
  ◌∷◌,
  Option,
  none,
  some,
  ◌==◌,
  if◌then◌else◌,
  get_elem?,
  Int.{ℤ, pos, negsuc},
}
use vlibc.Getopt.{Text, Getopt, is_empty, starts, behind_char, open_word, opened, getopt}
use vlibc.Getopt.Long.{
  LongOption, Answer, before_equals, same_text, find_long, chosen, required, found_long, short,
  unknown, long_word,
}
use vlibc.Getopt.Long as New

-- `eq ? (size_t)(eq - name) : strlen(name)`
unfoldable pub name_length : Text → ℕ
name_length [] = 0
name_length (c ∷ name) = if c == b'=' then 0 else suc (name_length name)

-- `strncmp(name, longopts[i].name, namelen) == 0`
unfoldable pub same_start : ℕ → Text → Text → Bool
same_start zero name other = true
same_start (suc n) [] [] = true
same_start (suc n) [] (d ∷ other) = false
same_start (suc n) (c ∷ name) [] = false
same_start (suc n) (c ∷ name) (d ∷ other) = c == d && same_start n name other

-- `longopts[i].name[namelen] == '\0'`
unfoldable pub ends_at : ℕ → Text → Bool
ends_at n [] = n == 0
ends_at zero (d ∷ other) = false
ends_at (suc n) (d ∷ other) = ends_at n other

-- The loop over longopts, whose next index is `i`.
unfoldable pub find_named : List LongOption → ℕ → Text → Option (ℕ × LongOption)
unfolding name_length same_start ends_at
find_named [] i name = none
find_named (o ∷ longopts) i name =
    let rest = find_named longopts (i + 1) name in
    if same_start (name_length name) name o.name && ends_at (name_length name) o.name
    then some (i, o)
    else rest

-- From `optind++` on: the value that is stored in *flag, or returned.
abbrev pub taken : ℕ → LongOption → ℕ → Option Text → Getopt → Answer
taken i o optind optarg s =
    let statics : Getopt = record {
      next = s.next;
      optind = optind;
      optarg = optarg;
      optopt = s.optopt;
    } in
    if o.flag
    then record { value = pos 0; longindex = some i; stored = some o.val; statics = statics }
    else record { value = o.val; longindex = some i; stored = none; statics = statics }

-- A required argument that is not there is always answered with "?".
unfoldable pub demanded : ℕ → LongOption → Option Text → Option Text → Getopt → Answer
demanded i o (some v) next_arg s = taken i o (s.optind + 1) (some v) s
demanded i o none (some a) s = taken i o (s.optind + 2) (some a) s
demanded i o none none s = record {
  value = pos b'?';
  longindex = some i;
  stored = none;
  statics = record { next = s.next; optind = s.optind + 1; optarg = s.optarg; optopt = o.val };
}

unfoldable pub found_named : List Text → Option Text → ℕ × LongOption → Getopt → Answer
unfolding demanded
found_named argv eq (i, o) s =
    if o.has_arg == 1
    then demanded i o eq (get_elem? argv (s.optind + 1)) s
    else if o.has_arg == 2
    then taken i o (s.optind + 1) eq s
    else taken i o (s.optind + 1) none s

-- The end of the loop, where optopt is set to 0.
abbrev pub not_named : Getopt → Answer
not_named s = record {
  value = pos b'?';
  longindex = none;
  stored = none;
  statics = record { next = s.next; optind = s.optind + 1; optarg = s.optarg; optopt = pos 0 };
}

abbrev pub or_named : List Text → Text → Option (ℕ × LongOption) → Getopt → Answer
or_named argv name none s = not_named s
or_named argv name (some f) s = found_named argv (behind_char b'=' name) f s

abbrev pub no_option : Getopt → Answer
no_option s = record { value = negsuc 0; longindex = none; stored = none; statics = s }

abbrev pub past : Getopt → Getopt
past s = record { next = s.next; optind = s.optind + 1; optarg = s.optarg; optopt = s.optopt }

unfoldable pub word_long : List Text → Text → List LongOption → Option Text → Getopt → Answer
unfolding found_named find_named behind_char
word_long argv optstring longopts (some (d ∷ e ∷ name)) s =
    if not (d == b'-')
    then no_option s
    else if e == b'-' && is_empty name
    then no_option (past s)
    else if e == b'-'
    then or_named argv name (find_named longopts 0 name) s
    else short (getopt argv optstring s)
word_long argv optstring longopts _ s = no_option s

unfoldable pub getopt_long : List Text → Text → List LongOption → Getopt → Answer
unfolding word_long
getopt_long argv optstring longopts s =
    word_long argv optstring longopts (get_elem? argv s.optind) s

-- Two answers that are the same but for optopt.
abbrev pub Agree : Answer → Answer → Type 0
Agree a b =
    (a.value ≡ b.value)
    × (a.longindex ≡ b.longindex)
    × (a.stored ≡ b.stored)
    × (a.statics.next ≡ b.statics.next)
    × (a.statics.optind ≡ b.statics.optind)
    × (a.statics.optarg ≡ b.statics.optarg)

-- The element is not "--".
abbrev pub NotLast : Option Text → Type 0
NotLast (some (d ∷ e ∷ [])) = (d ≡ b'-' → e ≢ b'-')
NotLast w = Unit

goes_on :
    (d x : ℕ) (name : Text)
    → NotLast (some (d ∷ x ∷ name))
    → (d == b'-') ≡ true
    → (x == b'-') ≡ true
    → name ≢ []
goes_on d x [] h t u e = absurd (h (ground arith) (ground arith))
goes_on d x (y ∷ name) h t u e = absurd (let k : y ∷ name ≡ [] = e in cc)

same_start-same_text :
    (name other : Text)
    → (same_start (name_length name) name other && ends_at (name_length name) other)
      ≡ same_text (before_equals name) other
unfolding same_start name_length ends_at same_text before_equals
same_start-same_text [] [] = refl
same_start-same_text [] (d ∷ other) = refl
same_start-same_text (c ∷ name) other = elim (Bool-cases (c == b'=')) [
  | inl t ↦ rw t (at_once other)
  | inr f ↦ rw f (further other (same_start-same_text name))
]
  where
    at_once : (other : Text) → ends_at 0 other ≡ same_text [] other
    at_once [] = refl
    at_once (d ∷ other) = refl

    further :
        (other : Text)
        → ((others : Text)
            → (same_start (name_length name) name others && ends_at (name_length name) others)
              ≡ same_text (before_equals name) others)
        → (same_start (suc (name_length name)) (c ∷ name) other
            && ends_at (suc (name_length name)) other)
          ≡ same_text (c ∷ before_equals name) other
    further [] h = refl
    further (d ∷ other) h = elim (Bool-cases (c == d)) [
      | inl t ↦ rw t (h other)
      | inr f ↦ rw f refl
    ]

-- The loops of the two files find the same option.
find_named-find_long :
    (longopts : List LongOption) (i : ℕ) (name : Text)
    → find_named longopts i name ≡ find_long longopts i (before_equals name)
unfolding find_named find_long
find_named-find_long [] i name = refl
find_named-find_long (o ∷ longopts) i name =
    rw (same_start-same_text name o.name, find_named-find_long longopts (i + 1) name) refl

taken-Agree :
    (i : ℕ) (o : LongOption) (optind : ℕ) (optarg : Option Text) (s : Getopt)
    → Agree (chosen i o optind optarg s) (taken i o optind optarg s)
taken-Agree i o optind optarg s = elim (Bool-cases o.flag) [
  | inl t ↦ rw t (refl, refl, refl, refl, refl, refl)
  | inr f ↦ rw f (refl, refl, refl, refl, refl, refl)
]

module _ (argv : List Text) (optstring : Text) (longopts : List LongOption)
    (plain : starts b':' optstring ≡ false) where
  found-Agree :
      (eq : Option Text) (i : ℕ) (o : LongOption) (s : Getopt)
      → Agree (found_long argv optstring eq (i, o) s) (found_named argv eq (i, o) s)
  unfolding found_long found_named required demanded
  found-Agree eq i o s = elim (Bool-cases (o.has_arg == 1)) [
    | inl t ↦ rw t (go eq (get_elem? argv (s.optind + 1)))
    | inr f ↦ rw f (elim (Bool-cases (o.has_arg == 2)) [
      | inl u ↦ rw u (taken-Agree i o (s.optind + 1) eq s)
      | inr g ↦ rw g (taken-Agree i o (s.optind + 1) none s)
    ])
  ]
    where
      go :
          (eq next_arg : Option Text)
          → Agree (required optstring i o eq next_arg s) (demanded i o eq next_arg s)
      go (some v) next_arg = taken-Agree i o (s.optind + 1) (some v) s
      go none (some a) = taken-Agree i o (s.optind + 2) (some a) s
      go none none = rw plain (refl, refl, refl, refl, refl, refl)

  or_found-Agree :
      (name : Text) (r : Option (ℕ × LongOption)) (s : Getopt)
      → Agree (New.or_found argv optstring name r (unknown s) s) (or_named argv name r s)
  or_found-Agree name none s = (refl, refl, refl, refl, refl, refl)
  or_found-Agree name (some (i, o)) s = found-Agree (behind_char b'=' name) i o s

  -- An element that opens with "--" and goes on.
  named-Agree :
      (name : Text) (s : Getopt)
      → name ≢ []
      → Agree
          (New.or_found argv optstring name
            (find_long longopts 0 (before_equals name))
            (unknown s)
            s)
          (if is_empty name
            then no_option (past s)
            else or_named argv name (find_named longopts 0 name) s)
  named-Agree [] s h = absurd (h refl)
  named-Agree (y ∷ name) s h =
      rw (← find_named-find_long longopts 0 (y ∷ name))
        (or_found-Agree (y ∷ name) (find_named longopts 0 (y ∷ name)) s)

  word-Agree :
      (w : Option Text) (i : ℕ) (a : Option Text) (c : ℤ)
      → NotLast w
      → get_elem? argv i ≡ w
      → Agree
          (long_word argv optstring longopts w
            (record { next = []; optind = i; optarg = a; optopt = c }))
          (word_long argv optstring longopts w
            (record { next = []; optind = i; optarg = a; optopt = c }))
  unfolding long_word word_long getopt open_word opened
  word-Agree none i a c h e = (refl, refl, refl, refl, refl, refl)
  word-Agree (some []) i a c h e = rw e (refl, refl, refl, refl, refl, refl)
  word-Agree (some (d ∷ [])) i a c h e = rw e (refl, refl, refl, refl, refl, refl)
  word-Agree (some (d ∷ x ∷ name)) i a c h e = elim (Bool-cases (d == b'-')) [
    | inr f ↦ rw f (rw e (rw f (refl, refl, refl, refl, refl, refl)))
    | inl t ↦ elim (Bool-cases (x == b'-')) [
      | inr f ↦ rw (t, f) (refl, refl, refl, refl, refl, refl)
      | inl u ↦
          rw (t, u)
            (named-Agree name (record { next = []; optind = i; optarg = a; optopt = c })
              (goes_on d x name h t u))
    ]
  ]

  -- The two getopt_long, called with no letters of a cluster left, on an element that is not "--" and with an
  -- optstring that does not begin with ":", answer and store the same, and leave the same optind and optarg.
  pub getopt_long-Agree :
      (i : ℕ) (a : Option Text) (c : ℤ)
      → NotLast (get_elem? argv i)
      → Agree
          (New.getopt_long argv optstring longopts
            (record { next = []; optind = i; optarg = a; optopt = c }))
          (getopt_long argv optstring longopts
            (record { next = []; optind = i; optarg = a; optopt = c }))
  unfolding New.getopt_long getopt_long
  getopt_long-Agree i a c h = word-Agree (get_elem? argv i) i a c h refl
