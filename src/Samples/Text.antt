-- ===== src/Samples/Text.antt =====
-- src/printf.c, src/inet_ntop.c, src/inet_pton.c, src/fnmatch.c and src/getopt.c at small inputs.
use vlibc.Base.{
  ℕ,
  ◌+◌,
  ◌-◌,
  ◌*◌,
  ◌/◌,
  ◌%◌,
  ◌^◌,
  ◌≡◌,
  ◌==◌,
  ◌>>=◌,
  refl,
  arith,
  true,
  false,
  List,
  [],
  ◌∷◌,
  ◌++◌,
  none,
  some,
  take,
  if◌then◌else◌,
  Int.{pos, negsuc},
}
use vlibc.Memory.{Mem, put, StrAt, Outside}
use vlibc.Strto.{strtol}
use vlibc.Printf.{ull_to_base}
use vlibc.Printf.Format.{Arg, integer, read_directive, convert}
use vlibc.Printf.Buffer.{vsnprintf, formatted}
use vlibc.Alloc.Separate.{Fresh}
use vlibc.Alloc.Reach.{empty, reachable-IsHeap}
use vlibc.Printf.Allocated.{Printed, vasprintf, vasprintf-Printed}
use vlibc.Samples.Memory.{heap_0, at_4096, empty_Reachable}
use vlibc.Printf.Ends.{Makes, finished, byte, percent, argument, vsnprintf-Makes}
use vlibc.Strto.{to_int}
use vlibc.Printf.Format.{fits_int, counts_int}
use vlibc.Printf.Decimal.{long_format, strtol-formatted}
use vlibc.Network.{inet}
use vlibc.Network.Print.{written, inet_ntop}
use vlibc.Network.Parse.{af_inet, parsed, inet_pton}
use vlibc.Network.Quad.{inet_pton-inet_ntop}
use vlibc.Fnmatch.{fnmatch}
use vlibc.Fnmatch.Relation.{
  Ranges, range, raw, closed, listing, accepts, Items, star, one, Matches, Reads, nothing, asterisk,
  class, plain, question,
}
use vlibc.Fnmatch.Decides.{IsRight, fnmatch-IsRight}
use vlibc.Getopt.{fresh, behind_char}
use vlibc.Getopt.Line.{Word, flags, apart, written as line_of, meant, Declared, Yields}
use vlibc.Getopt.Long as New
use vlibc.Getopt.Long.{LongOption}
use vlibc.Getopt.Older as Older
use vlibc.Getopt.Older.{Agree}
use vlibc.Getopt.Parse.{getopt-written}

abbrev memory : Mem
memory q = 7

-- "n=%3d%%" and 5
abbrev count_format : List ℕ
count_format = b'n' ∷ b'=' ∷ b'%' ∷ b'3' ∷ b'd' ∷ b'%' ∷ b'%' ∷ []

abbrev five : List Arg
five = integer (pos 5) ∷ []

-- "n=  5%"
abbrev count_text : List ℕ
count_text = b'n' ∷ b'=' ∷ b' ' ∷ b' ' ∷ b'5' ∷ b'%' ∷ []

five_Makes : Makes count_format five count_text
unfolding read_directive convert ull_to_base fits_int counts_int
five_Makes =
    byte refl (byte refl (argument refl refl refl refl refl refl refl (percent refl refl finished)))

vsnprintf-Makes_example :
    vsnprintf 100 4 count_format five memory
    ≡ some (
      to_int (pos 6),
      if 4 == 0 then memory else put memory 100 (take (4 - 1) count_text ++ 0 ∷ []),
    )
vsnprintf-Makes_example = vsnprintf-Makes 100 4 count_format five count_text memory five_Makes

none_known_text : Fresh empty 7 (some 4096)
none_known_text a k = absurd (cc k)

vasprintf-Printed_example :
    Printed empty count_text heap_0 (vasprintf at_4096 true count_format five heap_0)
vasprintf-Printed_example =
    vasprintf-Printed empty at_4096 count_format five count_text heap_0 five_Makes (omega arith)
      (reachable-IsHeap heap_0 empty empty_Reachable) none_known_text

strtol-formatted_example :
    (formatted long_format (integer (negsuc 41) ∷ []) >>= λ text. some (strtol text 10))
    ≡ some (record { value = negsuc 41; endptr = []; errno = none })
strtol-formatted_example = strtol-formatted (negsuc 41) (omega arith)

-- The bytes of a word in the other order.
abbrev swapped : ℕ → ℕ
swapped x =
    x % 256 * 2 ^ 24 + x / 2 ^ 8 % 256 * 2 ^ 16 + x / 2 ^ 16 % 256 * 2 ^ 8 + x / 2 ^ 24 % 256

inet_pton-inet_ntop_example :
    (t : List ℕ) × (mem : Mem) × (inet_ntop swapped (some (inet 16777343)) (some 100) 16 memory
      ≡ written mem)
    × StrAt mem 100 t
    × ((q : ℕ) → Outside 100 16 q → mem q ≡ memory q)
    × (inet_pton swapped af_inet (some t) true ≡ parsed (inet 16777343))
inet_pton-inet_ntop_example =
    inet_pton-inet_ntop swapped swapped 16777343 refl (omega arith) 100 16 memory (omega arith)

-- "a*[b-d]?"
abbrev pattern_text : List ℕ
pattern_text = b'a' ∷ b'*' ∷ b'[' ∷ b'b' ∷ b'-' ∷ b'd' ∷ b']' ∷ b'?' ∷ []

abbrev behind_bracket : List ℕ
behind_bracket = b'b' ∷ b'-' ∷ b'd' ∷ b']' ∷ b'?' ∷ []

abbrev items : Items
items = one (λ x. x == b'a') ∷ star ∷ one (accepts false ((b'b', b'd') ∷ [])) ∷ one (λ d. true) ∷ []

bracket_Ranges : Ranges false behind_bracket ((b'b', b'd') ∷ []) (b'?' ∷ [])
bracket_Ranges =
    range (omega arith) (raw (λ e. absurd (omega arith))) refl (omega arith)
      (raw (λ e. absurd (omega arith))) (closed refl)

pattern_Reads : Reads false pattern_text items
pattern_Reads =
    plain (omega arith) (omega arith) (omega arith) (λ e. absurd (omega arith))
      (asterisk refl
        (class refl (listing (omega arith) (omega arith) bracket_Ranges) (question refl nothing)))

fnmatch-IsRight_example :
    IsRight
      (Matches items (b'a' ∷ b'x' ∷ b'c' ∷ b'y' ∷ []))
      (fnmatch false pattern_text (b'a' ∷ b'x' ∷ b'c' ∷ b'y' ∷ []))
fnmatch-IsRight_example =
    fnmatch-IsRight false pattern_text (b'a' ∷ b'x' ∷ b'c' ∷ b'y' ∷ []) items pattern_Reads

-- -ab -o x f
abbrev line : List Word
line = flags b'a' (b'b' ∷ []) ∷ apart [] b'o' (b'x' ∷ []) ∷ []

abbrev program : List ℕ
program = b'p' ∷ []

abbrev operands : List (List ℕ)
operands = (b'f' ∷ []) ∷ []

-- "abo:"
abbrev options : List ℕ
options = b'a' ∷ b'b' ∷ b'o' ∷ b':' ∷ []

line-Declared : Declared options line
unfolding behind_char
line-Declared = (((omega arith, refl), ((omega arith, refl), tt)), ((tt, (omega arith, refl)), tt))

getopt-written_example : Yields (program ∷ line_of line operands) options (meant line) 4 fresh
getopt-written_example = getopt-written program options line operands line-Declared tt

-- --out=x, with an option of that name that takes an argument
abbrev long_options : List LongOption
long_options =
    record { name = b'o' ∷ b'u' ∷ b't' ∷ []; has_arg = 1; flag = false; val = pos 7 } ∷ []

abbrev long_line : List (List ℕ)
long_line = program ∷ (b'-' ∷ b'-' ∷ b'o' ∷ b'u' ∷ b't' ∷ b'=' ∷ b'x' ∷ []) ∷ []

getopt_long-Agree_example :
    Agree
      (New.getopt_long long_line options long_options
        (record { next = []; optind = 1; optarg = none; optopt = pos 0 }))
      (Older.getopt_long long_line options long_options
        (record { next = []; optind = 1; optarg = none; optopt = pos 0 }))
getopt_long-Agree_example =
    Older.getopt_long-Agree long_line options long_options refl 1 none (pos 0) tt
