-- ===== src/Stdio/Input.antt =====
-- src/stdio.c: fread, fgetc, ungetc, fgets.
pub mod Order
pub mod Fread
pub mod Lines
use vlibc.Base.{
  ℕ, zero, suc, ◌+◌, ◌-◌, ◌*◌, ◌/◌, ◌%◌, ◌^◌, Bool, true, false, not, ◌&&◌, ◌||◌, List, [], ◌∷◌,
  ◌++◌, Option, none, some, ltb, leb, ◌==◌, if◌then◌else◌, length, take, drop, min, ◌>>=◌,
}
use vlibc.Stdio.{
  Kind, descriptor, memory, cookie, Answer, up_to, refused, File, is_none_left, is_cookie,
}

-- A call that asks for `m` bytes, with the answer `n` that is at most so many: the bytes, and the state.
abbrev pub chunk : ℕ → ℕ → File → List ℕ
chunk n m f = take (min n m) f.source

abbrev pub left_after : ℕ → ℕ → List Answer → File → File
left_after n m rest f = record f { source = drop (min n m) f.source; answers = rest }

-- The loops that read to where the bytes shall be: for `m` bytes more, with those so far.
unfoldable pub raw_loop : List Answer → ℕ → List ℕ → File → Option (List ℕ × File)
raw_loop rest zero out f = some (out, record f { answers = rest })
raw_loop [] (suc m) out f = none
raw_loop (refused ∷ rest) (suc m) out f = some (out, record f { answers = rest; error = true })
raw_loop (up_to n ∷ rest) (suc m) out f =
    let r = chunk n (suc m) f in
    let again = raw_loop rest (suc m - length r) (out ++ r) (left_after n (suc m) rest f) in
    if is_none_left r then some (out, record f { answers = rest; eof = true }) else again

-- `read` into the buffer: whether it has bytes then.
unfoldable pub fill_with : List Answer → File → Option (Bool × File)
fill_with [] f = none
fill_with (refused ∷ rest) f = some (false, record f { answers = rest; error = true })
fill_with (up_to n ∷ rest) f =
    if is_none_left (chunk n f.bufsize f)
    then some (false, record f { answers = rest; eof = true })
    else some (
      true,
      record f {
        source = drop (min n f.bufsize) f.source;
        answers = rest;
        buf = chunk n f.bufsize f;
        bufpos = 0;
      },
    )

unfoldable pub fill : Kind → File → Option (Bool × File)
unfolding fill_with
fill memory f = some (false, record f { eof = true })
fill _ f = fill_with f.answers f

unfoldable pub refill : File → Option (Bool × File)
unfolding fill
refill f = if leb (length f.buf) f.bufpos then fill f.kind f else some (true, f)

abbrev pub advance : ℕ → File → File
advance n f = record f { bufpos = f.bufpos + n }

-- The loop over the buffer, or over the memory. Every round copies a byte at least, so that fuel for the bytes wanted
-- is enough.
unfoldable pub copy_loop : ℕ → ℕ → List ℕ → File → Option (List ℕ × File)
copy_loop k zero out f = some (out, f)
copy_loop zero (suc m) out f = none
copy_loop (suc k) (suc m) out f = do
  (more, g) ← refill f
  let n = min (suc m) (length g.buf - g.bufpos)
  let again = copy_loop k (suc m - n) (out ++ take n (drop g.bufpos g.buf)) (advance n g)
  if more then again else some (out, g)

-- A cookie that has no function to read: the loop runs if a byte is wanted.
unfoldable pub no_reader : ℕ → File → List ℕ × File
no_reader zero f = ([], f)
no_reader (suc m) f = ([], record f { eof = true })

unfoldable pub read_bytes : Kind → ℕ → File → Option (List ℕ × File)
unfolding raw_loop copy_loop no_reader
read_bytes memory m f = copy_loop m m [] f
read_bytes cookie m f = if f.has_read then raw_loop f.answers m [] f else some (no_reader m f)
read_bytes descriptor m f = if f.has_buf then copy_loop m m [] f else raw_loop f.answers m [] f

-- The items read, the bytes that are stored, and the stream. `size * nmemb` is a size_t.
unfoldable pub fread : ℕ → ℕ → File → Option (ℕ × List ℕ × File)
unfolding read_bytes
fread size nmemb f =
    if size == 0 || nmemb == 0
    then some (0, [], f)
    else do (out, g) ← read_bytes f.kind (size * nmemb % 2 ^ 64) f; some (length out / size, out, g)

abbrev pub one_char : ℕ × List ℕ × File → Option ℕ × File
one_char (_, c ∷ _, g) = (some c, g)
one_char (_, [], g) = (none, g)

-- -1 is `none` in the answer.
unfoldable pub fgetc : File → Option (Option ℕ × File)
unfolding fread
fgetc f = elim f.ungot [
  | some c ↦ some (some c, record f { ungot = none })
  | none ↦ do r ← fread 1 1 f; some (one_char r)
]

abbrev pub is_some : Option ℕ → Bool
is_some (some c) = true
is_some none = false

-- `c` is the int modulo 2 ^ 32.
unfoldable pub ungetc : ℕ → File → Option ℕ × File
ungetc c f =
    if c == 2 ^ 32 - 1 || is_some f.ungot
    then (none, f)
    else (some (c % 256), record f { ungot = some (c % 256); eof = false })

-- The loop of fgets, for `m` bytes more: NULL if there were none.
unfoldable pub line_of : ℕ → List ℕ → File → Option (Option (List ℕ) × File)
unfolding fgetc
line_of zero s f = some (some s, f)
line_of (suc m) s f = do
  (c, g) ← fgetc f
  elim c [
    | none ↦ some (if is_none_left s then none else some s, g)
    | some c ↦
        let again = line_of m (s ++ c ∷ []) g in
        if c == b'\n' then some (some (s ++ c ∷ []), g) else again
  ]

-- The string that is stored, or NULL; `size` is positive or 0 for one that is not.
unfoldable pub fgets : ℕ → File → Option (Option (List ℕ) × File)
unfolding line_of
fgets zero f = some (none, f)
fgets (suc room) f = line_of room [] f
