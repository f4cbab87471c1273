-- ===== src/Stdio/Delim.antt =====
-- src/getline.c: getdelim and getline. The answers of malloc and realloc to come are a list.
pub mod Whole
use vlibc.Base.{
  ℕ, zero, suc, ◌+◌, ◌*◌, Bool, true, false, not, ◌||◌, List, [], ◌∷◌, ◌++◌, Option, none, some,
  leb, ◌==◌, if◌then◌else◌, length, ◌>>=◌,
}
use vlibc.Stdio.{File, is_none_left}
use vlibc.Stdio.Input.{fgetc}

-- The number of bytes, or -1; the bytes at `*lineptr` before the terminator; `*n`; and the stream.
pub record Read : Type 0 where
  pub count : Option ℕ
  pub line : List ℕ
  pub size : ℕ
  pub stream : File

-- A call of the allocator for `size` bytes: the size, and the answers after it.
unfoldable pub granted : List Bool → ℕ → Option (ℕ × List Bool)
granted (true ∷ rest) size = some (size, rest)
granted _ size = none

-- Room for a byte more and the terminator.
unfoldable pub room_for : ℕ → ℕ → List Bool → Option (ℕ × List Bool)
unfolding granted
room_for pos n allocs = if leb n (pos + 1) then granted allocs (n * 2) else some (n, allocs)

-- A round with the byte `c` and its room, and what goes on after it.
unfoldable pub take_byte :
    (ℕ → List Bool → List ℕ → Option Read)
    → ℕ
    → ℕ
    → ℕ
    → List ℕ
    → File
    → Option (ℕ × List Bool)
    → Option Read
take_byte again delim c n line g none =
    some (record { count = none; line = line; size = n; stream = g })
take_byte again delim c n line g (some (m, rest)) =
    if c == delim
    then some
        (record { count = some (length line + 1); line = line ++ c ∷ []; size = m; stream = g })
    else again m rest (line ++ c ∷ [])

-- The loop. Every round takes a byte of those to come, so that fuel for them and a round more is enough.
unfoldable pub delim_loop : ℕ → ℕ → ℕ → List Bool → List ℕ → File → Option Read
unfolding fgetc room_for take_byte
delim_loop zero delim n allocs line f = none
delim_loop (suc k) delim n allocs line f = do
  (r, g) ← fgetc f
  elim r [
    | none ↦ some (record {
      count = if is_none_left line then none else some (length line);
      line = line;
      size = n;
      stream = g;
    })
    | some c ↦
        take_byte (λ m rest more. delim_loop k delim m rest more g) delim c n line g
          (room_for (length line) n allocs)
  ]

abbrev pub fuel : File → ℕ
fuel f = length f.buf + length f.source + 3

-- The first size.
unfoldable pub line_size : Bool → ℕ → List Bool → Option (ℕ × List Bool)
unfolding granted
line_size given n allocs =
    if not given || n == 0 then granted allocs (if n == 0 then 128 else n) else some (n, allocs)

unfoldable pub delim_from : ℕ → File → ℕ → Option (ℕ × List Bool) → Option Read
unfolding delim_loop
delim_from delim f n none = some (record { count = none; line = []; size = n; stream = f })
delim_from delim f n (some (m, rest)) = delim_loop (fuel f) delim m rest [] f

-- `given` is whether `*lineptr` is not NULL.
unfoldable pub getdelim : Bool → ℕ → List Bool → ℕ → File → Option Read
unfolding line_size delim_from
getdelim given n allocs delim f =
    delim_from delim f (if n == 0 then 128 else n) (line_size given n allocs)

unfoldable pub getline : Bool → ℕ → List Bool → File → Option Read
unfolding getdelim
getline given n allocs f = getdelim given n allocs b'\n' f
