-- ===== src/Stdio/Place.antt =====
-- src/stdio.c: fseek, ftell, rewind, fclose, setvbuf, setbuf, setbuffer, setlinebuf, clearerr.
pub mod Moves
pub mod Again
use vlibc.Base.{
  ℕ, zero, suc, ◌+◌, ◌-◌, ◌*◌, ◌%◌, ◌^◌, Bool, true, false, not, ◌&&◌, ◌||◌, List, [], ◌∷◌, ◌++◌,
  Option, none, some, ltb, leb, ◌==◌, if◌then◌else◌, length, min, ◌>>=◌,
}
use vlibc.Base.Int.{ℤ, pos, negsuc}
use vlibc.Stdio.{
  Kind, descriptor, memory, cookie, Buffering, unbuffered, by_line, full, File, is_cookie,
}
use vlibc.Stdio.Output.{flush_buffer, is_memory}

-- `(size_t)offset`
abbrev pub size_of : ℤ → ℕ
size_of (pos n) = n % 2 ^ 64
size_of (negsuc n) = 2 ^ 64 - 1 - n % 2 ^ 64

-- SEEK_SET is 0, SEEK_CUR is 1 and SEEK_END is 2.
unfoldable pub new_place : ℤ → ℕ → File → Option ℕ
new_place offset zero f = some (size_of offset)
new_place offset (suc zero) f = some ((f.bufpos + size_of offset) % 2 ^ 64)
new_place offset (suc (suc zero)) f = some ((length f.buf + size_of offset) % 2 ^ 64)
new_place offset _ f = none

unfoldable pub seek_memory : Option ℕ → File → Bool × File
seek_memory none f = (false, f)
seek_memory (some newpos) f =
    let place = min newpos (length f.buf) in
    (true, record f { bufpos = place; eof = leb (length f.buf) place; ungot = none })

-- The call of lseek or of cookie_seek. The code of a cookie leaves the buffer, which it does not have.
unfoldable pub seek_device : List (Option (ℕ × List ℕ)) → File → Option (Bool × File)
seek_device [] f = none
seek_device (none ∷ rest) f = some (false, record f { seeks = rest; error = true })
seek_device (some (_, source) ∷ rest) f =
    let g = record f { seeks = rest; source = source; eof = false; ungot = none } in
    some (true, if is_cookie f.kind then g else record g { buf = []; bufpos = 0 })

abbrev pub cannot_seek : File → Bool
cannot_seek f = is_cookie f.kind && not f.has_seek

unfoldable pub seek_flushed : ℤ → ℕ → File → Option (Bool × File)
unfolding new_place seek_memory seek_device
seek_flushed offset whence f =
    if is_memory f.kind
    then some (seek_memory (new_place offset whence f) f)
    else if cannot_seek f
    then some (false, record f { error = true })
    else seek_device f.seeks f

-- Whether it succeeds. lseek and cookie_seek have `offset` and `whence`, and answer what they do.
unfoldable pub fseek : ℤ → ℕ → File → Option (Bool × File)
unfolding flush_buffer seek_flushed
fseek offset whence f = do
  (ok, g) ← flush_buffer f
  if ok then seek_flushed offset whence g else some (false, g)

-- `lseek(stream->fd, 0, SEEK_CUR)`, which moves nothing.
unfoldable pub tell_device : List (Option (ℕ × List ℕ)) → File → Option (Option ℕ × File)
tell_device [] f = none
tell_device (none ∷ rest) f = some (none, record f { seeks = rest; error = true })
tell_device (some (place, _) ∷ rest) f = some (some place, record f { seeks = rest })

unfoldable pub tell_flushed : File → Option (Option ℕ × File)
unfolding tell_device
tell_flushed f =
    if is_memory f.kind
    then some (some f.bufpos, f)
    else if cannot_seek f
    then some (none, record f { error = true })
    else tell_device f.seeks f

-- -1 is `none` in the answer.
unfoldable pub ftell : File → Option (Option ℕ × File)
unfolding flush_buffer tell_flushed
ftell f = do (ok, g) ← flush_buffer f; if ok then tell_flushed g else some (none, g)

-- The call of lseek or cookie_seek that rewind makes: its failure sets an error, which is cleared below.
unfoldable pub start_device : List (Option (ℕ × List ℕ)) → File → Option File
start_device [] f = none
start_device (none ∷ rest) f = some (record f { seeks = rest })
start_device (some (_, source) ∷ rest) f = some (record f { seeks = rest; source = source })

abbrev pub cleared : File → File
cleared f = record f { bufpos = 0; buf = []; eof = false; error = false; ungot = none }

unfoldable pub rewind : File → Option File
unfolding flush_buffer start_device
rewind f = do
  (_, g) ← flush_buffer f
  h ← if is_memory g.kind || cannot_seek g then some g else start_device g.seeks g
  some (cleared h)

-- What it answers, given the answer of close, or of cookie_close (0 if there is none).
unfoldable pub fclose : ℤ → File → Option (ℤ × File)
unfolding flush_buffer
fclose closed f = do (_, g) ← flush_buffer f; some (if is_memory g.kind then pos 0 else closed, g)

-- _IOFBF is 0, _IOLBF is 1 and _IONBF is 2.
unfoldable pub mode_of : ℕ → Option Buffering
mode_of zero = some full
mode_of (suc zero) = some by_line
mode_of (suc (suc zero)) = some unbuffered
mode_of _ = none

-- BUFSIZ
abbrev pub bufsiz : ℕ
bufsiz = 1024

-- The buffer that is set, of `size` bytes: `given` is whether the caller has it.
unfoldable pub buffered : Bool → List Bool → Buffering → ℕ → File → Bool × File
buffered true allocs mode size f =
    (true, record f { has_buf = true; bufsize = size; bufpos = 0; buf = []; buf_mode = mode })
buffered false (true ∷ rest) mode size f = (
  true,
  record f { has_buf = true; bufsize = size; bufpos = 0; buf = []; buf_mode = mode; allocs = rest },
)
buffered false (false ∷ rest) mode size f = (false, record f { has_buf = false; allocs = rest })
buffered false [] mode size f = (false, record f { has_buf = false })

unfoldable pub set_mode : Bool → Option Buffering → ℕ → File → Bool × File
unfolding buffered
set_mode given none size f = (false, f)
set_mode given (some unbuffered) size f =
    (true, record f { has_buf = false; bufsize = 0; bufpos = 0; buf = []; buf_mode = unbuffered })
set_mode given (some mode) size f =
    buffered given f.allocs mode (if size == 0 then bufsiz else size) f

-- Whether it succeeds.
unfoldable pub setvbuf : Bool → ℕ → ℕ → File → Bool × File
unfolding mode_of set_mode
setvbuf given mode size f = set_mode given (mode_of mode) size f

unfoldable pub setbuf : Bool → File → File
unfolding setvbuf
setbuf given f = (setvbuf given 0 bufsiz f).1

unfoldable pub setbuffer : Bool → ℕ → File → File
unfolding setvbuf
setbuffer given size f =
    if given && not (size == 0) then (setvbuf given 0 size f).1 else (setvbuf false 2 0 f).1

unfoldable pub setlinebuf : File → Bool × File
unfolding setvbuf
setlinebuf f = setvbuf false 1 bufsiz f

unfoldable pub clearerr : File → File
clearerr f = record f { error = false; eof = false; ungot = none }
