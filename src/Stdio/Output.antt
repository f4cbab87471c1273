-- ===== src/Stdio/Output.antt =====
-- src/stdio.c: flush_buffer, fwrite, fputc, fputs, fflush.
pub mod Kept
pub mod Loops
pub mod Written
use vlibc.Base.{
  ℕ, zero, suc, ◌+◌, ◌-◌, ◌*◌, ◌/◌, ◌%◌, Bool, true, false, not, ◌&&◌, ◌||◌, List, [], ◌∷◌, ◌++◌,
  Option, none, some, ltb, leb, ◌==◌, if◌then◌else◌, length, take, drop, min, ◌>>=◌,
}
use vlibc.Stdio.{
  Kind, descriptor, memory, cookie, Buffering, unbuffered, by_line, full, Reply, wrote, interrupted,
  failed, File, is_none_left, is_cookie,
}

-- The loops of flush_buffer over the bytes `p` that are left: whether they end well, what was sent, and the answers
-- still to come.
unfoldable pub flush_loop : List Reply → List ℕ → List ℕ → Option (Bool × List ℕ × List Reply)
flush_loop rs [] sent = some (true, sent, rs)
flush_loop [] (c ∷ p) sent = none
flush_loop (interrupted ∷ rs) (c ∷ p) sent = flush_loop rs (c ∷ p) sent
flush_loop (failed ∷ rs) (c ∷ p) sent = some (false, sent, rs)
flush_loop (wrote n ∷ rs) (c ∷ p) sent = flush_loop rs (drop n (c ∷ p)) (sent ++ take n (c ∷ p))

abbrev pub flushed : File → Bool × List ℕ × List Reply → Bool × File
flushed f (true, sent, rs) = (true, record f { sent = sent; replies = rs; buf = []; bufpos = 0 })
flushed f (false, sent, rs) = (false, record f { sent = sent; replies = rs; error = true })

-- Room in a memory stream for `need` bytes in a buffer of `newsize`: whether realloc answers.
unfoldable pub grown : ℕ → List Bool → File → Bool × File
grown newsize [] f = (false, record f { error = true })
grown newsize (false ∷ later) f = (false, record f { error = true; allocs = later })
grown newsize (true ∷ later) f =
    (true, record f { has_buf = true; bufsize = newsize; allocs = later })

abbrev pub show : Bool × File → Bool × File
show (true, f) = (true, record f { shown = some f.buf })
show (false, f) = (false, f)

unfoldable pub flush_memory : File → Bool × File
unfolding grown
flush_memory f =
    let need = length f.buf + 1 in
    show (if ltb f.bufsize need then grown need f.allocs f else (true, f))

unfoldable pub flush_device : File → Option (Bool × File)
unfolding flush_loop
flush_device f =
    let run = do r ← flush_loop f.replies f.buf f.sent; some (flushed f r)
    in if is_cookie f.kind && not f.has_write then none else run

unfoldable pub flush_kind : Kind → File → Option (Bool × File)
unfolding flush_memory flush_device
flush_kind memory f = some (flush_memory f)
flush_kind _ f = flush_device f

-- Whether it succeeds; a stream that is NULL is left out here and below. A cookie with no function to write loops.
unfoldable pub flush_buffer : File → Option (Bool × File)
unfolding flush_kind
flush_buffer f = if not f.has_buf || is_none_left f.buf then some (true, f) else flush_kind f.kind f

-- The bytes written one call after another with no buffer: how many.
unfoldable pub write_loop : List Reply → List ℕ → ℕ → File → Option (ℕ × File)
write_loop rs [] written f = some (written, record f { replies = rs })
write_loop [] (c ∷ p) written f = none
write_loop (wrote zero ∷ rs) (c ∷ p) written f =
    some (written, record f { replies = rs; error = true })
write_loop (wrote (suc n) ∷ rs) (c ∷ p) written f =
    let taken = take (suc n) (c ∷ p) in
    write_loop rs (drop (suc n) (c ∷ p)) (written + length taken)
      (record f { sent = f.sent ++ taken })
write_loop (_ ∷ rs) (c ∷ p) written f = some (written, record f { replies = rs; error = true })

abbrev pub flush_if : Bool → File → Option (Bool × File)
flush_if b f = if b then flush_buffer f else some (true, f)

-- Room for a byte at least, and then bytes that are put in the buffer.
unfoldable pub make_room : File → Option (Bool × File)
unfolding flush_buffer
make_room f = flush_if (length f.buf == f.bufsize) f

unfoldable pub put_bytes : Bool → List ℕ → File → Option (Bool × File)
unfolding flush_buffer
put_bytes ends p f =
    let g = record f { buf = f.buf ++ p } in flush_if (ends || length g.buf == g.bufsize) g

-- `case _IOLBF`: a byte at a time.
unfoldable pub line_loop : List ℕ → ℕ → File → Option (ℕ × File)
line_loop [] written f = some (written, f)
line_loop (c ∷ p) written f = do
  (room, g) ← make_room f
  (ok, h) ← if room then put_bytes (c == b'\n') (c ∷ []) g else some (false, g)
  let more = line_loop p (written + 1) h
  if ok then more else some (if room then written + 1 else written, h)

-- `case _IOFBF`: as many bytes at a time as there is room for. Every round takes a byte at least, so that fuel for the
-- bytes is enough, but not if the buffer has no room at all.
unfoldable pub full_loop : ℕ → List ℕ → ℕ → File → Option (ℕ × File)
full_loop k [] written f = some (written, f)
full_loop zero (c ∷ p) written f = none
full_loop (suc k) (c ∷ p) written f = do
  (room, g) ← make_room f
  let n = min (length (c ∷ p)) (g.bufsize - length g.buf)
  (ok, h) ← if room then put_bytes false (take n (c ∷ p)) g else some (false, g)
  let more = full_loop k (drop n (c ∷ p)) (written + n) h
  if ok then more else some (if room then written + n else written, h)

-- `while (newsize < needed) newsize *= 2;`
unfoldable pub double_until : ℕ → ℕ → ℕ → ℕ
double_until zero newsize needed = newsize
double_until (suc f) newsize needed =
    let rest = double_until f (newsize * 2) needed in if ltb newsize needed then rest else newsize

abbrev pub patched : File → List ℕ → File
patched f p = record f {
  buf = take f.bufpos f.buf ++ (p ++ drop (f.bufpos + length p) f.buf);
  bufpos = f.bufpos + length p;
}

abbrev pub patched_if : List ℕ → Bool × File → ℕ × File
patched_if p (true, f) = (length p, patched f p)
patched_if p (false, f) = (0, f)

unfoldable pub write_memory : List ℕ → File → ℕ × File
unfolding grown double_until
write_memory p f =
    let needed = f.bufpos + length p in
    let first = if f.bufsize == 0 then 128 else f.bufsize * 2 in
    patched_if p (
      if ltb f.bufsize needed
      then grown (double_until needed first needed) f.allocs f
      else (true, f))

unfoldable pub write_buffered : Buffering → List ℕ → File → Option (ℕ × File)
unfolding line_loop full_loop write_loop
write_buffered by_line p f = line_loop p 0 f
write_buffered full p f = full_loop (length p) p 0 f
write_buffered unbuffered p f = write_loop f.replies p 0 f

-- `written`, for all bytes at once.
unfoldable pub write_bytes : Kind → List ℕ → File → Option (ℕ × File)
unfolding write_memory write_buffered write_loop
write_bytes memory p f = some (write_memory p f)
write_bytes cookie p f =
    if f.has_write then write_loop f.replies p 0 f else some (0, record f { error = true })
write_bytes descriptor p f =
    if f.has_buf then write_buffered f.buf_mode p f else write_loop f.replies p 0 f

-- `p` has the size * nmemb bytes at `ptr`.
unfoldable pub fwrite : List ℕ → ℕ → File → Option (ℕ × File)
unfolding write_bytes
fwrite p size f =
    if size == 0 || is_none_left p
    then some (0, f)
    else do (written, g) ← write_bytes f.kind p f; some (written / size, g)

-- `c` is the int modulo 2 ^ 32; -1 is `none` in the answer.
unfoldable pub fputc : ℕ → File → Option (Option ℕ × File)
unfolding fwrite
fputc c f = do (n, g) ← fwrite (c % 256 ∷ []) 1 f; some (if n == 1 then some (c % 256) else none, g)

unfoldable pub fputs : List ℕ → File → Option (Option ℕ × File)
unfolding fwrite
fputs s f = do (w, g) ← fwrite s 1 f; some (if w == length s then some w else none, g)

-- The call of fsync.
unfoldable pub synced : List Bool → File → Option (Bool × File)
synced [] f = none
synced (ok ∷ rest) f = some (ok, record f { syncs = rest })

abbrev pub is_memory : Kind → Bool
is_memory memory = true
is_memory _ = false

unfoldable pub fflush : File → Option (Bool × File)
unfolding flush_buffer synced
fflush f = do
  (ok, g) ← flush_buffer f
  if ok && not (is_memory g.kind) then synced g.syncs g else some (ok, g)
