-- ===== src/Stdio/Place/Again.antt =====
-- src/stdio.c: a stream in memory gives back what is written to it.
use vlibc.Base.{
  ℕ, zero, suc, ◌+◌, ◌-◌, ◌*◌, ◌/◌, ◌%◌, ◌^◌, ◌≤◌, ◌<◌, ◌≡◌, refl, sym, ap, ◌∙◌, subst, Bool, true,
  false, List, [], ◌∷◌, ◌++◌, Option, none, some, leb, ◌==◌, length, take, drop, min, ◌>>=◌,
  length-append, length-take, arith,
}
use vlibc.Base.Int.{pos}
use vlibc.Stdio.{Kind, memory, File}
use vlibc.Stdio.Input.{fread, read_bytes, copy_loop, refill, advance}
use vlibc.Stdio.Output.{fwrite}
use vlibc.Stdio.Output.Kept.{take-append}
use vlibc.Stdio.Input.Fread.{fits}
use vlibc.Stdio.Place.{fseek}
use vlibc.Stdio.Place.Moves.{
  overwritten, Granted, Stands, ReadyAfter, PutAfter, fwrite-PutAfter, fseek-ReadyAfter,
}

take_again :
    (at : ℕ) (p b z : List ℕ)
    → at ≤ length b
    → take (length p) (drop at (take at b ++ (p ++ z))) ≡ p
take_again zero p b z h = take-append p z
take_again (suc at) p [] z h = elim h [ ]
take_again (suc at) p (x ∷ b) z h = take_again at p b z (omega arith)

copy_once :
    (m : ℕ) (f : File)
    → f.bufpos + suc m ≤ length f.buf
    → copy_loop (suc m) (suc m) [] f ≡ some (take (suc m) (drop f.bufpos f.buf), advance (suc m) f)
unfolding copy_loop refill
copy_once m f h =
    let a : leb (length f.buf) f.bufpos ≡ false = ground arith in
    let t : min (suc m) (length f.buf - f.bufpos) ≡ suc m = omega arith in
    let u : suc m - suc m ≡ 0 = omega arith in rw (a, t, u) refl

-- After a read of the bytes `p`, with the contents `b`.
abbrev pub Back : List ℕ → List ℕ → Option (ℕ × List ℕ × File) → Type 0
Back p b none = ⊥
Back p b (some (n, s, f)) = (n ≡ length p) × (s ≡ p) × (f.buf ≡ b)

fread-Back :
    (p b : List ℕ) (at n : ℕ) (f : File)
    → at + length p ≤ length b
    → take (length p) (drop at b) ≡ p
    → length p < 2 ^ 64
    → Stands b at n f
    → Back p b (fread 1 (length p) f)
unfolding fread read_bytes
fread-Back [] b at n f h e l (k, c, q, g) = (refl, refl, c)
fread-Back (x ∷ p) b at n f h e l (k, c, q, g) =
    let m = suc (length p) in
    let t : (m == 0) ≡ false = ground arith in
    let w : m ≡ 1 * m % 2 ^ 64 = omega (arith, fits m l) in
    rw t (
      subst (λ (v : ℕ). Back (x ∷ p) b (got_items (read_bytes f.kind v f))) w
        (subst (λ (y : Kind). Back (x ∷ p) b (got_items (read_bytes y m f))) (sym k)
          (subst (λ (r : Option (List ℕ × File)). Back (x ∷ p) b (got_items r))
            (sym (copy_once (length p) f (omega (arith, ap length c))))
            (read_whole (take m (drop f.bufpos f.buf)) (
              ap (λ (y : List ℕ). take m (drop f.bufpos y)) c
              ∙ (ap (λ (y : ℕ). take m (drop y b)) q ∙ e))))))
  where
    got_items : Option (List ℕ × File) → Option (ℕ × List ℕ × File)
    got_items r = do (out, h) ← r; some (length out / 1, out, h)

    read_whole :
        (out : List ℕ)
        → out ≡ x ∷ p
        → (length out / 1 ≡ suc (length p)) × (out ≡ x ∷ p) × (f.buf ≡ b)
    read_whole out u = (omega (arith, ap length u), u, c)

-- A write of `p`, a seek to where it began, and a read of as many bytes.
abbrev pub write_and_read : List ℕ → File → Option (ℕ × List ℕ × File)
write_and_read p f = do
  (_, g) ← fwrite p 1 f
  (_, h) ← fseek (pos f.bufpos) 0 g
  fread 1 (length p) h

-- On a stream in memory whose place is within the contents, with two calls of the allocator to be granted and a
-- position that fits a size_t, a write, a seek back and a read of as many bytes return; the read counts and stores
-- exactly the bytes written, and the contents are those before with these bytes over the ones at the place.
pub fread-fseek-fwrite-Back :
    (p : List ℕ) (f : File)
    → f.kind ≡ memory
    → f.bufpos ≤ length f.buf
    → f.bufpos + length p < 2 ^ 64
    → Granted 2 f.allocs
    → Back p (overwritten f.bufpos p f.buf) (write_and_read p f)
fread-fseek-fwrite-Back p f k h l g =
    written (fwrite p 1 f) (fwrite-PutAfter p f.buf f.bufpos 1 f (k, refl, refl, g))
  where
    held : f.bufpos + length p ≤ length (overwritten f.bufpos p f.buf)
    held = omega (
      arith,
      length-append (take f.bufpos f.buf) (p ++ drop (f.bufpos + length p) f.buf),
      length-append p (drop (f.bufpos + length p) f.buf),
      length-take f.bufpos f.buf,
    )

    sought :
        (r : Option (Bool × File))
        → ReadyAfter (overwritten f.bufpos p f.buf) f.bufpos 0 r
        → Back p (overwritten f.bufpos p f.buf) (do (_, h) ← r; fread 1 (length p) h)
    sought none x = elim x [ ]
    sought (some (false, j)) x = elim x [ ]
    sought (some (true, j)) x =
        fread-Back p _ f.bufpos 0 j held (take_again f.bufpos p f.buf _ h) (omega arith) x

    written :
        (r : Option (ℕ × File))
        → PutAfter p f.buf f.bufpos 1 r
        → Back p
            (overwritten f.bufpos p f.buf)
            (do (_, i) ← r; (_, j) ← fseek (pos f.bufpos) 0 i; fread 1 (length p) j)
    written none x = elim x [ ]
    written (some (w, i)) (_, x) = sought (fseek (pos f.bufpos) 0 i) (
        fseek-ReadyAfter (overwritten f.bufpos p f.buf) (f.bufpos + length p) f.bufpos 0 i
          (omega (arith, held)) (omega arith) x)
