-- ===== src/Stdio/Place/Moves.antt =====
-- src/stdio.c: a stream in memory that is written, flushed and moved.
use vlibc.Base.{
  ℕ, suc, ◌+◌, ◌/◌, ◌^◌, ◌≤◌, ◌<◌, ◌≡◌, refl, sym, ap, ◌∙◌, subst, Bool, true, false, not, ◌||◌,
  List, [], ◌∷◌, ◌++◌, Option, none, some, ltb, if◌then◌else◌, length, take, drop, ◌>>=◌, arith,
  All,
}
use vlibc.Base.Int.{pos}
use vlibc.Stdio.{Kind, memory, File, is_none_left}
use vlibc.Stdio.Output.{
  grown, show, flush_memory, flush_kind, flush_buffer, patched_if, write_memory, write_bytes,
  fwrite, is_memory,
}
use vlibc.Stdio.Output.Kept.{take-drop}
use vlibc.Stdio.Input.Fread.{fits}
use vlibc.Stdio.Place.{seek_memory, seek_flushed, fseek}

-- The bytes `p` over those at a place.
abbrev pub overwritten : ℕ → List ℕ → List ℕ → List ℕ
overwritten at p b = take at b ++ (p ++ drop (at + length p) b)

-- The allocator grants the next calls, so many at least.
abbrev pub Granted : ℕ → List Bool → Type 0
Granted n allocs = All (λ (b : Bool). b ≡ true) allocs × (n ≤ length allocs)

-- A stream in memory with the contents `b`, at a place.
abbrev pub Stands : List ℕ → ℕ → ℕ → File → Type 0
Stands b at n f = (f.kind ≡ memory) × (f.buf ≡ b) × (f.bufpos ≡ at) × Granted n f.allocs

-- A call that succeeds there.
abbrev pub Ready : List ℕ → ℕ → ℕ → Bool × File → Type 0
Ready b at n (true, f) = Stands b at n f
Ready b at n (false, f) = ⊥

grown-Ready :
    (b : List ℕ) (at n newsize : ℕ) (allocs : List Bool) (f : File)
    → Stands b at (suc n) f
    → Granted (suc n) allocs
    → Ready b at n (grown newsize allocs f)
unfolding grown
grown-Ready b at n newsize [] f s (_, h) = elim h [ ]
grown-Ready b at n newsize (false ∷ later) f s ((h, _), _) = absurd (ground arith)
grown-Ready b at n newsize (true ∷ later) f (k, c, p, _) ((_, h), l) = (k, c, p, (h, omega arith))

fewer_calls : (n : ℕ) (allocs : List Bool) → Granted (suc n) allocs → Granted n allocs
fewer_calls n allocs (h, l) = (h, omega arith)

grown_if-Ready :
    (x : Bool) (b : List ℕ) (at n newsize : ℕ) (f : File)
    → Stands b at (suc n) f
    → Ready b at n (if x then grown newsize f.allocs f else (true, f))
grown_if-Ready true b at n newsize f (k, c, p, g) =
    grown-Ready b at n newsize f.allocs f (k, c, p, g) g
grown_if-Ready false b at n newsize f (k, c, p, g) = (k, c, p, fewer_calls n f.allocs g)

flush_memory-Ready :
    (b : List ℕ) (at n : ℕ) (f : File) → Stands b at (suc n) f → Ready b at n (flush_memory f)
unfolding flush_memory
flush_memory-Ready b at n f s =
    shown
      (if ltb f.bufsize (length f.buf + 1) then grown (length f.buf + 1) f.allocs f else (true, f))
      (grown_if-Ready (ltb f.bufsize (length f.buf + 1)) b at n (length f.buf + 1) f s)
  where
    shown : (r : Bool × File) → Ready b at n r → Ready b at n (show r)
    shown (true, g) h = h
    shown (false, g) h = h

-- A call that returns, and succeeds there.
abbrev pub ReadyAfter : List ℕ → ℕ → ℕ → Option (Bool × File) → Type 0
ReadyAfter b at n none = ⊥
ReadyAfter b at n (some r) = Ready b at n r

flush_buffer-ReadyAfter :
    (b : List ℕ) (at n : ℕ) (f : File) → Stands b at (suc n) f → ReadyAfter b at n (flush_buffer f)
unfolding flush_buffer flush_kind
flush_buffer-ReadyAfter b at n f (k, c, p, g) = by_test (not f.has_buf || is_none_left f.buf)
  where
    by_test : (x : Bool) → ReadyAfter b at n (if x then some (true, f) else flush_kind f.kind f)
    by_test true = (k, c, p, fewer_calls n f.allocs g)
    by_test false =
        subst (λ (x : Kind). ReadyAfter b at n (flush_kind x f)) (sym k)
          (flush_memory-Ready b at n f (k, c, p, g))

-- After a write of `p` there.
abbrev pub Put : List ℕ → List ℕ → ℕ → ℕ → ℕ × File → Type 0
Put p b at n (w, f) = (w ≡ length p) × Stands (overwritten at p b) (at + length p) n f

patched_if-Put :
    (p b : List ℕ) (at n : ℕ) (r : Bool × File) → Ready b at n r → Put p b at n (patched_if p r)
patched_if-Put p b at n (true, f) (k, c, q, g) = (
  refl,
  (
    k,
    ap (λ (x : List ℕ). overwritten f.bufpos p x) c ∙ ap (λ (m : ℕ). overwritten m p b) q,
    ap (λ (m : ℕ). m + length p) q,
    g,
  ),
)
patched_if-Put p b at n (false, f) h = elim h [ ]

write_memory-Put :
    (p b : List ℕ) (at n : ℕ) (f : File) → Stands b at (suc n) f → Put p b at n (write_memory p f)
unfolding write_memory
write_memory-Put p b at n f s =
    patched_if-Put p b at n _ (grown_if-Ready (ltb f.bufsize (f.bufpos + length p)) b at n _ f s)

overwritten-nil : (at : ℕ) (b : List ℕ) → overwritten at [] b ≡ b
overwritten-nil at b =
    ap (λ (m : ℕ). take at b ++ drop m b) {x = at + 0} (omega arith) ∙ take-drop at b

abbrev pub PutAfter : List ℕ → List ℕ → ℕ → ℕ → Option (ℕ × File) → Type 0
PutAfter p b at n none = ⊥
PutAfter p b at n (some r) = Put p b at n r

pub fwrite-PutAfter :
    (p b : List ℕ) (at n : ℕ) (f : File) → Stands b at (suc n) f → PutAfter p b at n (fwrite p 1 f)
unfolding fwrite write_bytes
fwrite-PutAfter [] b at n f (k, c, q, g) =
    (refl, (k, c ∙ sym (overwritten-nil at b), omega arith, fewer_calls n f.allocs g))
fwrite-PutAfter (x ∷ p) b at n f (k, c, q, g) =
    subst
      (λ (y : Kind). PutAfter (x ∷ p) b at n (do (w, h) ← write_bytes y (x ∷ p) f; some (w / 1, h)))
      (sym k) (divided (write_memory (x ∷ p) f) (write_memory-Put (x ∷ p) b at n f (k, c, q, g)))
  where
    divided : (r : ℕ × File) → Put (x ∷ p) b at n r → PutAfter (x ∷ p) b at n (some (r.0 / 1, r.1))
    divided (w, h) (e, s) = (omega arith, s)

seek_memory-Ready :
    (b : List ℕ) (at to n : ℕ) (f : File)
    → to ≤ length b
    → Stands b at n f
    → Ready b to n (seek_memory (some to) f)
unfolding seek_memory
seek_memory-Ready b at to n f h (k, c, q, g) = (k, c, omega (arith, ap length c), g)

if_memory :
    (k : Kind) (P : Option (Bool × File) → Type 0) (r s : Option (Bool × File))
    → k ≡ memory
    → P r
    → P (if is_memory k then r else s)
if_memory k P r s e x = subst (λ (y : Kind). P (if is_memory y then r else s)) (sym e) x

pub fseek-ReadyAfter :
    (b : List ℕ) (at to n : ℕ) (f : File)
    → to ≤ length b
    → to < 2 ^ 64
    → Stands b at (suc n) f
    → ReadyAfter b to n (fseek (pos to) 0 f)
unfolding fseek seek_flushed
fseek-ReadyAfter b at to n f h l s = sought (flush_buffer f) (flush_buffer-ReadyAfter b at n f s)
  where
    sought :
        (r : Option (Bool × File))
        → ReadyAfter b at n r
        → ReadyAfter b to n
            (do (ok, g) ← r; if ok then seek_flushed (pos to) 0 g else some (false, g))
    sought none x = x
    sought (some (true, g)) x = if_memory g.kind (ReadyAfter b to n) _ _ x.0 (
        subst (λ (m : ℕ). Ready b to n (seek_memory (some m) g)) (sym (fits to l))
          (seek_memory-Ready b at to n g h x))
    sought (some (false, g)) x = elim x [ ]
