-- ===== src/Stdio/Output/Loops.antt =====
-- src/stdio.c: the loops of fwrite on a descriptor, with a buffer and without.
use vlibc.Base.{
  ℕ, zero, suc, ◌+◌, ◌-◌, ◌≤◌, ◌<◌, ◌/◌, ◌≡◌, refl, sym, ap, ◌∙◌, subst, ◌⊎◌, inl, inr, Bool, true,
  false, List, [], ◌∷◌, ◌++◌, ◌>>=◌, Option, none, some, append_assoc, append-nil, length, take,
  drop, min, length-take, arith, ◌==◌, if◌then◌else◌, ◌≢◌,
}
use vlibc.Stdio.{
  Kind, descriptor, Buffering, unbuffered, by_line, full, Reply, wrote, interrupted, failed, File,
}
use vlibc.Stdio.Output.{
  make_room, put_bytes, line_loop, full_loop, write_loop, write_buffered, write_bytes, fwrite,
}
use vlibc.Stdio.Output.Kept.{
  strength, IsPrefix, take-append, take-drop, length-drop, Holds, Fails, Kept, Roomy,
  make_room-Roomy, put_bytes-Kept,
}

-- After `n` bytes were written, out of `all`.
abbrev pub Finished : ℕ → List ℕ → Option (ℕ × File) → Type 0
Finished all t none = ⊥
Finished all t (some (n, f)) = Fails t f ⊎ ((n ≡ all) × Holds [] t f)

module _ (p t : List ℕ) (all : ℕ) (next : Bool × File → Option (ℕ × File)) where
  after_room :
      (r : Option (Bool × File))
      → Roomy p t r
      → ((g : File) → Holds p t g → length g.buf < g.bufsize → Finished all t (next (true, g)))
      → ((g : File) → Fails t g → Finished all t (next (false, g)))
      → Finished all t (r >>= next)
  after_room none h fine bad = h
  after_room (some (true, g)) (h, l) fine bad = fine g h l
  after_room (some (false, g)) h fine bad = bad g h

  after_bytes :
      (r : Option (Bool × File))
      → Kept p t r
      → ((g : File) → Holds p t g → Finished all t (next (true, g)))
      → ((g : File) → Fails t g → Finished all t (next (false, g)))
      → Finished all t (r >>= next)
  after_bytes none h fine bad = h
  after_bytes (some (true, g)) h fine bad = fine g h
  after_bytes (some (false, g)) h fine bad = bad g h

pub line_loop-Finished :
    (p : List ℕ) (written : ℕ) (t : List ℕ) (f : File)
    → Holds p t f
    → Finished (written + length p) t (line_loop p written f)
unfolding line_loop
line_loop-Finished [] written t f h = inr (omega arith, h)
line_loop-Finished (c ∷ p) written t f h =
    after_room (c ∷ p) t _ _ (make_room f) (make_room-Roomy f (c ∷ p) t h)
      (λ g k l.
        after_bytes p t _ _ (put_bytes (c == b'\n') (c ∷ []) g)
          (put_bytes-Kept _ (c ∷ []) p t g k (omega arith))
          (λ j i.
            subst (λ (n : ℕ). Finished n t (line_loop p (written + 1) j)) (omega arith)
              (line_loop-Finished p (written + 1) t j i))
          (λ j i. inl i))
      (λ g k. inl k)

pub full_loop-Finished :
    (k : ℕ) (p : List ℕ) (written : ℕ) (t : List ℕ) (f : File)
    → length p ≤ k
    → Holds p t f
    → Finished (written + length p) t (full_loop k p written f)
unfolding full_loop
full_loop-Finished k [] written t f m h = inr (omega arith, h)
full_loop-Finished zero (c ∷ p) written t f m h = elim m [ ]
full_loop-Finished (suc k) (c ∷ p) written t f m h =
    after_room (c ∷ p) t _ _ (make_room f) (make_room-Roomy f (c ∷ p) t h)
      (λ g q l.
        let n = min (suc (length p)) (g.bufsize - length g.buf) in
        after_bytes (drop n (c ∷ p)) t _ _ (put_bytes false (take n (c ∷ p)) g)
          (put_bytes-Kept false (take n (c ∷ p)) (drop n (c ∷ p)) t g
            (subst (λ (u : List ℕ). Holds u t g) (sym (take-drop n (c ∷ p))) q)
            (omega (arith, length-take n (c ∷ p))))
          (λ j i.
            subst (λ (u : ℕ). Finished u t (full_loop k (drop n (c ∷ p)) (written + n) j))
              (omega (arith, length-drop n (c ∷ p)))
              (full_loop-Finished k (drop n (c ∷ p)) (written + n) t j
                (omega (arith, length-drop n (c ∷ p))) i))
          (λ j i. inl i))
      (λ g q. inl q)

-- Without a buffer, the bytes are sent one call after another.
abbrev pub Plain : ℕ → List ℕ → Option (ℕ × File) → Type 0
Plain all t none = ⊥
Plain all t (some (n, f)) =
    Fails t f ⊎ ((n ≡ all) × (f.error ≡ false) × (f.sent ≡ t) × (f.buf ≡ []))

write_loop-Plain :
    (rs : List Reply) (p : List ℕ) (written : ℕ) (t : List ℕ) (f : File)
    → length p ≤ strength rs
    → f.error ≡ false
    → f.buf ≡ []
    → f.sent ++ p ≡ t
    → Plain (written + length p) t (write_loop rs p written f)
unfolding write_loop
write_loop-Plain rs [] written t f h e b q = inr (omega arith, e, sym (append-nil f.sent) ∙ q, b)
write_loop-Plain [] (c ∷ p) written t f h e b q = elim h [ ]
write_loop-Plain (wrote zero ∷ rs) (c ∷ p) written t f h e b q =
    inl (refl, subst (λ (u : List ℕ). IsPrefix f.sent u) q (take-append f.sent (c ∷ p)))
write_loop-Plain (interrupted ∷ rs) (c ∷ p) written t f h e b q =
    inl (refl, subst (λ (u : List ℕ). IsPrefix f.sent u) q (take-append f.sent (c ∷ p)))
write_loop-Plain (failed ∷ rs) (c ∷ p) written t f h e b q =
    inl (refl, subst (λ (u : List ℕ). IsPrefix f.sent u) q (take-append f.sent (c ∷ p)))
write_loop-Plain (wrote (suc n) ∷ rs) (c ∷ p) written t f h e b q =
    let v = take (suc n) (c ∷ p) in
    subst
      (λ (u : ℕ).
        Plain u t (write_loop rs (drop n p) (written + length v) (record f { sent = f.sent ++ v })))
      (omega (arith, length-take n p, length-drop n p))
      (write_loop-Plain rs (drop n p) (written + length v) t (record f { sent = f.sent ++ v })
        (omega (arith, length-drop n p)) e b
        (append_assoc f.sent v (drop n p)
          ∙ (ap (λ (u : List ℕ). f.sent ++ (c ∷ u)) (take-drop n p) ∙ q)))

-- A stream on a descriptor that has had no error, with room in its buffer if it uses one.
abbrev pub IsReady : File → Type 0
IsReady f =
    (f.kind ≡ descriptor)
    × (f.error ≡ false)
    × (((f.has_buf ≡ true)
          × (1 ≤ f.bufsize)
          × (length f.buf ≤ f.bufsize)
          × (f.buf_mode ≢ unbuffered))
        ⊎ ((f.buf ≡ []) × ((f.has_buf ≡ false) ⊎ (f.buf_mode ≡ unbuffered))))

-- Bytes of which `t` are those sent, held before and written now; none is held, or the stream can still send them.
abbrev pub Ended : ℕ → List ℕ → Option (ℕ × File) → Type 0
Ended all t none = ⊥
Ended all t (some (n, f)) =
    Fails t f
    ⊎ ((n ≡ all) × (f.error ≡ false) × (f.sent ++ f.buf ≡ t) × ((f.buf ≡ []) ⊎ Holds [] t f))

Finished-Ended :
    (all n : ℕ) (t : List ℕ) (r : Option (ℕ × File)) → all ≡ n → Finished all t r → Ended n t r
Finished-Ended all w t none q h = h
Finished-Ended all w t (some (n, g)) q (inl h) = inl h
Finished-Ended all w t (some (n, g)) q (inr (e, (k, b, l, m, z, s, c))) =
    inr (e ∙ q, z, ap (g.sent ++◌) (sym (append-nil g.buf)) ∙ c, inr (k, b, l, m, z, s, c))

Plain-Ended :
    (all n : ℕ) (t : List ℕ) (r : Option (ℕ × File)) → all ≡ n → Plain all t r → Ended n t r
Plain-Ended all w t none q h = h
Plain-Ended all w t (some (n, g)) q (inl h) = inl h
Plain-Ended all w t (some (n, g)) q (inr (e, z, s, b)) =
    inr (e ∙ q, z, ap (g.sent ++◌) b ∙ append-nil g.sent ∙ s, inl b)

module _ (p : List ℕ) (f : File) (s : length f.buf + length p ≤ strength f.replies) where
  abbrev Done : Option (ℕ × File) → Type 0
  Done = Ended (length p) (f.sent ++ (f.buf ++ p))

  sends_at_once : f.error ≡ false → f.buf ≡ [] → Done (write_loop f.replies p 0 f)
  sends_at_once e b = Plain-Ended _ _ _ (write_loop f.replies p 0 f) (omega arith) (
      write_loop-Plain f.replies p 0 _ f (omega (arith, s)) e b
        (ap (λ (u : List ℕ). f.sent ++ (u ++ p)) (sym b)))

  write_buffered-Done :
      (m : Buffering)
      → m ≢ unbuffered
      → Holds p (f.sent ++ (f.buf ++ p)) f
      → Done (write_buffered m p f)
  unfolding write_buffered
  write_buffered-Done unbuffered m h = absurd (m refl)
  write_buffered-Done by_line m h =
      Finished-Ended _ _ _ (line_loop p 0 f) (omega arith) (line_loop-Finished p 0 _ f h)
  write_buffered-Done full m h =
      Finished-Ended _ _ _ (full_loop (length p) p 0 f) (omega arith)
        (full_loop-Finished (length p) p 0 _ f (omega arith) h)

  unbuffered_either :
      (f.has_buf ≡ false) ⊎ (f.buf_mode ≡ unbuffered)
      → Done (write_loop f.replies p 0 f)
      → Done (if f.has_buf then write_buffered f.buf_mode p f else write_loop f.replies p 0 f)
  unfolding write_buffered
  unbuffered_either (inl h) d =
      subst
        (λ (x : Bool).
          Done (if x then write_buffered f.buf_mode p f else write_loop f.replies p 0 f))
        (sym h) d
  unbuffered_either (inr h) d = by_mode f.has_buf
    where
      by_mode :
          (x : Bool)
          → Done (if x then write_buffered f.buf_mode p f else write_loop f.replies p 0 f)
      by_mode true = subst (λ (m : Buffering). Done (write_buffered m p f)) (sym h) d
      by_mode false = d

  write_bytes-Done : IsReady f → Done (write_bytes f.kind p f)
  unfolding write_bytes
  write_bytes-Done (k, e, inl (b, l, m, n)) =
      subst (λ (x : Kind). Done (write_bytes x p f)) (sym k)
        (subst
          (λ (x : Bool).
            Done (if x then write_buffered f.buf_mode p f else write_loop f.replies p 0 f))
          (sym b) (write_buffered-Done f.buf_mode n (k, b, l, m, e, s, refl)))
  write_bytes-Done (k, e, inr (b, m)) =
      subst (λ (x : Kind). Done (write_bytes x p f)) (sym k)
        (unbuffered_either m (sends_at_once e b))

whole_items :
    (all size : ℕ) (t : List ℕ) (r : Option (ℕ × File))
    → Ended all t r
    → Ended (all / size) t (do (written, g) ← r; some (written / size, g))
whole_items all size t none h = h
whole_items all size t (some (n, g)) (inl h) = inl h
whole_items all size t (some (n, g)) (inr (e, z, c, h)) = inr (ap (λ (m : ℕ). m / size) e, z, c, h)

pub fwrite-Ended :
    (p : List ℕ) (size : ℕ) (f : File)
    → IsReady f
    → 1 ≤ size
    → length f.buf + length p ≤ strength f.replies
    → Ended (length p / size) (f.sent ++ (f.buf ++ p)) (fwrite p size f)
unfolding fwrite
fwrite-Ended [] size f (k, e, r) z s =
    let t : (size == 0) ≡ false = ground arith in
    rw t (inr (omega arith, e, ap (f.sent ++◌) (sym (append-nil f.buf)), unwritten r))
  where
    unwritten :
        ((f.has_buf ≡ true)
            × (1 ≤ f.bufsize)
            × (length f.buf ≤ f.bufsize)
            × (f.buf_mode ≢ unbuffered))
          ⊎ ((f.buf ≡ []) × ((f.has_buf ≡ false) ⊎ (f.buf_mode ≡ unbuffered)))
        → (f.buf ≡ []) ⊎ Holds [] (f.sent ++ (f.buf ++ [])) f
    unwritten (inl (b, l, m, _)) = inr (k, b, l, m, e, s, refl)
    unwritten (inr (b, _)) = inl b
fwrite-Ended (c ∷ p) size f r z s =
    let t : (size == 0) ≡ false = ground arith in
    rw t (
      whole_items (length (c ∷ p)) size _ (write_bytes f.kind (c ∷ p) f)
        (write_bytes-Done (c ∷ p) f s r))
