-- ===== src/Stdio/Output/Kept.antt =====
-- src/stdio.c: what a stream with a buffer holds back, and what it has sent.
use vlibc.Base.{
  ℕ, zero, suc, ◌+◌, ◌-◌, ◌≤◌, ◌<◌, ◌≡◌, refl, sym, ap, ◌∙◌, subst, Bool, true, false, List, [],
  ◌∷◌, ◌++◌, ◌>>=◌, not, ◌||◌, Option, none, some, append_assoc, length, take, drop, length-append,
  arith, ◌==◌, if◌then◌else◌,
}
use vlibc.Stdio.{Kind, descriptor, Reply, wrote, interrupted, failed, File, is_none_left}
use vlibc.Stdio.Output.{
  flush_loop, flushed, flush_device, flush_kind, flush_buffer, flush_if, make_room, put_bytes,
}

-- How many of the answers to come take a byte at least.
abbrev pub strength : List Reply → ℕ
strength [] = 0
strength (wrote (suc n) ∷ rs) = suc (strength rs)
strength (_ ∷ rs) = strength rs

abbrev pub IsPrefix : List ℕ → List ℕ → Type 0
IsPrefix s t = take (length s) t ≡ s

pub take-append : (s t : List ℕ) → IsPrefix s (s ++ t)
take-append [] t = refl
take-append (c ∷ s) t = ap (c ∷◌) (take-append s t)

pub take-drop : (n : ℕ) (p : List ℕ) → take n p ++ drop n p ≡ p
take-drop zero p = refl
take-drop (suc n) [] = refl
take-drop (suc n) (c ∷ p) = ap (c ∷◌) (take-drop n p)

pub length-drop : (n : ℕ) (p : List ℕ) → length (drop n p) ≡ length p - n
length-drop zero p = omega arith
length-drop (suc n) [] = omega arith
length-drop (suc n) (c ∷ p) = omega (arith, length-drop n p)

pub split-append : (n : ℕ) (s p q : List ℕ) → s ++ take n p ++ (drop n p ++ q) ≡ s ++ (p ++ q)
split-append n s p q =
    append_assoc s (take n p) (drop n p ++ q)
    ∙ ap (s ++◌)
        (sym (append_assoc (take n p) (drop n p) q) ∙ ap (λ (u : List ℕ). u ++ q) (take-drop n p))

-- After the loops of a flush of `p`, with `more` bytes to write later and `t` all of them.
abbrev pub Sent :
    List Reply → List ℕ → List ℕ → List ℕ → Option (Bool × List ℕ × List Reply) → Type 0
Sent rs p more t none = ⊥
Sent rs p more t (some (true, sent, later)) =
    (sent ++ more ≡ t) × (strength rs ≤ length p + strength later)
Sent rs p more t (some (false, sent, later)) = IsPrefix sent t

pub flush_loop-Sent :
    (rs : List Reply) (p sent more t : List ℕ)
    → length p ≤ strength rs
    → sent ++ (p ++ more) ≡ t
    → Sent rs p more t (flush_loop rs p sent)
unfolding flush_loop
flush_loop-Sent rs [] sent more t h e = (e, omega arith)
flush_loop-Sent [] (c ∷ p) sent more t h e = elim h [ ]
flush_loop-Sent (interrupted ∷ rs) (c ∷ p) sent more t h e =
    flush_loop-Sent rs (c ∷ p) sent more t h e
flush_loop-Sent (failed ∷ rs) (c ∷ p) sent more t h e =
    subst (λ (u : List ℕ). IsPrefix sent u) e (take-append sent (c ∷ p ++ more))
flush_loop-Sent (wrote zero ∷ rs) (c ∷ p) sent more t h e =
    flush_loop-Sent rs (c ∷ p) (sent ++ []) more t h (split-append 0 sent (c ∷ p) more ∙ e)
flush_loop-Sent (wrote (suc n) ∷ rs) (c ∷ p) sent more t h e =
    let r = flush_loop rs (drop n p) (sent ++ (c ∷ take n p)) in
    taken r (
      flush_loop-Sent rs (drop n p) (sent ++ (c ∷ take n p)) more t (omega (arith, length-drop n p))
        (split-append (suc n) sent (c ∷ p) more ∙ e))
  where
    taken :
        (r : Option (Bool × List ℕ × List Reply))
        → Sent rs (drop n p) more t r
        → Sent (wrote (suc n) ∷ rs) (c ∷ p) more t r
    taken none k = k
    taken (some (true, sent, later)) (a, b) = (a, omega (arith, length-drop n p))
    taken (some (false, sent, later)) k = k

-- A stream on a descriptor that has a buffer, with `p` still to write of `t`.
abbrev pub Holds : List ℕ → List ℕ → File → Type 0
Holds p t f =
    (f.kind ≡ descriptor)
    × (f.has_buf ≡ true)
    × (1 ≤ f.bufsize)
    × (length f.buf ≤ f.bufsize)
    × (f.error ≡ false)
    × (length f.buf + length p ≤ strength f.replies)
    × (f.sent ++ (f.buf ++ p) ≡ t)

abbrev pub Fails : List ℕ → File → Type 0
Fails t f = (f.error ≡ true) × IsPrefix f.sent t

abbrev pub Kept : List ℕ → List ℕ → Option (Bool × File) → Type 0
Kept p t none = ⊥
Kept p t (some (true, f)) = Holds p t f
Kept p t (some (false, f)) = Fails t f

abbrev pub Emptied : List ℕ → List ℕ → Option (Bool × File) → Type 0
Emptied p t none = ⊥
Emptied p t (some (true, f)) = Holds p t f × (f.buf ≡ [])
Emptied p t (some (false, f)) = Fails t f

flush_device-Emptied : (f : File) (p t : List ℕ) → Holds p t f → Emptied p t (flush_device f)
unfolding flush_device
flush_device-Emptied f p t (k, b, s, l, e, n, c) =
    subst (λ (x : Kind). Emptied p t (flush_device (record f { kind = x }))) (sym k)
      (ended (flush_loop f.replies f.buf f.sent)
        (flush_loop-Sent f.replies f.buf f.sent p t (omega arith) c))
  where
    ended :
        (r : Option (Bool × List ℕ × List Reply))
        → Sent f.replies f.buf p t r
        → Emptied p t (do x ← r; some (flushed (record f { kind = descriptor }) x))
    ended none h = h
    ended (some (true, sent, later)) (a, h) = ((refl, b, s, omega arith, e, omega arith, a), refl)
    ended (some (false, sent, later)) h = (refl, h)

pub flush_buffer-Emptied : (f : File) (p t : List ℕ) → Holds p t f → Emptied p t (flush_buffer f)
unfolding flush_buffer
flush_buffer-Emptied f p t (k, b, l, m, n, o, w) =
    subst
      (λ (x : Bool).
        Emptied p t (if not x || is_none_left f.buf then some (true, f) else flush_kind f.kind f))
      (sym b) (by_buf f.buf refl)
  where
    by_buf :
        (q : List ℕ)
        → f.buf ≡ q
        → Emptied p t (if is_none_left q then some (true, f) else flush_kind f.kind f)
    by_buf [] e = ((k, b, l, m, n, o, w), e)
    by_buf (c ∷ q) e =
        subst (λ (x : Kind). Emptied p t (flush_kind x f)) (sym k)
          (flush_device-Emptied f p t (k, b, l, m, n, o, w))

Emptied-Kept : (p t : List ℕ) (r : Option (Bool × File)) → Emptied p t r → Kept p t r
Emptied-Kept p t none h = h
Emptied-Kept p t (some (true, f)) (h, _) = h
Emptied-Kept p t (some (false, f)) h = h

pub flush_if-Kept : (b : Bool) (f : File) (p t : List ℕ) → Holds p t f → Kept p t (flush_if b f)
flush_if-Kept true f p t h = Emptied-Kept p t (flush_buffer f) (flush_buffer-Emptied f p t h)
flush_if-Kept false f p t h = h

-- A stream with room for a byte.
abbrev pub Roomy : List ℕ → List ℕ → Option (Bool × File) → Type 0
Roomy p t none = ⊥
Roomy p t (some (true, f)) = Holds p t f × (length f.buf < f.bufsize)
Roomy p t (some (false, f)) = Fails t f

Emptied-Roomy : (p t : List ℕ) (r : Option (Bool × File)) → Emptied p t r → Roomy p t r
Emptied-Roomy p t none h = h
Emptied-Roomy p t (some (true, f)) (h, e) = (h, omega (arith, ap length e))
Emptied-Roomy p t (some (false, f)) h = h

pub make_room-Roomy : (f : File) (p t : List ℕ) → Holds p t f → Roomy p t (make_room f)
unfolding make_room
make_room-Roomy f p t h = by_test (length f.buf == f.bufsize) refl
  where
    by_test : (b : Bool) → (length f.buf == f.bufsize) ≡ b → Roomy p t (flush_if b f)
    by_test true e = Emptied-Roomy p t (flush_buffer f) (flush_buffer-Emptied f p t h)
    by_test false e = (h, ground arith)

pub put_bytes-Kept :
    (b : Bool) (p q t : List ℕ) (f : File)
    → Holds (p ++ q) t f
    → length f.buf + length p ≤ f.bufsize
    → Kept q t (put_bytes b p f)
unfolding put_bytes
put_bytes-Kept b p q t f (k, x, s, l, e, n, c) h =
    flush_if-Kept _ (record f { buf = f.buf ++ p }) q t
      (
        k,
        x,
        s,
        omega (arith, length-append f.buf p),
        e,
        omega (arith, length-append f.buf p, length-append p q),
        ap (f.sent ++◌) (append_assoc f.buf p q) ∙ c,
      )
