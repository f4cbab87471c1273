-- ===== src/Stdio/Input/Order.antt =====
-- src/stdio.c: the bytes that fread stores are those to come, in their order, and none is lost.
use vlibc.Base.{
  ℕ, zero, suc, ◌+◌, ◌-◌, ◌≤◌, ◌<◌, ◌≡◌, ◌≢◌, refl, sym, ap, ◌∙◌, subst, ◌⊎◌, inl, inr, Bool, true,
  false, List, [], ◌∷◌, ◌++◌, Option, none, some, leb, if◌then◌else◌, length, take, drop, min,
  ◌>>=◌, length-append, length-take, arith,
}
use vlibc.Stdio.{Kind, descriptor, memory, cookie, Answer, up_to, refused, File, is_none_left}
use vlibc.Stdio.Input.{chunk, fill_with, fill, refill, advance, copy_loop}
use vlibc.Stdio.Output.Kept.{take-drop, length-drop, split-append}

-- The bytes to come: those of the buffer, and then those behind the descriptor or the cookie.
abbrev pub to_come : File → List ℕ
to_come f = drop f.bufpos f.buf ++ f.source

abbrev pub Stops : File → Type 0
Stops f = (f.eof ≡ true) ⊎ (f.error ≡ true)

-- A stream that is read from its buffer, or from its memory.
abbrev pub Copies : File → Type 0
Copies f = (f.kind ≡ memory) ⊎ ((f.kind ≡ descriptor) × (f.has_buf ≡ true))

-- A stream that is not read from its buffer has none with bytes in it.
abbrev pub IsReadable : File → Type 0
IsReadable f = Copies f ⊎ (f.buf ≡ [])

-- Answers to come for so many calls, if there are calls.
abbrev pub Supplied : ℕ → File → Type 0
Supplied m f = (f.kind ≡ memory) ⊎ (m ≤ length f.answers)

pub drop_all : (n : ℕ) (s : List ℕ) → length s ≤ n → drop n s ≡ []
drop_all zero [] h = refl
drop_all zero (c ∷ s) h = elim h [ ]
drop_all (suc n) [] h = refl
drop_all (suc n) (c ∷ s) h = drop_all n s (omega arith)

drop-drop : (n m : ℕ) (s : List ℕ) → drop (n + m) s ≡ drop m (drop n s)
drop-drop zero m s = ap (λ (k : ℕ). drop k s) (omega arith)
drop-drop (suc n) m [] = drop_all (suc n + m) [] (omega arith) ∙ sym (drop_all m [] (omega arith))
drop-drop (suc n) m (c ∷ s) =
    let e : suc n + m ≡ suc (n + m) = omega arith in
    ap (λ (k : ℕ). drop k (c ∷ s)) e ∙ drop-drop n m s

-- After the buffer was filled if it had no byte left.
abbrev Filled : ℕ → List ℕ → Option ℕ → Option (Bool × File) → Type 0
Filled m t u none = ⊥
Filled m t u (some (true, g)) =
    Copies g × Supplied m g × (g.ungot ≡ u) × (g.bufpos < length g.buf) × (to_come g ≡ t)
Filled m t u (some (false, g)) = Supplied m g × Copies g × (g.ungot ≡ u) × Stops g × (to_come g ≡ t)

fill_with-Filled :
    (rs : List Answer) (m : ℕ) (f : File)
    → suc m ≤ length rs
    → Copies f
    → length f.buf ≤ f.bufpos
    → Filled m (to_come f) f.ungot (fill_with rs f)
unfolding fill_with
fill_with-Filled [] m f s c h = elim s [ ]
fill_with-Filled (refused ∷ rest) m f s c h = (inr (omega arith), c, refl, inr refl, refl)
fill_with-Filled (up_to n ∷ rest) m f s c h = by_chunk (chunk n f.bufsize f) refl
  where
    by_chunk :
        (r : List ℕ)
        → chunk n f.bufsize f ≡ r
        → Filled m (to_come f) f.ungot (
            if is_none_left r
            then some (false, record f { answers = rest; eof = true })
            else some (
              true,
              record f {
                source = drop (min n f.bufsize) f.source;
                answers = rest;
                buf = chunk n f.bufsize f;
                bufpos = 0;
              },
            ))
    by_chunk [] e = (inr (omega arith), c, refl, inl refl, refl)
    by_chunk (x ∷ r) e = (
      c,
      inr (omega arith),
      refl,
      omega (arith, ap length e),
      take-drop (min n f.bufsize) f.source
          ∙ ap (λ (u : List ℕ). u ++ f.source) (sym (drop_all f.bufpos f.buf h)),
    )

pub enough_for_fewer : (a b : ℕ) (f : File) → a ≤ b → Supplied b f → Supplied a f
enough_for_fewer a b f h (inl e) = inl e
enough_for_fewer a b f h (inr n) = inr (omega arith)

pub enough_answers :
    (n : ℕ) (f : File) (k : Kind) → f.kind ≡ k → k ≢ memory → Supplied n f → n ≤ length f.answers
enough_answers n f k e d (inl h) = absurd (d (sym e ∙ h))
enough_answers n f k e d (inr h) = h

refill-Filled :
    (m : ℕ) (f : File) → Supplied (suc m) f → Copies f → Filled m (to_come f) f.ungot (refill f)
unfolding refill fill
refill-Filled m f s c = by_test (leb (length f.buf) f.bufpos) refl
  where
    by_kind :
        (k : Kind) → f.kind ≡ k → length f.buf ≤ f.bufpos → Filled m (to_come f) f.ungot (fill k f)
    by_kind memory e h = (inl e, c, refl, inl refl, refl)
    by_kind descriptor e h =
        fill_with-Filled f.answers m f (enough_answers (suc m) f descriptor e (ground arith) s) c h
    by_kind cookie e h =
        fill_with-Filled f.answers m f (enough_answers (suc m) f cookie e (ground arith) s) c h

    by_test :
        (b : Bool)
        → leb (length f.buf) f.bufpos ≡ b
        → Filled m (to_come f) f.ungot (if b then fill f.kind f else some (true, f))
    by_test true e = by_kind f.kind refl (ground arith)
    by_test false e = (c, enough_for_fewer m (suc m) f (omega arith) s, refl, ground arith, refl)

-- After a read of at most `all` bytes, out of `t`; `j` answers are left for calls after it.
abbrev pub Got : ℕ → ℕ → List ℕ → Option ℕ → Option (List ℕ × File) → Type 0
Got all j t u none = ⊥
Got all j t u (some (s, g)) =
    (s ++ to_come g ≡ t)
    × (length s ≤ all)
    × ((length s ≡ all) ⊎ Stops g)
    × Supplied j g
    × IsReadable g
    × (g.ungot ≡ u)

pub read_as :
    (a b j : ℕ) (s t : List ℕ) (u v : Option ℕ) (r : Option (List ℕ × File))
    → a ≡ b
    → s ≡ t
    → u ≡ v
    → Got a j s u r
    → Got b j t v r
read_as a b j s t u v r e f g x =
    subst (λ (w : Option ℕ). Got b j t w r) g
      (subst (λ (w : List ℕ). Got b j w u r) f (subst (λ (w : ℕ). Got w j s u r) e x))

pub copy_loop-Got :
    (k m j : ℕ) (out : List ℕ) (f : File)
    → m ≤ k
    → Supplied (m + j) f
    → Copies f
    → Got (length out + m) j (out ++ to_come f) f.ungot (copy_loop k m out f)
unfolding copy_loop
copy_loop-Got k zero j out f h s c = (
  refl,
  omega arith,
  inl (omega arith),
  enough_for_fewer j (0 + j) f (omega arith) s,
  inl c,
  refl,
)
copy_loop-Got zero (suc m) j out f h s c = elim h [ ]
copy_loop-Got (suc k) (suc m) j out f h s c =
    step (refill f)
      (refill-Filled (m + j) f (enough_for_fewer (suc (m + j)) (suc m + j) f (omega arith) s) c)
      (λ n q g. copy_loop-Got k (suc m - n) j q (advance n g))
  where
    step :
        (r : Option (Bool × File))
        → Filled (m + j) (to_come f) f.ungot r
        → ((n : ℕ) (q : List ℕ) (g : File)
            → suc m - n ≤ k
            → Supplied (suc m - n + j) (advance n g)
            → Copies g
            → Got
                (length q + (suc m - n))
                j
                (q ++ to_come (advance n g))
                g.ungot
                (copy_loop k (suc m - n) q (advance n g)))
        → Got (length out + suc m) j (out ++ to_come f) f.ungot (do
          (more, g) ← r
          let n = min (suc m) (length g.buf - g.bufpos)
          let again = copy_loop k (suc m - n) (out ++ take n (drop g.bufpos g.buf)) (advance n g)
          if more then again else some (out, g))
    step none x again = x
    step (some (false, g)) (s, c, u, e, t) again =
        (ap (out ++◌) t, omega arith, inr e, enough_for_fewer j (m + j) g (omega arith) s, inl c, u)
    step (some (true, g)) (c, s, u, l, t) again =
        let n = min (suc m) (length g.buf - g.bufpos) in
        let p = drop g.bufpos g.buf in
        let q = out ++ take n p in
        read_as _ _ j _ _ _ _ (copy_loop k (suc m - n) q (advance n g))
          (omega (arith, length-append out (take n p), length-take n p, length-drop g.bufpos g.buf))
          (ap (λ (v : List ℕ). q ++ (v ++ g.source)) (drop-drop g.bufpos n g.buf)
            ∙ split-append n out p g.source
            ∙ ap (out ++◌) t)
          u
          (again n q g (omega arith)
            (enough_for_fewer (suc m - n + j) (m + j) (advance n g) (omega arith) s) c)
