-- ===== src/Stdio/Input/Fread.antt =====
-- src/stdio.c: fread, on every kind of stream.
use vlibc.Base.{
  ℕ, zero, suc, ◌+◌, ◌-◌, ◌*◌, ◌/◌, ◌%◌, ◌^◌, ◌≤◌, ◌<◌, ◌≡◌, ◌≢◌, refl, sym, ap, ◌∙◌, subst, inl,
  inr, Bool, true, false, List, [], ◌∷◌, ◌++◌, Option, none, some, append_assoc, ◌==◌,
  if◌then◌else◌, length, drop, min, ◌>>=◌, length-append, length-take, arith,
}
use vlibc.Stdio.{Kind, descriptor, memory, cookie, Answer, up_to, refused, File, is_none_left}
use vlibc.Stdio.Input.{chunk, left_after, raw_loop, copy_loop, no_reader, read_bytes, fread}
use vlibc.Stdio.Output.Kept.{take-drop}
use vlibc.Stdio.Input.Order.{
  to_come, Copies, IsReadable, Supplied, enough_for_fewer, enough_answers, drop_all, Got, read_as,
  copy_loop-Got,
}

nothing_held : (f : File) → f.buf ≡ [] → to_come f ≡ f.source
nothing_held f e =
    ap (λ (b : List ℕ). drop f.bufpos b ++ f.source) e
    ∙ ap (λ (b : List ℕ). b ++ f.source) (drop_all f.bufpos [] (omega arith))

raw_loop-Got :
    (rs : List Answer) (m j : ℕ) (out : List ℕ) (f : File)
    → m + j ≤ length rs
    → f.buf ≡ []
    → Got (length out + m) j (out ++ f.source) f.ungot (raw_loop rs m out f)
unfolding raw_loop
raw_loop-Got rs zero j out f h e = (
  ap (out ++◌) (nothing_held f e),
  omega arith,
  inl (omega arith),
  inr (omega arith),
  inr e,
  refl,
)
raw_loop-Got [] (suc m) j out f h e = absurd (omega arith)
raw_loop-Got (refused ∷ rest) (suc m) j out f h e =
    (ap (out ++◌) (nothing_held f e), omega arith, inr (inr refl), inr (omega arith), inr e, refl)
raw_loop-Got (up_to n ∷ rest) (suc m) j out f h e = by_chunk (chunk n (suc m) f) refl (λ l.
    raw_loop-Got rest (suc m - length (chunk n (suc m) f)) j (out ++ chunk n (suc m) f)
      (left_after n (suc m) rest f) (omega arith) e)
  where
    by_chunk :
        (r : List ℕ)
        → chunk n (suc m) f ≡ r
        → (1 ≤ length r
            → Got
                (length (out ++ r) + (suc m - length r))
                j
                (out ++ r ++ drop (min n (suc m)) f.source)
                f.ungot
                (raw_loop rest (suc m - length r) (out ++ r) (left_after n (suc m) rest f)))
        → Got (length out + suc m) j (out ++ f.source) f.ungot (
            if is_none_left r
            then some (out, record f { answers = rest; eof = true })
            else raw_loop rest (suc m - length r) (out ++ r) (left_after n (suc m) rest f))
    by_chunk [] q again = (
      ap (out ++◌) (nothing_held f e),
      omega arith,
      inr (inl refl),
      inr (omega arith),
      inr e,
      refl,
    )
    by_chunk (x ∷ r) q again =
        read_as _ _ j _ _ _ _
          (raw_loop rest (suc m - suc (length r)) (out ++ (x ∷ r)) (left_after n (suc m) rest f))
          (omega
            (arith, length-append out (x ∷ r), ap length q, length-take (min n (suc m)) f.source))
          (ap (λ (v : List ℕ). out ++ v ++ drop (min n (suc m)) f.source) (sym q)
            ∙ (append_assoc out _ _ ∙ ap (out ++◌) (take-drop (min n (suc m)) f.source)))
          refl (again (omega arith))

-- What fread answers: the items, the bytes that it stores and the stream.
abbrev pub Items : ℕ → ℕ → ℕ → List ℕ → Option ℕ → Option (ℕ × List ℕ × File) → Type 0
Items size nmemb j t u none = ⊥
Items size nmemb j t u (some (n, s, g)) =
    (n ≡ length s / size) × Got (size * nmemb) j t u (some (s, g))

cookie-ne-memory : cookie ≢ memory
cookie-ne-memory e = ground arith

descriptor-ne-memory : descriptor ≢ memory
descriptor-ne-memory e = ground arith

cookie-ne-descriptor : cookie ≢ descriptor
cookie-ne-descriptor e = ground arith

false-ne-true : false ≢ true
false-ne-true e = ground arith

no_reader-Got :
    (m j : ℕ) (f : File)
    → Supplied (m + j) f
    → IsReadable f
    → Got m j (to_come f) f.ungot (some (no_reader m f))
unfolding no_reader
no_reader-Got zero j f s b =
    (refl, omega arith, inl refl, enough_for_fewer j (0 + j) f (omega arith) s, b, refl)
no_reader-Got (suc m) j f s b =
    (refl, omega arith, inr (inl refl), enough_for_fewer j (suc m + j) f (omega arith) s, b, refl)

module _ (m j : ℕ) (f : File) (s : Supplied (m + j) f) (b : IsReadable f) where
  raw-Got :
      (k : Kind)
      → f.kind ≡ k
      → k ≢ memory
      → f.buf ≡ []
      → Got m j (to_come f) f.ungot (raw_loop f.answers m [] f)
  raw-Got k e d h =
      read_as _ _ j _ _ _ _ (raw_loop f.answers m [] f) (omega arith) (sym (nothing_held f h)) refl
        (raw_loop-Got f.answers m j [] f (enough_answers (m + j) f k e d s) h)

  copy-Got : Copies f → Got m j (to_come f) f.ungot (copy_loop m m [] f)
  copy-Got c =
      read_as _ _ j _ _ _ _ (copy_loop m m [] f) (omega arith) refl refl
        (copy_loop-Got m m j [] f (omega arith) s c)

  read_bytes-Got : (k : Kind) → f.kind ≡ k → Got m j (to_come f) f.ungot (read_bytes k m f)
  unfolding read_bytes
  read_bytes-Got memory e = copy-Got (inl e)
  read_bytes-Got cookie e = by_function f.has_read
    where
      holds_none : IsReadable f → f.buf ≡ []
      holds_none (inl (inl h)) = absurd (cookie-ne-memory (sym e ∙ h))
      holds_none (inl (inr (h, _))) = absurd (cookie-ne-descriptor (sym e ∙ h))
      holds_none (inr h) = h

      by_function :
          (x : Bool)
          → Got m j
              (to_come f)
              f.ungot
              (if x then raw_loop f.answers m [] f else some (no_reader m f))
      by_function true = raw-Got cookie e cookie-ne-memory (holds_none b)
      by_function false = no_reader-Got m j f s b
  read_bytes-Got descriptor e = by_buffer f.has_buf refl
    where
      holds_none : f.has_buf ≡ false → IsReadable f → f.buf ≡ []
      holds_none h (inl (inl k)) = absurd (descriptor-ne-memory (sym e ∙ k))
      holds_none h (inl (inr (_, k))) = absurd (false-ne-true (sym h ∙ k))
      holds_none h (inr k) = k

      by_buffer :
          (x : Bool)
          → f.has_buf ≡ x
          → Got m j
              (to_come f)
              f.ungot
              (if x then copy_loop m m [] f else raw_loop f.answers m [] f)
      by_buffer true h = copy-Got (inr (e, h))
      by_buffer false h = raw-Got descriptor e descriptor-ne-memory (holds_none h b)

pub fits : (n : ℕ) → n < 2 ^ 64 → n % 2 ^ 64 ≡ n
fits n h = omega arith

Got-Items :
    (size nmemb j : ℕ) (t : List ℕ) (u : Option ℕ) (r : Option (List ℕ × File))
    → Got (size * nmemb) j t u r
    → Items size nmemb j t u (do (out, g) ← r; some (length out / size, out, g))
Got-Items size nmemb j t u none h = h
Got-Items size nmemb j t u (some (out, g)) h = (refl, h)

-- If answers to come are as many as the bytes asked for (a stream in memory needs none) and `j` more, the items have a
-- size, and the number of bytes fits a size_t, then fread returns on a stream of any kind. The bytes that it stores,
-- followed by those still to come, are exactly those to come before it; they are no more than asked for, and as many as
-- asked for unless the end or an error is noted; the items counted are those that are whole; the byte pushed back is
-- kept, and `j` answers are left.
pub fread-Items :
    (size nmemb j : ℕ) (f : File)
    → 1 ≤ size
    → size * nmemb < 2 ^ 64
    → Supplied (size * nmemb + j) f
    → IsReadable f
    → Items size nmemb j (to_come f) f.ungot (fread size nmemb f)
unfolding fread
fread-Items size zero j f z l s b =
    let t : (size == 0) ≡ false = ground arith in
    rw t (
      omega arith,
      (
        refl,
        omega arith,
        inl (omega arith),
        enough_for_fewer j (size * 0 + j) f (omega arith) s,
        b,
        refl,
      ),
    )
fread-Items size (suc n) j f z l s b =
    let t : (size == 0) ≡ false = ground arith in
    let q : (suc n == 0) ≡ false = ground arith in
    rw (t, q)
      (subst
        (λ (m : ℕ).
          Items size (suc n) j (to_come f) f.ungot
            (do (out, g) ← read_bytes f.kind m f; some (length out / size, out, g)))
        (sym (fits (size * suc n) l))
        (Got-Items size (suc n) j (to_come f) f.ungot (read_bytes f.kind (size * suc n) f)
          (read_bytes-Got (size * suc n) j f s b f.kind refl)))
