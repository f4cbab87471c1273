-- ===== src/Stdio/Input/Lines.antt =====
-- src/stdio.c: fgetc, ungetc and fgets take the bytes to come one after another.
use vlibc.Base.{
  ℕ, zero, suc, ◌+◌, ◌*◌, ◌≤◌, ◌≡◌, ◌≢◌, refl, ap, ◌∙◌, subst, ◌⊎◌, inl, inr, Bool, true, false,
  List, [], ◌∷◌, ◌++◌, Option, none, some, append_assoc, ◌==◌, if◌then◌else◌, length, ◌>>=◌,
  length-append, arith, All, All-append,
}
use vlibc.Stdio.{File, is_none_left}
use vlibc.Stdio.Input.{fread, fgetc, line_of, fgets, one_char}
use vlibc.Stdio.Input.Order.{to_come, Stops, IsReadable, Supplied, enough_for_fewer}
use vlibc.Stdio.Input.Fread.{Items, fread-Items}

-- The byte pushed back, if there is one.
abbrev pub pushed : Option ℕ → List ℕ
pushed none = []
pushed (some c) = c ∷ []

-- The bytes that fgetc answers, one after another.
abbrev pub pending : File → List ℕ
pending f = pushed f.ungot ++ to_come f

-- After a call of fgetc on `t`.
abbrev pub Next : ℕ → List ℕ → Option (Option ℕ × File) → Type 0
Next j t none = ⊥
Next j t (some (some c, g)) = (c ∷ pending g ≡ t) × Supplied j g × IsReadable g
Next j t (some (none, g)) = (pending g ≡ t) × Stops g

one_char-Next :
    (j : ℕ) (t : List ℕ) (r : Option (ℕ × List ℕ × File))
    → Items 1 1 j t none r
    → Next j t (do x ← r; some (one_char x))
one_char-Next j t none h = h
one_char-Next j t (some (n, [], g)) (_, (e, l, c, s, b, u)) =
    (ap (λ (v : Option ℕ). pushed v ++ to_come g) u ∙ e, stopped c)
  where
    stopped : (0 ≡ 1 * 1) ⊎ Stops g → Stops g
    stopped (inl x) = absurd (omega arith)
    stopped (inr x) = x
one_char-Next j t (some (n, x ∷ [], g)) (_, (e, l, c, s, b, u)) =
    (ap (λ (v : Option ℕ). x ∷ (pushed v ++ to_come g)) u ∙ e, s, b)
one_char-Next j t (some (n, x ∷ y ∷ r, g)) (_, (e, l, c, s, b, u)) = absurd (omega arith)

pub fgetc-Next :
    (j : ℕ) (f : File) → Supplied (suc j) f → IsReadable f → Next j (pending f) (fgetc f)
unfolding fgetc
fgetc-Next j f s b = by_pushed f.ungot refl
  where
    by_pushed :
        (u : Option ℕ)
        → f.ungot ≡ u
        → Next j (pushed u ++ to_come f) (elim u [
          | some c ↦ some (some c, record f { ungot = none })
          | none ↦ do r ← fread 1 1 f; some (one_char r)
        ])
    by_pushed (some c) e = (refl, enough_for_fewer j (suc j) f (omega arith) s, b)
    by_pushed none e = one_char-Next j (to_come f) (fread 1 1 f) (
        subst (λ (v : Option ℕ). Items 1 1 j (to_come f) v (fread 1 1 f)) e
          (fread-Items 1 1 j f (omega arith) (omega arith)
            (enough_for_fewer (1 * 1 + j) (suc j) f (omega arith) s) b))

abbrev pub Unended : ℕ → List ℕ → Type 0
Unended delim q = All (λ (c : ℕ). c ≢ delim) q

-- The delimiter at the end, and none before it.
abbrev pub Ended : ℕ → List ℕ → Type 0
Ended delim [] = ⊥
Ended delim (c ∷ []) = c ≡ delim
Ended delim (c ∷ d ∷ q) = (c ≢ delim) × Ended delim (d ∷ q)

pub Ended-append :
    (delim : ℕ) (s : List ℕ) (c : ℕ) → Unended delim s → c ≡ delim → Ended delim (s ++ c ∷ [])
Ended-append delim [] c h e = e
Ended-append delim (x ∷ []) c (h, _) e = (h, e)
Ended-append delim (x ∷ y ∷ s) c (h, k) e = (h, Ended-append delim (y ∷ s) c k e)

-- A line of at most `room` bytes out of `t`, or NULL if there is no byte.
abbrev pub Line : ℕ → List ℕ → Option (Option (List ℕ) × File) → Type 0
Line room t none = ⊥
Line room t (some (some q, g)) =
    (q ++ pending g ≡ t)
    × (length q ≤ room)
    × (Ended b'\n' q ⊎ (Unended b'\n' q × ((length q ≡ room) ⊎ Stops g)))
Line room t (some (none, g)) = (pending g ≡ t) × Stops g

same_text :
    (m n : ℕ) (t u : List ℕ) (r : Option (Option (List ℕ) × File))
    → m ≡ n
    → t ≡ u
    → Line m t r
    → Line n u r
same_text m n t u r e f x = subst (λ (w : List ℕ). Line n w r) f (subst (λ (k : ℕ). Line k t r) e x)

line_of-Line :
    (m : ℕ) (s : List ℕ) (f : File)
    → Supplied m f
    → IsReadable f
    → Unended b'\n' s
    → Line (length s + m) (s ++ pending f) (line_of m s f)
unfolding line_of
line_of-Line zero s f a b h = (refl, omega arith, inr (h, inl (omega arith)))
line_of-Line (suc m) s f a b h =
    step (fgetc f) (fgetc-Next m f a b) (λ c g. line_of-Line m (s ++ c ∷ []) g)
  where
    at_end :
        (q : List ℕ) (g : File)
        → q ≡ s
        → pending g ≡ pending f
        → Stops g
        → Line
            (length s + suc m)
            (s ++ pending f)
            (some (if is_none_left q then none else some s, g))
    at_end [] g q e x = (e ∙ ap (λ (u : List ℕ). u ++ pending f) q, x)
    at_end (c ∷ q) g _ e x = (ap (s ++◌) e, omega arith, inr (h, inr x))

    by_char :
        (c : ℕ) (g : File) (x : Bool)
        → (c == b'\n') ≡ x
        → c ∷ pending g ≡ pending f
        → (Unended b'\n' (s ++ c ∷ [])
            → Line
                (length (s ++ c ∷ []) + m)
                (s ++ c ∷ [] ++ pending g)
                (line_of m (s ++ c ∷ []) g))
        → Line
            (length s + suc m)
            (s ++ pending f)
            (if x then some (some (s ++ c ∷ []), g) else line_of m (s ++ c ∷ []) g)
    by_char c g true x e again = (
      append_assoc s (c ∷ []) (pending g) ∙ ap (s ++◌) e,
      omega (arith, length-append s (c ∷ [])),
      inl (Ended-append b'\n' s c h (ground arith)),
    )
    by_char c g false x e again =
        same_text _ _ _ _ (line_of m (s ++ c ∷ []) g) (omega (arith, length-append s (c ∷ [])))
          (append_assoc s (c ∷ []) (pending g) ∙ ap (s ++◌) e)
          (again (All-append _ s (c ∷ []) h (ground arith, tt)))

    step :
        (r : Option (Option ℕ × File))
        → Next m (pending f) r
        → ((c : ℕ) (g : File)
            → Supplied m g
            → IsReadable g
            → Unended b'\n' (s ++ c ∷ [])
            → Line
                (length (s ++ c ∷ []) + m)
                (s ++ c ∷ [] ++ pending g)
                (line_of m (s ++ c ∷ []) g))
        → Line (length s + suc m) (s ++ pending f) (do
          (c, g) ← r
          elim c [
            | none ↦ some (if is_none_left s then none else some s, g)
            | some c ↦
                let again = line_of m (s ++ c ∷ []) g in
                if c == b'\n' then some (some (s ++ c ∷ []), g) else again
          ])
    step none x again = x
    step (some (none, g)) (e, x) again = at_end s g refl e x
    step (some (some c, g)) (e, a, b) again = by_char c g (c == b'\n') refl e (again c g a b)

-- With answers for as many calls as the bytes that there is room for (a stream in memory needs none), fgets returns on
-- a stream of any kind. A line of it, followed by the bytes still to come, is exactly the bytes to come before it, the
-- byte pushed back first; it is shorter than `size`; and it either ends at its first newline, or has none, and then
-- fills the room or the end or an error is noted. NULL is answered only if no byte was taken and the end or an error is
-- noted.
pub fgets-Line :
    (room : ℕ) (f : File)
    → Supplied room f
    → IsReadable f
    → Line room (pending f) (fgets (suc room) f)
unfolding fgets
fgets-Line room f a b =
    subst (λ (n : ℕ). Line n (pending f) (line_of room [] f)) (omega arith)
      (line_of-Line room [] f a b tt)
