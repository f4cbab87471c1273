-- ===== src/Stdio/Delim/Whole.antt =====
-- src/getline.c: a line of any length is returned whole.
use vlibc.Base.{
  ℕ, zero, suc, ◌+◌, ◌*◌, ◌≤◌, ◌<◌, ◌≡◌, refl, sym, ap, ◌∙◌, subst, ◌⊎◌, inl, inr, Bool, true,
  false, not, ◌||◌, List, [], ◌∷◌, ◌++◌, append_assoc, Option, none, some, leb, ◌==◌, if◌then◌else◌,
  length, ◌>>=◌, All, All-append, length-append, arith, drop,
}
use vlibc.Stdio.{File, is_none_left}
use vlibc.Stdio.Input.{fgetc}
use vlibc.Stdio.Input.Order.{to_come, Stops, IsReadable, Supplied}
use vlibc.Stdio.Input.Lines.{pending, pushed, Next, fgetc-Next, Unended, Ended, Ended-append}
use vlibc.Stdio.Output.Kept.{length-drop}
use vlibc.Stdio.Delim.{
  Read, granted, room_for, take_byte, delim_loop, fuel, line_size, delim_from, getdelim,
}

abbrev pub Grants : ℕ → List Bool → Type 0
Grants n allocs = All (λ (b : Bool). b ≡ true) allocs × (n ≤ length allocs)

-- A size that will do, and answers for `n` more calls.
abbrev Provided : (ℕ → Type 0) → ℕ → Option (ℕ × List Bool) → Type 0
Provided P n none = ⊥
Provided P n (some (m, rest)) = P m × Grants n rest

-- Room for the terminator behind `pos` + 1 bytes.
abbrev Roomy : ℕ → ℕ → Option (ℕ × List Bool) → Type 0
Roomy pos n v = Provided (λ (m : ℕ). pos + 1 < m) n v

granted-Provided :
    (P : ℕ → Type 0) (n size : ℕ) (allocs : List Bool)
    → P size
    → Grants (suc n) allocs
    → Provided P n (granted allocs size)
unfolding granted
granted-Provided P n size [] h (_, l) = elim l [ ]
granted-Provided P n size (true ∷ rest) h ((_, g), l) = (h, (g, omega arith))
granted-Provided P n size (false ∷ rest) h ((e, _), l) = absurd (ground arith)

room_for-Roomy :
    (pos n size : ℕ) (allocs : List Bool)
    → pos < size
    → Grants (suc n) allocs
    → Roomy pos n (room_for pos size allocs)
unfolding room_for
room_for-Roomy pos n size allocs h (g, l) = by_test (leb size (pos + 1)) refl
  where
    by_test :
        (x : Bool)
        → leb size (pos + 1) ≡ x
        → Roomy pos n (if x then granted allocs (size * 2) else some (size, allocs))
    by_test true e =
        granted-Provided (λ (m : ℕ). pos + 1 < m) n (size * 2) allocs (omega arith) (g, l)
    by_test false e = (ground arith, (g, omega arith))

-- A line of `t` up to the delimiter, or to where the stream stops, with room for its terminator; -1 if there is no byte.
abbrev pub IsWhole : ℕ → List ℕ → Option Read → Type 0
IsWhole delim t none = ⊥
IsWhole delim t (some r) =
    (r.line ++ pending r.stream ≡ t)
    × (length r.line < r.size)
    × (((r.count ≡ some (length r.line)) × Ended delim r.line)
        ⊎ (((r.count ≡ some (length r.line)) × Unended delim r.line × Stops r.stream)
            ⊎ ((r.count ≡ none) × (r.line ≡ []) × Stops r.stream)))

delim_loop-IsWhole :
    (k delim n : ℕ) (allocs : List Bool) (line : List ℕ) (f : File)
    → length (pending f) < k
    → Supplied (suc (length (pending f))) f
    → IsReadable f
    → Grants (length (pending f)) allocs
    → length line < n
    → Unended delim line
    → IsWhole delim (line ++ pending f) (delim_loop k delim n allocs line f)
unfolding delim_loop
delim_loop-IsWhole zero delim n allocs line f h a b g r u = elim h [ ]
delim_loop-IsWhole (suc k) delim n allocs line f h a b g r u =
    step (fgetc f) (fgetc-Next (length (pending f)) f a b)
      (λ m rest more j. delim_loop-IsWhole k delim m rest more j)
  where
    at_end :
        (q : List ℕ) (j : File)
        → q ≡ line
        → pending j ≡ pending f
        → Stops j
        → IsWhole delim (line ++ pending f) (
            some (record {
              count = if is_none_left q then none else some (length line);
              line = line;
              size = n;
              stream = j;
            }))
    at_end [] j q e x = (ap (line ++◌) e, r, inr (inr (refl, sym q, x)))
    at_end (c ∷ q) j _ e x = (ap (line ++◌) e, r, inr (inl (refl, u, x)))

    Again : Type 0
    Again =
        (m : ℕ) (rest : List Bool) (more : List ℕ) (j : File)
        → length (pending j) < k
        → Supplied (suc (length (pending j))) j
        → IsReadable j
        → Grants (length (pending j)) rest
        → length more < m
        → Unended delim more
        → IsWhole delim (more ++ pending j) (delim_loop k delim m rest more j)

    by_char :
        (c m : ℕ) (rest : List Bool) (j : File) (x : Bool)
        → (c == delim) ≡ x
        → c ∷ pending j ≡ pending f
        → length line + 1 < m
        → (Unended delim (line ++ c ∷ [])
            → IsWhole delim
                (line ++ c ∷ [] ++ pending j)
                (delim_loop k delim m rest (line ++ c ∷ []) j))
        → IsWhole delim (line ++ pending f) (
            if x
            then some (record {
              count = some (length line + 1);
              line = line ++ c ∷ [];
              size = m;
              stream = j;
            })
            else delim_loop k delim m rest (line ++ c ∷ []) j)
    by_char c m rest j true x e l again = (
      append_assoc line (c ∷ []) (pending j) ∙ ap (line ++◌) e,
      omega (arith, length-append line (c ∷ [])),
      inl (
        ap some (omega (arith, length-append line (c ∷ []))),
        Ended-append delim line c u (ground arith),
      ),
    )
    by_char c m rest j false x e l again =
        subst (λ (t : List ℕ). IsWhole delim t (delim_loop k delim m rest (line ++ c ∷ []) j))
          (append_assoc line (c ∷ []) (pending j) ∙ ap (line ++◌) e)
          (again (All-append _ line (c ∷ []) u (ground arith, tt)))

    taking :
        (c : ℕ) (j : File) (v : Option (ℕ × List Bool))
        → c ∷ pending j ≡ pending f
        → Supplied (length (pending f)) j
        → IsReadable j
        → Roomy (length line) (length (pending j)) v
        → Again
        → IsWhole delim
            (line ++ pending f)
            (take_byte (λ m rest more. delim_loop k delim m rest more j) delim c n line j v)
    taking c j none e s q z again = elim z [ ]
    taking c j (some (m, rest)) e s q (z, y) again = by_char c m rest j (c == delim) refl e z (
        again m rest (line ++ c ∷ []) j (omega (arith, ap length e))
          (subst (λ (i : ℕ). Supplied i j) (sym (ap length e)) s) q y
          (omega (arith, length-append line (c ∷ []))))

    step :
        (v : Option (Option ℕ × File))
        → Next (length (pending f)) (pending f) v
        → Again
        → IsWhole delim (line ++ pending f) (do
          (c, j) ← v
          elim c [
            | none ↦ some (record {
              count = if is_none_left line then none else some (length line);
              line = line;
              size = n;
              stream = j;
            })
            | some c ↦
                take_byte
                  (λ m rest more. delim_loop k delim m rest more j)
                  delim
                  c
                  n
                  line
                  j
                  (room_for (length line) n allocs)
          ])
    step none x again = x
    step (some (none, j)) (e, x) again = at_end line j refl e x
    step (some (some c, j)) (e, s, q) again =
        taking c j (room_for (length line) n allocs) e s q
          (room_for-Roomy (length line) (length (pending j)) n allocs r
            (g.0, omega (arith, ap length e, g.1)))
          again

line_size-Provided :
    (given : Bool) (n k : ℕ) (allocs : List Bool)
    → Grants (suc k) allocs
    → Provided (λ (m : ℕ). 0 < m) k (line_size given n allocs)
unfolding line_size
line_size-Provided given n k allocs (g, l) = by_test (not given || n == 0) refl
  where
    by_test :
        (x : Bool)
        → (not given || n == 0) ≡ x
        → Provided
            (λ (m : ℕ). 0 < m)
            k
            (if x then granted allocs (if n == 0 then 128 else n) else some (n, allocs))
    by_test true e =
        granted-Provided (λ (m : ℕ). 0 < m) k (if n == 0 then 128 else n) allocs (ground arith)
          (g, l)
    by_test false e = (ground arith, (g, omega arith))

pending-fuel : (f : File) → length (pending f) < fuel f
pending-fuel f = omega (
  arith,
  length-append (pushed f.ungot) (to_come f),
  length-append (drop f.bufpos f.buf) f.source,
  length-drop f.bufpos f.buf,
  pushed_one f.ungot,
)
  where
    pushed_one : (u : Option ℕ) → length (pushed u) ≤ 1
    pushed_one none = omega arith
    pushed_one (some c) = omega arith

-- With answers for one call more than the bytes to come (a stream in memory needs none), and an allocator that grants as
-- many calls and one more, getdelim returns on a stream of any kind, whatever size it is given. Its line, followed by
-- the bytes still to come, is exactly the bytes to come before it; there is room for it and a terminator; and either it
-- ends at its first delimiter, or has none and the end or an error is noted, and its length is the answer; or there is
-- no byte, the end or an error is noted, and the answer is -1.
pub getdelim-IsWhole :
    (given : Bool) (n delim : ℕ) (allocs : List Bool) (f : File)
    → Supplied (suc (length (pending f))) f
    → IsReadable f
    → Grants (suc (length (pending f))) allocs
    → IsWhole delim (pending f) (getdelim given n allocs delim f)
unfolding getdelim
getdelim-IsWhole given n delim allocs f s b g =
    from (if n == 0 then 128 else n) (line_size given n allocs)
      (line_size-Provided given n (length (pending f)) allocs g)
  where
    from :
        (z : ℕ) (v : Option (ℕ × List Bool))
        → Provided (λ (m : ℕ). 0 < m) (length (pending f)) v
        → IsWhole delim (pending f) (delim_from delim f z v)
    from z none h = elim h [ ]
    from z (some (m, rest)) (h, y) =
        delim_loop-IsWhole (fuel f) delim m rest [] f (pending-fuel f) s b y h tt
