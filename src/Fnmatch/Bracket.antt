-- ===== src/Fnmatch/Bracket.antt =====
-- src/fnmatch.c: match_range.
use vlibc.Base.{
  ℕ, zero, suc, ◌≤◌, ◌≡◌, Bool, true, false, ◌||◌, List, [], ◌∷◌, arith, ◌==◌, length, Bool-cases,
  inl, inr,
}
use vlibc.Fnmatch.{
  in_range, char_of, range_end, range_loop, behind_bracket, range_from, match_range,
}

char_of-shrinks :
    (noescape : Bool) (c : ℕ) (p : List ℕ) → length (char_of noescape c p).1 ≤ length p
unfolding char_of
char_of-shrinks noescape c [] = omega arith
char_of-shrinks noescape c (d ∷ p) = ground arith

range_end-shrinks :
    (noescape : Bool) (start : ℕ) (p : List ℕ) → length (range_end noescape start p).1 ≤ length p
unfolding range_end
range_end-shrinks noescape start [] = omega arith
range_end-shrinks noescape start (x ∷ []) = omega arith
range_end-shrinks noescape start (x ∷ y ∷ p) = ground (arith, char_of-shrinks noescape y p)

-- The loop ends by its own test: at the end of the pattern or at a bracket that closes.
abbrev pub Closed : List ℕ → Type 0
Closed [] = Unit
Closed (c ∷ p) = c ≡ b']'

range_loop-Closed :
    (noescape : Bool) (f : ℕ) (p : List ℕ) (c : ℕ) (ok : Bool)
    → length p ≤ f
    → Closed (range_loop noescape f p c ok).1 × (length (range_loop noescape f p c ok).1 ≤ length p)
unfolding range_loop
range_loop-Closed noescape zero [] c ok le = (tt, omega arith)
range_loop-Closed noescape zero (x ∷ p) c ok le = absurd (omega arith)
range_loop-Closed noescape (suc f) [] c ok le = (tt, omega arith)
range_loop-Closed noescape (suc f) (x ∷ p) c ok le =
    let start = (char_of noescape x p).0 in
    let q = (char_of noescape x p).1 in
    let end = (range_end noescape start q).0 in
    let r = (range_end noescape start q).1 in
    let short : length r ≤ length p =
      omega (arith, char_of-shrinks noescape x p, range_end-shrinks noescape start q) in
    elim (Bool-cases (x == b']')) [
      | inl e ↦ rw e (ground arith, omega arith)
      | inr e ↦
          let (closed, le') =
            range_loop-Closed noescape f r c (ok || in_range start end c) (omega arith) in
          rw e (closed, omega arith)
    ]

behind_bracket-shrinks : (p : List ℕ) → length (behind_bracket p) ≤ length p
unfolding behind_bracket
behind_bracket-shrinks [] = omega arith
behind_bracket-shrinks (c ∷ p) = ground arith

range_from-shrinks :
    (noescape neg : Bool) (p : List ℕ) (c : ℕ) → length (range_from noescape neg p c).1 ≤ length p
unfolding range_from
range_from-shrinks noescape neg p c =
    let q = (range_loop noescape (length p) p c false).1 in
    omega (
      arith,
      behind_bracket-shrinks q,
      (range_loop-Closed noescape (length p) p c false (omega arith)).1,
    )

pub match_range-shrinks :
    (noescape : Bool) (p : List ℕ) (c : ℕ) → length (match_range noescape p c).1 ≤ length p
unfolding match_range
match_range-shrinks noescape [] c = range_from-shrinks noescape false [] c
match_range-shrinks noescape (x ∷ p) c = elim (Bool-cases (x == b'!' || x == b'^')) [
  | inl e ↦ rw e (omega (arith, range_from-shrinks noescape true p c))
  | inr e ↦ rw e (range_from-shrinks noescape false (x ∷ p) c)
]
