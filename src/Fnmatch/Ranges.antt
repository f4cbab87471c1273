-- ===== src/Fnmatch/Ranges.antt =====
-- src/fnmatch.c: match_range against the ranges that a bracket lists.
use vlibc.Base.{
  ℕ, zero, suc, ◌≤◌, ◌≡◌, ◌≢◌, inl, inr, refl, sym, ◌∙◌, Bool, true, false, not, ◌&&◌, ◌||◌, List,
  [], ◌∷◌, arith, ◌==◌, length, Bool-cases,
}
use vlibc.Fnmatch.{
  in_range, char_of, range_end, range_loop, behind_bracket, range_from, match_range,
}
use vlibc.Fnmatch.Relation.{
  Char, raw, quoted, NoRange, Ranges, unclosed, closed, single, range, Bracket, empty, listing,
  excluding, is_in, accepts,
}

char_of-Char :
    (noescape : Bool) (c a : ℕ) (p q : List ℕ)
    → Char noescape (c ∷ p) a q
    → char_of noescape c p ≡ (a, q)
unfolding char_of
char_of-Char noescape c a [] q (raw h) = refl
char_of-Char noescape c a (d ∷ p) q (raw h) =
    let e : (c == b'\\' && not noescape) ≡ false = elim (Bool-cases (c == b'\\' && not noescape)) [
      | inl t ↦ absurd (let k : d ∷ p ≡ [] = h (ground arith) (ground arith) in cc)
      | inr f ↦ f
    ] in
    rw e refl
char_of-Char noescape c a (d ∷ p) q (quoted e n) =
    let t : (c == b'\\' && not noescape) ≡ true = ground arith in rw t refl

Char-short :
    (noescape : Bool) (c a : ℕ) (p q : List ℕ) → Char noescape (c ∷ p) a q → length q ≤ length p
Char-short noescape c a p q (raw h) = omega arith
Char-short noescape c a (d ∷ p) q (quoted e n) = omega arith

range_end-NoRange :
    (noescape : Bool) (a : ℕ) (q : List ℕ) → NoRange q → range_end noescape a q ≡ (a, q)
unfolding range_end
range_end-NoRange noescape a [] h = refl
range_end-NoRange noescape a (x ∷ []) h = refl
range_end-NoRange noescape a (x ∷ y ∷ q) h =
    let e : (x == b'-' && not (y == b']')) ≡ false = ground arith in rw e refl

range_end-range :
    (noescape : Bool) (a b x y : ℕ) (q t : List ℕ)
    → x ≡ b'-'
    → y ≢ b']'
    → Char noescape (y ∷ q) b t
    → range_end noescape a (x ∷ y ∷ q) ≡ (b, t)
unfolding range_end
range_end-range noescape a b x y q t dash open_end last =
    let e : (x == b'-' && not (y == b']')) ≡ true = ground arith in
    rw e (char_of-Char noescape y b q t last)

or_assoc : (a b c : Bool) → (a || b || c) ≡ (a || (b || c))
or_assoc true b c = refl
or_assoc false b c = refl

or_false : (a : Bool) → (a || false) ≡ a
or_false true = refl
or_false false = refl

-- What the loop comes to.
abbrev Comes : Bool → List (ℕ × ℕ) → ℕ → List ℕ → Bool × List ℕ → Type 0
Comes ok rs d rest (found, p) = (found ≡ (ok || is_in rs d)) × (behind_bracket p ≡ rest)

range_loop-Ranges :
    (noescape : Bool) (f : ℕ) (p rest : List ℕ) (rs : List (ℕ × ℕ)) (d : ℕ) (ok : Bool)
    → length p ≤ f
    → Ranges noescape p rs rest
    → Comes ok rs d rest (range_loop noescape f p d ok)
unfolding range_loop behind_bracket
range_loop-Ranges noescape zero [] rest rs d ok le unclosed = (sym (or_false ok), refl)
range_loop-Ranges noescape zero (c ∷ p) rest rs d ok le r = absurd (omega arith)
range_loop-Ranges noescape (suc f) [] rest rs d ok le unclosed = (sym (or_false ok), refl)
range_loop-Ranges noescape (suc f) (c ∷ p) rest rs d ok le (closed e) =
    let t : (c == b']') ≡ true = ground arith in rw t (sym (or_false ok), rw t refl)
range_loop-Ranges noescape (suc f) (c ∷ p) rest (_ ∷ rs) d ok le
      (single {a} {q} ne ch none_more r) =
    let t : (c == b']') ≡ false = ground arith in
    let e = char_of-Char noescape c a p q ch in
    let k = range_end-NoRange noescape a q none_more in
    let short = Char-short noescape c a p q ch in
    let (found, stop) =
      range_loop-Ranges noescape f q rest rs d (ok || in_range a a d) (omega arith) r in
    rw (t, e) (rw k (found ∙ or_assoc ok (in_range a a d) (is_in rs d), stop))
range_loop-Ranges noescape (suc f) (c ∷ p) rest (_ ∷ rs) d ok le
      (range {a} {b} {x} {y} {q} {t} ne ch dash open_end last r) =
    let n : (c == b']') ≡ false = ground arith in
    let e = char_of-Char noescape c a p (x ∷ y ∷ q) ch in
    let k = range_end-range noescape a b x y q t dash open_end last in
    let short = Char-short noescape c a p (x ∷ y ∷ q) ch in
    let shorter = Char-short noescape y b q t last in
    let (found, stop) =
      range_loop-Ranges noescape f t rest rs d (ok || in_range a b d) (omega arith) r in
    rw (n, e) (rw k (found ∙ or_assoc ok (in_range a b d) (is_in rs d), stop))

range_from-Ranges :
    (noescape negated : Bool) (p rest : List ℕ) (rs : List (ℕ × ℕ)) (d : ℕ)
    → Ranges noescape p rs rest
    → range_from noescape negated p d ≡ (accepts negated rs d, rest)
unfolding range_from
range_from-Ranges noescape negated p rest rs d r =
    let (found, stop) = range_loop-Ranges noescape (length p) p rest rs d false (omega arith) r in
    rw (found, stop) refl

-- match_range answers whether a character is in one of the ranges of the bracket, or in none where the bracket is
-- negated, and stops behind the bracket.
pub match_range-Bracket :
    (noescape negated : Bool) (p rest : List ℕ) (rs : List (ℕ × ℕ)) (d : ℕ)
    → Bracket noescape p negated rs rest
    → match_range noescape p d ≡ (accepts negated rs d, rest)
unfolding match_range
match_range-Bracket noescape negated [] rest rs d empty =
    range_from-Ranges noescape false [] [] [] d unclosed
match_range-Bracket noescape negated (c ∷ p) rest rs d (listing a b r) =
    let t : (c == b'!' || c == b'^') ≡ false = ground arith in
    rw t (range_from-Ranges noescape false (c ∷ p) rest rs d r)
match_range-Bracket noescape negated (c ∷ p) rest rs d (excluding a r) =
    let t : (c == b'!' || c == b'^') ≡ true = ground arith in
    rw t (range_from-Ranges noescape true p rest rs d r)
