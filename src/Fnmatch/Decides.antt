-- ===== src/Fnmatch/Decides.antt =====
-- src/fnmatch.c: fnmatch ends, reads nothing behind the pattern, and answers whether the string matches.
use vlibc.Base.{
  ℕ, zero, suc, ◌+◌, ◌≤◌, ◌<◌, ◌≡◌, ◌≢◌, ◌↔◌, refl, sym, ◌∙◌, subst, Bool, true, false, not, ◌&&◌,
  List, [], ◌∷◌, arith, ◌==◌, if◌then◌else◌, length, Bool-cases, inl, inr,
}
use vlibc.Fnmatch.{
  Outcome, answer, past_end, out_of_fuel, Next, match_range, any_one, drop_stars, or_else,
  star_loop, bracket, literal, escaped, at_end, do_match, fnmatch,
}
use vlibc.Fnmatch as Code
use vlibc.Fnmatch.Relation.{
  star, one, Items, Matches, done, byte, none_more, one_more, Reads, nothing, question, asterisk,
  class, escape, plain, accepts, one_inv, not_one, two_stars, star_more, star_all, star_nil,
}
use vlibc.Fnmatch.Ranges.{match_range-Bracket}
use vlibc.Fnmatch.Bracket.{match_range-shrinks}

-- The run has ended with an answer, and the answer is right about `G`.
abbrev pub IsRight : Type 0 → Outcome → Type 0
IsRight G (answer true) = G
IsRight G (answer false) = ¬ G
IsRight G past_end = ⊥
IsRight G out_of_fuel = ⊥

IsRight-iff : (G H : Type 0) (o : Outcome) → G ↔ H → IsRight G o → IsRight H o
IsRight-iff G H (answer true) (to, from) g = to g
IsRight-iff G H (answer false) (to, from) n = λ h. n (from h)
IsRight-iff G H past_end e r = r
IsRight-iff G H out_of_fuel e r = r

-- The next item tests one byte.
test-IsRight :
    (test : ℕ → Bool) (is : Items) (c : ℕ) (s : List ℕ) (o : Outcome)
    → IsRight (Matches is s) o
    → IsRight (Matches (one test ∷ is) (c ∷ s)) (if test c then o else answer false)
test-IsRight test is c s o r = elim (Bool-cases (test c)) [
  | inl e ↦ rw e (
      IsRight-iff (Matches is s) (Matches (one test ∷ is) (c ∷ s)) o
        (λ m. byte e m, λ m. (one_inv m).1) r)
  | inr e ↦ rw e (λ m. absurd (let k : true ≡ false = sym (one_inv m).0 ∙ e in cc))
]

-- The search of a star over what is behind it.
star_loop-IsRight :
    (next : Next) (p : List ℕ) (is : Items)
    → ((s : List ℕ) → IsRight (Matches is s) (next p s))
    → ¬ Matches is []
    → (s : List ℕ) → IsRight (Matches (star ∷ is) s) (star_loop next p s)
unfolding star_loop
star_loop-IsRight next p is right not_empty [] = λ m. not_empty (star_nil m)
star_loop-IsRight next p is right not_empty (c ∷ s) =
    go (next p (c ∷ s)) (right (c ∷ s)) (star_loop next p s)
      (star_loop-IsRight next p is right not_empty s)
  where
    go :
        (o : Outcome)
        → IsRight (Matches is (c ∷ s)) o
        → (rest : Outcome) → IsRight (Matches (star ∷ is) s) rest
        → IsRight (Matches (star ∷ is) (c ∷ s)) (or_else o rest)
    go (answer true) m rest r = none_more m
    go (answer false) n rest r =
        IsRight-iff (Matches (star ∷ is) s) (Matches (star ∷ is) (c ∷ s)) rest
          (one_more, λ m. star_more n m) r
    go past_end m rest r = absurd m
    go out_of_fuel m rest r = absurd m

-- A pattern that does not begin with a star, and the one it stands for behind a star.
record Behind (noescape : Bool) (p : List ℕ) (is : Items) : Type 0 where
  items : Items
  read : Reads noescape (drop_stars p) items
  same : (s : List ℕ) → Matches (star ∷ is) s ↔ Matches (star ∷ items) s
  short : length (drop_stars p) ≤ length p
  test_first : (c : ℕ) (q : List ℕ) → drop_stars p ≡ c ∷ q → ¬ Matches items []

Behind-self :
    (noescape : Bool) (c : ℕ) (p : List ℕ) (is : Items) (test : ℕ → Bool)
    → c ≢ b'*'
    → Reads noescape (c ∷ p) (one test ∷ is)
    → Behind noescape (c ∷ p) (one test ∷ is)
unfolding drop_stars
Behind-self noescape c p is test ne r =
    let other : (c == b'*') ≡ false = ground arith in
    record {
      items = one test ∷ is;
      read = rw other r;
      same = λ s. (λ m. m, λ m. m);
      short = rw other (omega arith);
      test_first = λ d q e. not_one;
    }

drop_stars-Behind :
    (noescape : Bool) (p : List ℕ) (is : Items) → Reads noescape p is → Behind noescape p is
unfolding drop_stars
drop_stars-Behind noescape [] [] nothing = record {
  items = [];
  read = nothing;
  same = λ s. (λ m. m, λ m. m);
  short = omega arith;
  test_first = λ c q e. absurd (let k : [] ≡ c ∷ q = e in cc);
}
drop_stars-Behind noescape [] (i ∷ is) r = elim r [ ]
drop_stars-Behind noescape (c ∷ p) is (question e r) =
    Behind-self noescape c p _ _ (omega arith) (question e r)
drop_stars-Behind noescape (c ∷ p) (_ ∷ is) (asterisk e r) =
    let b = drop_stars-Behind noescape p is r in
    let starred : (c == b'*') ≡ true = ground arith in
    record {
      items = b.items;
      read = rw starred b.read;
      same = λ s. (λ m. (b.same s).0 (two_stars m), λ m. none_more ((b.same s).1 m));
      short = rw starred (omega (arith, b.short));
      test_first = λ d q k. b.test_first d q (rw starred at k);
    }
drop_stars-Behind noescape (c ∷ p) is (class e q r) =
    Behind-self noescape c p _ _ (omega arith) (class e q r)
drop_stars-Behind noescape (c ∷ d ∷ p) is (escape e n r) =
    Behind-self noescape c (d ∷ p) _ _ (omega arith) (escape e n r)
drop_stars-Behind noescape (c ∷ p) is (plain q s b n r) =
    Behind-self noescape c p _ _ s (plain q s b n r)

star-IsRight :
    (next : Next) (p : List ℕ) (items : Items)
    → ((s : List ℕ) → IsRight (Matches items s) (next p s))
    → ((c : ℕ) (q : List ℕ) → p ≡ c ∷ q → ¬ Matches items [])
    → (p ≡ [] → items ≡ [])
    → (s : List ℕ) → IsRight (Matches (star ∷ items) s) (Code.star next p s)
unfolding Code.star
star-IsRight next [] items right first empty s =
    subst (λ is. Matches (star ∷ is) s) (sym (empty refl)) (star_all s)
star-IsRight next (c ∷ p) items right first empty s =
    star_loop-IsRight next (c ∷ p) items right (first c p refl) s

Reads-empty : (noescape : Bool) (p : List ℕ) (is : Items) → Reads noescape p is → p ≡ [] → is ≡ []
Reads-empty noescape [] [] nothing e = refl
Reads-empty noescape [] (i ∷ is) r e = elim r [ ]
Reads-empty noescape (c ∷ p) is r e = absurd (let k : c ∷ p ≡ [] = e in cc)

any_one-IsRight :
    (next : Next) (p : List ℕ) (is : Items)
    → ((s : List ℕ) → IsRight (Matches is s) (next p s))
    → (s : List ℕ) → IsRight (Matches (one (λ d. true) ∷ is) s) (any_one next p s)
unfolding any_one
any_one-IsRight next p is right [] = not_one
any_one-IsRight next p is right (c ∷ s) = test-IsRight (λ d. true) is c s (next p s) (right s)

literal-IsRight :
    (next : Next) (d : ℕ) (p : List ℕ) (is : Items)
    → ((s : List ℕ) → IsRight (Matches is s) (next p s))
    → (s : List ℕ) → IsRight (Matches (one (λ x. x == d) ∷ is) s) (literal next d p s)
unfolding literal
literal-IsRight next d p is right [] = not_one
literal-IsRight next d p is right (c ∷ s) = test-IsRight (λ x. x == d) is c s (next p s) (right s)

bracket-IsRight :
    (noescape : Bool) (next : Next) (p q : List ℕ) (test : ℕ → Bool) (is : Items)
    → ((d : ℕ) → match_range noescape p d ≡ (test d, q))
    → ((s : List ℕ) → IsRight (Matches is s) (next q s))
    → (s : List ℕ) → IsRight (Matches (one test ∷ is) s) (bracket noescape next p s)
unfolding bracket
bracket-IsRight noescape next p q test is e right [] = not_one
bracket-IsRight noescape next p q test is e right (c ∷ s) =
    rw (e c) (test-IsRight test is c s (next q s) (right s))

pub do_match-IsRight :
    (noescape : Bool) (f : ℕ) (p : List ℕ) (is : Items)
    → length p < f
    → Reads noescape p is
    → (s : List ℕ) → IsRight (Matches is s) (do_match noescape f p s)
unfolding do_match
do_match-IsRight noescape zero p is lt r s = absurd (omega arith)
do_match-IsRight noescape (suc f) [] [] lt nothing [] = done
do_match-IsRight noescape (suc f) [] [] lt nothing (c ∷ s) = λ m. elim m [ ]
do_match-IsRight noescape (suc f) [] (i ∷ is) lt r s = elim r [ ]
do_match-IsRight noescape (suc f) (c ∷ p) [] lt r s = elim r [ ]
do_match-IsRight noescape (suc f) (c ∷ p) (_ ∷ is) lt (question e r) s =
    let a : (c == b'?') ≡ true = ground arith in
    rw a (
      any_one-IsRight (do_match noescape f) p is (do_match-IsRight noescape f p is (omega arith) r)
        s)
do_match-IsRight noescape (suc f) (c ∷ p) (_ ∷ is) lt (asterisk e r) s =
    let b = drop_stars-Behind noescape p is r in
    let right =
      do_match-IsRight noescape f (drop_stars p) b.items (omega (arith, b.short)) b.read in
    let empty = Reads-empty noescape (drop_stars p) b.items b.read in
    let found =
      star-IsRight (do_match noescape f) (drop_stars p) b.items right b.test_first empty s in
    let q : (c == b'?') ≡ false = ground arith in
    let a : (c == b'*') ≡ true = ground arith in
    let (to, from) = b.same s in
    rw (q, a) (IsRight-iff (Matches (star ∷ b.items) s) (Matches (star ∷ is) s) _ (from, to) found)
do_match-IsRight noescape (suc f) (c ∷ p) (_ ∷ is) lt (class {q} {negated} {rs} e k r) s =
    let agree : (d : ℕ) → match_range noescape p d ≡ (accepts negated rs d, q) =
      λ d. match_range-Bracket noescape negated p q rs d k in
    let short : length q ≤ length p =
      subst (λ (x : Bool × List ℕ). length x.1 ≤ length p) (agree 0)
        (match_range-shrinks noescape p 0) in
    let right = do_match-IsRight noescape f q is (omega arith) r in
    let n : (c == b'?') ≡ false = ground arith in
    let a : (c == b'*') ≡ false = ground arith in
    let b : (c == b'[') ≡ true = ground arith in
    rw (n, a, b)
      (bracket-IsRight noescape (do_match noescape f) p q (accepts negated rs) is agree right s)
do_match-IsRight noescape (suc f) (c ∷ d ∷ p) (_ ∷ is) lt (escape e n r) s =
    let q : (c == b'?') ≡ false = ground arith in
    let a : (c == b'*') ≡ false = ground arith in
    let b : (c == b'[') ≡ false = ground arith in
    let t : (c == b'\\' && not noescape) ≡ true = ground arith in
    rw (q, a, b, t)
      (literal-IsRight (do_match noescape f) d p is
        (do_match-IsRight noescape f p is (omega arith) r) s)
do_match-IsRight noescape (suc f) (c ∷ p) (_ ∷ is) lt (plain q t b n r) s =
    let x : (c == b'?') ≡ false = ground arith in
    let y : (c == b'*') ≡ false = ground arith in
    let z : (c == b'[') ≡ false = ground arith in
    let w : (c == b'\\' && not noescape) ≡ false = ground arith in
    rw (x, y, z, w)
      (literal-IsRight (do_match noescape f) c p is
        (do_match-IsRight noescape f p is (omega arith) r) s)

-- fnmatch, on a pattern that does not end in a backslash that escapes, ends, reads nothing behind the NUL of the
-- pattern, and answers 0 exactly if the string matches: `*` stands for any text, `?` for any byte, a bracket for
-- a byte in one of its ranges, or in none where it is negated, and any other byte, or one behind a backslash
-- unless FNM_NOESCAPE is given, for itself.
pub fnmatch-IsRight :
    (noescape : Bool) (pattern string : List ℕ) (is : Items)
    → Reads noescape pattern is
    → IsRight (Matches is string) (fnmatch noescape pattern string)
unfolding fnmatch
fnmatch-IsRight noescape pattern string is r =
    do_match-IsRight noescape (length pattern + 1) pattern is (omega arith) r string
