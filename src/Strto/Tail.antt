-- ===== src/Strto/Tail.antt =====
-- src/strto.c: `*endptr` is a place in the text.
use vlibc.Base.{
  ℕ, ◌-◌, ◌≡◌, refl, sym, ap, ◌∙◌, Bool, true, false, ◌&&◌, ◌||◌, List, [], ◌∷◌, ◌++◌, append_assoc,
  Option, none, some, ltb, ◌==◌, if◌then◌else◌, length, drop, length-append, arith, subst, ◌⊎◌, inl,
  inr,
}
use vlibc.Strto.{
  Acc, peek, advance, digit_val, is_blank, skip_space, take_sign, is_x, pick_base, push_digit,
  digit_loop, scan, signed_cutoff, strtol, unsigned_cutoff, strtoul, strtoll, strtoull, strtoimax,
  strtoumax,
}

-- The text from a place on.
abbrev pub IsTail : List ℕ → List ℕ → Type 0
IsTail t s = (p : List ℕ) × (p ++ t ≡ s)

same-IsTail : (s : List ℕ) → IsTail s s
same-IsTail s = ([], refl)

one_more : (c : ℕ) (t s : List ℕ) → IsTail t s → IsTail t (c ∷ s)
one_more c t s (p, e) = (c ∷ p, ap (c ∷◌) e)

both_parts : (a b c : List ℕ) → IsTail a b → IsTail b c → IsTail a c
both_parts a b c (p, e) (q, f) = (q ++ p, append_assoc q p a ∙ (ap (q ++◌) e ∙ f))

advance-IsTail : (s : List ℕ) → IsTail (advance s) s
advance-IsTail [] = same-IsTail []
advance-IsTail (c ∷ s) = one_more c s s (same-IsTail s)

test_text : (b : Bool) (s t r : List ℕ) → IsTail s r → IsTail t r → IsTail (if b then s else t) r
test_text true s t r h k = h
test_text false s t r h k = k

-- The text of a pair that a test chooses.
test_pair :
    {A : Type 0} (b : Bool) (x y : A × List ℕ) (r : List ℕ)
    → IsTail x.1 r
    → IsTail y.1 r
    → IsTail (if b then x else y).1 r
test_pair true x y r h k = h
test_pair false x y r h k = k

skip_space-IsTail : (s : List ℕ) → IsTail (skip_space s) s
unfolding skip_space
skip_space-IsTail [] = same-IsTail []
skip_space-IsTail (c ∷ s) =
    test_text (is_blank c) (skip_space s) (c ∷ s) (c ∷ s) (one_more c _ s (skip_space-IsTail s))
      (same-IsTail (c ∷ s))

take_sign-IsTail : (s : List ℕ) → IsTail (take_sign s).1 s
unfolding take_sign
take_sign-IsTail s =
    test_pair {A = Bool} (peek s == b'+' || peek s == b'-') (peek s == b'-', advance s) (false, s) s
      (advance-IsTail s) (same-IsTail s)

pick_base-IsTail : (base : ℕ) (s : List ℕ) → IsTail (pick_base base s).1 s
unfolding pick_base
pick_base-IsTail base s =
    let twice : IsTail (advance (advance s)) s =
      both_parts _ (advance s) s (advance-IsTail (advance s)) (advance-IsTail s) in
    test_pair {A = ℕ} (base == 0)
      (if peek s == b'0'
        then (if is_x (peek (advance s)) then (16, advance (advance s)) else (8, advance s))
        else (10, s))
      (if base == 16 && peek s == b'0' && is_x (peek (advance s))
        then (16, advance (advance s))
        else (base, s))
      s
      (test_pair {A = ℕ} (peek s == b'0')
        (if is_x (peek (advance s)) then (16, advance (advance s)) else (8, advance s)) (10, s) s
        (test_pair {A = ℕ} (is_x (peek (advance s))) (16, advance (advance s)) (8, advance s) s
          twice (advance-IsTail s))
        (same-IsTail s))
      (test_pair {A = ℕ} (base == 16 && peek s == b'0' && is_x (peek (advance s)))
        (16, advance (advance s)) (base, s) s twice (same-IsTail s))

digit_loop-IsTail :
    (base cutdiv cutlim : ℕ) (s : List ℕ) (a : Acc) → IsTail (digit_loop base cutdiv cutlim s a).1 s
unfolding digit_loop
digit_loop-IsTail base cutdiv cutlim [] a = same-IsTail []
digit_loop-IsTail base cutdiv cutlim (c ∷ s) a =
    by_digit (digit_val c)
      (λ d. digit_loop-IsTail base cutdiv cutlim s (push_digit base cutdiv cutlim a d))
  where
    by_digit :
        (v : Option ℕ)
        → ((d : ℕ)
            → IsTail (digit_loop base cutdiv cutlim s (push_digit base cutdiv cutlim a d)).1 s)
        → IsTail
            (elim v as (λ x. Acc × List ℕ) [
              | none ↦ (a, c ∷ s)
              | some d ↦
                  let rest = digit_loop base cutdiv cutlim s (push_digit base cutdiv cutlim a d) in
                  if ltb d base then rest else (a, c ∷ s)
            ]).1
            (c ∷ s)
    by_digit none h = same-IsTail (c ∷ s)
    by_digit (some d) h =
        test_pair {A = Acc} (ltb d base)
          (digit_loop base cutdiv cutlim s (push_digit base cutdiv cutlim a d)) (a, c ∷ s) (c ∷ s)
          (one_more c _ s (h d)) (same-IsTail (c ∷ s))

scan-IsTail :
    (cutoff : Bool → ℕ) (base : ℕ) (nptr : List ℕ) → IsTail (scan cutoff base nptr).stop nptr
unfolding scan
scan-IsTail cutoff base nptr =
    let s = skip_space nptr in
    let t = (take_sign s).1 in
    let u = (pick_base base t).1 in
    both_parts _ u nptr (digit_loop-IsTail _ _ _ u _) (
      both_parts u t nptr (pick_base-IsTail base t)
        (both_parts t s nptr (take_sign-IsTail s) (skip_space-IsTail nptr)))

either_end : (e nptr stop : List ℕ) → (e ≡ nptr) ⊎ (e ≡ stop) → IsTail stop nptr → IsTail e nptr
either_end e nptr stop (inl x) h = subst (λ (t : List ℕ). IsTail t nptr) (sym x) (same-IsTail nptr)
either_end e nptr stop (inr x) h = subst (λ (t : List ℕ). IsTail t nptr) (sym x) h

strtol_ends :
    (nptr : List ℕ) (base : ℕ)
    → ((strtol nptr base).endptr ≡ nptr)
      ⊎ ((strtol nptr base).endptr ≡ (scan signed_cutoff base nptr).stop)
unfolding strtol
strtol_ends nptr base = ground arith

strtoul_ends :
    (nptr : List ℕ) (base : ℕ)
    → ((strtoul nptr base).endptr ≡ nptr)
      ⊎ ((strtoul nptr base).endptr ≡ (scan unsigned_cutoff base nptr).stop)
unfolding strtoul
strtoul_ends nptr base = ground arith

pub strtol-IsTail : (nptr : List ℕ) (base : ℕ) → IsTail (strtol nptr base).endptr nptr
strtol-IsTail nptr base =
    either_end _ nptr _ (strtol_ends nptr base) (scan-IsTail signed_cutoff base nptr)

pub strtoul-IsTail : (nptr : List ℕ) (base : ℕ) → IsTail (strtoul nptr base).endptr nptr
strtoul-IsTail nptr base =
    either_end _ nptr _ (strtoul_ends nptr base) (scan-IsTail unsigned_cutoff base nptr)

pub strtoll-IsTail : (nptr : List ℕ) (base : ℕ) → IsTail (strtoll nptr base).endptr nptr
unfolding strtoll
strtoll-IsTail = strtol-IsTail

pub strtoull-IsTail : (nptr : List ℕ) (base : ℕ) → IsTail (strtoull nptr base).endptr nptr
unfolding strtoull
strtoull-IsTail = strtoul-IsTail

pub strtoimax-IsTail : (nptr : List ℕ) (base : ℕ) → IsTail (strtoimax nptr base).endptr nptr
unfolding strtoimax
strtoimax-IsTail = strtoll-IsTail

pub strtoumax-IsTail : (nptr : List ℕ) (base : ℕ) → IsTail (strtoumax nptr base).endptr nptr
unfolding strtoumax
strtoumax-IsTail = strtoull-IsTail

-- A place is found again by how much text is before it.
pub drop-IsTail : (t s : List ℕ) → IsTail t s → drop (length s - length t) s ≡ t
drop-IsTail t s (p, e) =
    subst (λ (u : List ℕ). drop (length u - length t) u ≡ t) e
      (ap (λ (n : ℕ). drop n (p ++ t)) {x = length (p ++ t) - length t}
          (omega (arith, length-append p t))
        ∙ drop_front p t)
  where
    drop_front : (p t : List ℕ) → drop (length p) (p ++ t) ≡ t
    drop_front [] t = refl
    drop_front (c ∷ p) t = drop_front p t
