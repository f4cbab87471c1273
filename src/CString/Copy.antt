-- ===== src/CString/Copy.antt =====
-- vstrcpy, strncpy, strcat and strncat of src/string.c: the string that stands at dest afterwards,
-- and that no byte outside it changes.
use vlibc.Base.{
  ap, ℕ, zero, suc, ◌+◌, ◌-◌, ◌<◌, ◌≤◌, ◌≡◌, refl, List, [], ◌∷◌, ◌++◌, some, arith, length, inl,
  replicate, length-replicate, ◌⊎◌, take, length-append, length-take,
}
use mathlib.Core.Path.{subst}
use vlibc.Memory.{
  Mem, store, put, StrAt, Outside, put-Outside, StrAt-same, NoNul, StrAt-NoNul, StrAt-put,
}
use vlibc.CString.{
  copy_str, vstrcpy, strncpy_loop, zero_fill, strncpy, strcat, copy_at_most, strncat,
}
use vlibc.CString.Length.{scan_end-StrAt}

-- The `a` addresses from `p` on and the `b` addresses from `q` on do not meet.
abbrev pub Apart : ℕ → ℕ → ℕ → ℕ → Type 0
Apart p a q b = (p + a ≤ q) ⊎ (q + b ≤ p)

pub StrAt-store :
    (m : Mem) (d v p : ℕ) (s : List ℕ)
    → Outside p (length s + 1) d
    → StrAt m p s
    → StrAt (store m d v) p s
StrAt-store m d v p s out h = StrAt-same m (store m d v) p s (λ q lo hi. ground arith) h

copy_str-put :
    (f d src : ℕ) (m : Mem) (s : List ℕ)
    → StrAt m src s
    → Apart d (length s + 1) src (length s + 1)
    → length s < f
    → copy_str f d src m ≡ some (put m d (s ++ 0 ∷ []))
unfolding copy_str put
copy_str-put zero d src m s h apart lt = absurd (omega arith)
copy_str-put (suc f) d src m [] h apart lt = ground arith
copy_str-put (suc f) d src m (c ∷ s) h apart lt =
    ground (arith, StrAt-store m d c (src + 1) s, copy_str-put f (d + 1) (src + 1) (store m d c) s)

-- A string that stands at d after a run of stores there, with the rest of memory as it was.
pub record Written (m m' : Mem) (d : ℕ) (s : List ℕ) : Type 0 where
  pub stands : StrAt m' d s
  pub frame : (q : ℕ) → Outside d (length s + 1) q → m' q ≡ m q

Written-put : (m : Mem) (d : ℕ) (s : List ℕ) → NoNul s → Written m (put m d (s ++ 0 ∷ [])) d s
Written-put m d s clean = record {
  stands = StrAt-put m d s [] clean;
  frame = λ q out. put-Outside m d (s ++ 0 ∷ []) q (omega (arith, length-append s (0 ∷ [])));
}

-- vstrcpy, with fuel for the source string and its NUL and a dest that does not meet the source,
-- returns dest; the source string then stands at dest and no byte outside it has changed.
pub vstrcpy-Written :
    (f d src : ℕ) (m : Mem) (s : List ℕ)
    → StrAt m src s
    → Apart d (length s + 1) src (length s + 1)
    → length s < f
    → (m' : Mem) × (vstrcpy f d src m ≡ some (d, m')) × Written m m' d s
unfolding vstrcpy
vstrcpy-Written f d src m s h apart lt = (
  put m d (s ++ 0 ∷ []),
  ground (arith, copy_str-put f d src m s h apart lt),
  Written-put m d s (StrAt-NoNul m src s h),
)

-- Two strings one behind the other are one string.
StrAt-append :
    (m m' : Mem) (p e : ℕ) (a b : List ℕ)
    → StrAt m p a
    → e ≡ p + length a
    → ((q : ℕ) → p ≤ q → q < e → m' q ≡ m q)
    → StrAt m' e b
    → StrAt m' p (a ++ b)
StrAt-append m m' p e [] b h at same k =
    let here : e ≡ p = omega arith in subst (λ x. StrAt m' x b) here k
StrAt-append m m' p e (c ∷ a) b (v, ne, h) at same k = (
  ground (arith, same p),
  ne,
  StrAt-append m m' (p + 1) e a b h (omega arith) (λ q lo hi. same q (omega arith) hi) k,
)

-- What the appending routines leave: `a ++ b` at d, and no byte changed but the NUL of `a` and those
-- behind it that `b` and its NUL take.
pub record Appended (m m' : Mem) (d : ℕ) (a b : List ℕ) : Type 0 where
  pub stands : StrAt m' d (a ++ b)
  pub frame : (q : ℕ) → Outside (d + length a) (length b + 1) q → m' q ≡ m q

Appended-put :
    (m : Mem) (d : ℕ) (a b : List ℕ)
    → StrAt m d a
    → NoNul b
    → Appended m (put m (d + length a) (b ++ 0 ∷ [])) d a b
Appended-put m d a b h clean =
    let w = Written-put m (d + length a) b clean in
    record {
      stands =
          StrAt-append m _ d (d + length a) a b h refl (λ q lo hi. w.frame q (inl hi)) w.stands;
      frame = w.frame;
    }

-- strcat, with fuel for both strings and a source that meets neither the string at dest nor the
-- room behind it, returns dest; the two strings stand there one behind the other, and no
-- byte outside the appended ones and their NUL has changed.
pub strcat-Appended :
    (f d src : ℕ) (m : Mem) (a b : List ℕ)
    → StrAt m d a
    → StrAt m src b
    → Apart (d + length a) (length b + 1) src (length b + 1)
    → length a < f
    → length b < f
    → (m' : Mem) × (strcat f d src m ≡ some (d, m')) × Appended m m' d a b
unfolding strcat
strcat-Appended f d src m a b h k apart la lb = (
  put m (d + length a) (b ++ 0 ∷ []),
  ground (arith, scan_end-StrAt f d m a h la, copy_str-put f (d + length a) src m b k apart lb),
  Appended-put m d a b h (StrAt-NoNul m src b k),
)

copy_at_most-put :
    (n d src : ℕ) (m : Mem) (s : List ℕ)
    → StrAt m src s
    → Apart d (length s + 1) src (length s + 1)
    → copy_at_most n d src m ≡ put m d (take n s ++ 0 ∷ [])
unfolding copy_at_most put
copy_at_most-put zero d src m s h apart = refl
copy_at_most-put (suc n) d src m [] h apart = ground arith
copy_at_most-put (suc n) d src m (c ∷ s) h apart =
    ground
      (arith, StrAt-store m d c (src + 1) s, copy_at_most-put n (d + 1) (src + 1) (store m d c) s)

NoNul-take : (n : ℕ) (s : List ℕ) → NoNul s → NoNul (take n s)
NoNul-take zero s h = tt
NoNul-take (suc n) [] h = tt
NoNul-take (suc n) (c ∷ s) (ne, h) = (ne, NoNul-take n s h)

-- strncat appends the first n bytes of the source, or all of it if it is shorter, and a NUL.
pub strncat-Appended :
    (f d src n : ℕ) (m : Mem) (a b : List ℕ)
    → StrAt m d a
    → StrAt m src b
    → Apart (d + length a) (length b + 1) src (length b + 1)
    → length a < f
    → (m' : Mem) × (strncat f d src n m ≡ some (d, m')) × Appended m m' d a (take n b)
unfolding strncat
strncat-Appended f d src n m a b h k apart la = (
  put m (d + length a) (take n b ++ 0 ∷ []),
  ground (arith, scan_end-StrAt f d m a h la, copy_at_most-put n (d + length a) src m b k apart),
  Appended-put m d a (take n b) h (NoNul-take n b (StrAt-NoNul m src b k)),
)

zero_fill-put : (n d : ℕ) (m : Mem) → zero_fill n d m ≡ put m d (replicate n 0)
unfolding zero_fill put
zero_fill-put zero d m = refl
zero_fill-put (suc n) d m = zero_fill-put n (d + 1) (store m d 0)

-- The `n` bytes that strncpy writes: the string, cut off at n or padded with NULs up to n.
unfoldable pub padded : ℕ → List ℕ → List ℕ
padded n s = take n s ++ replicate (n - length s) 0

abbrev filled : ℕ × ℕ × Mem → Mem
filled (d, left, m) = zero_fill left d m

strncpy_loop-put :
    (n d src : ℕ) (m : Mem) (s : List ℕ)
    → StrAt m src s
    → Apart d (length s + 1) src (length s + 1)
    → filled (strncpy_loop n d src m) ≡ put m d (padded n s)
unfolding strncpy_loop put padded zero_fill
strncpy_loop-put zero d src m s h apart =
    let none_left : 0 - length s ≡ 0 = omega arith in rw none_left refl
strncpy_loop-put (suc n) d src m [] h apart = ground (arith, zero_fill-put (suc n) d m)
strncpy_loop-put (suc n) d src m (c ∷ s) h apart =
    ground
      (arith, StrAt-store m d c (src + 1) s, strncpy_loop-put n (d + 1) (src + 1) (store m d c) s)

-- strncpy, at a dest whose room for the string does not meet the source, returns dest and writes exactly n
-- bytes there: the source string, cut off at n or padded with NULs.
pub strncpy-put :
    (n d src : ℕ) (m : Mem) (s : List ℕ)
    → StrAt m src s
    → Apart d (length s + 1) src (length s + 1)
    → (strncpy d src n m ≡ (d, put m d (padded n s))) × (length (padded n s) ≡ n)
unfolding strncpy padded
strncpy-put n d src m s h apart = (
  ap (λ x. (d, x)) (strncpy_loop-put n d src m s h apart),
  omega (
    arith,
    length-append (take n s) (replicate (n - length s) 0),
    length-take n s,
    length-replicate {A = ℕ} (n - length s) 0,
  ),
)
