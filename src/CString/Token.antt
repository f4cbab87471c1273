-- ===== src/CString/Token.antt =====
-- strtok_r of src/string.c: one call cuts off one token.
use mathlib.Core.Path.{subst}
use vlibc.Base.{
  append-nil, sym, ℕ, zero, suc, ◌+◌, ◌<◌, ◌%◌, ◌≡◌, ◌≢◌, refl, Bool, true, false, not, ◌||◌, List,
  [], ◌∷◌, ◌++◌, Option, none, some, arith, length, ◌==◌,
}
use vlibc.Memory.{Mem, store, StrAt, StrAt-same}
use vlibc.CString.{is_delim, run_of, save, cut_token, tokenize, strtok_r}
use vlibc.CString.Length.{find_first, strchr-find_first}

unfoldable pub member : ℕ → List ℕ → Bool
member c [] = false
member c (x ∷ s) = x == c || member c s

-- All bytes of the list are (`want` is true) or are not (`want` is false) delimiters.
abbrev pub Run : Bool → List ℕ → List ℕ → Type 0
Run want ds [] = Unit
Run want ds (c ∷ s) = (c < 256) × (member c ds ≡ want) × Run want ds s

-- The list ends or goes on with a byte that is not of the kind wanted.
abbrev pub Stops : Bool → List ℕ → List ℕ → Type 0
Stops want ds [] = Unit
Stops want ds (c ∷ t) = (c < 256) × (member c ds ≡ not want)

abbrev is_some : Option ℕ → Bool
is_some none = false
is_some (some _) = true

is_some-find_first :
    (c : ℕ) (s : List ℕ) → c ≢ 0 → is_some (find_first c (s ++ 0 ∷ [])) ≡ member c s
unfolding find_first member
is_some-find_first c [] nz = ground arith
is_some-find_first c (x ∷ s) nz = ground (arith, is_some-find_first c s)

is_delim-member :
    (f p c : ℕ) (m : Mem) (ds : List ℕ)
    → StrAt m p ds
    → length ds < f
    → c < 256
    → c ≢ 0
    → is_delim f p c m ≡ some (member c ds)
unfolding is_delim
is_delim-member f p c m ds h lt byte nz =
    let low : c % 256 ≡ c = omega arith in
    rw (strchr-find_first f p c m ds h lt, low) (ground (arith, is_some-find_first c ds nz))

-- `run_of` stops at the end of the run.
run_of-Run :
    (want : Bool) (f p delim : ℕ) (m : Mem) (ds a b : List ℕ)
    → StrAt m delim ds
    → StrAt m p (a ++ b)
    → Run want ds a
    → Stops want ds b
    → length a + length ds < f
    → run_of want f p delim m ≡ some (p + length a)
unfolding run_of
run_of-Run want zero p delim m ds a b hd h run stop lt = absurd (omega arith)
run_of-Run want (suc f) p delim m ds [] [] hd h run stop lt = ground arith
run_of-Run true (suc f) p delim m ds [] (c ∷ b) hd h run stop lt =
    ground (arith, is_delim-member (suc f) delim c m ds)
run_of-Run false (suc f) p delim m ds [] (c ∷ b) hd h run stop lt =
    ground (arith, is_delim-member (suc f) delim c m ds)
run_of-Run true (suc f) p delim m ds (c ∷ a) b hd h run stop lt =
    ground (arith, is_delim-member (suc f) delim c m ds, run_of-Run true f (p + 1) delim m ds a b)
run_of-Run false (suc f) p delim m ds (c ∷ a) b hd h run stop lt =
    ground (arith, is_delim-member (suc f) delim c m ds, run_of-Run false f (p + 1) delim m ds a b)

StrAt-behind :
    (m : Mem) (p e : ℕ) (a b : List ℕ) → StrAt m p (a ++ b) → e ≡ p + length a → StrAt m e b
StrAt-behind m p e [] b h at =
    let here : e ≡ p = omega arith in subst (λ x. StrAt m x b) (sym here) h
StrAt-behind m p e (c ∷ a) b (v, ne, h) at = StrAt-behind m (p + 1) e a b h (omega arith)

-- A NUL stored behind `a` cuts the string off there.
StrAt-cut :
    (m : Mem) (p e : ℕ) (a b : List ℕ)
    → StrAt m p (a ++ b)
    → e ≡ p + length a
    → StrAt (store m e 0) p a
StrAt-cut m p e [] b h at = ground arith
StrAt-cut m p e (c ∷ a) b (v, ne, h) at =
    (ground arith, ne, StrAt-cut m (p + 1) e a b h (omega arith))

module _ (f p delim v : ℕ) (m : Mem) (ds skip : List ℕ) (hd : StrAt m delim ds)
    (hs : Run true ds skip) where
  -- strtok_r on a text of delimiters alone has no token: NULL is returned and stored in *saveptr, and
  -- memory is as it was.
  pub strtok_r-none :
      StrAt m p skip
      → length skip + length ds < f
      → strtok_r f (some p) delim (some (some v)) m ≡ some (none, some none, m)
  unfolding strtok_r tokenize save
  strtok_r-none h lt = ground (
    arith,
    append-nil skip,
    run_of-Run true f p delim m ds skip [] hd (rw append-nil h) hs tt lt,
    StrAt-behind m p (p + length skip) skip [] (rw append-nil h) refl,
  )

  module _ (c : ℕ) (tok : List ℕ) (ht : Run false ds (c ∷ tok)) where
    -- strtok_r on delimiters, a token and the end of the text returns the token's address and stores
    -- NULL in *saveptr.
    pub strtok_r_last :
        StrAt m p (skip ++ c ∷ tok)
        → length skip + length (c ∷ tok) + length ds < f
        → strtok_r f (some p) delim (some (some v)) m ≡ some (some (p + length skip), some none, m)
    unfolding strtok_r tokenize save cut_token
    strtok_r_last h lt =
        let start = p + length skip in
        let k = StrAt-behind m p start skip (c ∷ tok) h refl in
        let k' : StrAt m start ((c ∷ tok) ++ []) = rw append-nil k in
        ground (
          arith,
          run_of-Run true f p delim m ds skip (c ∷ tok) hd h hs (ht.0, ht.1) (omega arith),
          run_of-Run false f start delim m ds (c ∷ tok) [] hd k' ht tt (omega arith),
          StrAt-behind m start (start + length (c ∷ tok)) (c ∷ tok) [] k' refl,
        )

    -- With enough fuel, strtok_r on delimiters, a token, a delimiter and any rest returns the token's address and stores
    -- in *saveptr the address behind that delimiter; the token alone stands at the one and the rest at
    -- the other.
    pub strtok_r_token :
        (d : ℕ) (rest : List ℕ)
        → Stops false ds (d ∷ rest)
        → StrAt m p (skip ++ ((c ∷ tok) ++ d ∷ rest))
        → length skip + length (c ∷ tok) + length ds < f
        → (e : ℕ) → e ≡ p + length skip + length (c ∷ tok)
        → (strtok_r f (some p) delim (some (some v)) m
            ≡ some (some (p + length skip), some (some (e + 1)), store m e 0))
          × StrAt (store m e 0) (p + length skip) (c ∷ tok)
          × StrAt (store m e 0) (e + 1) rest
    unfolding strtok_r tokenize save cut_token
    strtok_r_token d rest stop h lt e at =
        let start = p + length skip in
        let k = StrAt-behind m p start skip ((c ∷ tok) ++ d ∷ rest) h refl in
        let behind = StrAt-behind m start e (c ∷ tok) (d ∷ rest) k at in
        (
          ground (
            arith,
            run_of-Run true f p delim m ds skip ((c ∷ tok) ++ d ∷ rest) hd h hs (ht.0, ht.1)
                (omega arith),
            run_of-Run false f start delim m ds (c ∷ tok) (d ∷ rest) hd k ht stop (omega arith),
          ),
          StrAt-cut m start e (c ∷ tok) (d ∷ rest) k at,
          StrAt-same m (store m e 0) (e + 1) rest (λ q lo hi. ground arith) behind.2,
        )
