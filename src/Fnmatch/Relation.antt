-- ===== src/Fnmatch/Relation.antt =====
-- What it means for a text to match a pattern of fnmatch, with no search order in it.
use vlibc.Base.{ℕ, ◌≡◌, ◌≢◌, ◌⊎◌, ◌==◌, Bool, true, false, not, ◌||◌, if◌then◌else◌, List, [], ◌∷◌}
use vlibc.Fnmatch.{in_range}

pub data Item : Type 0 where
  star : Item
  one : (ℕ → Bool) → Item

abbrev pub Items : Type 0
Items = List Item

pub data Matches : Items → List ℕ → Type 0 where
  done : Matches [] []
  byte :
      {test : ℕ → Bool} {c : ℕ} {is : Items} {s : List ℕ}
      → test c ≡ true
      → Matches is s
      → Matches (one test ∷ is) (c ∷ s)
  none_more : {is : Items} {s : List ℕ} → Matches is s → Matches (star ∷ is) s
  one_more : {c : ℕ} {is : Items} {s : List ℕ} → Matches (star ∷ is) s → Matches (star ∷ is) (c ∷ s)

-- One character of a bracket, maybe behind a backslash, and the rest.
pub data Char (noescape : Bool) : List ℕ → ℕ → List ℕ → Type 0 where
  raw : {c : ℕ} {p : List ℕ} → (c ≡ b'\\' → noescape ≡ false → p ≡ []) → Char noescape (c ∷ p) c p
  quoted : {c d : ℕ} {p : List ℕ} → c ≡ b'\\' → noescape ≡ false → Char noescape (c ∷ d ∷ p) d p

-- No "-" with an end behind it.
abbrev pub NoRange : List ℕ → Type 0
NoRange (x ∷ y ∷ p) = (x ≢ b'-') ⊎ (y ≡ b']')
NoRange p = Unit

-- The ranges of a bracket up to its "]" or the end of the pattern, and the rest behind that.
pub data Ranges (noescape : Bool) : List ℕ → List (ℕ × ℕ) → List ℕ → Type 0 where
  unclosed : Ranges noescape [] [] []
  closed : {c : ℕ} {p : List ℕ} → c ≡ b']' → Ranges noescape (c ∷ p) [] p
  single :
      {c a : ℕ} {p q rest : List ℕ} {rs : List (ℕ × ℕ)}
      → c ≢ b']'
      → Char noescape (c ∷ p) a q
      → NoRange q
      → Ranges noescape q rs rest
      → Ranges noescape (c ∷ p) ((a, a) ∷ rs) rest
  range :
      {c a b x y : ℕ} {p q t rest : List ℕ} {rs : List (ℕ × ℕ)}
      → c ≢ b']'
      → Char noescape (c ∷ p) a (x ∷ y ∷ q)
      → x ≡ b'-'
      → y ≢ b']'
      → Char noescape (y ∷ q) b t
      → Ranges noescape t rs rest
      → Ranges noescape (c ∷ p) ((a, b) ∷ rs) rest

-- A bracket behind its "[": whether it is negated, its ranges and the rest.
pub data Bracket (noescape : Bool) : List ℕ → Bool → List (ℕ × ℕ) → List ℕ → Type 0 where
  empty : Bracket noescape [] false [] []
  listing :
      {c : ℕ} {p rest : List ℕ} {rs : List (ℕ × ℕ)}
      → c ≢ b'!'
      → c ≢ b'^'
      → Ranges noescape (c ∷ p) rs rest
      → Bracket noescape (c ∷ p) false rs rest
  excluding :
      {c : ℕ} {p rest : List ℕ} {rs : List (ℕ × ℕ)}
      → (c ≡ b'!') ⊎ (c ≡ b'^')
      → Ranges noescape p rs rest
      → Bracket noescape (c ∷ p) true rs rest

abbrev pub is_in : List (ℕ × ℕ) → ℕ → Bool
is_in [] d = false
is_in ((a, b) ∷ rs) d = in_range a b d || is_in rs d

abbrev pub accepts : Bool → List (ℕ × ℕ) → ℕ → Bool
accepts negated rs d = if negated then not (is_in rs d) else is_in rs d

-- How the bytes of a pattern stand for items. A backslash at the very end stands for none.
pub data Reads (noescape : Bool) : List ℕ → Items → Type 0 where
  nothing : Reads noescape [] []
  question :
      {c : ℕ} {p : List ℕ} {is : Items}
      → c ≡ b'?'
      → Reads noescape p is
      → Reads noescape (c ∷ p) (one (λ d. true) ∷ is)
  asterisk :
      {c : ℕ} {p : List ℕ} {is : Items}
      → c ≡ b'*'
      → Reads noescape p is
      → Reads noescape (c ∷ p) (star ∷ is)
  class :
      {c : ℕ} {p q : List ℕ} {is : Items} {negated : Bool} {rs : List (ℕ × ℕ)}
      → c ≡ b'['
      → Bracket noescape p negated rs q
      → Reads noescape q is
      → Reads noescape (c ∷ p) (one (accepts negated rs) ∷ is)
  escape :
      {c d : ℕ} {p : List ℕ} {is : Items}
      → c ≡ b'\\'
      → noescape ≡ false
      → Reads noescape p is
      → Reads noescape (c ∷ d ∷ p) (one (λ x. x == d) ∷ is)
  plain :
      {c : ℕ} {p : List ℕ} {is : Items}
      → c ≢ b'?'
      → c ≢ b'*'
      → c ≢ b'['
      → (c ≡ b'\\' → noescape ≡ true)
      → Reads noescape p is
      → Reads noescape (c ∷ p) (one (λ x. x == c) ∷ is)

pub one_inv :
    {test : ℕ → Bool} {c : ℕ} {is : Items} {s : List ℕ}
    → Matches (one test ∷ is) (c ∷ s)
    → (test c ≡ true) × Matches is s
one_inv (byte h m) = (h, m)

pub not_one : {test : ℕ → Bool} {is : Items} → ¬ Matches (one test ∷ is) []
not_one m = elim m [ ]

pub two_stars : {is : Items} {s : List ℕ} → Matches (star ∷ star ∷ is) s → Matches (star ∷ is) s
two_stars (none_more m) = m
two_stars (one_more m) = one_more (two_stars m)

pub star_more :
    {is : Items} {c : ℕ} {s : List ℕ}
    → ¬ Matches is (c ∷ s)
    → Matches (star ∷ is) (c ∷ s)
    → Matches (star ∷ is) s
star_more no_match (none_more m) = absurd (no_match m)
star_more no_match (one_more m) = m

pub star_all : (s : List ℕ) → Matches (star ∷ []) s
star_all [] = none_more done
star_all (c ∷ s) = one_more (star_all s)

pub star_nil : {is : Items} → Matches (star ∷ is) [] → Matches is []
star_nil (none_more m) = m
