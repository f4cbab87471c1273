-- ===== src/Network/Rounds.antt =====
-- src/inet_pton.c: the loop of parse_ipv6 ends within 9 rounds, whatever the text.
use vlibc.Base.{
  ℕ, zero, suc, ◌+◌, ◌-◌, ◌/◌, ◌%◌, ◌^◌, ◌<◌, ◌≡◌, refl, ap, Bool-cases, inl, inr, List, [], ◌∷◌,
  ◌++◌, Option, none, some, arith, ltb, ◌==◌, length, length-append, ◌>>=◌,
}
use vlibc.Strto.{strtol}
use vlibc.Address.{parse_ipv4}
use vlibc.Network.Parse.{
  State, in_word, starts_colon, second_colon, dotted_tail, behind_word, parse_round, parse_loop,
  begin, finish, parse_ipv6,
}

abbrev unset : Option ℕ → ℕ
unset none = 1
unset (some z) = 0

-- The rounds that are left at most.
abbrev rounds : State → ℕ
rounds t = 8 - length t.words + unset t.zpos

-- Every state that the round may go on with has fewer rounds left than `n`.
abbrev Below : ℕ → Option State → Type 0
Below n none = Unit
Below n (some u) = rounds u < n

dotted_tail-Below :
    (s words : List ℕ) (zpos : Option ℕ) (n : ℕ)
    → 8 - length words + unset zpos < n
    → Below n (dotted_tail s words zpos)
unfolding dotted_tail
dotted_tail-Below s words zpos n h = elim (Bool-cases (ltb 6 (length words))) [
  | inl e ↦ rw e tt
  | inr e ↦ rw e (go (parse_ipv4 s))
]
  where
    go :
        (o : Option ℕ)
        → Below n (
            o >>= λ ipv4. some (record {
              text = [];
              words = words ++ ipv4 / 2 ^ 16 % 2 ^ 16 ∷ ipv4 % 2 ^ 16 ∷ [];
              zpos = zpos;
            }))
    go none = tt
    go (some v) = omega (arith, h, length-append words (v / 2 ^ 16 % 2 ^ 16 ∷ v % 2 ^ 16 ∷ []))

behind_word-Below :
    (s words : List ℕ) (zpos : Option ℕ) (n : ℕ)
    → 8 - length words + unset zpos < n
    → Below n (behind_word s words zpos)
unfolding behind_word
behind_word-Below [] words zpos n h = h
behind_word-Below (c ∷ s) words zpos n h = elim (Bool-cases (c == b'.')) [
  | inl e ↦ rw e (dotted_tail-Below (c ∷ s) words zpos n h)
  | inr e ↦ elim (Bool-cases (c == b':')) [ inl k ↦ rw (e, k) h | inr k ↦ rw (e, k) tt ]
]

second_colon-Below :
    (zpos : Option ℕ) (s words : List ℕ)
    → Below (8 - length words + unset zpos) (second_colon zpos s words)
second_colon-Below (some z) s words = tt
second_colon-Below none s words = elim (Bool-cases (starts_colon s)) [
  | inl e ↦ rw e tt
  | inr e ↦ rw e (omega arith)
]

parse_round-Below :
    (c : ℕ) (s : List ℕ) (t : State) → length t.words < 8 → Below (rounds t) (parse_round c s t)
unfolding parse_round
parse_round-Below c s t h = elim (Bool-cases (c == b':')) [
  | inl e ↦ rw e (second_colon-Below t.zpos s t.words)
  | inr e ↦ rw e (go (in_word (strtol (c ∷ s) 16).value))
]
  where
    go :
        (o : Option ℕ)
        → Below
            (rounds t)
            (o >>= λ val. behind_word (strtol (c ∷ s) 16).endptr (t.words ++ val ∷ []) t.zpos)
    go none = tt
    go (some v) =
        behind_word-Below (strtol (c ∷ s) 16).endptr (t.words ++ v ∷ []) t.zpos (rounds t)
          (omega (arith, h, length-append t.words (v ∷ [])))

parse_loop-fuel :
    (f g : ℕ) (t : State) (s : List ℕ)
    → rounds t < f
    → rounds t < g
    → parse_loop f t s ≡ parse_loop g t s
unfolding parse_loop
parse_loop-fuel zero g t s hf hg = absurd (omega arith)
parse_loop-fuel (suc f) zero t s hf hg = absurd (omega arith)
parse_loop-fuel (suc f) (suc g) t [] hf hg = refl
parse_loop-fuel (suc f) (suc g) t (c ∷ s) hf hg = elim (Bool-cases (ltb (length t.words) 8)) [
  | inl e ↦ rw e (
      go (parse_round c s t) (parse_round-Below c s t (ground arith))
        (λ u h. parse_loop-fuel f g u u.text (omega arith) (omega arith)))
  | inr e ↦ rw e refl
]
  where
    go :
        (o : Option State)
        → Below (rounds t) o
        → ((u : State) → rounds u < rounds t → parse_loop f u u.text ≡ parse_loop g u u.text)
        → (o >>= λ u. parse_loop f u u.text) ≡ (o >>= λ u. parse_loop g u u.text)
    go none h same = refl
    go (some u) h same = same u h

start_rounds : (s : List ℕ) → Below 10 (begin s)
unfolding begin
start_rounds [] = omega arith
start_rounds (c ∷ []) = ground arith
start_rounds (c ∷ d ∷ s) = ground arith

-- parse_ipv6 ends within 9 rounds of its loop: with any more fuel than that the answer for a text is the same.
pub parse_ipv6-fuel :
    (f : ℕ) (s : List ℕ)
    → 9 < f
    → parse_ipv6 s ≡ (begin s >>= λ t. parse_loop f t t.text >>= λ u. finish u)
unfolding parse_ipv6
parse_ipv6-fuel f s h = go (begin s) (start_rounds s)
  where
    go :
        (o : Option State)
        → Below 10 o
        → (o >>= λ t. parse_loop 10 t t.text >>= λ u. finish u)
          ≡ (o >>= λ t. parse_loop f t t.text >>= λ u. finish u)
    go none b = refl
    go (some t) b =
        ap (λ (x : Option State). x >>= λ u. finish u)
          (parse_loop-fuel 10 f t t.text b (omega arith))
