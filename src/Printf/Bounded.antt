-- ===== src/Printf/Bounded.antt =====
-- src/printf.c: what vsnprintf leaves in a buffer of a size, against the text that the format makes.
use vlibc.Base.{
  ℕ,
  zero,
  suc,
  ◌+◌,
  ◌-◌,
  ◌<◌,
  ◌≤◌,
  ◌≡◌,
  refl,
  sym,
  ap,
  ◌∙◌,
  false,
  Bool-cases,
  inl,
  inr,
  List,
  [],
  ◌∷◌,
  ◌++◌,
  Option,
  none,
  some,
  arith,
  ◌==◌,
  ltb,
  leb,
  length,
  length-append,
  length-take,
  take,
  if◌then◌else◌,
  ◌>>=◌,
  Int.{ℤ, pos},
}
use vlibc.Strto.{to_int}
use vlibc.Memory.{Mem, store, put}
use vlibc.Printf.Format.{Arg, format_loop}
use vlibc.Printf.Buffer.{Output, out_char, terminate, vsnprintf, behind, formatted}
use vlibc.Printf.Same.{mapped, format_loop-same}

put-behind :
    (s : List ℕ) (m : Mem) (p c : ℕ) → put m p (s ++ c ∷ []) ≡ store (put m p s) (p + length s) c
unfolding put
put-behind [] m p c = ground arith
put-behind (d ∷ s) m p c =
    let e : p + 1 + length s ≡ p + suc (length s) = omega arith in
    put-behind s (store m p d) (p + 1) c ∙ ap (λ (q : ℕ). store (put (store m p d) (p + 1) s) q c) e

take-behind_short : (n : ℕ) (t : List ℕ) (c : ℕ) → length t < n → take n (t ++ c ∷ []) ≡ t ++ c ∷ []
take-behind_short zero t c h = absurd (omega arith)
take-behind_short (suc n) [] c h = go n
  where
    go : (n : ℕ) → take (suc n) (c ∷ []) ≡ c ∷ []
    go zero = refl
    go (suc n) = refl
take-behind_short (suc n) (d ∷ t) c h =
    ap (λ (s : List ℕ). d ∷ s) (take-behind_short n t c (omega arith))

pub take_short : (n : ℕ) (t : List ℕ) → length t ≤ n → take n t ≡ t
take_short zero [] h = refl
take_short zero (d ∷ t) h = absurd (omega arith)
take_short (suc n) [] h = refl
take_short (suc n) (d ∷ t) h = ap (λ (s : List ℕ). d ∷ s) (take_short n t (omega arith))

take-behind_long : (n : ℕ) (t : List ℕ) (c : ℕ) → n ≤ length t → take n (t ++ c ∷ []) ≡ take n t
take-behind_long zero t c h = refl
take-behind_long (suc n) [] c h = absurd (omega arith)
take-behind_long (suc n) (d ∷ t) c h =
    ap (λ (s : List ℕ). d ∷ s) (take-behind_long n t c (omega arith))

output_ext :
    (m n : Mem) (p q : ℕ)
    → m ≡ n
    → p ≡ q
    → ◌≡◌ {A = Output} (record { mem = m; position = p }) (record { mem = n; position = q })
output_ext m n p q e h = rw (e, h) refl

module _ (str size : ℕ) (m : Mem) where
  -- The output behind the bytes `t`.
  abbrev after : List ℕ → Output
  after t = record { mem = put m str (take (size - 1) t); position = length t }

  after-same : (c : ℕ) (t : List ℕ) → out_char str size c (after t) ≡ after (behind c t)
  unfolding out_char
  after-same c t =
      let more : length t + 1 ≡ length (t ++ c ∷ []) = omega (arith, length-append t (c ∷ [])) in
      elim (Bool-cases (ltb (length t + 1) size)) [
        | inl e ↦
            let room : length t < size - 1 = ground arith in
            let whole : take (size - 1) t ≡ t = take_short (size - 1) t (omega arith) in
            let stored : store (put m str (take (size - 1) t)) (str + length t) c
                ≡ put m str (take (size - 1) (t ++ c ∷ [])) =
              ap (λ (s : List ℕ). store (put m str s) (str + length t) c) whole
              ∙ sym (put-behind t m str c)
              ∙ ap (λ (s : List ℕ). put m str s) (sym (take-behind_short (size - 1) t c room)) in
            rw e (output_ext _ _ _ _ stored more)
        | inr e ↦
            let full : size - 1 ≤ length t = ground arith in
            rw e (
              output_ext _ _ _ _
                (ap (λ (s : List ℕ). put m str s) (sym (take-behind_long (size - 1) t c full)))
                more)
      ]

terminate-after :
    (str size : ℕ) (m : Mem) (t : List ℕ)
    → terminate str size (after str size m t)
      ≡ (to_int (pos (length t)), if size == 0 then m else put m str (take (size - 1) t ++ 0 ∷ []))
unfolding terminate put
terminate-after str zero m t = refl
terminate-after str (suc n) m t =
    let last = put-behind (take n t) m str 0 in
    let cut = length-take n t in
    let some_room : (suc n == 0) ≡ false = ground arith in
    let room : suc n - 1 ≡ n = omega arith in
    rw (some_room, room)
      (elim (Bool-cases (leb (suc n) (length t))) [
        | inl e ↦
            let len : length (take n t) ≡ n = ground (arith, cut) in
            rw e (
              ap (λ (x : Mem). (to_int (pos (length t)), x))
                (ap (λ (q : ℕ). store (put m str (take n t)) (str + q) 0) (sym len) ∙ sym last))
        | inr e ↦
            let len : length (take n t) ≡ length t = ground (arith, cut) in
            rw e (
              ap (λ (x : Mem). (to_int (pos (length t)), x))
                (ap (λ (q : ℕ). store (put m str (take n t)) (str + q) 0) (sym len) ∙ sym last))
      ])

-- vsnprintf returns the length, cast to int, of the text that the format makes of the arguments, and where size is not 0 it
-- stores the first size - 1 bytes of the text (all of them where it is shorter) and a NUL at str, and nothing else.
pub vsnprintf-formatted :
    (str size : ℕ) (fmt : List ℕ) (args : List Arg) (m : Mem)
    → vsnprintf str size fmt args m ≡ (
        formatted fmt args >>= λ t.
        some (
          to_int (pos (length t)),
          if size == 0 then m else put m str (take (size - 1) t ++ 0 ∷ []),
        ))
unfolding vsnprintf formatted put
vsnprintf-formatted str size fmt args m =
    let none_yet : ◌≡◌ {A = Output} (record { mem = m; position = 0 }) (after str size m []) =
      output_ext _ _ _ _
        (ap (λ (s : List ℕ). put m str s) (sym (take_short (size - 1) [] (omega arith)))) refl in
    ap
      (λ (k : Output). format_loop (out_char str size) (length fmt + 1) fmt args k >>= λ k.
        some (terminate str size k))
      none_yet
    ∙ ap (λ (o : Option Output). o >>= λ k. some (terminate str size k))
        (format_loop-same behind (out_char str size) (after str size m) (after-same str size m)
          (length fmt + 1) fmt args [])
    ∙ go (format_loop behind (length fmt + 1) fmt args [])
  where
    go :
        (o : Option (List ℕ))
        → (mapped behind (out_char str size) (after str size m) (after-same str size m) o >>= λ k.
            some (terminate str size k))
          ≡ (o >>= λ t. some (
            to_int (pos (length t)),
            if size == 0 then m else put m str (take (size - 1) t ++ 0 ∷ []),
          ))
    go none = refl
    go (some t) = ap (λ (x : ℤ × Mem). some x) (terminate-after str size m t)
