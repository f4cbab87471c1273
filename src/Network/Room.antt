-- ===== src/Network/Room.antt =====
-- src/inet_ntop.c: the text of an IPv6 address fits the buffer that it is put together in.
use vlibc.Base.{
  ℕ, zero, suc, ◌+◌, ◌-◌, ◌*◌, ◌/◌, ◌%◌, ◌^◌, ◌≤◌, Bool, true, false, not, ◌&&◌, ◌||◌, Bool-cases,
  inl, inr, List, [], ◌∷◌, ◌++◌, Option, arith, ◌==◌, length, length-append, drop,
}
use vlibc.Network.Print.{
  hex_digit, hex_loop, hex16, best_run, is_at, ends_in_colon, put_word, print_words, ends_at_8,
  ipv6_text,
}

hex_loop_room :
    (ds : List ℕ) (started : Bool) (buf : List ℕ)
    → length (hex_loop ds started buf) ≤ length buf + length ds
unfolding hex_loop
hex_loop_room [] started buf = omega arith
hex_loop_room (d ∷ []) started buf = omega (arith, length-append buf (hex_digit d ∷ []))
hex_loop_room (d ∷ e ∷ more) started buf = elim (Bool-cases (not (d == 0) || started)) [
  | inl t ↦
      let rest = hex_loop_room (e ∷ more) true (buf ++ hex_digit d ∷ []) in
      rw t (omega (arith, length-append buf (hex_digit d ∷ []), rest))
  | inr t ↦ let rest = hex_loop_room (e ∷ more) false buf in rw t (omega (arith, rest))
]

hex16_room : (buf : List ℕ) (w : ℕ) → length (hex16 buf w) ≤ length buf + 4
unfolding hex16
hex16_room buf w =
    let ds : List ℕ = w / 2 ^ 12 % 16 ∷ w / 2 ^ 8 % 16 ∷ w / 2 ^ 4 % 16 ∷ w % 16 ∷ [] in
    omega (arith, hex_loop_room ds false buf)

put_word_room : (i w : ℕ) (buf : List ℕ) → length (put_word i w buf) ≤ length buf + 5
put_word_room i w buf = elim (Bool-cases (not (i == 0) && not (ends_in_colon buf))) [
  | inl t ↦ rw t (omega (arith, hex16_room (buf ++ b':' ∷ []) w, length-append buf (b':' ∷ [])))
  | inr t ↦ rw t (omega (arith, hex16_room buf w))
]

print_words_room :
    (base : Option ℕ) (len f i : ℕ) (words buf : List ℕ)
    → length (print_words base len f i words buf) ≤ length buf + 5 * f
unfolding print_words
print_words_room base len zero i words buf = omega arith
print_words_room base len (suc f) i [] buf = omega arith
print_words_room base len (suc f) i (w ∷ words) buf = elim (Bool-cases (is_at base i)) [
  | inl t ↦
      let rest =
        print_words_room base len f (i + len) (drop (len - 1) words) (buf ++ b':' ∷ b':' ∷ []) in
      rw t (omega (arith, rest, length-append buf (b':' ∷ b':' ∷ [])))
  | inr t ↦
      let rest = print_words_room base len f (i + 1) words (put_word i w buf) in
      rw t (omega (arith, rest, put_word_room i w buf))
]

-- The text of an IPv6 address and its NUL fit the 46 bytes of `buf`, whatever its words are.
pub length-ipv6_text : (words : List ℕ) → length (ipv6_text words) + 1 ≤ 46
unfolding ipv6_text
length-ipv6_text words =
    let (base, len) = best_run words in
    let buf = print_words base len 8 0 words [] in
    let h = print_words_room base len 8 0 words [] in
    elim (Bool-cases (ends_at_8 base len)) [
      | inl t ↦ rw t (omega (arith, h, length-append buf (b':' ∷ [])))
      | inr t ↦ rw t (omega (arith, h))
    ]
