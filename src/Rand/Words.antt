-- ===== src/Rand/Words.antt =====
-- src/rand48.c: the state as three 16 bit words, and the generators that share it.
use vlibc.Base.{ℕ, ◌^◌, ◌<◌, ◌≡◌, refl, arith}
use vlibc.Rand.{
  Rand48, Short3, arr_to_u64, u64_to_arr, lrand48, nrand48, seed48, rand48_step, advance,
}

-- A 48 bit state is got back from its three words.
pub arr_to_u64-u64_to_arr : (v : ℕ) → v < 2 ^ 48 → arr_to_u64 (u64_to_arr v) ≡ v
unfolding arr_to_u64 u64_to_arr
arr_to_u64-u64_to_arr v lt = omega arith

-- A number that nrand48 makes from an array is the one that lrand48 makes after seed48 of that array; it
-- is below 2^31, and the array then holds the state that lrand48 leaves.
pub nrand48-lrand48 :
    (r : Rand48) (x : Short3)
    → let (n, x') = nrand48 r x in
      let (l, r') = lrand48 (seed48 x r).1 in (n ≡ l) × (n < 2 ^ 31) × (arr_to_u64 x' ≡ r'.state)
unfolding nrand48 lrand48 seed48 rand48_step
nrand48-lrand48 r x =
    (refl, omega arith, arr_to_u64-u64_to_arr (advance r (arr_to_u64 x)) (omega arith))
