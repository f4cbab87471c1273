-- ===== src/Rand.antt =====
-- src/rand.c and src/rand48.c, less drand48 and erand48, which divide in floating point. A state is a
-- 64 bit number; a bitwise or of parts that do not meet is a sum.
pub mod Words
use vlibc.Base.{ℕ, ◌+◌, ◌*◌, ◌/◌, ◌%◌, ◌^◌}

-- `rand_state` is the state; the answer and the next state.
unfoldable pub rand : ℕ → ℕ × ℕ
rand rand_state =
    let next = (rand_state * 1103515245 + 12345) % 2 ^ 64 in (next / 2 ^ 16 % 32768, next)

pub srand : ℕ → ℕ
srand seed = seed % 2 ^ 32

-- The three statics of rand48.c.
pub record Rand48 : Type 0 where
  pub state : ℕ
  pub mult : ℕ
  pub add : ℕ

-- `unsigned short x[3]`
pub record Short3 : Type 0 where
  pub x0 : ℕ
  pub x1 : ℕ
  pub x2 : ℕ

-- `(v * rand48_mult + rand48_add) & RAND48_MASK`
abbrev pub advance : Rand48 → ℕ → ℕ
advance r v = (v * r.mult + r.add) % 2 ^ 64 % 2 ^ 48

unfoldable pub rand48_step : Rand48 → ℕ × Rand48
rand48_step r =
    (advance r r.state, record { state = advance r r.state; mult = r.mult; add = r.add })

unfoldable pub arr_to_u64 : Short3 → ℕ
arr_to_u64 x = x.x2 * 2 ^ 32 + x.x1 * 2 ^ 16 + x.x0

unfoldable pub u64_to_arr : ℕ → Short3
u64_to_arr v = record { x0 = v % 2 ^ 16; x1 = v / 2 ^ 16 % 2 ^ 16; x2 = v / 2 ^ 32 % 2 ^ 16 }

unfoldable pub lrand48 : Rand48 → ℕ × Rand48
unfolding rand48_step
lrand48 r = let (v, r') = rand48_step r in (v / 2 ^ 17, r')

unfoldable pub nrand48 : Rand48 → Short3 → ℕ × Short3
unfolding arr_to_u64 u64_to_arr
nrand48 r x = let v = advance r (arr_to_u64 x) in (v / 2 ^ 17, u64_to_arr v)

-- `seedval` as the unsigned 64 bit number it is converted to.
unfoldable pub srand48 : ℕ → Rand48
srand48 seedval = record { state = seedval * 2 ^ 16 % 2 ^ 64 + 13070; mult = 25214903917; add = 11 }

-- The old state and the generator.
unfoldable pub seed48 : Short3 → Rand48 → Short3 × Rand48
unfolding arr_to_u64 u64_to_arr
seed48 seed16v r =
    (u64_to_arr r.state, record { state = arr_to_u64 seed16v; mult = r.mult; add = r.add })

-- `param` as its words 0 to 2, 3 to 5 and 6.
pub lcong48 : Short3 → Short3 → ℕ → Rand48
unfolding arr_to_u64
lcong48 seed mult add = record { state = arr_to_u64 seed; mult = arr_to_u64 mult; add = add }
