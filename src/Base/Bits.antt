-- ===== src/Base/Bits.antt =====
-- The bits that two numbers share, by their lowest digits, and the mask of a power of two.
use Prim.Native.Nat.{min, bit_and, digits, bit_and-bitwise}
use native.Mathlib.Nat.{mod-add-div', mod-lt, mod-eq_of_lt, mul-add-mod_self_right}
use vlibc.Base.{
  ℕ, zero, suc, ◌+◌, ◌-◌, ◌*◌, ◌/◌, ◌%◌, ◌^◌, ◌≤◌, ◌<◌, ◌≡◌, ◌≢◌, refl, sym, ap, ◌∙◌, ◌⊎◌, inl, inr,
  arith,
}

abbrev shared : ℕ → ℕ → ℕ → ℕ
shared f x y = digits (λ b. zero) min f x y

shared_enough : (f g x y : ℕ) → x ≤ f → x ≤ g → shared f x y ≡ shared g x y
shared_enough zero zero x y h k = refl
shared_enough zero (suc g) zero y h k = refl
shared_enough zero (suc g) (suc x) y h k = absurd (omega arith)
shared_enough (suc f) zero zero y h k = refl
shared_enough (suc f) zero (suc x) y h k = absurd (omega arith)
shared_enough (suc f) (suc g) zero y h k = refl
shared_enough (suc f) (suc g) (suc x) y h k =
    omega (arith, shared_enough f g (suc x / 2) (y / 2) (omega arith) (omega arith))

none-bit_and : (y : ℕ) → bit_and 0 y ≡ 0
none-bit_and y = bit_and-bitwise 0 y

-- The lowest digit and the others.
lowest-bit_and : (x y : ℕ) → bit_and x y ≡ 2 * bit_and (x / 2) (y / 2) + min (x % 2) (y % 2)
lowest-bit_and zero y = omega (arith, none-bit_and y, none-bit_and (y / 2))
lowest-bit_and (suc x) y = omega (
  arith,
  bit_and-bitwise (suc x) y,
  bit_and-bitwise (suc x / 2) (y / 2),
  shared_enough x (suc x / 2) (suc x / 2) (y / 2) (omega arith) (omega arith),
)

bit_and-none : (f x : ℕ) → x ≤ f → bit_and x 0 ≡ 0
bit_and-none f zero h = none-bit_and 0
bit_and-none zero (suc x) h = absurd (omega arith)
bit_and-none (suc f) (suc x) h =
    omega (arith, lowest-bit_and (suc x) 0, bit_and-none f (suc x / 2) (omega arith))

bit_and-same : (f x : ℕ) → x ≤ f → bit_and x x ≡ x
bit_and-same f zero h = none-bit_and 0
bit_and-same zero (suc x) h = absurd (omega arith)
bit_and-same (suc f) (suc x) h =
    omega (arith, lowest-bit_and (suc x) (suc x), bit_and-same f (suc x / 2) (omega arith))

-- A remainder by twice `q` is that of the half by `q`, and the lowest digit.
remainder_double : (x q : ℕ) → q ≢ 0 → x % (2 * q) ≡ 2 * (x / 2 % q) + x % 2
remainder_double x q positive =
    let r = 2 * (x / 2 % q) + x % 2 in
    let part = mod-lt (x / 2) {m = q} (omega arith) in
    let split : x / 2 / q * (2 * q) + r ≡ x = grind (arith, mod-add-div' (x / 2) q) in
    sym (ap (λ (y : ℕ). y % (2 * q)) split)
    ∙ (mul-add-mod_self_right (x / 2 / q) (2 * q) r ∙ mod-eq_of_lt {n = r} (omega (arith, part)))

parity : (a : ℕ) → (a % 2 ≡ 0) ⊎ (a % 2 ≡ 1)
parity a = ground arith

-- The bits below a power of two: of an even one, by its half.
mask_double :
    (q : ℕ)
    → q ≢ 0
    → ((x : ℕ) → bit_and x (q - 1) ≡ x % q)
    → (x : ℕ) → bit_and x (2 * q - 1) ≡ x % (2 * q)
mask_double q positive half x =
    let others : (2 * q - 1) / 2 ≡ q - 1 = omega arith in
    let step = rw others at (lowest-bit_and x (2 * q - 1)) in
    omega (arith, step, half (x / 2), remainder_double x q positive)

mask_fewer : (q : ℕ) → q ≢ 0 → bit_and (2 * q) (2 * q - 1) ≡ 0 → bit_and q (q - 1) ≡ 0
mask_fewer q positive power =
    let others : (2 * q - 1) / 2 ≡ q - 1 = omega arith in
    let whole : 2 * q / 2 ≡ q = omega arith in
    let step = rw (others, whole) at (lowest-bit_and (2 * q) (2 * q - 1)) in omega (arith, step)

-- An odd number shares its higher bits with the number before it.
mask_odd : (q : ℕ) → bit_and (2 * q + 1) (2 * q + 1 - 1) ≡ 0 → q ≡ 0
mask_odd q power =
    let others : (2 * q + 1 - 1) / 2 ≡ q = omega arith in
    let whole : (2 * q + 1) / 2 ≡ q = omega arith in
    let step = rw (others, whole) at (lowest-bit_and (2 * q + 1) (2 * q + 1 - 1)) in
    omega (arith, step, bit_and-same q q (omega arith))

mask_remainder_enough :
    (f a : ℕ) → a ≤ f → a ≢ 0 → bit_and a (a - 1) ≡ 0 → (x : ℕ) → bit_and x (a - 1) ≡ x % a
mask_remainder_enough zero a h positive power x = absurd (omega arith)
mask_remainder_enough (suc f) a h positive power x = elim (parity a) [
  | inl e ↦
      let q = a / 2 in
      let d : 2 * q ≡ a = omega arith in
      let fewer = mask_fewer q (omega arith) (rw (← d) at power) in
      rw (← d) (
        mask_double q (omega arith) (mask_remainder_enough f q (omega arith) (omega arith) fewer) x)
  | inr e ↦
      let d : 2 * (a / 2) + 1 ≡ a = omega arith in
      let one : a ≡ 1 = omega (arith, mask_odd (a / 2) (rw (← d) at power)) in
      rw one (omega (arith, bit_and-none x x (omega arith)))
]

-- Where `a` shares no bit with the number before it, that number is the mask of a remainder by `a`.
pub bit_and-remainder : (a x : ℕ) → a ≢ 0 → bit_and a (a - 1) ≡ 0 → bit_and x (a - 1) ≡ x % a
bit_and-remainder a x positive power = mask_remainder_enough a a (omega arith) positive power x

-- A number of `w` digits has each of its digits in `m` or in the complement of `m`.
pub bit_and-complement :
    (w y m : ℕ) → y < 2 ^ w → m < 2 ^ w → bit_and y (2 ^ w - 1 - m) + bit_and y m ≡ y
bit_and-complement zero y m h l =
    let e : y ≡ 0 = omega arith in
    rw e (omega (arith, none-bit_and (2 ^ 0 - 1 - m), none-bit_and m))
bit_and-complement (suc w) y m h l =
    let others : (2 ^ suc w - 1 - m) / 2 ≡ 2 ^ w - 1 - m / 2 = omega arith in
    let step = rw others at (lowest-bit_and y (2 ^ suc w - 1 - m)) in
    let rest = bit_and-complement w (y / 2) (m / 2) (omega arith) (omega arith) in
    omega (arith, step, rest, lowest-bit_and y m)
