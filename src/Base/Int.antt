-- ===== src/Base/Int.antt =====
-- Signed C integers as integers over the native numbers; `negsuc n` is -(n + 1). Ranges of a C
-- type are stated where it is used.
use Prim.Native.Nat.{ℕ, zero, suc, ◌+◌, ◌-◌, ◌≤◌}
use mathlib.Core.Path.{◌≡◌, refl}
use mathlib.Core.Logic.{◌⊎◌, ◌≢◌, inl, inr}
use mathlib.Core.Bool.{Bool, true, false}
use native.Mathlib.Omega.{arith}
use vlibc.Base.Tests.{ltb, leb, if◌then◌else◌}

pub data ℤ : Type 0 where
  pos : ℕ → ℤ
  negsuc : ℕ → ℤ

abbrev pub pos_part : ℤ → ℕ
pos_part (pos n) = n
pos_part (negsuc n) = 0

abbrev pub neg_part : ℤ → ℕ
neg_part (pos n) = 0
neg_part (negsuc n) = suc n

-- a - b, as an integer.
abbrev pub sub_ℕ : ℕ → ℕ → ℤ
sub_ℕ a b = if leb b a then pos (a - b) else negsuc (b - a - 1)

-- - a, for a number a.
abbrev pub neg_ℕ : ℕ → ℤ
neg_ℕ zero = pos 0
neg_ℕ (suc n) = negsuc n

infix 50 ◌≤ℤ◌
abbrev pub ◌≤ℤ◌ : ℤ → ℤ → Type 0
a ≤ℤ b = pos_part a + neg_part b ≤ pos_part b + neg_part a

abbrev pub ltb_ℤ : ℤ → ℤ → Bool
ltb_ℤ a b = ltb (pos_part a + neg_part b) (pos_part b + neg_part a)

pub eq_of_parts : (a b : ℤ) → pos_part a + neg_part b ≡ pos_part b + neg_part a → a ≡ b
eq_of_parts a b h = ground arith

infixl 65 ◌+ℤ◌ ◌-ℤ◌
unfoldable pub ◌+ℤ◌ : ℤ → ℤ → ℤ
a +ℤ b = sub_ℕ (pos_part a + pos_part b) (neg_part a + neg_part b)

unfoldable pub ◌-ℤ◌ : ℤ → ℤ → ℤ
a -ℤ b = sub_ℕ (pos_part a + neg_part b) (neg_part a + pos_part b)

pub +ℤ_cancel : (a b : ℤ) → a +ℤ b -ℤ b ≡ a
unfolding ◌+ℤ◌ ◌-ℤ◌
+ℤ_cancel a b = ground arith

-- `i > 0` and `i < 0` of an int.
unfoldable pub is_zero : ℤ → Bool
is_zero (pos zero) = true
is_zero (pos (suc n)) = false
is_zero (negsuc n) = false

unfoldable pub is_positive : ℤ → Bool
is_positive (pos zero) = false
is_positive (pos (suc n)) = true
is_positive (negsuc n) = false

unfoldable pub is_negative : ℤ → Bool
is_negative (pos n) = false
is_negative (negsuc n) = true

pub sign_cases :
    (i : ℤ)
    → (is_negative i ≡ true)
      ⊎ ((is_negative i ≡ false) × (is_positive i ≡ true))
      ⊎ ((is_negative i ≡ false) × (is_positive i ≡ false) × (i ≡ pos 0))
unfolding is_negative is_positive
sign_cases (pos zero) = inr (inr (refl, refl, refl))
sign_cases (pos (suc n)) = inr (inl (refl, refl))
sign_cases (negsuc n) = inl refl

pub positive-ne-zero : (i : ℤ) → is_positive i ≡ true → i ≢ pos 0
unfolding is_positive
positive-ne-zero i h e = ground arith

pub negative-ne-zero : (i : ℤ) → is_negative i ≡ true → i ≢ pos 0
unfolding is_negative
negative-ne-zero i h e = ground arith

pub negative_not_positive : (i : ℤ) → is_negative i ≡ true → is_positive i ≡ false
unfolding is_negative is_positive
negative_not_positive (pos n) h = cc
negative_not_positive (negsuc n) h = refl
