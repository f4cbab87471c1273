-- ===== src/Samples/Orders.antt =====
-- The comparison of numbers that the samples sort and search with.
use vlibc.Base.{arith}
use vlibc.Base.Int.{sub_ℕ, is_positive, is_negative}
use vlibc.Sort.Order.{IsComparison}
use vlibc.Tree.Ordered.{IsOrder}

pub sub_ℕ-IsComparison : IsComparison sub_ℕ
unfolding is_positive
sub_ℕ-IsComparison = record { flips = λ a b h. ground arith; chains = λ a b c h k. ground arith }

pub sub_ℕ-IsOrder : IsOrder sub_ℕ
unfolding is_positive is_negative
sub_ℕ-IsOrder = record {
  flips = λ a b. ground arith;
  chains = λ a b c h k. ground arith;
  equal_negative = λ a b c h. ground arith;
  equal_positive = λ a b c h. ground arith;
}
