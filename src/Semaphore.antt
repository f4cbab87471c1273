-- ===== src/Semaphore.antt =====
-- src/semaphore.c: the counting semaphore, by its atomic operations, one definition for each of them. The count is the
-- 32 bits of an atomic_int as a number. What futex_wait and futex_wake do changes no word.
pub mod Units
use vlibc.Base.{
  ℕ, ◌+◌, ◌-◌, ◌%◌, ◌^◌, Bool, ◌&&◌, ltb, leb, ◌==◌, if◌then◌else◌, Option, none, some,
}

-- The count that sem_init stores.
unfoldable pub sem_init : ℕ → ℕ
sem_init value = value % 2 ^ 32

-- sem_wait and sem_trywait: `val > 0`, for what the load answered.
unfoldable pub is_up : ℕ → Bool
is_up val = leb 1 val && ltb val (2 ^ 31)

-- `atomic_compare_exchange_weak_explicit(&sem->count, &val, val - 1)`: the count after it, or none if it fails. It may
-- fail at any time.
unfoldable pub take_unit : ℕ → ℕ → Option ℕ
take_unit val count = if count == val then some (val - 1) else none

-- sem_post: `atomic_fetch_add_explicit(&sem->count, 1)`.
unfoldable pub post_unit : ℕ → ℕ
post_unit count = (count + 1) % 2 ^ 32
