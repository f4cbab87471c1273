-- ===== src/Spin.antt =====
-- src/pthread_spin.c: the spin lock. The lock is its word `locked`; an argument that is NULL is `none`. The
-- atomic operations are the steps: pthread_spin_lock is any number of rounds of its loop, each of
-- which is one exchange. What a waiter does in futex_wait, and whom futex_wake wakes, changes no word.
pub mod Exclusion
use vlibc.Base.{ℕ, Bool, true, false, Option, none, some, ◌==◌, if◌then◌else◌}

pub data Errno : Type 0 where
  einval ebusy : Errno

-- The answer, `none` for 0, and the lock.
unfoldable pub pthread_spin_init : Option ℕ → Option Errno × Option ℕ
pthread_spin_init none = (some einval, none)
pthread_spin_init (some locked) = (none, some 0)

-- `atomic_exchange(&lock->locked, 1)`: whether the loop of pthread_spin_lock ends here, and the word.
unfoldable pub lock_round : ℕ → Bool × ℕ
lock_round locked = (locked == 0, 1)

unfoldable pub pthread_spin_trylock : Option ℕ → Option Errno × Option ℕ
pthread_spin_trylock none = (some einval, none)
pthread_spin_trylock (some locked) =
    if locked == 0 then (none, some 1) else (some ebusy, some locked)

unfoldable pub pthread_spin_unlock : Option ℕ → Option Errno × Option ℕ
pthread_spin_unlock none = (some einval, none)
pthread_spin_unlock (some locked) = (none, some 0)
