-- ===== src/Rwlock.antt =====
-- src/pthread_rwlock.c: the read-write lock, by its atomic operations, one definition for each of them. The words are
-- `readers` and `writer`, of 32 bits: `readers` is an atomic_int, which wraps, and is looked at only for 0. What futex_wait and futex_wake do changes no word. rdlock's first look at `writer` decides
-- only when its loop goes on, and is left out: it may go on in any state.
pub mod Exclusion
pub mod Lost
use vlibc.Base.{ℕ, ◌+◌, ◌-◌, ◌%◌, ◌^◌, Bool, true, false, not, ◌==◌, if◌then◌else◌}

pub record Words : Type 0 where
  pub readers : ℕ
  pub writer : ℕ

unfoldable pub pthread_rwlock_init : Words → Words
pthread_rwlock_init w = record { readers = 0; writer = 0 }

-- pthread_rwlock_rdlock: `atomic_fetch_add(&rwlock->readers, 1)`, whether the second look at `writer` ends the loop,
-- and else `atomic_fetch_sub(&rwlock->readers, 1)`.
unfoldable pub rdlock_add : Words → Words
rdlock_add w = record { readers = (w.readers + 1) % 2 ^ 32; writer = w.writer }

unfoldable pub rdlock_ends : Words → Bool
rdlock_ends w = w.writer == 0

unfoldable pub rdlock_sub : Words → Words
rdlock_sub w = record { readers = (w.readers + (2 ^ 32 - 1)) % 2 ^ 32; writer = w.writer }

-- pthread_rwlock_wrlock: `atomic_exchange(&rwlock->writer, 1)`, whether it ends the first loop, and whether a look at
-- `readers` ends the second.
unfoldable pub wrlock_exchange : Words → Bool × Words
wrlock_exchange w = (w.writer == 0, record { readers = w.readers; writer = 1 })

unfoldable pub wrlock_ends : Words → Bool
wrlock_ends w = w.readers == 0

-- pthread_rwlock_unlock: whether it sees a writer, and what it does then, or else.
unfoldable pub unlock_sees_writer : Words → Bool
unlock_sees_writer w = not (w.writer == 0)

unfoldable pub unlock_clear : Words → Words
unlock_clear w = record { readers = w.readers; writer = 0 }

unfoldable pub unlock_sub : Words → Words
unlock_sub w = record { readers = (w.readers + (2 ^ 32 - 1)) % 2 ^ 32; writer = w.writer }
