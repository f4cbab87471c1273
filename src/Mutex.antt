-- ===== src/Mutex.antt =====
-- src/pthread.c: the mutex, by its accesses to memory, one definition for each of them. A thread is a number from 1, and
-- an owner of 0 is none. The writes of `owner` and `recursion` by the thread that has the lock are one step: others only
-- compare `owner` with themselves. What futex_wait and futex_wake do changes no word. `recursion` is an unsigned.
pub mod Steps
pub mod Owned
use vlibc.Base.{ℕ, ◌+◌, ◌-◌, ◌%◌, ◌^◌, Bool, true, false, not, ◌&&◌, ◌||◌, ◌==◌, ltb, if◌then◌else◌}

pub record Mutex : Type 0 where
  pub locked : ℕ
  pub recursive : Bool
  pub owner : ℕ
  pub recursion : ℕ

unfoldable pub pthread_mutex_init : Bool → Mutex
pthread_mutex_init recursive = record {
  locked = 0;
  recursive = recursive;
  owner = 0;
  recursion = 0;
}

-- pthread_mutex_lock and pthread_mutex_trylock: whether the caller has the mutex already, and what it does then.
unfoldable pub has_it : ℕ → Mutex → Bool
has_it self m = m.recursive && m.owner == self

unfoldable pub lock_again : Mutex → Mutex
lock_again m = record m { recursion = (m.recursion + 1) % 2 ^ 32 }

-- The exchange of pthread_mutex_lock, and as well the compare and exchange of pthread_mutex_trylock: whether it got the
-- lock.
unfoldable pub lock_exchange : Mutex → Bool × Mutex
lock_exchange m = (m.locked == 0, record m { locked = 1 })

unfoldable pub take_over : ℕ → Mutex → Mutex
take_over self m = record m { owner = self; recursion = 1 }

-- pthread_mutex_unlock: whether it goes on past EPERM, whether it releases the lock, and the release.
unfoldable pub may_unlock : ℕ → Mutex → Bool
may_unlock self m = not m.recursive || m.owner == self

unfoldable pub unlock_once : Mutex → Bool × Mutex
unlock_once m =
    let rest = (m.recursion + (2 ^ 32 - 1)) % 2 ^ 32 in
    if m.recursive
    then (if ltb 0 rest
        then (false, record m { recursion = rest })
        else (true, record m { recursion = rest; owner = 0 }))
    else (true, record m { owner = 0; recursion = 0 })

unfoldable pub release : Mutex → Mutex
release m = record m { locked = 0 }
