-- ===== src/Barrier.antt =====
-- src/pthread_barrier.c: the barrier. Its mutex is held from the start of pthread_barrier_wait to its end but in
-- pthread_cond_wait, so that a call is two steps: the arrival, and a look at the phase after a wake-up, which may be
-- spurious. The words are unsigned.
pub mod Rounds
use vlibc.Base.{ℕ, ◌+◌, ◌%◌, ◌^◌, Bool, not, ◌==◌, if◌then◌else◌, Option, none, some}

pub record Barrier : Type 0 where
  pub count : ℕ
  pub waiting : ℕ
  pub phase : ℕ

-- `none` is EINVAL; a barrier that is NULL is left out.
unfoldable pub pthread_barrier_init : ℕ → Option Barrier
pthread_barrier_init count =
    if count == 0 then none else some (record { count = count; waiting = 0; phase = 0 })

-- Whether the arrival ends the call, with PTHREAD_BARRIER_SERIAL_THREAD, or waits in the phase that it has seen.
pub data Arrival : Type 0 where
  serial_thread : Arrival
  waits_in : ℕ → Arrival

unfoldable pub arrive : Barrier → Arrival × Barrier
arrive b =
    let w = (b.waiting + 1) % 2 ^ 32 in
    if w == b.count
    then (serial_thread, record b { waiting = 0; phase = (b.phase + 1) % 2 ^ 32 })
    else (waits_in b.phase, record b { waiting = w })

-- Whether the loop over pthread_cond_wait ends for a thread that arrived in `phase`.
unfoldable pub may_leave : ℕ → Barrier → Bool
may_leave phase b = not (phase == b.phase)
