-- ===== src/Rwlock/Exclusion.antt =====
-- src/pthread_rwlock.c: threads that share one lock, as a relation of steps.
use vlibc.Base.{ℕ, ◌<◌, ◌^◌, ◌+◌, ◌-◌, ◌≤◌, ◌≡◌, refl, true, false, arith, ◌==◌, if◌then◌else◌}
use vlibc.Rwlock.{
  Words, pthread_rwlock_init, rdlock_add, rdlock_ends, rdlock_sub, wrlock_exchange, wrlock_ends,
  unlock_sees_writer, unlock_clear, unlock_sub,
}

-- How many threads stand where: in rdlock behind the addition; in rdlock before the subtraction; holding the lock for
-- reading; in unlock before the subtraction; in wrlock in the second loop; holding it for writing; in unlock
-- before the store.
pub record State : Type 0 where
  pub words : Words
  pub added : ℕ
  pub refused : ℕ
  pub reading : ℕ
  pub leaving : ℕ
  pub waiting : ℕ
  pub writing : ℕ
  pub clearing : ℕ

abbrev pub counted : State → ℕ
counted s = s.added + s.refused + s.reading + s.leaving

-- A step of a thread. A reader comes to unlock only where no writer has set its flag. No reader adds itself
-- where it would be the 2 ^ 32nd in the count: the code does not check this, and `readers` would wrap.
pub data Step (s : State) : State → Type 0 where
  add :
      counted s + 1 < 2 ^ 32
      → Step s (record {
        words = rdlock_add s.words;
        added = s.added + 1;
        refused = s.refused;
        reading = s.reading;
        leaving = s.leaving;
        waiting = s.waiting;
        writing = s.writing;
        clearing = s.clearing;
      })
  get_read :
      1 ≤ s.added
      → rdlock_ends s.words ≡ true
      → Step s (record {
        words = s.words;
        added = s.added - 1;
        refused = s.refused;
        reading = s.reading + 1;
        leaving = s.leaving;
        waiting = s.waiting;
        writing = s.writing;
        clearing = s.clearing;
      })
  refuse_read :
      1 ≤ s.added
      → rdlock_ends s.words ≡ false
      → Step s (record {
        words = s.words;
        added = s.added - 1;
        refused = s.refused + 1;
        reading = s.reading;
        leaving = s.leaving;
        waiting = s.waiting;
        writing = s.writing;
        clearing = s.clearing;
      })
  sub :
      1 ≤ s.refused
      → Step s (record {
        words = rdlock_sub s.words;
        added = s.added;
        refused = s.refused - 1;
        reading = s.reading;
        leaving = s.leaving;
        waiting = s.waiting;
        writing = s.writing;
        clearing = s.clearing;
      })
  exchange : Step s (record {
    words = (wrlock_exchange s.words).1;
    added = s.added;
    refused = s.refused;
    reading = s.reading;
    leaving = s.leaving;
    waiting = if (wrlock_exchange s.words).0 then s.waiting + 1 else s.waiting;
    writing = s.writing;
    clearing = s.clearing;
  })
  get_write :
      1 ≤ s.waiting
      → wrlock_ends s.words ≡ true
      → Step s (record {
        words = s.words;
        added = s.added;
        refused = s.refused;
        reading = s.reading;
        leaving = s.leaving;
        waiting = s.waiting - 1;
        writing = s.writing + 1;
        clearing = s.clearing;
      })
  read_unlock :
      1 ≤ s.reading
      → unlock_sees_writer s.words ≡ false
      → Step s (record {
        words = s.words;
        added = s.added;
        refused = s.refused;
        reading = s.reading - 1;
        leaving = s.leaving + 1;
        waiting = s.waiting;
        writing = s.writing;
        clearing = s.clearing;
      })
  leave :
      1 ≤ s.leaving
      → Step s (record {
        words = unlock_sub s.words;
        added = s.added;
        refused = s.refused;
        reading = s.reading;
        leaving = s.leaving - 1;
        waiting = s.waiting;
        writing = s.writing;
        clearing = s.clearing;
      })
  write_unlock :
      1 ≤ s.writing
      → unlock_sees_writer s.words ≡ true
      → Step s (record {
        words = s.words;
        added = s.added;
        refused = s.refused;
        reading = s.reading;
        leaving = s.leaving;
        waiting = s.waiting;
        writing = s.writing - 1;
        clearing = s.clearing + 1;
      })
  clear :
      1 ≤ s.clearing
      → Step s (record {
        words = unlock_clear s.words;
        added = s.added;
        refused = s.refused;
        reading = s.reading;
        leaving = s.leaving;
        waiting = s.waiting;
        writing = s.writing;
        clearing = s.clearing - 1;
      })

pub data Reachable : State → Type 0 where
  start :
      (w : Words)
      → Reachable (record {
        words = pthread_rwlock_init w;
        added = 0;
        refused = 0;
        reading = 0;
        leaving = 0;
        waiting = 0;
        writing = 0;
        clearing = 0;
      })
  step : {s t : State} → Reachable s → Step s t → Reachable t

-- The words count the threads, a flag stands for one writer, and no reader is inside with a writer.
abbrev pub Kept : State → Type 0
Kept s =
    (s.words.readers ≡ s.added + s.refused + s.reading + s.leaving)
    × (s.waiting + s.writing + s.clearing ≡ (if s.words.writer == 0 then 0 else 1))
    × (1 ≤ s.writing + s.clearing → s.reading + s.leaving ≡ 0)
    × (counted s < 2 ^ 32)

step-Kept : (s t : State) → Step s t → Kept s → Kept t
unfolding rdlock_add rdlock_ends rdlock_sub wrlock_exchange wrlock_ends unlock_sees_writer
    unlock_clear unlock_sub
step-Kept s t (add n) (a, b, c, d) = (omega arith, b, c, omega arith)
step-Kept s t (get_read n e) (a, b, c, d) = ground arith
step-Kept s t (refuse_read n e) (a, b, c, d) = (omega arith, b, c, omega arith)
step-Kept s t (sub n) (a, b, c, d) = (omega arith, b, c, omega arith)
step-Kept s t exchange (a, b, c, d) = ground arith
step-Kept s t (get_write n e) (a, b, c, d) = ground arith
step-Kept s t (read_unlock n e) (a, b, c, d) = ground arith
step-Kept s t (leave n) (a, b, c, d) = ground arith
step-Kept s t (write_unlock n e) (a, b, c, d) = ground arith
step-Kept s t (clear n) (a, b, c, d) = ground arith

pub reachable-Kept : (s : State) → Reachable s → Kept s
unfolding pthread_rwlock_init
reachable-Kept s (start w) = (refl, refl, (λ h. refl), omega arith)
reachable-Kept s (step {s = r} reached move) = step-Kept r s move (reachable-Kept r reached)
