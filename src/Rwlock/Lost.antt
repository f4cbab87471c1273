-- ===== src/Rwlock/Lost.antt =====
-- src/pthread_rwlock.c: readers that call pthread_rwlock_unlock while a writer waits.
use vlibc.Base.{ℕ, ◌+◌, ◌-◌, ◌^◌, ◌<◌, ◌≤◌, ◌≡◌, true, false, arith}
use vlibc.Rwlock.{
  rdlock_add, rdlock_sub, wrlock_exchange, wrlock_ends, unlock_sees_writer, unlock_clear,
  unlock_sub,
}
use vlibc.Rwlock.Exclusion.{
  State, counted, Step, add, get_read, refuse_read, sub, exchange, get_write, read_unlock, leave,
  write_unlock, clear, Reachable, reachable-Kept,
}

-- The lock, the readers in unlock that saw a writer and have not stored to `writer` yet, and all that saw one.
pub record Deceived : Type 0 where
  pub lock : State
  pub storing : ℕ
  pub lost : ℕ

abbrev pub before_any : State → Deceived
before_any s = record { lock = s; storing = 0; lost = 0 }

-- A reader in unlock loads `writer` and sees it set; it stores 0 to it.
abbrev pub saw_writer : Deceived → Deceived
saw_writer s = record {
  lock = record s.lock { reading = s.lock.reading - 1 };
  storing = s.storing + 1;
  lost = s.lost + 1;
}

abbrev pub stored : Deceived → Deceived
stored s = record {
  lock = record s.lock { words = unlock_clear s.lock.words };
  storing = s.storing - 1;
  lost = s.lost;
}

-- A writer in unlock whose flag such a reader has cleared takes itself for a reader.
abbrev pub writer_subtracts : Deceived → Deceived
writer_subtracts s = record {
  lock = record s.lock { words = unlock_sub s.lock.words; writing = s.lock.writing - 1 };
  storing = s.storing;
  lost = s.lost;
}

-- All that threads do, these accesses included, while fewer than 2 ^ 32 readers are in the count.
pub data Later (s : Deceived) : Deceived → Type 0 where
  now : Later s s
  step :
      {t : Deceived} {u : State}
      → Later s t
      → Step t.lock u
      → counted u + t.lost < 2 ^ 32
      → Later s (record { lock = u; storing = t.storing; lost = t.lost })
  sees :
      {t : Deceived}
      → Later s t
      → 1 ≤ t.lock.reading
      → unlock_sees_writer t.lock.words ≡ true
      → Later s (saw_writer t)
  stores : {t : Deceived} → Later s t → 1 ≤ t.storing → Later s (stored t)
  subtracts :
      {t : Deceived}
      → Later s t
      → 1 ≤ t.lock.writing
      → unlock_sees_writer t.lock.words ≡ false
      → Later s (writer_subtracts t)

-- The count has the lost readers, of whom there are some, and so no writer is inside.
abbrev Over : ℕ → State → Type 0
Over lost s =
    (s.words.readers ≡ counted s + lost)
    × (1 ≤ lost)
    × (counted s + lost < 2 ^ 32)
    × (s.writing ≡ 0)

step-Over : (n : ℕ) (s t : State) → Step s t → counted t + n < 2 ^ 32 → Over n s → Over n t
unfolding rdlock_add rdlock_sub wrlock_exchange wrlock_ends unlock_clear unlock_sub
step-Over n s t (add k) f (a, b, c, d) = (omega arith, b, f, d)
step-Over n s t (get_read k e) f (a, b, c, d) = (omega arith, b, f, d)
step-Over n s t (refuse_read k e) f (a, b, c, d) = (omega arith, b, f, d)
step-Over n s t (sub k) f (a, b, c, d) = (omega arith, b, f, d)
step-Over n s t exchange f (a, b, c, d) = (a, b, f, d)
step-Over n s t (get_write k e) f (a, b, c, d) = ground arith
step-Over n s t (read_unlock k e) f (a, b, c, d) = (omega arith, b, f, d)
step-Over n s t (leave k) f (a, b, c, d) = (omega arith, b, f, d)
step-Over n s t (write_unlock k e) f (a, b, c, d) = (a, b, f, omega arith)
step-Over n s t (clear k) f (a, b, c, d) = (a, b, f, d)

stays-Over : (s t : Deceived) → Later s t → Over s.lost s.lock → Over t.lost t.lock
unfolding unlock_clear
stays-Over s t now h = h
stays-Over s t (step {t = r} {u = u} past move f) h =
    step-Over r.lost r.lock u move f (stays-Over s r past h)
stays-Over s t (sees {t = r} past k e) h =
    let (a, b, c, d) = stays-Over s r past h in (omega arith, omega arith, omega arith, d)
stays-Over s t (stores {t = r} past k) h = stays-Over s r past h
stays-Over s t (subtracts {t = r} past k e) h =
    let (a, b, c, d) = stays-Over s r past h in absurd (omega arith)

-- In a state that threads reach with no such call before: where a thread that holds the lock for reading loads `writer`
-- in pthread_rwlock_unlock while a writer has set its flag, its own count stays in `readers`. Whatever threads do after
-- that load, readers in the same place included, while fewer than 2 ^ 32 are in the count at a time, the second loop of
-- pthread_rwlock_wrlock does not end any more.
pub saw_writer-wrlock_ends :
    (s : State) (t : Deceived)
    → Reachable s
    → 1 ≤ s.reading
    → unlock_sees_writer s.words ≡ true
    → Later (saw_writer (before_any s)) t
    → wrlock_ends t.lock.words ≡ false
unfolding wrlock_ends unlock_sees_writer
saw_writer-wrlock_ends s t reached n e later =
    let (words, flag, apart, fits) = reachable-Kept s reached in
    let none_writes : s.writing ≡ 0 = ground (arith, apart) in
    let (a, b, c, d) =
      stays-Over (saw_writer (before_any s)) t later
        (omega arith, omega arith, omega arith, none_writes) in
    ground arith
