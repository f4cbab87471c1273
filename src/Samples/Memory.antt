-- ===== src/Samples/Memory.antt =====
-- src/memory.c and src/pthread_rwlock.c at small inputs.
use vlibc.Base.{◌+◌, ◌-◌, ◌%◌, ◌^◌, ◌≤◌, ◌≡◌, ◌≢◌, ◌⊎◌, refl, arith, true, false, [], none, some}
use vlibc.CString.{size_max}
use vlibc.Alloc.{Heap, Sbrk, header, magic, malloc, realloc, posix_memalign}
use vlibc.Alloc.Separate.{Fresh, handed}
use vlibc.Alloc.Reach.{Reachable, start, after, got, empty, reachable-IsHeap, reachable-apart}
use vlibc.Alloc.Contents.{Resized, realloc-Resized}
use vlibc.Alloc.Aligned.{Placed, posix_memalign-Placed}
use vlibc.Rwlock.{
  wrlock_ends, unlock_sees_writer, rdlock_ends, rdlock_add, wrlock_exchange, pthread_rwlock_init,
}
use vlibc.Rwlock.Exclusion as Lock
use vlibc.Rwlock.Exclusion.{State, add, get_read, exchange}
use vlibc.Rwlock.Lost.{before_any, saw_writer, stored, now, stores, saw_writer-wrlock_ends}

abbrev pub heap_0 : Heap
heap_0 = record {
  fail_after = none;
  errno = none;
  free_list = [];
  size = λ a. 0;
  orig = λ a. 0;
  bytes = λ a. 7;
}

abbrev pub at_4096 : Sbrk
at_4096 = record { probed = true; region = some 4096 }

abbrev at_8192 : Sbrk
at_8192 = record { probed = true; region = some 8192 }

abbrev heap_1 : Heap
heap_1 = (malloc at_4096 8 heap_0).1

abbrev heap_2 : Heap
heap_2 = (malloc at_8192 100 heap_1).1

pub empty_Reachable : Reachable heap_0 empty
empty_Reachable = start heap_0 refl

none_known : Fresh empty 8 (some 4096)
none_known a k = absurd (cc k)

one_known : Fresh (handed empty 4096 8) 100 (some 8192)
one_known a k = ground arith

heap_1_Reachable : Reachable heap_1 (handed empty 4096 8)
unfolding malloc size_max
heap_1_Reachable = after empty_Reachable (got at_4096 8 4096 heap_1 none_known refl)

heap_2_Reachable : Reachable heap_2 (handed (handed empty 4096 8) 8192 100)
unfolding malloc size_max
heap_2_Reachable = after heap_1_Reachable (got at_8192 100 8192 heap_2 one_known refl)

reachable-apart_example :
    (4096 + header + heap_2.size 4096 ≤ 8192) ⊎ (8192 + header + heap_2.size 8192 ≤ 4096)
reachable-apart_example =
    reachable-apart heap_2 (handed (handed empty 4096 8) 8192 100) 4096 8192 heap_2_Reachable refl
      refl (omega arith)

ordinary : heap_1.size 4096 % 2 ^ 32 ≢ magic
unfolding malloc size_max
ordinary = omega arith

realloc-Resized_example :
    Resized (handed empty 4096 8) 4096 100 heap_1 (realloc at_8192 (4096 + header) 100 heap_1)
realloc-Resized_example =
    realloc-Resized (handed empty 4096 8) 4096 100 heap_1
      (reachable-IsHeap heap_1 (handed empty 4096 8) heap_1_Reachable) refl ordinary at_8192
      one_known (omega arith)

none_known_wide : Fresh empty (8 + (64 - 1 + header)) (some 4096)
none_known_wide a k = absurd (cc k)

posix_memalign-Placed_example : Placed empty 64 8 (posix_memalign at_4096 64 8 heap_0)
posix_memalign-Placed_example =
    posix_memalign-Placed empty at_4096 64 8 heap_0 (reachable-IsHeap heap_0 empty empty_Reachable)
      none_known_wide

-- One thread holds the lock for reading, and another has set the flag.
abbrev waiting : State
waiting = record {
  words = record { readers = 1; writer = 1 };
  added = 0;
  refused = 0;
  reading = 1;
  leaving = 0;
  waiting = 1;
  writing = 0;
  clearing = 0;
}

waiting_Reachable : Lock.Reachable waiting
unfolding rdlock_add rdlock_ends wrlock_exchange pthread_rwlock_init
waiting_Reachable =
    Lock.step
      (Lock.step (Lock.step (Lock.start (record { readers = 5; writer = 5 })) (add (omega arith)))
        (get_read (omega arith) refl))
      exchange

flagged : unlock_sees_writer waiting.words ≡ true
unfolding unlock_sees_writer
flagged = refl

-- That reader calls unlock, and clears the flag.
saw_writer-wrlock_ends_example :
    wrlock_ends (stored (saw_writer (before_any waiting))).lock.words ≡ false
saw_writer-wrlock_ends_example =
    saw_writer-wrlock_ends waiting (stored (saw_writer (before_any waiting))) waiting_Reachable
      (omega arith) flagged (stores now (omega arith))
