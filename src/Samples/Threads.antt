-- ===== src/Samples/Threads.antt =====
-- Threads at a barrier and at a semaphore.
use vlibc.Base.{ℕ, ◌+◌, ◌*◌, ◌≤◌, ◌<◌, ◌≡◌, refl, true, ltb, [], ◌∷◌, some, arith}
use vlibc.Barrier.{arrive, pthread_barrier_init, may_leave}
use vlibc.Barrier.Rounds.{
  Waiter, State, Reachable, start, step, comes, reachable-arrived, reachable-leaves,
  leaves-reachable,
}
use vlibc.Semaphore.{sem_init, is_up, take_unit, post_unit}
use vlibc.Semaphore.Units.{reachable-is_up}
use vlibc.Semaphore.Units
use vlibc.Mutex.{pthread_mutex_init, has_it, lock_again, lock_exchange, take_over}
use vlibc.Mutex.Steps
use vlibc.Mutex.Owned.{reachable-Owned}

abbrev first_waiter : Waiter
first_waiter = record { phase = 0; round = 0 }

-- Both threads of a barrier of two have arrived.
abbrev both_arrived : State
both_arrived = record {
  barrier = record { count = 2; waiting = 0; phase = 1 };
  arrived = 2;
  rounds = 1;
  waiters = first_waiter ∷ [];
}

both_reached : Reachable 2 both_arrived
unfolding pthread_barrier_init arrive
both_reached = step (step (start (record { count = 2; waiting = 0; phase = 0 }) refl) comes) comes

first_leaves : may_leave 0 both_arrived.barrier ≡ true
unfolding may_leave
first_leaves = refl

reachable-arrived_example : (2 ≡ 1 * 2 + 0) × (0 < 2)
reachable-arrived_example = reachable-arrived 2 both_arrived (omega arith) both_reached

reachable-leaves_example : (0 < 1) × ((0 + 1) * 2 ≤ 2)
reachable-leaves_example =
    reachable-leaves 2 both_arrived [] first_waiter [] (omega arith) both_reached refl first_leaves

leaves-reachable_example : may_leave 0 both_arrived.barrier ≡ true
leaves-reachable_example =
    leaves-reachable 2 both_arrived [] first_waiter [] (omega arith) both_reached refl (omega arith)
      (omega arith)

-- One unit at the start, one posted, one taken.
abbrev one_taken : Units.State
one_taken = record { count = 1; looked = []; taken = 1; posts = 1 }

one_reached : Units.Reachable 1 one_taken
unfolding sem_init post_unit is_up take_unit
one_reached =
    Units.step
      (Units.step (Units.step Units.start Units.look) (Units.take_one [] 1 [] 0 refl up takes))
      Units.post
  where
    up : is_up 1 ≡ true
    up = refl

    takes : take_unit 1 1 ≡ some 0
    takes = refl

reachable-is_up_example : (1 + 1 ≡ 1 + 1) × (1 ≤ 1 + 1) × (is_up 1 ≡ ltb 1 (1 + 1))
reachable-is_up_example = reachable-is_up 1 one_taken one_reached (omega arith)

-- A thread that has locked a recursive mutex twice.
abbrev unlocked : Steps.State
unlocked = record {
  words = record { locked = 0; recursive = true; owner = 0; recursion = 0 };
  place = λ t. Steps.rests 0;
}

abbrev tries : Steps.State
tries = Steps.moved unlocked unlocked.words 7 Steps.trying

abbrev gets : Steps.State
gets = Steps.moved tries (record tries.words { locked = 1 }) 7 Steps.got

abbrev locks : Steps.State
locks = Steps.moved gets (record gets.words { owner = 7; recursion = 1 }) 7 (Steps.rests 1)

abbrev locks_twice : Steps.State
locks_twice = Steps.moved locks (record locks.words { recursion = 2 }) 7 (Steps.rests 2)

twice_reached : Steps.Reachable true locks_twice
unfolding pthread_mutex_init has_it lock_exchange take_over lock_again
twice_reached =
    let s1 : Steps.Reachable true tries = Steps.step Steps.start (Steps.begin 7 refl refl) in
    let s2 : Steps.Reachable true gets = Steps.step s1 (Steps.get 7 (omega arith) refl refl) in
    let s3 : Steps.Reachable true locks = Steps.step s2 (Steps.own 7 refl) in
    Steps.step s3 (Steps.again 7 1 (omega arith) (omega arith) refl refl)

reachable-Owned_example :
    (◌≡◌ {A = ℕ} 7 7)
    × (locks_twice.words.locked ≡ 1)
    × (locks_twice.words.owner ≡ 7)
    × (locks_twice.words.recursion ≡ 2)
reachable-Owned_example = reachable-Owned true locks_twice 7 7 1 1 twice_reached refl refl
