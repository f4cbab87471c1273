-- ===== src/Barrier/Rounds.antt =====
-- src/pthread_barrier.c: no thread leaves before all of its round have arrived.
use vlibc.Base.{
  ℕ, ◌+◌, ◌*◌, ◌%◌, ◌^◌, ◌≤◌, ◌<◌, ◌≡◌, ◌≢◌, refl, subst, Bool, true, false, List, [], ◌∷◌, ◌++◌,
  ◌==◌, if◌then◌else◌, some, arith, All,
}
use native.Mathlib.Nat.{add-mul, mul-le-mul_right}
use vlibc.Barrier.{
  Barrier, pthread_barrier_init, Arrival, serial_thread, waits_in, arrive, may_leave,
}

-- A thread inside pthread_barrier_wait: the phase that it saw, and how many rounds were complete at its arrival.
pub record Waiter : Type 0 where
  pub phase : ℕ
  pub round : ℕ

-- `arrived` counts the arrivals, and `rounds` the calls that answered PTHREAD_BARRIER_SERIAL_THREAD.
pub record State : Type 0 where
  pub barrier : Barrier
  pub arrived : ℕ
  pub rounds : ℕ
  pub waiters : List Waiter

abbrev pub arrived_as : Arrival × Barrier → State → State
arrived_as (serial_thread, b) s = record s {
  barrier = b;
  arrived = s.arrived + 1;
  rounds = s.rounds + 1;
}
arrived_as (waits_in phase, b) s = record s {
  barrier = b;
  arrived = s.arrived + 1;
  waiters = record { phase = phase; round = s.rounds } ∷ s.waiters;
}

-- A step of a thread: it arrives, or it leaves.
pub data Step (s : State) : State → Type 0 where
  comes : Step s (arrived_as (arrive s.barrier) s)
  leaves :
      (before : List Waiter) (w : Waiter) (after : List Waiter)
      → s.waiters ≡ before ++ w ∷ after
      → may_leave w.phase s.barrier ≡ true
      → Step s (record s { waiters = before ++ after })

pub data Reachable (count : ℕ) : State → Type 0 where
  start :
      (b : Barrier)
      → pthread_barrier_init count ≡ some b
      → Reachable count (record { barrier = b; arrived = 0; rounds = 0; waiters = [] })
  step : {s t : State} → Reachable count s → Step s t → Reachable count t

-- A waiter saw the phase of its round, and no round to come.
abbrev pub Placed : ℕ → Waiter → Type 0
Placed rounds w = (w.phase ≡ w.round % 2 ^ 32) × (w.round ≤ rounds)

abbrev pub Kept : ℕ → State → Type 0
Kept count s =
    (s.barrier.count ≡ count)
    × (s.barrier.waiting < count)
    × (s.barrier.phase ≡ s.rounds % 2 ^ 32)
    × (s.arrived ≡ s.rounds * count + s.barrier.waiting)
    × All (Placed s.rounds) s.waiters

next_round : (n : ℕ) (ws : List Waiter) → All (Placed n) ws → All (Placed (n + 1)) ws
next_round n [] h = h
next_round n (w ∷ ws) ((e, l), h) = ((e, omega arith), next_round n ws h)

others_stay :
    (n : ℕ) (before : List Waiter) (w : Waiter) (after : List Waiter)
    → All (Placed n) (before ++ w ∷ after)
    → All (Placed n) (before ++ after)
others_stay n [] w after (_, h) = h
others_stay n (x ∷ before) w after (p, h) = (p, others_stay n before w after h)

of_waiter :
    (n : ℕ) (before : List Waiter) (w : Waiter) (after : List Waiter)
    → All (Placed n) (before ++ w ∷ after)
    → Placed n w
of_waiter n [] w after (p, _) = p
of_waiter n (x ∷ before) w after (_, h) = of_waiter n before w after h

arrive-Kept :
    (count : ℕ) (s : State)
    → count < 2 ^ 32
    → Kept count s
    → Kept count (arrived_as (arrive s.barrier) s)
unfolding arrive
arrive-Kept count s l (c, w, p, a, h) =
    by_test ((s.barrier.waiting + 1) % 2 ^ 32 == s.barrier.count) refl
  where
    whole : s.barrier.waiting + 1 ≡ count → s.arrived + 1 ≡ (s.rounds + 1) * count + 0
    whole q = omega (arith, add-mul s.rounds 1 count)

    by_test :
        (x : Bool)
        → ((s.barrier.waiting + 1) % 2 ^ 32 == s.barrier.count) ≡ x
        → Kept count (
            arrived_as
              (if x
                then (
                  serial_thread,
                  record s.barrier { waiting = 0; phase = (s.barrier.phase + 1) % 2 ^ 32 },
                )
                else (
                  waits_in s.barrier.phase,
                  record s.barrier { waiting = (s.barrier.waiting + 1) % 2 ^ 32 },
                ))
              s)
    by_test true e =
        (c, omega arith, omega arith, whole (ground arith), next_round s.rounds s.waiters h)
    by_test false e = (c, ground arith, p, omega arith, ((p, omega arith), h))

step-Kept : (count : ℕ) (s t : State) → count < 2 ^ 32 → Step s t → Kept count s → Kept count t
step-Kept count s t l comes h = arrive-Kept count s l h
step-Kept count s t l (leaves before w after e m) (c, b, p, a, h) = (
  c,
  b,
  p,
  a,
  others_stay s.rounds before w after (subst (λ (ws : List Waiter). All (Placed s.rounds) ws) e h),
)

reachable-Kept : (count : ℕ) (s : State) → count < 2 ^ 32 → Reachable count s → Kept count s
unfolding pthread_barrier_init
reachable-Kept count s l (start b e) = ground arith
reachable-Kept count s l (step {s = r} reached move) =
    step-Kept count r s l move (reachable-Kept count r l reached)

-- In every state that threads reach from a barrier of `count`, a number that fits an unsigned: the arrivals are `count`
-- for each round complete and those that wait in this one, fewer than `count`.
pub reachable-arrived :
    (count : ℕ) (s : State)
    → count < 2 ^ 32
    → Reachable count s
    → (s.arrived ≡ s.rounds * count + s.barrier.waiting) × (s.barrier.waiting < count)
reachable-arrived count s l reached =
    let (_, b, p, a, h) = reachable-Kept count s l reached in (a, b)

-- In every state that threads reach from a barrier of `count`, a number that fits an unsigned: a thread that waits in
-- the barrier and may leave it arrived in a round that is complete, and there are at least `count` arrivals for that
-- round and each one before it, all together.
pub reachable-leaves :
    (count : ℕ) (s : State) (before : List Waiter) (w : Waiter) (after : List Waiter)
    → count < 2 ^ 32
    → Reachable count s
    → s.waiters ≡ before ++ w ∷ after
    → may_leave w.phase s.barrier ≡ true
    → (w.round < s.rounds) × ((w.round + 1) * count ≤ s.arrived)
unfolding may_leave
reachable-leaves count s before w after l reached e m =
    let (_, b, p, a, h) = reachable-Kept count s l reached in
    let (q, n) =
      of_waiter s.rounds before w after
        (subst (λ (ws : List Waiter). All (Placed s.rounds) ws) e h) in
    let early : w.round < s.rounds = ground arith in
    (early, omega (arith, mul-le-mul_right count early, a))

-- In such a state, a thread that is inside and arrived in a round that is complete may leave, unless 2 ^ 32 rounds or
-- more were completed from its own on: the phase that it saw is not that of the barrier.
pub leaves-reachable :
    (count : ℕ) (s : State) (before : List Waiter) (w : Waiter) (after : List Waiter)
    → count < 2 ^ 32
    → Reachable count s
    → s.waiters ≡ before ++ w ∷ after
    → w.round < s.rounds
    → s.rounds < w.round + 2 ^ 32
    → may_leave w.phase s.barrier ≡ true
unfolding may_leave
leaves-reachable count s before w after l reached e m n =
    let (_, b, p, a, h) = reachable-Kept count s l reached in
    let (q, k) =
      of_waiter s.rounds before w after
        (subst (λ (ws : List Waiter). All (Placed s.rounds) ws) e h) in
    let other : w.phase ≢ s.barrier.phase = λ u. omega arith in ground arith
