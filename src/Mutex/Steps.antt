-- ===== src/Mutex/Steps.antt =====
-- src/pthread.c: threads that lock and unlock a mutex, as a relation of steps.
use vlibc.Base.{
  ℕ, zero, suc, ◌≤◌, ◌<◌, ◌^◌, ◌≡◌, ◌≢◌, refl, sym, subst, ◌⊎◌, inl, inr, Bool, true, false, ◌==◌,
  if◌then◌else◌, arith,
}
use vlibc.Mutex.{
  Mutex, pthread_mutex_init, has_it, lock_again, lock_exchange, take_over, may_unlock, unlock_once,
  release,
}

-- Where a thread is: outside of the calls with the mutex locked so many times, in the loop of lock, behind the exchange
-- that got the lock, or in unlock before the release, with so many
-- calls of unlock still to make.
pub data Place : Type 0 where
  rests : ℕ → Place
  trying got : Place
  clearing : ℕ → Place

pub record State : Type 0 where
  pub words : Mutex
  pub place : ℕ → Place

abbrev pub put : ℕ → Place → (ℕ → Place) → ℕ → Place
put t p place u = if u == t then p else place u

abbrev pub moved : State → Mutex → ℕ → Place → State
moved s m t p = record { words = m; place = put t p s.place }

-- A step of the thread `t`. A thread that locks a mutex that is not recursive twice waits for ever, and a thread unlocks
-- only what it has locked. A thread that has the mutex locked 2 ^ 32 - 1 times does not lock it again: the code does not
-- check this, and `recursion` would wrap.
pub data Step (s : State) : State → Type 0 where
  again :
      (t n : ℕ)
      → 1 ≤ t
      → suc n < 2 ^ 32
      → s.place t ≡ rests n
      → has_it t s.words ≡ true
      → Step s (moved s (lock_again s.words) t (rests (suc n)))
  begin :
      (t : ℕ) → s.place t ≡ rests 0 → has_it t s.words ≡ false → Step s (moved s s.words t trying)
  get :
      (t : ℕ)
      → 1 ≤ t
      → s.place t ≡ trying
      → (lock_exchange s.words).0 ≡ true
      → Step s (moved s (lock_exchange s.words).1 t got)
  miss :
      (t : ℕ)
      → s.place t ≡ trying
      → (lock_exchange s.words).0 ≡ false
      → Step s (moved s (lock_exchange s.words).1 t trying)
  busy : (t : ℕ) → s.place t ≡ trying → Step s (moved s s.words t (rests 0))
  own : (t : ℕ) → s.place t ≡ got → Step s (moved s (take_over t s.words) t (rests 1))
  keep :
      (t n : ℕ)
      → s.place t ≡ rests (suc n)
      → may_unlock t s.words ≡ true
      → (unlock_once s.words).0 ≡ false
      → Step s (moved s (unlock_once s.words).1 t (rests n))
  let_go :
      (t n : ℕ)
      → s.place t ≡ rests (suc n)
      → may_unlock t s.words ≡ true
      → (unlock_once s.words).0 ≡ true
      → Step s (moved s (unlock_once s.words).1 t (clearing n))
  leave : (t n : ℕ) → s.place t ≡ clearing n → Step s (moved s (release s.words) t (rests n))

pub data Reachable (recursive : Bool) : State → Type 0 where
  start :
      Reachable recursive (record { words = pthread_mutex_init recursive; place = λ t. rests 0 })
  step : {s t : State} → Reachable recursive s → Step s t → Reachable recursive t

-- A place without the lock, and one with it.
abbrev pub Away : Place → Type 0
Away p = (p ≡ rests 0) ⊎ (p ≡ trying)

abbrev pub Holds : ℕ → Mutex → Place → Type 0
Holds t m (rests zero) = ⊥
Holds t m (rests (suc n)) =
    (m.owner ≡ t) × (m.recursion ≡ suc n) × ((m.recursive ≡ true) ⊎ (n ≡ 0)) × (suc n < 2 ^ 32)
Holds t m trying = ⊥
Holds t m got = m.owner ≡ 0
Holds t m (clearing n) = (m.owner ≡ 0) × (n ≡ 0)

abbrev pub Alone : ℕ → (ℕ → Place) → Type 0
Alone t place = (u : ℕ) → u ≢ t → Away (place u)

abbrev pub Free : State → Type 0
Free s = (s.words.locked ≡ 0) × (s.words.owner ≡ 0) × ((u : ℕ) → Away (s.place u))

abbrev pub Taken : ℕ → State → Type 0
Taken t s = (1 ≤ t) × (s.words.locked ≡ 1) × Alone t s.place × Holds t s.words (s.place t)

abbrev pub Kept : State → Type 0
Kept s = Free s ⊎ ((t : ℕ) × Taken t s)

pub put_self : (t : ℕ) (p : Place) (place : ℕ → Place) → put t p place t ≡ p
put_self t p place = let e : (t == t) ≡ true = ground arith in rw e refl

pub put_other : (t u : ℕ) (p : Place) (place : ℕ → Place) → u ≢ t → put t p place u ≡ place u
put_other t u p place d = let e : (u == t) ≡ false = ground arith in rw e refl

pub same_or_not : (t u : ℕ) → (t ≡ u) ⊎ (t ≢ u)
same_or_not t u = by_test (t == u) refl
  where
    by_test : (x : Bool) → (t == u) ≡ x → (t ≡ u) ⊎ (t ≢ u)
    by_test true e = inl (ground arith)
    by_test false e = inr (λ q. ground arith)

pub put-Alone : (t : ℕ) (p : Place) (place : ℕ → Place) → Alone t place → Alone t (put t p place)
put-Alone t p place a u d = subst Away (sym (put_other t u p place d)) (a u d)

-- A thread that is away before and after leaves the others as they are.
pub put-Away :
    (t u : ℕ) (p : Place) (place : ℕ → Place) → Away p → Away (place u) → Away (put t p place u)
put-Away t u p place h k = by_test (u == t)
  where
    by_test : (x : Bool) → Away (if x then p else place u)
    by_test true = h
    by_test false = k
