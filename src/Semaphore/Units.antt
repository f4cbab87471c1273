-- ===== src/Semaphore/Units.antt =====
-- src/semaphore.c: no unit is lost and none is taken twice.
use vlibc.Base.{ℕ, ◌+◌, ◌^◌, ◌≤◌, ◌<◌, ◌≡◌, true, ltb, List, [], ◌∷◌, ◌++◌, some, arith}
use vlibc.Semaphore.{sem_init, is_up, take_unit, post_unit}

-- `looked` has what the threads inside sem_wait and sem_trywait loaded and not yet tried to take; `taken` counts the
-- calls that took a unit, and `posts` those of sem_post.
pub record State : Type 0 where
  pub count : ℕ
  pub looked : List ℕ
  pub taken : ℕ
  pub posts : ℕ

pub data Step (s : State) : State → Type 0 where
  look : Step s (record s { looked = s.count ∷ s.looked })
  take_one :
      (before : List ℕ) (val : ℕ) (after : List ℕ) (left : ℕ)
      → s.looked ≡ before ++ val ∷ after
      → is_up val ≡ true
      → take_unit val s.count ≡ some left
      → Step s (record s { count = left; looked = before ++ after; taken = s.taken + 1 })
  give_up :
      (before : List ℕ) (val : ℕ) (after : List ℕ)
      → s.looked ≡ before ++ val ∷ after
      → Step s (record s { looked = before ++ after })
  post : Step s (record s { count = post_unit s.count; posts = s.posts + 1 })

pub data Reachable (value : ℕ) : State → Type 0 where
  start : Reachable value (record { count = sem_init value; looked = []; taken = 0; posts = 0 })
  step : {s t : State} → Reachable value s → Step s t → Reachable value t

-- The units are those that can be taken and those that were.
abbrev pub Kept : ℕ → State → Type 0
Kept value s = value + s.posts < 2 ^ 31 → s.count + s.taken ≡ value + s.posts

take_one-Kept :
    (value count taken posts val left : ℕ)
    → count + taken ≡ value + posts
    → is_up val ≡ true
    → take_unit val count ≡ some left
    → left + (taken + 1) ≡ value + posts
unfolding is_up take_unit
take_one-Kept value count taken posts val left h u e = ground arith

step-Kept : (value : ℕ) (s t : State) → Step s t → Kept value s → Kept value t
unfolding post_unit
step-Kept value s t look h l = h l
step-Kept value s t (take_one before val after left e u k) h l =
    take_one-Kept value s.count s.taken s.posts val left (h l) u k
step-Kept value s t (give_up before val after e) h l = h l
step-Kept value s t post h l = omega (arith, h (omega arith))

reachable-Kept : (value : ℕ) (s : State) → Reachable value s → Kept value s
unfolding sem_init
reachable-Kept value s start = λ l. omega arith
reachable-Kept value s (step {s = r} reached move) =
    step-Kept value r s move (reachable-Kept value r reached)

-- In every state that threads reach from sem_init with `value`, as long as the units given and posted fit an int: the
-- calls that took a unit and the count make up all of them, so that no more calls took one than there were; and a load
-- finds the count above zero exactly if there is a unit that no call has taken.
pub reachable-is_up :
    (value : ℕ) (s : State)
    → Reachable value s
    → value + s.posts < 2 ^ 31
    → (s.count + s.taken ≡ value + s.posts)
      × (s.taken ≤ value + s.posts)
      × (is_up s.count ≡ ltb s.taken (value + s.posts))
unfolding is_up
reachable-is_up value s reached l =
    let e = reachable-Kept value s reached l in (e, omega (arith, e), ground (arith, e))
