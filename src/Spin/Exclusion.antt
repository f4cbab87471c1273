-- ===== src/Spin/Exclusion.antt =====
-- src/pthread_spin.c: threads that share one lock, as a relation of steps.
use vlibc.Base.{
  ℕ, ◌≡◌, ◌⊎◌, inl, inr, refl, sym, ◌∙◌, Bool, true, false, Option, none, some, arith, ◌==◌,
  if◌then◌else◌, Bool-cases,
}
use vlibc.Spin.{Errno, pthread_spin_init, lock_round, pthread_spin_trylock, pthread_spin_unlock}

-- The word, and which threads have got the lock and not released it.
pub record State : Type 0 where
  pub locked : ℕ
  pub holds : ℕ → Bool

abbrev pub update : (ℕ → Bool) → ℕ → Bool → ℕ → Bool
update holds i b j = if j == i then b else holds j

-- The word after a call.
abbrev pub word : Option Errno × Option ℕ → ℕ → ℕ
word (e, none) locked = locked
word (e, some w) locked = w

abbrev pub succeeds : Option Errno × Option ℕ → Bool
succeeds (none, l) = true
succeeds (some e, l) = false

-- A step of thread `i`: a round of pthread_spin_lock, pthread_spin_trylock, or pthread_spin_unlock by a
-- thread that holds the lock.
pub data Step (s : State) : State → Type 0 where
  round :
      (i : ℕ)
      → s.holds i ≡ false
      → Step s (record {
        locked = (lock_round s.locked).1;
        holds = if (lock_round s.locked).0 then update s.holds i true else s.holds;
      })
  try :
      (i : ℕ)
      → s.holds i ≡ false
      → Step s (record {
        locked = word (pthread_spin_trylock (some s.locked)) s.locked;
        holds =
            if succeeds (pthread_spin_trylock (some s.locked))
            then update s.holds i true
            else s.holds;
      })
  unlock :
      (i : ℕ)
      → s.holds i ≡ true
      → Step s (record {
        locked = word (pthread_spin_unlock (some s.locked)) s.locked;
        holds = update s.holds i false;
      })

pub data Reachable : State → Type 0 where
  start :
      (garbage : ℕ)
      → Reachable
          (record { locked = word (pthread_spin_init (some garbage)) garbage; holds = λ i. false })
  after : {s t : State} → Reachable s → Step s t → Reachable t

-- The word is 0 and no thread holds the lock, or it is 1 and exactly one thread does.
abbrev pub Exclusive : State → Type 0
Exclusive s =
    ((s.locked ≡ 0) × ((i : ℕ) → s.holds i ≡ false))
    ⊎ ((i : ℕ) × (s.locked ≡ 1) × (s.holds i ≡ true) × ((j : ℕ) → s.holds j ≡ true → j ≡ i))

update-owner :
    (holds : ℕ → Bool) (i j : ℕ)
    → ((k : ℕ) → holds k ≡ false)
    → update holds i true j ≡ true
    → j ≡ i
update-owner holds i j none_holds h = ground (arith, none_holds j)

update_self : (holds : ℕ → Bool) (i : ℕ) (b : Bool) → update holds i b i ≡ b
update_self holds i b = ground arith

update-released :
    (holds : ℕ → Bool) (i j : ℕ) → (holds j ≡ true → j ≡ i) → update holds i false j ≡ false
update-released holds i j only = elim (Bool-cases (j == i)) [
  | inl e ↦ rw e refl
  | inr e ↦ ground (arith, only)
]

step-Exclusive : (s t : State) → Step s t → Exclusive s → Exclusive t
unfolding lock_round pthread_spin_trylock pthread_spin_unlock
step-Exclusive s t (round i idle) (inl (e, free)) =
    rw e (inr (i, refl, update_self s.holds i true, λ j. update-owner s.holds i j free))
step-Exclusive s t (round i idle) (inr (k, e, h, only)) = rw e (inr (k, refl, h, only))
step-Exclusive s t (try i idle) (inl (e, free)) =
    rw e (inr (i, refl, update_self s.holds i true, λ j. update-owner s.holds i j free))
step-Exclusive s t (try i idle) (inr (k, e, h, only)) = rw e (inr (k, refl, h, only))
step-Exclusive s t (unlock i mine) (inl (e, free)) =
    absurd (let m : false ≡ true = sym (free i) ∙ mine in cc)
step-Exclusive s t (unlock i mine) (inr (k, e, h, only)) =
    inl (refl, λ j. update-released s.holds i j (λ held. only j held ∙ sym (only i mine)))

-- In every state that threads reach from pthread_spin_init, by rounds of pthread_spin_lock, by
-- pthread_spin_trylock and by pthread_spin_unlock of a thread that holds the lock, either the word is 0 and
-- no thread holds the lock, or it is 1 and exactly one thread does.
pub reachable-Exclusive : (s : State) → Reachable s → Exclusive s
unfolding pthread_spin_init
reachable-Exclusive s (start garbage) = inl (refl, λ i. refl)
reachable-Exclusive t (after {s} r step) = step-Exclusive s t step (reachable-Exclusive s r)

-- Two threads that hold the lock in a reachable state are the same; and where none holds it, the next round
-- of pthread_spin_lock ends its loop.
pub reachable-lock_round :
    (s : State)
    → Reachable s
    → ((i j : ℕ) → s.holds i ≡ true → s.holds j ≡ true → i ≡ j)
      × (((i : ℕ) → s.holds i ≡ false) → (lock_round s.locked).0 ≡ true)
unfolding lock_round
reachable-lock_round s r = elim (reachable-Exclusive s r) [
  | inl (e, free) ↦
      (λ i j h k. absurd (let m : false ≡ true = sym (free i) ∙ h in cc), λ none_holds. rw e refl)
  | inr (k, e, h, only) ↦ (
    λ i j hi hj. only i hi ∙ sym (only j hj),
    λ none_holds. absurd (let m : false ≡ true = sym (none_holds k) ∙ h in cc),
  )
]
