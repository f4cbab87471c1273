-- ===== src/Mutex/Owned.antt =====
-- src/pthread.c: at most one thread has the mutex.
use vlibc.Base.{
  ℕ, zero, suc, ◌≤◌, ◌<◌, ◌^◌, ◌≡◌, ◌≢◌, refl, sym, ap, ◌∙◌, subst, ◌⊎◌, inl, inr, Bool, true,
  false, arith,
}
use vlibc.Mutex.{
  Mutex, pthread_mutex_init, has_it, lock_again, lock_exchange, take_over, unlock_once, release,
}
use vlibc.Mutex.Steps.{
  Place, rests, trying, got, clearing, State, put, moved, Step, again, begin, get, miss, busy, own,
  keep, let_go, leave, Reachable, start, step, Away, Holds, Alone, Taken, Kept, put_self, put_other,
  same_or_not, put-Alone, put-Away,
}

with_lock : (t : ℕ) (m : Mutex) (p : Place) → Holds t m p → ¬ Away p
with_lock t m (rests zero) h a = h
with_lock t m (rests (suc n)) h (inl e) = absurd (ground arith)
with_lock t m (rests (suc n)) h (inr e) = absurd (ground arith)
with_lock t m trying h a = h
with_lock t m got h (inl e) = absurd (ground arith)
with_lock t m got h (inr e) = absurd (ground arith)
with_lock t m (clearing n) h (inl e) = absurd (ground arith)
with_lock t m (clearing n) h (inr e) = absurd (ground arith)

same_words :
    (t : ℕ) (m n : Mutex) (p : Place)
    → n.owner ≡ m.owner
    → n.recursion ≡ m.recursion
    → n.recursive ≡ m.recursive
    → Holds t m p
    → Holds t n p
same_words t m n (rests zero) e f g h = h
same_words t m n (rests (suc k)) e f g (a, b, inl c, l) = (e ∙ a, f ∙ b, inl (g ∙ c), l)
same_words t m n (rests (suc k)) e f g (a, b, inr c, l) = (e ∙ a, f ∙ b, inr c, l)
same_words t m n trying e f g h = h
same_words t m n got e f g h = e ∙ h
same_words t m n (clearing k) e f g (a, b) = (e ∙ a, b)

-- A step from one place without the lock to another, over words that stay.
move_without :
    (s : State) (m : Mutex) (t : ℕ) (p : Place)
    → Kept s
    → Away (s.place t)
    → Away p
    → m.locked ≡ s.words.locked
    → m.owner ≡ s.words.owner
    → m.recursion ≡ s.words.recursion
    → m.recursive ≡ s.words.recursive
    → Kept (moved s m t p)
move_without s m t p (inl (l, o, a)) h k e f g r =
    inl (e ∙ l, f ∙ o, λ u. put-Away t u p s.place k (a u))
move_without s m t p (inr (v, (one, l, a, b))) h k e f g r =
    let other : v ≢ t =
      λ q. with_lock v s.words (s.place v) b (subst (λ (x : ℕ). Away (s.place x)) (sym q) h) in
    inr (
      v,
      (
        one,
        e ∙ l,
        (λ u d. put-Away t u p s.place k (a u d)),
        subst (λ (x : Place). Holds v m x) (sym (put_other t v p s.place other))
            (same_words v s.words m (s.place v) f g r b),
      ),
    )

-- The thread that is at a place with the lock has it.
holder : (s : State) (t : ℕ) (p : Place) → Kept s → s.place t ≡ p → ¬ Away p → Taken t s
holder s t p (inl (l, o, a)) e n = absurd (n (subst Away e (a t)))
holder s t p (inr (v, (one, l, a, b))) e n = by_cases (same_or_not t v)
  where
    by_cases : (t ≡ v) ⊎ (t ≢ v) → Taken t s
    by_cases (inl q) = subst (λ (x : ℕ). Taken x s) (sym q) (one, l, a, b)
    by_cases (inr d) = absurd (n (subst Away e (a t d)))

move_with :
    (s : State) (m : Mutex) (t : ℕ) (p : Place)
    → Taken t s
    → m.locked ≡ 1
    → Holds t m p
    → Kept (moved s m t p)
move_with s m t p (one, l, a, b) e h = inr (
  t,
  (
    one,
    e,
    put-Alone t p s.place a,
    subst (λ (x : Place). Holds t m x) (sym (put_self t p s.place)) h,
  ),
)

locked_rests : (n : ℕ) → ¬ Away (rests (suc n))
locked_rests n (inl e) = absurd (ground arith)
locked_rests n (inr e) = absurd (ground arith)

got_has_lock : ¬ Away got
got_has_lock (inl e) = absurd (ground arith)
got_has_lock (inr e) = absurd (ground arith)

clearing_has_lock : (n : ℕ) → ¬ Away (clearing n)
clearing_has_lock n (inl e) = absurd (ground arith)
clearing_has_lock n (inr e) = absurd (ground arith)

abbrev depth : Place → ℕ
depth (rests n) = n
depth _ = 0

again-Kept :
    (s : State) (t n : ℕ)
    → 1 ≤ t
    → suc n < 2 ^ 32
    → s.place t ≡ rests n
    → has_it t s.words ≡ true
    → Kept s
    → Kept (moved s (lock_again s.words) t (rests (suc n)))
unfolding has_it lock_again
again-Kept s t n one fits e h (inl (l, o, a)) = absurd (ground arith)
again-Kept s t n one fits e h (inr (v, (z, l, a, b))) = by_place (s.place v) refl b
  where
    deeper :
        (k : ℕ)
        → t ≡ v
        → s.place v ≡ rests (suc k)
        → (s.words.owner ≡ v)
          × (s.words.recursion ≡ suc k)
          × ((s.words.recursive ≡ true) ⊎ (k ≡ 0))
          × (suc k < 2 ^ 32)
        → Kept (moved s (lock_again s.words) t (rests (suc n)))
    deeper k q f (x, y, _, _) =
        let r : n ≡ suc k = ap depth (sym e ∙ (ap s.place q ∙ f)) in
        move_with s (lock_again s.words) t (rests (suc n))
          (subst (λ (u : ℕ). Taken u s) (sym q) (z, l, a, b)) l
          (x ∙ sym q, omega arith, inl (ground arith), fits)

    by_place :
        (p : Place)
        → s.place v ≡ p
        → Holds v s.words p
        → Kept (moved s (lock_again s.words) t (rests (suc n)))
    by_place (rests zero) f x = elim x [ ]
    by_place (rests (suc k)) f x = deeper k (ground (arith, x.0)) f x
    by_place trying f x = elim x [ ]
    by_place got f x = absurd (ground arith)
    by_place (clearing k) f x = absurd (ground arith)

get-Kept :
    (s : State) (t : ℕ)
    → 1 ≤ t
    → s.place t ≡ trying
    → (lock_exchange s.words).0 ≡ true
    → Kept s
    → Kept (moved s (lock_exchange s.words).1 t got)
unfolding lock_exchange
get-Kept s t one e x (inl (l, o, a)) = inr (
  t,
  (
    one,
    refl,
    put-Alone t got s.place (λ u d. a u),
    subst (λ (q : Place). Holds t (record s.words { locked = 1 }) q) (sym (put_self t got s.place))
        o,
  ),
)
get-Kept s t one e x (inr (v, (z, l, a, b))) = absurd (ground arith)

miss-Kept :
    (s : State) (t : ℕ)
    → s.place t ≡ trying
    → (lock_exchange s.words).0 ≡ false
    → Kept s
    → Kept (moved s (lock_exchange s.words).1 t trying)
unfolding lock_exchange
miss-Kept s t e x (inl (l, o, a)) = absurd (ground arith)
miss-Kept s t e x (inr (v, k)) =
    move_without s (record s.words { locked = 1 }) t trying (inr (v, k)) (inr e) (inr refl)
      (sym k.1) refl refl refl

rests-Holds :
    (t n : ℕ) (m : Mutex)
    → 1 ≤ n
    → n < 2 ^ 32
    → (m.owner ≡ t) × (m.recursion ≡ n) × (m.recursive ≡ true)
    → Holds t m (rests n)
rests-Holds t zero m h l k = elim h [ ]
rests-Holds t (suc n) m h l (a, b, c) = (a, b, inl c, l)

keep-Kept :
    (s : State) (t n : ℕ)
    → s.place t ≡ rests (suc n)
    → (unlock_once s.words).0 ≡ false
    → Taken t s
    → Kept (moved s (unlock_once s.words).1 t (rests n))
unfolding unlock_once
keep-Kept s t n e x (one, l, a, b) =
    let (o, r, d, fits) = subst (λ (q : Place). Holds t s.words q) e b in
    let m = (unlock_once s.words).1 in
    let k : (m.locked ≡ s.words.locked)
        × (m.owner ≡ t)
        × (m.recursion ≡ n)
        × (1 ≤ n)
        × (m.recursive ≡ true) =
      ground arith in
    move_with s m t (rests n) (one, l, a, b) (k.0 ∙ l)
      (rests-Holds t n m k.3 (omega arith) (k.1, k.2, k.4))

let_go-Kept :
    (s : State) (t n : ℕ)
    → s.place t ≡ rests (suc n)
    → (unlock_once s.words).0 ≡ true
    → Taken t s
    → Kept (moved s (unlock_once s.words).1 t (clearing n))
unfolding unlock_once
let_go-Kept s t n e x (one, l, a, b) =
    let m = (unlock_once s.words).1 in
    let (o, r, d, fits) = subst (λ (q : Place). Holds t s.words q) e b in
    let k : (m.locked ≡ s.words.locked) × (m.owner ≡ 0) × (n ≡ 0) = ground arith in
    move_with s m t (clearing n) (one, l, a, b) (k.0 ∙ l) (k.1, k.2)

leave-Kept :
    (s : State) (t n : ℕ)
    → s.place t ≡ clearing n
    → Taken t s
    → Kept (moved s (release s.words) t (rests n))
unfolding release
leave-Kept s t n e (one, l, a, b) =
    let (o, z) = subst (λ (q : Place). Holds t s.words q) e b in
    inl (refl, o, (λ u. by_cases u (ap rests z) (same_or_not u t)))
  where
    by_cases : (u : ℕ) → rests n ≡ rests 0 → (u ≡ t) ⊎ (u ≢ t) → Away (put t (rests n) s.place u)
    by_cases u z (inl q) =
        subst (λ (v : ℕ). Away (put t (rests n) s.place v)) (sym q)
          (subst Away (sym (put_self t (rests n) s.place)) (inl z))
    by_cases u z (inr d) = put-Away t u (rests n) s.place (inl z) (a u d)

step-Kept : (s t : State) → Step s t → Kept s → Kept t
unfolding lock_exchange take_over
step-Kept s t (again u n one fits e h) k = again-Kept s u n one fits e h k
step-Kept s t (begin u e h) k =
    move_without s s.words u trying k (inl e) (inr refl) refl refl refl refl
step-Kept s t (get u one e h) k = get-Kept s u one e h k
step-Kept s t (miss u e h) k = miss-Kept s u e h k
step-Kept s t (busy u e) k =
    move_without s s.words u (rests 0) k (inr e) (inl refl) refl refl refl refl
step-Kept s t (own u e) k =
    let h = holder s u got k e got_has_lock in
    move_with s (take_over u s.words) u (rests 1) h h.1 (refl, refl, inr refl, omega arith)
step-Kept s t (keep u n e m x) k =
    keep-Kept s u n e x (holder s u (rests (suc n)) k e (locked_rests n))
step-Kept s t (let_go u n e m x) k =
    let_go-Kept s u n e x (holder s u (rests (suc n)) k e (locked_rests n))
step-Kept s t (leave u n e) k =
    leave-Kept s u n e (holder s u (clearing n) k e (clearing_has_lock n))

reachable-Kept : (recursive : Bool) (s : State) → Reachable recursive s → Kept s
unfolding pthread_mutex_init
reachable-Kept r s start = inl (refl, refl, (λ t. inl refl))
reachable-Kept r s (step {s = before} reached move) =
    step-Kept before s move (reachable-Kept r before reached)

-- In every state that threads reach from pthread_mutex_init, by lock, trylock and unlock, where each unlocks only what it
-- has locked, and none locks the mutex again that has it locked 2 ^ 32 - 1 times: two threads that have the mutex locked are the same one; the mutex names it as the owner, and counts as
-- many locks as it has.
pub reachable-Owned :
    (recursive : Bool) (s : State) (t u n k : ℕ)
    → Reachable recursive s
    → s.place t ≡ rests (suc n)
    → s.place u ≡ rests (suc k)
    → (t ≡ u) × (s.words.locked ≡ 1) × (s.words.owner ≡ t) × (s.words.recursion ≡ suc n)
reachable-Owned r s t u n k reached e f =
    let kept = reachable-Kept r s reached in
    let (one, l, a, b) = holder s t (rests (suc n)) kept e (locked_rests n) in
    let (o, c, d, fits) = subst (λ (q : Place). Holds t s.words q) e b in
    (same (same_or_not u t) a, l, o, c)
  where
    same : (u ≡ t) ⊎ (u ≢ t) → Alone t s.place → t ≡ u
    same (inl q) a = sym q
    same (inr d) a = absurd (locked_rests k (subst Away f (a u d)))
