-- ===== src/Exit/Reversed.antt =====
-- src/atexit.c: the handlers run in the reverse of the order of their registration.
use vlibc.Base.{
  ℕ, zero, suc, ◌+◌, ◌≡◌, refl, sym, ap, ◌∙◌, List, [], ◌∷◌, ◌++◌, Option, none, some, true, false,
  length-append, leb, length, get_elem?, take, arith, append_assoc, append-nil,
}
use vlibc.Exit.{atexit, at_quick_exit, call_at, run_down, run_atexit, quick_exit}

module _ {ℓ} {F : Type ℓ} where
  -- The handlers registered one after the other.
  unfoldable pub register : List F → List F → List F
  register [] handlers = handlers
  register (fn ∷ fns) handlers = register fns (atexit (some fn) handlers).1

  unfoldable pub backwards : List F → List F
  backwards [] = []
  backwards (x ∷ xs) = backwards xs ++ x ∷ []

  call_at-snoc :
      (o : Option F) (rest : List F) (x : F) → call_at o (rest ++ x ∷ []) ≡ call_at o rest ++ x ∷ []
  unfolding call_at
  call_at-snoc none rest x = refl
  call_at-snoc (some h) rest x = refl

  -- Without the first entry the loop does the same and then calls that entry.
  run_down-cons :
      (n : ℕ) (x : F) (xs : List F) → run_down (suc n) (x ∷ xs) ≡ run_down n xs ++ x ∷ []
  unfolding run_down call_at
  run_down-cons zero x xs = refl
  run_down-cons (suc n) x xs =
      ap (call_at (get_elem? xs n)) (run_down-cons n x xs)
      ∙ call_at-snoc (get_elem? xs n) (run_down n xs) x

  run_down-backwards : (xs : List F) → run_down (length xs) xs ≡ backwards xs
  unfolding backwards run_down
  run_down-backwards [] = refl
  run_down-backwards (x ∷ xs) =
      run_down-cons (length xs) x xs ∙ ap (λ r. r ++ x ∷ []) (run_down-backwards xs)

  register-take :
      (fns handlers : List F) (k : ℕ)
      → k + length handlers ≡ 32
      → register fns handlers ≡ handlers ++ take k fns
  unfolding register atexit
  register-take [] handlers zero e = sym (append-nil handlers)
  register-take [] handlers (suc k) e = sym (append-nil handlers)
  register-take (fn ∷ fns) handlers zero e =
      let full : leb 32 (length handlers) ≡ true = ground arith in
      rw full (register-take fns handlers zero e)
  register-take (fn ∷ fns) handlers (suc k) e =
      let room : leb 32 (length handlers) ≡ false = ground arith in
      rw room (
        register-take fns (handlers ++ fn ∷ []) k (omega (arith, length-append handlers (fn ∷ [])))
        ∙ append_assoc handlers (fn ∷ []) (take k fns))

  unfoldable pub register_quick : List F → List F → List F
  register_quick [] quick_handlers = quick_handlers
  register_quick (fn ∷ fns) quick_handlers =
      register_quick fns (at_quick_exit (some fn) quick_handlers).1

  register_quick-register :
      (fns handlers : List F) → register_quick fns handlers ≡ register fns handlers
  unfolding register_quick register atexit at_quick_exit
  register_quick-register [] handlers = refl
  register_quick-register (fn ∷ fns) handlers =
      register_quick-register fns (atexit (some fn) handlers).1

  -- After any registrations with atexit from the empty table, __run_atexit calls the first 32 of the
  -- handlers, the last of these first.
  pub run_atexit-register : (fns : List F) → run_atexit (register fns []) ≡ backwards (take 32 fns)
  unfolding run_atexit
  run_atexit-register fns =
      run_down-backwards (register fns []) ∙ ap backwards (register-take fns [] 32 (omega arith))

  -- After any registrations with at_quick_exit from the empty table, quick_exit calls the first 32 of the
  -- handlers, the last of these first, and passes its status on.
  pub quick_exit-register :
      (status : ℕ) (fns : List F)
      → quick_exit status (register_quick fns []) ≡ (backwards (take 32 fns), status)
  unfolding quick_exit run_atexit
  quick_exit-register status fns =
      ap (λ t. (run_atexit t, status)) (register_quick-register fns [])
      ∙ ap (λ r. (r, status)) (run_atexit-register fns)
