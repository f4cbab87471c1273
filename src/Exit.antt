-- ===== src/Exit.antt =====
-- src/atexit.c: the two tables of handlers. A table is the list of its entries in use, whose length is the
-- counter. A handler is of any type, and a run is the list of the handlers called, in their order.
pub mod Reversed
use vlibc.Base.{
  ℕ, zero, suc, Bool, List, [], ◌∷◌, ◌++◌, Option, none, some, leb, if◌then◌else◌, length,
  get_elem?,
}
use vlibc.Base.Int.{ℤ, pos, negsuc}

-- ATEXIT_MAX
abbrev pub atexit_max : ℕ
atexit_max = 32

module _ {ℓ} {F : Type ℓ} where
  unfoldable pub atexit : Option F → List F → ℤ × List F
  atexit none handlers = (negsuc 0, handlers)
  atexit (some fn) handlers =
      if leb atexit_max (length handlers)
      then (negsuc 0, handlers)
      else (pos 0, handlers ++ fn ∷ [])

  -- The body is that of `atexit`, over the other table.
  unfoldable pub at_quick_exit : Option F → List F → ℤ × List F
  at_quick_exit none quick_handlers = (negsuc 0, quick_handlers)
  at_quick_exit (some func) quick_handlers =
      if leb atexit_max (length quick_handlers)
      then (negsuc 0, quick_handlers)
      else (pos 0, quick_handlers ++ func ∷ [])

  -- `if (handlers[i]) handlers[i]();` before the rest of the run.
  unfoldable pub call_at : Option F → List F → List F
  call_at none rest = rest
  call_at (some h) rest = h ∷ rest

  -- `for (int i = n - 1; i >= 0; --i) if (handlers[i]) handlers[i]();`
  unfoldable pub run_down : ℕ → List F → List F
  unfolding call_at
  run_down zero handlers = []
  run_down (suc i) handlers = call_at (get_elem? handlers i) (run_down i handlers)

  unfoldable pub run_atexit : List F → List F
  unfolding run_down
  run_atexit handlers = run_down (length handlers) handlers

  -- What runs, and the status handed to _exit.
  unfoldable pub quick_exit : ℕ → List F → List F × ℕ
  unfolding run_down
  quick_exit status quick_handlers = (run_down (length quick_handlers) quick_handlers, status)
