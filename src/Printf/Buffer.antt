-- ===== src/Printf/Buffer.antt =====
-- src/printf.c: out_char into a buffer of a size, and vsnprintf.
use vlibc.Base.{
  ℕ,
  zero,
  suc,
  ◌+◌,
  ◌-◌,
  ◌^◌,
  List,
  [],
  ◌∷◌,
  ◌++◌,
  Option,
  some,
  ltb,
  leb,
  if◌then◌else◌,
  length,
  ◌>>=◌,
  Int.{ℤ, pos},
}
use vlibc.Strto.{to_int}
use vlibc.Memory.{Mem, store}
use vlibc.Printf.Format.{Arg, format_loop}

-- The bytes at `str`, and `pos`.
pub record Output : Type 0 where
  pub mem : Mem
  pub position : ℕ

unfoldable pub out_char : ℕ → ℕ → ℕ → Output → Output
out_char dst size c k = record {
  mem = if ltb (k.position + 1) size then store k.mem (dst + k.position) c else k.mem;
  position = k.position + 1;
}

-- The NUL, and what is returned, `(int)pos`.
unfoldable pub terminate : ℕ → ℕ → Output → ℤ × Mem
terminate str zero k = (to_int (pos k.position), k.mem)
terminate str (suc n) k = (
  to_int (pos k.position),
  if leb (suc n) k.position then store k.mem (str + n) 0 else store k.mem (str + k.position) 0,
)

-- `none` where the call has no defined answer.
unfoldable pub vsnprintf : ℕ → ℕ → List ℕ → List Arg → Mem → Option (ℤ × Mem)
unfolding out_char terminate
vsnprintf str size fmt args m = do
  k ← format_loop (out_char str size) (length fmt + 1) fmt args (record { mem = m; position = 0 })
  some (terminate str size k)

-- The text that a format makes, with no buffer: out_char puts the byte behind those before it.
abbrev pub behind : ℕ → List ℕ → List ℕ
behind c s = s ++ c ∷ []

unfoldable pub formatted : List ℕ → List Arg → Option (List ℕ)
formatted fmt args = format_loop behind (length fmt + 1) fmt args []

-- The calls with `...` pass their arguments on.
unfoldable pub snprintf : ℕ → ℕ → List ℕ → List Arg → Mem → Option (ℤ × Mem)
unfolding vsnprintf
snprintf str size format args m = vsnprintf str size format args m

unfoldable pub vsprintf : ℕ → List ℕ → List Arg → Mem → Option (ℤ × Mem)
unfolding vsnprintf
vsprintf str format args m = vsnprintf str (2 ^ 64 - 1) format args m

unfoldable pub sprintf : ℕ → List ℕ → List Arg → Mem → Option (ℤ × Mem)
unfolding vsprintf
sprintf str format args m = vsprintf str format args m
