-- ===== src/CString.antt =====
-- src/string.c over the byte store. A `while` loop that a byte in memory ends takes fuel, and
-- `none` is fuel that ran out; a loop that also counts `n` down recurs on `n`.
-- `strdup` is not here: it calls the allocator.
pub mod Length
pub mod Copy
pub mod Compare
pub mod Token
use vlibc.Base.{
  ℕ, zero, suc, ◌+◌, ◌-◌, ◌^◌, Bool, true, false, not, ◌&&◌, Option, none, some, ◌==◌,
  if◌then◌else◌, ◌>>=◌,
}
use vlibc.Base.Int.{ℤ, pos, sub_ℕ}
use vlibc.Memory.{Mem, store}
use vlibc.Memory.Block.{uchar}

-- `while (*p) p++;`
unfoldable pub scan_end : ℕ → ℕ → Mem → Option ℕ
scan_end zero p m = none
scan_end (suc f) p m = let rest = scan_end f (p + 1) m in if m p == 0 then some p else rest

pub vstrlen : ℕ → ℕ → Mem → Option ℕ
vstrlen f s m = do p ← scan_end f s m; some (p - s)

-- `while (maxlen-- && *p) p++;`
strnlen_loop : ℕ → ℕ → Mem → ℕ
strnlen_loop zero p m = p
strnlen_loop (suc n) p m = let rest = strnlen_loop n (p + 1) m in if m p == 0 then p else rest

pub strnlen : ℕ → ℕ → Mem → ℕ
strnlen s maxlen m = strnlen_loop maxlen s m - s

-- `while (*src) *d++ = *src++;  *d = '\0';`
copy_str : ℕ → ℕ → ℕ → Mem → Option Mem
copy_str zero d src m = none
copy_str (suc f) d src m =
    let rest = copy_str f (d + 1) (src + 1) (store m d (m src)) in
    if m src == 0 then some (store m d 0) else rest

pub vstrcpy : ℕ → ℕ → ℕ → Mem → Option (ℕ × Mem)
vstrcpy f dest src m = do m' ← copy_str f dest src m; some (dest, m')

unfoldable pub vstrncmp : ℕ → ℕ → ℕ → Mem → ℤ
vstrncmp s1 s2 zero m = pos 0
vstrncmp s1 s2 (suc n) m =
    let rest = vstrncmp (s1 + 1) (s2 + 1) n m in
    if not (m s1 == m s2) then sub_ℕ (m s1) (m s2) else if m s1 == 0 then pos 0 else rest

-- `(size_t)-1`
unfoldable pub size_max : ℕ
size_max = 2 ^ 64 - 1

unfoldable pub strcmp : ℕ → ℕ → Mem → ℤ
strcmp s1 s2 m = vstrncmp s1 s2 size_max m

-- The loop of `strchr`, and the test behind it; the inner `none` is NULL.
strchr_loop : ℕ → ℕ → ℕ → Mem → Option (Option ℕ)
strchr_loop zero s ch m = none
strchr_loop (suc f) s ch m =
    let rest = strchr_loop f (s + 1) ch m in
    if m s == 0
    then (if ch == 0 then some (some s) else some none)
    else if m s == ch
    then some (some s)
    else rest

unfoldable pub strchr : ℕ → ℕ → ℕ → Mem → Option (Option ℕ)
unfolding strchr_loop
strchr f s c m = strchr_loop f s (uchar c) m

-- The first loop of `strncpy`: where it stops, what is left of `n`, and the memory.
strncpy_loop : ℕ → ℕ → ℕ → Mem → ℕ × ℕ × Mem
strncpy_loop zero d src m = (d, 0, m)
strncpy_loop (suc n) d src m =
    let rest = strncpy_loop n (d + 1) (src + 1) (store m d (m src)) in
    if m src == 0 then (d, suc n, m) else rest

-- `while (n--) *d++ = '\0';`
zero_fill : ℕ → ℕ → Mem → Mem
zero_fill zero d m = m
zero_fill (suc n) d m = zero_fill n (d + 1) (store m d 0)

pub strncpy : ℕ → ℕ → ℕ → Mem → ℕ × Mem
strncpy dest src n m = let (d, left, m') = strncpy_loop n dest src m in (dest, zero_fill left d m')

pub strcat : ℕ → ℕ → ℕ → Mem → Option (ℕ × Mem)
strcat f dest src m = do d ← scan_end f dest m; m' ← copy_str f d src m; some (dest, m')

-- `while (n-- && *src) *d++ = *src++;  *d = '\0';`
copy_at_most : ℕ → ℕ → ℕ → Mem → Mem
copy_at_most zero d src m = store m d 0
copy_at_most (suc n) d src m =
    let rest = copy_at_most n (d + 1) (src + 1) (store m d (m src)) in
    if m src == 0 then store m d 0 else rest

pub strncat : ℕ → ℕ → ℕ → ℕ → Mem → Option (ℕ × Mem)
strncat f dest src n m = do d ← scan_end f dest m; some (dest, copy_at_most n d src m)

-- `strchr(delim, c)` as a condition.
is_delim : ℕ → ℕ → ℕ → Mem → Option Bool
is_delim f delim c m = do r ← strchr f delim c m; some (elim r [ none ↦ false | some _ ↦ true ])

-- `while (*s && strchr(delim, *s)) s++;` if `skip`, and `while (*s && !strchr(delim, *s)) s++;` if not.
run_of : Bool → ℕ → ℕ → ℕ → Mem → Option ℕ
run_of skip zero s delim m = none
run_of skip (suc f) s delim m =
    let rest = run_of skip f (s + 1) delim m in
    if m s == 0
    then some s
    else is_delim (suc f) delim (m s) m >>= λ d.
        if (if skip then d else not d) then rest else some s

-- What `saveptr` points to; the outer `none` is a NULL `saveptr`.
abbrev pub Slot : Type 0
Slot = Option (Option ℕ)

save : Slot → Option ℕ → Slot
save none v = none
save (some _) v = some v

-- From `char *token = s;` on.
cut_token : ℕ → ℕ → ℕ → Slot → Mem → Option (Option ℕ × Slot × Mem)
cut_token f token delim slot m = do
  s ← run_of false f token delim m
  if m s == 0
      then some (some token, save slot none, m)
      else some (some token, save slot (some (s + 1)), store m s 0)

tokenize : ℕ → ℕ → ℕ → Slot → Mem → Option (Option ℕ × Slot × Mem)
tokenize f str delim slot m = do
  token ← run_of true f str delim m
  if m token == 0 then some (none, save slot none, m) else cut_token f token delim slot m

pub strtok_r : ℕ → Option ℕ → ℕ → Slot → Mem → Option (Option ℕ × Slot × Mem)
strtok_r f (some str) delim slot m = tokenize f str delim slot m
strtok_r f none delim (some (some s)) m = tokenize f s delim (some (some s)) m
strtok_r f none delim slot m = some (none, slot, m)

-- The static `strtok_static` is the state.
pub strtok : ℕ → Option ℕ → ℕ → Option ℕ → Mem → Option (Option ℕ × Slot × Mem)
strtok f str delim strtok_static m = strtok_r f str delim (some strtok_static) m
