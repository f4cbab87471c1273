-- ===== src/Network/Print.antt =====
-- src/inet_ntop.c: hex16 and inet_ntop.
use vlibc.Base.{
  ℕ,
  zero,
  suc,
  ◌+◌,
  ◌-◌,
  ◌*◌,
  ◌/◌,
  ◌%◌,
  ◌^◌,
  Bool,
  false,
  not,
  ◌&&◌,
  ◌||◌,
  List,
  [],
  ◌∷◌,
  ◌++◌,
  Option,
  none,
  some,
  ltb,
  ◌==◌,
  if◌then◌else◌,
  drop,
  Int.{ℤ, pos},
}
use vlibc.Memory.{Mem}
use vlibc.Printf.Format.{Arg, integer, string}
use vlibc.Printf.Buffer.{snprintf}
use vlibc.Network.{Address, inet, inet6, other, Errno, einval, enospc, eafnosupport}

abbrev pub hex_digit : ℕ → ℕ
hex_digit d = if ltb d 10 then b'0' + d else b'a' + d - 10

-- The loop of hex16 over the digits still to come, and `started`; the bytes are put behind `buf`.
unfoldable pub hex_loop : List ℕ → Bool → List ℕ → List ℕ
hex_loop [] started buf = buf
hex_loop (d ∷ []) started buf = buf ++ hex_digit d ∷ []
hex_loop (d ∷ e ∷ more) started buf =
    let shown = not (d == 0) || started in
    hex_loop (e ∷ more) shown (if shown then buf ++ hex_digit d ∷ [] else buf)

-- `(val >> i) & 0xF` for i = 12, 8, 4, 0.
unfoldable pub hex16 : List ℕ → ℕ → List ℕ
unfolding hex_loop
hex16 buf val =
    hex_loop (val / 2 ^ 12 % 16 ∷ val / 2 ^ 8 % 16 ∷ val / 2 ^ 4 % 16 ∷ val % 16 ∷ []) false buf

-- The longest run of zero words so far and the one at hand; a base of -1 is `none`.
pub record Runs : Type 0 where
  pub best_base : Option ℕ
  pub best_len : ℕ
  pub cur_base : Option ℕ
  pub cur_len : ℕ

abbrev pub run_begun : Option ℕ → ℕ → ℕ → Runs → Runs
run_begun none i len r = record {
  best_base = r.best_base;
  best_len = r.best_len;
  cur_base = some i;
  cur_len = 1;
}
run_begun (some b) i len r = record {
  best_base = r.best_base;
  best_len = r.best_len;
  cur_base = some b;
  cur_len = len + 1;
}

-- `cur_len > best_len` behind a run.
abbrev pub run_ended : Option ℕ → Runs → Runs
run_ended none r = r
run_ended (some b) r =
    if ltb r.best_len r.cur_len
    then record { best_base = some b; best_len = r.cur_len; cur_base = none; cur_len = 0 }
    else record { best_base = r.best_base; best_len = r.best_len; cur_base = none; cur_len = 0 }

unfoldable pub find_runs : List ℕ → ℕ → Runs → Runs
find_runs [] i r = run_ended r.cur_base r
find_runs (w ∷ words) i r =
    find_runs words (i + 1)
      (if w == 0 then run_begun r.cur_base i r.cur_len r else run_ended r.cur_base r)

-- `best_base` and `best_len`, with no base for a run of one word.
unfoldable pub best_run : List ℕ → Option ℕ × ℕ
unfolding find_runs
best_run words =
    let r =
      find_runs words 0 (record { best_base = none; best_len = 0; cur_base = none; cur_len = 0 }) in
    (if ltb r.best_len 2 then none else r.best_base, r.best_len)

abbrev pub is_at : Option ℕ → ℕ → Bool
is_at none i = false
is_at (some b) i = b == i

-- `p[-1] != ':'`
abbrev pub ends_in_colon : List ℕ → Bool
ends_in_colon [] = false
ends_in_colon (c ∷ []) = c == b':'
ends_in_colon (c ∷ d ∷ s) = ends_in_colon (d ∷ s)

-- One word: a colon before it where none stands, and its digits.
abbrev pub put_word : ℕ → ℕ → List ℕ → List ℕ
put_word i w buf =
    hex16 (if not (i == 0) && not (ends_in_colon buf) then buf ++ b':' ∷ [] else buf) w

-- The loop over the words, of which `words` are left from the index `i` on; at most `f` rounds.
unfoldable pub print_words : Option ℕ → ℕ → ℕ → ℕ → List ℕ → List ℕ → List ℕ
unfolding hex16
print_words base len zero i words buf = buf
print_words base len (suc f) i [] buf = buf
print_words base len (suc f) i (w ∷ words) buf =
    let here = is_at base i in
    print_words base len f (if here then i + len else i + 1)
      (if here then drop (len - 1) words else words)
      (if here then buf ++ b':' ∷ b':' ∷ [] else put_word i w buf)

abbrev pub ends_at_8 : Option ℕ → ℕ → Bool
ends_at_8 none len = false
ends_at_8 (some b) len = b + len == 8

-- `buf` for the words of an address.
unfoldable pub ipv6_text : List ℕ → List ℕ
unfolding best_run print_words
ipv6_text words =
    let (base, len) = best_run words in
    let buf = print_words base len 8 0 words [] in
    if ends_at_8 base len then buf ++ b':' ∷ [] else buf

abbrev pub words_of : List ℕ → List ℕ
words_of [] = []
words_of (a ∷ []) = []
words_of (a ∷ b ∷ bytes) = (a * 2 ^ 8 + b) ∷ words_of bytes

-- errno, or the bytes in memory; `unanswered` where the call of snprintf has no defined answer.
pub data Result : Type 0 where
  failed : Errno → Result
  written : Mem → Result
  unanswered : Result

abbrev pub result_of : Option (ℤ × Mem) → Result
result_of none = unanswered
result_of (some (r, m)) = written m

-- "%u.%u.%u.%u" and "%s"
abbrev pub dotted_format : List ℕ
dotted_format = b'%' ∷ b'u' ∷ b'.' ∷ b'%' ∷ b'u' ∷ b'.' ∷ b'%' ∷ b'u' ∷ b'.' ∷ b'%' ∷ b'u' ∷ []

abbrev pub text_format : List ℕ
text_format = b'%' ∷ b's' ∷ []

abbrev pub quad : ℕ → List Arg
quad addr =
    integer (pos (addr / 2 ^ 24 % 256))
    ∷ integer (pos (addr / 2 ^ 16 % 256))
    ∷ integer (pos (addr / 2 ^ 8 % 256))
    ∷ integer (pos (addr % 256))
    ∷ []

-- `af == AF_INET`, with `src` not NULL and `size` not 0; INET_ADDRSTRLEN is 16.
unfoldable pub inet_ntop_4 : (ℕ → ℕ) → ℕ → ℕ → ℕ → Mem → Result
unfolding snprintf
inet_ntop_4 ntohl s_addr dst size m =
    if ltb size 16
    then failed enospc
    else result_of (snprintf dst size dotted_format (quad (ntohl s_addr)) m)

-- `af == AF_INET6`; INET6_ADDRSTRLEN is 46.
unfoldable pub inet_ntop_6 : List ℕ → ℕ → ℕ → Mem → Result
unfolding snprintf ipv6_text
inet_ntop_6 s6_addr dst size m =
    if ltb size 46
    then failed enospc
    else result_of
        (snprintf dst size text_format (string (some (ipv6_text (words_of s6_addr))) ∷ []) m)

unfoldable pub inet_ntop_to : (ℕ → ℕ) → Address → ℕ → ℕ → Mem → Result
unfolding inet_ntop_4 inet_ntop_6
inet_ntop_to ntohl (inet s_addr) dst size m = inet_ntop_4 ntohl s_addr dst size m
inet_ntop_to ntohl (inet6 s6_addr) dst size m = inet_ntop_6 s6_addr dst size m
inet_ntop_to ntohl other dst size m = failed eafnosupport

-- A pointer that is NULL is `none`.
unfoldable pub inet_ntop : (ℕ → ℕ) → Option Address → Option ℕ → ℕ → Mem → Result
unfolding inet_ntop_to
inet_ntop ntohl (some src) (some dst) size m =
    if size == 0 then failed einval else inet_ntop_to ntohl src dst size m
inet_ntop ntohl _ _ size m = failed einval

-- inet_ntoa of src/inet_aton.c, with its static buffer at `buf`.
unfoldable pub inet_ntoa : (ℕ → ℕ) → ℕ → ℕ → Mem → Result
unfolding snprintf
inet_ntoa ntohl s_addr buf m = result_of (snprintf buf 16 dotted_format (quad (ntohl s_addr)) m)
