-- ===== src/Address.antt =====
-- src/inet_aton.c: parse_ipv4 and inet_aton, by way of strtol, and src/inet_addr.c. The text is a list of bytes, and the byte
-- order conversion htonl is a parameter. inet_ntoa is in Network/Print.
pub mod Dotted
use vlibc.Base.{
  ℕ, ◌+◌, ◌*◌, ◌^◌, Bool, true, false, ◌||◌, List, [], ◌∷◌, Option, none, some, leb, ◌==◌,
  if◌then◌else◌, ◌>>=◌,
}
use vlibc.Base.Int.{ℤ, pos, negsuc}
use vlibc.Strto.{Conv, strtol}

-- `a < 0 || a > 255` the other way round.
unfoldable pub in_byte : ℤ → Option ℕ
in_byte (pos n) = if leb n 255 then some n else none
in_byte (negsuc n) = none

-- `strtol(s, &end, 10)` and the test of its value.
unfoldable pub part : List ℕ → Option (ℕ × List ℕ)
unfolding in_byte
part s = let r = strtol s 10 in do n ← in_byte r.value; some (n, r.endptr)

-- `*end != '.'` and `s = end + 1`.
unfoldable pub behind_dot : List ℕ → Option (List ℕ)
behind_dot [] = none
behind_dot (c ∷ s) = if c == b'.' then some s else none

unfoldable pub at_end : List ℕ → Bool
at_end [] = true
at_end (c ∷ s) = c == b' ' || c == 9

unfoldable pub parse_ipv4 : List ℕ → Option ℕ
unfolding part behind_dot at_end
parse_ipv4 s = do
  (a, e) ← part s
  t ← behind_dot e
  (b, f) ← part t
  u ← behind_dot f
  (c, g) ← part u
  v ← behind_dot g
  (d, h) ← part v
  if at_end h then some (a * 2 ^ 24 + b * 2 ^ 16 + c * 2 ^ 8 + d) else none

-- `inp->s_addr` where inet_aton returns 1, `none` where it returns 0. A NULL `cp` is `none`.
unfoldable pub inet_aton : (ℕ → ℕ) → Option (List ℕ) → Option ℕ
unfolding parse_ipv4
inet_aton htonl none = none
inet_aton htonl (some cp) = do ip ← parse_ipv4 cp; some (htonl ip)

-- src/inet_addr.c. INADDR_NONE is 0xffffffff.
unfoldable pub inet_addr : (ℕ → ℕ) → Option (List ℕ) → ℕ
unfolding inet_aton
inet_addr htonl cp = elim (inet_aton htonl cp) [ none ↦ 0xffffffff | some s_addr ↦ s_addr ]
