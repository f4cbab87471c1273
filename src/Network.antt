-- ===== src/Network.antt =====
-- src/inet_ntop.c and src/inet_pton.c: addresses as text and back, by way of Printf and Strto. A text to read is the
-- list of its bytes, the buffer to write is in memory, and the byte order conversions are parameters. parse_ipv4 of
-- inet_pton.c is that of inet_aton.c, word for word.
pub mod Print
pub mod Parse
pub mod Room
pub mod Octets
pub mod Quad
pub mod Rounds
use vlibc.Base.{ℕ, List}

pub data Errno : Type 0 where
  einval enospc eafnosupport : Errno

-- The family and the address behind the pointer: `s_addr`, or the bytes of `s6_addr`.
pub data Address : Type 0 where
  inet : ℕ → Address
  inet6 : List ℕ → Address
  other : Address
