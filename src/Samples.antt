-- ===== src/Samples.antt =====
-- Concrete runs: the theorems at small inputs.
pub mod Orders
pub mod Strings
pub mod Containers
pub mod Numbers
pub mod System
pub mod Memory
pub mod Text
pub mod Streams
pub mod Letters
pub mod Threads
use vlibc.Base.{ℕ, List, get_or}
use vlibc.Memory.{Mem}

-- A memory that holds the bytes from address 0 on.
abbrev pub holding : List ℕ → Mem
holding bytes q = get_or bytes q 0
