-- ===== src/Stdio.antt =====
-- src/stdio.c: streams on a descriptor, in memory or on a cookie. Of the buffer, the first buflen bytes are a list
-- `buf`; the code never reads the others. What the kernel, a cookie's functions and the allocator answer
-- to the calls to come are lists in the state, so that every run of partial transfers, interrupts and failures is
-- an initial state; a call whose list runs out is `none`, as one that does not return. The wide memory streams
-- (is_wmem) are not here.
pub mod Output
pub mod Input
pub mod Place
pub mod Delim
use vlibc.Base.{
  ℕ, zero, suc, ◌+◌, ◌-◌, ◌*◌, Bool, true, false, not, ◌&&◌, ◌||◌, List, [], ◌∷◌, ◌++◌, Option,
  none, some, ltb, leb, ◌==◌, if◌then◌else◌, length, take, drop, min,
}

pub data Kind : Type 0 where
  descriptor memory cookie : Kind

pub data Buffering : Type 0 where
  unbuffered by_line full : Buffering

-- What write or cookie_write answers: bytes taken, -1 with EINTR or EAGAIN, or -1 with another errno.
pub data Reply : Type 0 where
  wrote : ℕ → Reply
  interrupted failed : Reply

-- What read or cookie_read answers: no more than so many bytes of those that are left, or -1.
pub data Answer : Type 0 where
  up_to : ℕ → Answer
  refused : Answer

-- `has_buf` is `buf != NULL`, `ungot` is ungot_char if have_ungot, `shown` is what *mem_bufp and *mem_sizep tell of,
-- and `has_read`, `has_write` and `has_seek` are whether the cookie has the function. `sent` and `source` are the bytes
-- behind the descriptor or the cookie: those that it took, and those that it has left to give. What lseek or
-- cookie_seek answers has the position and the bytes to read from there.
pub record File : Type 0 where
  pub kind : Kind
  pub has_buf : Bool
  pub buf : List ℕ
  pub bufsize : ℕ
  pub bufpos : ℕ
  pub buf_mode : Buffering
  pub eof : Bool
  pub error : Bool
  pub ungot : Option ℕ
  pub shown : Option (List ℕ)
  pub has_read : Bool
  pub has_write : Bool
  pub has_seek : Bool
  pub sent : List ℕ
  pub source : List ℕ
  pub replies : List Reply
  pub answers : List Answer
  pub seeks : List (Option (ℕ × List ℕ))
  pub syncs : List Bool
  pub allocs : List Bool

abbrev pub is_none_left : List ℕ → Bool
is_none_left [] = true
is_none_left (c ∷ s) = false

abbrev pub is_cookie : Kind → Bool
is_cookie cookie = true
is_cookie _ = false
