-- ===== src/Lib.antt =====
-- vlibc is a small C library in one directory, src/ of the repository, with its headers in include/. This
-- library models those parts of it that are computation of their own rather than calls of the
-- kernel, and proves what they promise.
--
-- The parts and their files (a path is one of the repository):
--   Memory, Memory/Block   the byte store, and src/memory_ops.c: vmemset, vmemcpy, vmemmove, vmemcmp
--   CString                src/string.c: lengths, copies, comparison, strchr, strtok_r
--   StringExtra            src/string_extra.c: bounded copies, spans, strsep, searches
--   Strto                  src/strto.c: strtol, strtoul, strtoll, strtoull, strtoimax, strtoumax, atoi
--   Sort                   src/qsort.c: swap, qsort, qsort_r, bsearch
--   Tree                   src/search_tree.c: tsearch, tfind, tdelete, twalk
--   Hash                   src/search_hash.c: hcreate, hdestroy, hsearch
--   Time                   src/time_r.c and src/time_conv.c: gmtime_r, localtime_r, timegm, mktime
--   Vis                    src/vis.c: nvis, vis, unvis
--   Env                    src/env.c: getenv, setenv, putenv, unsetenv, clearenv
--   Rand                   src/rand.c and src/rand48.c: the integer generators
--   Exit                   src/atexit.c: atexit, at_quick_exit and the two runs
--   Address                src/inet_aton.c and src/inet_addr.c, by way of Strto
--   Printf                 src/printf.c: vsnprintf, snprintf, vsprintf, sprintf, vasprintf, asprintf
--   Network                src/inet_ntop.c and src/inet_pton.c, by way of Printf, Strto and Address
--   Fnmatch                src/fnmatch.c: the matcher of glob patterns
--   Getopt                 src/getopt.c, src/getopt_long.c, src/getopt_long_only.c, src/getsubopt.c
--   Stdio                  src/stdio.c and src/getline.c: streams on a descriptor, in memory or on a cookie
--   Wide                   src/wchar_conv.c, by way of Strto: multibyte and wide strings
--   Alloc                  src/memory.c as built with HAVE_SBRK, and strdup of src/string.c
--   Spin                   src/pthread_spin.c: the spin lock, with threads as a relation of steps
--   Rwlock                 src/pthread_rwlock.c: the read-write lock, by its atomic operations
--   Mutex                  src/pthread.c: the mutex, by its accesses to memory
--   Barrier                src/pthread_barrier.c: the barrier, a call as two steps under its mutex
--   Semaphore              src/semaphore.c: the counting semaphore, by its atomic operations
--   Path                   src/path.c: basename and dirname
-- Base has the shared names, tests, lists and integers, and Samples the concrete runs. A component
-- is a file with the definitions, under the names of the functions in C, and a folder with the proofs.
--
-- The routines of CString and StringExtra call those of Memory/Block, as the code does, over one store: a
-- function from addresses to bytes. A string in memory is a list of bytes that StrAt places at
-- an address. The components above them (Strto, Address, Vis, Env, Hash, Path, Fnmatch, Getopt) take a string as the
-- list of its bytes, and Wide of its characters; Printf and Network write their text into the store. State in statics (Env, Hash, Rand, Exit,
-- Getopt, Alloc) is a record or a list that a call takes and gives back.
--
-- Bounds. Addresses and sizes are natural numbers; no object reaches the end of the address space. long
-- is 64 bits wide and two's complement, and the wrap-around of the hash, the generators and the
-- conversions is written out as a remainder. Arithmetic on time_t does not overflow.
-- The words of the locks have 32 bits and wrap; a thread locks a mutex at most 2 ^ 32 - 1 times without an unlock, and
-- fewer than 2 ^ 32 readers are in the count of a read-write lock, as hypotheses of the relations of steps. A day number
-- is cast to int, and a date of a negative one is not modelled. printf casts the length of its text to int, and has no
-- answer where a width, a precision or the bytes of one directive pass what an int holds.
--
-- Fuel. The loops that a NUL ends recur on fuel; every theorem about them asks for more fuel than the
-- bytes of the string, and states that there is a result. All other loops count down a number that the
-- code has, or walk a list; the matcher, the format and the IPv6 parser have fuel by the length of their text
-- or the eight words of an address, the loops over a stream by the bytes wanted or to come, and mbsrtowcs by the bytes
-- of its text, and theorems that it is enough.
--
-- Outside Alloc and Stdio, malloc is a parameter: whether it answers (Tree, Hash, Path, Wide), or how many times it does
-- (Env). The answers of sbrk are parameters of Alloc, the byte order conversions of Address and Network, and the
-- conversions of the host of Wide. The comparison functions of Sort and Tree are parameters, with the order that
-- callers owe as a hypothesis. The locks (Spin, Mutex, Rwlock, Barrier, Semaphore) are the accesses of the code to
-- memory, one definition each, and a relation of steps in which any number of threads make them in any order.
--
-- What the kernel, the functions of a cookie and the allocator answer to a stream is in lists in its state, one entry a
-- call. A call on an empty list has no result, and so has one that does not return; the theorems of Stdio ask for as
-- many answers as the calls can need, and state that there is a result.
--
-- Not modelled: the allocator over mmap, formatted input and output to files, the opening of streams, the regular
-- expressions, conditions and the values of threads, wide text but for its conversions, floating point, and everything
-- that is a call of the kernel. crypt.c is a copy of the FreeSec library.
pub mod Base
pub mod Memory
pub mod CString
pub mod StringExtra
pub mod Strto
pub mod Sort
pub mod Tree
pub mod Time
pub mod Vis
pub mod Env
pub mod Hash
pub mod Rand
pub mod Exit
pub mod Path
pub mod Samples
pub mod Address
pub mod Spin
pub mod Alloc
pub mod Stdio
pub mod Wide
pub mod Fnmatch
pub mod Getopt
pub mod Printf
pub mod Rwlock
pub mod Mutex
pub mod Barrier
pub mod Semaphore
pub mod Network
