-- ===== src/Env.antt =====
-- src/env.c: the environment list, who owns its strings, and getenv, setenv, putenv, unsetenv and
-- clearenv. A string is the list of its bytes before the NUL, with the mark whether malloc made it; a
-- call's `budget` is the number of its mallocs that succeed. What is freed is recorded, so that freeing
-- a string of the caller's shows.
pub mod Lookup
pub mod Update
pub mod Owner
use vlibc.Base.{
  ℕ, zero, suc, ◌+◌, ◌-◌, Bool, true, false, not, ◌&&◌, ◌||◌, List, [], ◌∷◌, ◌++◌, Option, none,
  some, ◌==◌, if◌then◌else◌, ◌>>=◌, length, get_or, get_elem?, set, take, replicate,
}

pub record Entry : Type 0 where
  pub text : List ℕ
  pub allocated : Bool

-- The statics `environ`, `environ_owned` and `environ_flags`. The flags are as many as the entries.
pub record Env : Type 0 where
  pub environ : Option (List Entry)
  pub owned : Bool
  pub flags : List Bool

pub data Errno : Type 0 where
  einval enomem : Errno

-- The environment after a call, whether it returned 0 (else -1), errno if set, and what it freed.
pub record Outcome : Type 0 where
  pub env : Env
  pub success : Bool
  pub errno : Option Errno
  pub freed : List Entry

unfoldable pub env_init : Option (List Entry) → Env
env_init envp = record { environ = envp; owned = false; flags = [] }

-- `strncmp(e, name, len) == 0 && e[len] == '='`, and the text behind the `=`.
unfoldable pub value_of : List ℕ → List ℕ → Option (List ℕ)
value_of [] [] = none
value_of [] (c ∷ e) = if c == b'=' then some e else none
value_of (n ∷ name) [] = none
value_of (n ∷ name) (c ∷ e) = if c == n then value_of name e else none

abbrev pub is_some {ℓ} : {A : Type ℓ} → Option A → Bool
is_some none = false
is_some (some _) = true

unfoldable pub search_env : List ℕ → List Entry → Option (List ℕ)
search_env name [] = none
search_env name (e ∷ es) =
    if is_some (value_of name e.text) then value_of name e.text else search_env name es

abbrev pub entries : Env → List Entry
entries s = elim s.environ [ none ↦ [] | some es ↦ es ]

unfoldable pub getenv : Option (List ℕ) → Env → Option (List ℕ)
getenv none s = none
getenv (some name) s = elim s.environ [ none ↦ none | some es ↦ search_env name es ]

unfoldable pub index_of : List ℕ → List Entry → Option ℕ
index_of name [] = none
index_of name (e ∷ es) =
    if is_some (value_of name e.text) then some 0 else do i ← index_of name es; some (suc i)

unfoldable pub find_env_index : List ℕ → Env → Option ℕ
unfolding index_of
find_env_index name s = elim s.environ [ none ↦ none | some es ↦ index_of name es ]

-- `strchr(name, '=')` as a condition.
unfoldable pub has_equals : List ℕ → Bool
has_equals [] = false
has_equals (c ∷ s) = c == b'=' || has_equals s

abbrev pub tail_flags : List Bool → List Bool
tail_flags [] = []
tail_flags (f ∷ fs) = fs

-- The new entries, or what the error path frees when a strdup fails: every new entry so far, since
-- the new flag of each is set, those that the old environment keeps included.
pub data Copy : Type 0 where
  done : List Entry → Copy
  failed : List Entry → Copy

abbrev pub behind : Entry → Copy → Copy
behind e (done es) = done (e ∷ es)
behind e (failed es) = failed (e ∷ es)

-- The copying loop: entries whose flag is set are kept, others duplicated.
unfoldable pub copy_entries : ℕ → Bool → List Bool → List Entry → Copy
copy_entries budget owned flags [] = done []
copy_entries budget owned flags (e ∷ es) =
    let kept = copy_entries budget owned (tail_flags flags) es in
    let copied = copy_entries (budget - 1) owned (tail_flags flags) es in
    if owned && get_or flags 0 false
    then behind e kept
    else if budget == 0
    then failed []
    else behind (record { text = e.text; allocated = true }) copied

-- From the comment "count items" on: a new array with `entry` behind the old entries. `on_error` is what
-- the error path frees of its own; at a failing strdup it frees the entries in the new array as well, those taken over
-- from the old one included, which still stand in environ.
unfoldable pub append_entry : ℕ → Env → Entry → Bool → List Entry → Outcome
append_entry budget s entry flag on_error =
    if budget == 0 || budget == 1
    then record { env = s; success = false; errno = some enomem; freed = on_error }
    else elim (copy_entries (budget - 2) s.owned s.flags (entries s)) [
      | failed es ↦ record { env = s; success = false; errno = some enomem; freed = es ++ on_error }
      | done es ↦ record {
        env = record {
          environ = some (es ++ entry ∷ []);
          owned = true;
          flags = replicate (length es) true ++ flag ∷ [];
        };
        success = true;
        errno = none;
        freed = [];
      }
    ]

abbrev pub get_entry : List Entry → ℕ → Entry
get_entry es i = get_or es i (record { text = []; allocated = false })

-- The entry that setenv allocates; a NULL value counts as "".
abbrev pub setting : List ℕ → Option (List ℕ) → Entry
setting name none = record { text = name ++ b'=' ∷ []; allocated = true }
setting name (some v) = record { text = name ++ b'=' ∷ v; allocated = true }

unfoldable pub setenv : ℕ → Option (List ℕ) → Option (List ℕ) → Bool → Env → Outcome
setenv budget none value overwrite s = record {
  env = s;
  success = false;
  errno = some einval;
  freed = [];
}
setenv budget (some name) value overwrite s =
    let entry = setting name value in
    if has_equals name
    then record { env = s; success = false; errno = some einval; freed = [] }
    else elim (find_env_index name s) [
      | none ↦
          if budget == 0
          then record { env = s; success = false; errno = some enomem; freed = [] }
          else append_entry (budget - 1) s entry true (entry ∷ [])
      | some idx ↦
          if not overwrite
          then record { env = s; success = true; errno = none; freed = [] }
          else if budget == 0
          then record { env = s; success = false; errno = some enomem; freed = [] }
          else record {
            env = record s { environ = some (set (entries s) idx entry) };
            success = true;
            errno = none;
            freed = if s.owned then get_entry (entries s) idx ∷ [] else [];
          }
    ]

-- The text before the first `=`, if there is one.
unfoldable pub name_part : List ℕ → Option (List ℕ)
name_part [] = none
name_part (c ∷ s) =
    let rest = name_part s in if c == b'=' then some [] else (do n ← rest; some (c ∷ n))

unfoldable pub putenv : ℕ → Option (List ℕ) → Env → Outcome
putenv budget none s = record { env = s; success = false; errno = some einval; freed = [] }
putenv budget (some str) s =
    let entry : Entry = record { text = str; allocated = false } in
    let invalid : Outcome = record { env = s; success = false; errno = some einval; freed = [] } in
    elim (name_part str) [
      | none ↦ invalid
      | some name ↦ if length name == 0 then invalid else elim (find_env_index name s) [
        | some idx ↦ record {
          env = record s { environ = some (set (entries s) idx entry) };
          success = true;
          errno = none;
          freed = [];
        }
        | none ↦ append_entry budget s entry false []
      ]
    ]

-- The loop that closes the gap at `idx`, for the entries and for their flags.
unfoldable pub remove_at {ℓ} : {A : Type ℓ} → ℕ → List A → List A
remove_at i [] = []
remove_at zero (x ∷ xs) = xs
remove_at (suc i) (x ∷ xs) = x ∷ remove_at i xs

unfoldable pub unsetenv : Option (List ℕ) → Env → Outcome
unsetenv none s = record { env = s; success = false; errno = none; freed = [] }
unsetenv (some name) s =
    let refused : Outcome = record { env = s; success = false; errno = none; freed = [] } in
    elim s.environ [
      | none ↦ refused
      | some es ↦ if has_equals name then refused else elim (find_env_index name s) [
        | none ↦ record { env = s; success = true; errno = none; freed = [] }
        | some idx ↦ record {
          env = record s {
            environ = some (remove_at idx es);
            flags = if s.owned then remove_at idx s.flags else s.flags;
          };
          success = true;
          errno = none;
          freed = if s.owned && get_or s.flags idx false then get_entry es idx ∷ [] else [];
        }
      ]
    ]

flagged : List Bool → List Entry → List Entry
flagged [] es = []
flagged (f ∷ fs) [] = []
flagged (f ∷ fs) (e ∷ es) = if f then e ∷ flagged fs es else flagged fs es

-- An environment that vlibc does not own is cleared in place: its first entry becomes NULL, and the
-- loop, which tests the entry that it has moved on to, sets the others to NULL as well.
unfoldable pub clearenv : ℕ → Env → Outcome
unfolding flagged
clearenv budget s = elim s.environ [
  | none ↦ record { env = s; success = true; errno = none; freed = [] }
  | some es ↦
      if not s.owned
      then record { env = record s { environ = some [] }; success = true; errno = none; freed = [] }
      else if budget == 0 || budget == 1
      then record { env = s; success = false; errno = some enomem; freed = [] }
      else record {
        env = record { environ = some []; owned = true; flags = [] };
        success = true;
        errno = none;
        freed = flagged s.flags es;
      }
]
