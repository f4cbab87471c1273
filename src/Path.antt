-- ===== src/Path.antt =====
-- src/path.c: basename and dirname. A path is the list of its bytes, a position in it a number; the answer
-- is the allocated copy. `ready` is whether the allocator answers, for the copy as for strdup.
pub mod Component
use vlibc.Base.{
  ℕ, zero, suc, ◌-◌, Bool, true, false, not, List, [], ◌∷◌, Option, none, some, ◌==◌, if◌then◌else◌,
  length, get_or, take, drop,
}

-- '/' and '.'
abbrev pub slash : ℕ
slash = 47

abbrev pub dot : ℕ
dot = 46

-- `while (p > start && *(p - 1) == '/') --p;`
unfoldable pub before_slashes : List ℕ → ℕ → ℕ
before_slashes path zero = zero
before_slashes path (suc p) =
    let rest = before_slashes path p in if get_or path p 0 == slash then rest else suc p

-- `while (p > start && *(p - 1) != '/') --p;`
unfoldable pub before_name : List ℕ → ℕ → ℕ
before_name path zero = zero
before_name path (suc p) =
    let rest = before_name path p in if get_or path p 0 == slash then suc p else rest

-- `strdup(s)`, and `malloc` with the copy behind it: NULL where the allocator has no block.
abbrev pub copied : Bool → List ℕ → Option (List ℕ)
copied ready s = if ready then some s else none

-- basename of a path that is not empty.
unfoldable pub base_of : Bool → List ℕ → Option (List ℕ)
unfolding before_slashes before_name
base_of ready path =
    let end = before_slashes path (length path) in
    let p = before_name path end in
    if end == 0 then copied ready (slash ∷ []) else copied ready (take (end - p) (drop p path))

unfoldable pub basename : Bool → Option (List ℕ) → Option (List ℕ)
unfolding base_of
basename ready none = copied ready (dot ∷ [])
basename ready (some []) = copied ready (dot ∷ [])
basename ready (some (c ∷ path)) = base_of ready (c ∷ path)

-- dirname of a path that is not empty.
unfoldable pub dir_of : Bool → List ℕ → Option (List ℕ)
unfolding before_slashes before_name
dir_of ready path =
    let end = before_slashes path (length path) in
    let len = before_slashes path (before_name path end) in
    if end == 0
    then copied ready (slash ∷ [])
    else if len == 0
    then copied ready (dot ∷ [])
    else copied ready (take len path)

unfoldable pub dirname : Bool → Option (List ℕ) → Option (List ℕ)
unfolding dir_of
dirname ready none = copied ready (dot ∷ [])
dirname ready (some []) = copied ready (dot ∷ [])
dirname ready (some (c ∷ path)) = dir_of ready (c ∷ path)
