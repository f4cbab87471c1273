-- ===== src/Samples/System.antt =====
-- src/env.c, src/vis.c, src/atexit.c, src/path.c and src/pthread_spin.c at small inputs.
use vlibc.Base.{
  ℕ, zero, suc, ap, get_or, ◌<◌, ◌≤◌, ◌≡◌, ◌≢◌, refl, inl, inr, arith, true, false, List, [], ◌∷◌,
  none, some,
}
use vlibc.Env.{
  Env, setenv, putenv, getenv, name_part, find_env_index, has_equals, index_of, append_entry,
  copy_entries,
}
use vlibc.Env.Update.{getenv-setenv_self}
use vlibc.Env.Owner.{putenv-setenv-frees}
use vlibc.Vis.{nvis, need_octal, plain_octal}
use vlibc.Vis.Decode.{decode, decode-nvis_octal}
use vlibc.Spin.{pthread_spin_init, pthread_spin_trylock, lock_round}
use vlibc.Spin.Exclusion.{
  State, round, try, Reachable, start, after, update, Exclusive, reachable-Exclusive,
}
use vlibc.Path.{basename, dirname}
use vlibc.Path.Component.{Parts, basename-dirname-Parts}

abbrev empty : Env
empty = record { environ = none; owned = false; flags = [] }

abbrev name_a : List ℕ
name_a = 97 ∷ []

abbrev name_b : List ℕ
name_b = 98 ∷ []

set_a : (setenv 9 (some name_a) (some (49 ∷ [])) true empty).success ≡ true
unfolding setenv has_equals find_env_index index_of append_entry copy_entries
set_a = refl

getenv-setenv_self_example :
    getenv (some name_a) (setenv 9 (some name_a) (some (49 ∷ [])) true empty).env ≡ some (49 ∷ [])
getenv-setenv_self_example = getenv-setenv_self 9 name_a (49 ∷ []) empty set_a

a_plain : has_equals name_a ≡ false
unfolding has_equals
a_plain = refl

b_plain : has_equals name_b ≡ false
unfolding has_equals
b_plain = refl

b_ne_a : name_b ≢ name_a
b_ne_a = λ e. absurd (let h : 98 ≡ 97 = ap (λ (t : List ℕ). get_or t 0 0) e in omega arith)

-- "b=2"
abbrev with_b : Env
with_b = record {
  environ = some (record { text = 98 ∷ 61 ∷ 50 ∷ []; allocated = false } ∷ []);
  owned = false;
  flags = [];
}

abbrev assign_a : List ℕ
assign_a = 97 ∷ 61 ∷ 49 ∷ []

named_a : name_part assign_a ≡ some name_a
unfolding name_part
named_a = refl

no_a : find_env_index name_a empty ≡ none
unfolding find_env_index index_of
no_a = refl

put_a : (putenv 9 (some assign_a) empty).success ≡ true
unfolding putenv name_part find_env_index index_of append_entry copy_entries
put_a = refl

putenv-setenv-frees_example :
    (setenv 1 (some name_a) (some []) true (putenv 9 (some assign_a) empty).env).freed
    ≡ record { text = assign_a; allocated = false } ∷ []
putenv-setenv-frees_example =
    putenv-setenv-frees 9 1 assign_a name_a [] empty named_a no_a put_a (omega arith)

-- A byte 1 becomes \001.
octal_1 : nvis 5 1 0 0 ≡ some (92 ∷ 48 ∷ 48 ∷ 49 ∷ [])
unfolding nvis need_octal plain_octal
octal_1 = refl

decode-nvis_octal_example : decode 0 (92 ∷ 48 ∷ 48 ∷ 49 ∷ []) ≡ (0 ∷ [], 0)
unfolding need_octal
decode-nvis_octal_example = decode-nvis_octal 5 1 0 0 (omega arith) refl refl refl octal_1

abbrev registered : List ℕ
registered = 1 ∷ 2 ∷ 3 ∷ []

-- "/a", whose directory is "/".
abbrev rooted : List ℕ
rooted = 47 ∷ 97 ∷ []

rooted-name : (i : ℕ) → 1 ≤ i → i < 2 → get_or rooted i 0 ≢ 47
rooted-name zero lo hi = absurd (omega arith)
rooted-name (suc zero) lo hi = omega arith
rooted-name (suc (suc i)) lo hi = absurd (omega arith)

rooted-between : (i : ℕ) → 0 ≤ i → i < 1 → get_or rooted i 0 ≡ 47
rooted-between zero lo hi = refl
rooted-between (suc i) lo hi = absurd (omega arith)

rooted-Parts : Parts rooted 0 1 2
rooted-Parts = record {
  name_not_empty = omega arith;
  inside = omega arith;
  front = omega arith;
  trailing = λ i lo hi. absurd (omega arith);
  name = rooted-name;
  between = rooted-between;
  separated = inr (omega arith);
  dir = inl refl;
}

basename-dirname-Parts_example :
    (basename true (some rooted) ≡ some (97 ∷ [])) × (dirname true (some rooted) ≡ some (46 ∷ []))
basename-dirname-Parts_example = basename-dirname-Parts rooted 0 1 2 rooted-Parts

-- Thread 4 has got the lock, and thread 5 tries in vain.
abbrev taken : State
taken = record { locked = 1; holds = update (λ i. false) 4 true }

taken-Reachable : Reachable taken
unfolding pthread_spin_init pthread_spin_trylock lock_round
taken-Reachable = after (after (start 7) (round 4 refl)) (try 5 refl)

reachable-Exclusive_example : Exclusive taken
reachable-Exclusive_example = reachable-Exclusive taken taken-Reachable
