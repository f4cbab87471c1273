-- ===== src/Env/Update.antt =====
-- setenv, setting, putenv and unsetenv of src/env.c as updates of a dictionary.
use vlibc.Base.{
  ℕ, ◌-◌, ◌≡◌, ◌∙◌, ◌≢◌, refl, Bool, true, false, ◌||◌, List, [], ◌∷◌, Option, none, some, arith,
  ◌==◌, if◌then◌else◌, set, Bool-cases, Option-cases, inl, inr,
}
use vlibc.Env.{
  Entry, Env, is_some, search_env, index_of, has_equals, entries, copy_entries, Copy, done, failed,
  getenv, find_env_index, append_entry, setenv, setting, putenv, unsetenv, clearenv,
}
use vlibc.Env.Lookup.{
  value_of_self, value_of_apart, value_of_other, search_env-append, search_env-set_self,
  search_env-set_other, search_env-copy, index_of-none, search_env-remove,
}

getenv-entries : (n : List ℕ) (s : Env) → getenv (some n) s ≡ search_env n (entries s)
unfolding getenv
getenv-entries n s = go s.environ refl
  where
    go : (o : Option (List Entry)) → s.environ ≡ o → getenv (some n) s ≡ search_env n (entries s)
    go none e = rw e (unfold search_env in refl)
    go (some es) e = rw e refl

pub index-entries : (n : List ℕ) (s : Env) → find_env_index n s ≡ index_of n (entries s)
unfolding find_env_index
index-entries n s = go s.environ refl
  where
    go : (o : Option (List Entry)) → s.environ ≡ o → find_env_index n s ≡ index_of n (entries s)
    go none e = rw e (unfold index_of in refl)
    go (some es) e = rw e refl

append_entry-search :
    (budget : ℕ) (s : Env) (e : Entry) (flag : Bool) (on_error : List Entry) (n : List ℕ)
    → (append_entry budget s e flag on_error).success ≡ true
    → getenv (some n) (append_entry budget s e flag on_error).env
      ≡ (if is_some (getenv (some n) s) then getenv (some n) s else search_env n (e ∷ []))
unfolding append_entry
append_entry-search budget s e flag on_error n h = elim (Bool-cases (budget == 0 || budget == 1)) [
  | inl poor ↦ ground arith
  | inr rich ↦ go (copy_entries (budget - 2) s.owned s.flags (entries s)) refl rich
]
  where
    go :
        (c : Copy)
        → copy_entries (budget - 2) s.owned s.flags (entries s) ≡ c
        → (budget == 0 || budget == 1) ≡ false
        → getenv (some n) (append_entry budget s e flag on_error).env
          ≡ (if is_some (getenv (some n) s) then getenv (some n) s else search_env n (e ∷ []))
    go (failed es) copied rich = ground arith
    go (done es) copied rich =
        rw (rich, copied, getenv-entries n s)
          (unfold getenv in
            rw (search_env-append n es (e ∷ []), search_env-copy n _ _ _ _ _ copied) refl)

append_entry-unchanged :
    (budget : ℕ) (s : Env) (e : Entry) (flag : Bool) (on_error : List Entry)
    → (append_entry budget s e flag on_error).success ≡ false
    → (append_entry budget s e flag on_error).env ≡ s
unfolding append_entry
append_entry-unchanged budget s e flag on_error h = ground arith

setenv-unchanged :
    (budget : ℕ) (name value : Option (List ℕ)) (overwrite : Bool) (s : Env)
    → (setenv budget name value overwrite s).success ≡ false
    → (setenv budget name value overwrite s).env ≡ s
unfolding setenv
setenv-unchanged budget none value overwrite s h = refl
setenv-unchanged budget (some name) value overwrite s h = ground (
  arith,
  append_entry-unchanged (budget - 1) s (setting name value) true (setting name value ∷ []),
)

putenv-unchanged :
    (budget : ℕ) (str : Option (List ℕ)) (s : Env)
    → (putenv budget str s).success ≡ false
    → (putenv budget str s).env ≡ s
unfolding putenv
putenv-unchanged budget none s h = refl
putenv-unchanged budget (some str) s h =
    ground
      (arith, append_entry-unchanged budget s (record { text = str; allocated = false }) false [])

unsetenv-unchanged :
    (name : Option (List ℕ)) (s : Env)
    → (unsetenv name s).success ≡ false
    → (unsetenv name s).env ≡ s
unfolding unsetenv
unsetenv-unchanged none s h = refl
unsetenv-unchanged (some name) s h = ground arith

clearenv-unchanged :
    (budget : ℕ) (s : Env) → (clearenv budget s).success ≡ false → (clearenv budget s).env ≡ s
unfolding clearenv
clearenv-unchanged budget s h = ground arith

-- A call of setenv, putenv, unsetenv or clearenv that does not succeed leaves the pointer environ, what stands in it
-- and the ownership flags. Entries that stand in it may have been freed all the same: `freed` of the outcome.
pub failed_unchanged :
    (budget : ℕ) (name value : Option (List ℕ)) (overwrite : Bool) (s : Env)
    → ((setenv budget name value overwrite s).success ≡ false
        → (setenv budget name value overwrite s).env ≡ s)
      × ((putenv budget name s).success ≡ false → (putenv budget name s).env ≡ s)
      × ((unsetenv name s).success ≡ false → (unsetenv name s).env ≡ s)
      × ((clearenv budget s).success ≡ false → (clearenv budget s).env ≡ s)
failed_unchanged budget name value overwrite s = (
  setenv-unchanged budget name value overwrite s,
  putenv-unchanged budget name s,
  unsetenv-unchanged name s,
  clearenv-unchanged budget s,
)

-- What a name finds after setenv, given whether the new entry answers to it.
setenv-search :
    (budget : ℕ) (name v : List ℕ) (s : Env) (n : List ℕ)
    → (setenv budget (some name) (some v) true s).success ≡ true
    → ((i : ℕ)
        → index_of name (entries s) ≡ some i
        → getenv (some n) (setenv budget (some name) (some v) true s).env
          ≡ search_env n (set (entries s) i (setting name (some v))))
      × (index_of name (entries s) ≡ none
          → getenv (some n) (setenv budget (some name) (some v) true s).env ≡ (
              if is_some (search_env n (entries s))
              then search_env n (entries s)
              else search_env n (setting name (some v) ∷ [])))
unfolding setenv
setenv-search budget name v s n h = (
  λ i found.
      let f : find_env_index name s ≡ some i = index-entries name s ∙ found in
      let good : has_equals name ≡ false = ground arith in
      let paid : (budget == 0) ≡ false = ground arith in rw (good, f, paid) (unfold getenv in refl),
  λ missing.
      let f : find_env_index name s ≡ none = index-entries name s ∙ missing in
      let good : has_equals name ≡ false = ground arith in
      let paid : (budget == 0) ≡ false = ground arith in
      let added =
        append_entry-search (budget - 1) s (setting name (some v)) true (setting name (some v) ∷ [])
          n (rw (good, f, paid) at h) in
      rw (good, f, paid) (rw (getenv-entries n s) at added),
)

module _ (budget : ℕ) (name v : List ℕ) (s : Env)
    (h : (setenv budget (some name) (some v) true s).success ≡ true) where
  -- After a setenv that succeeds and may overwrite, getenv gives the value set.
  pub getenv-setenv_self :
      getenv (some name) (setenv budget (some name) (some v) true s).env ≡ some v
  getenv-setenv_self =
      let (replaced, added) = setenv-search budget name v s name h in
      elim (Option-cases (index_of name (entries s))) [
        | inl missing ↦
            rw (added missing, index_of-none name (entries s) missing)
              (unfold search_env in rw (value_of_self name v) refl)
        | inr (i, found) ↦
            replaced i found
            ∙ search_env-set_self name (entries s) i (setting name (some v)) v found
                (value_of_self name v)
      ]

  -- After a setenv that succeeds and may overwrite, getenv gives for every other name what it
  -- gave before; neither name has a "=" in it.
  pub getenv-setenv_other :
      (n : List ℕ)
      → has_equals n ≡ false
      → has_equals name ≡ false
      → n ≢ name
      → getenv (some n) (setenv budget (some name) (some v) true s).env ≡ getenv (some n) s
  getenv-setenv_other n hn hm ne =
      let (replaced, added) = setenv-search budget name v s n h in
      let other = value_of_other n name v hn hm ne in
      elim (Option-cases (index_of name (entries s))) [
        | inl missing ↦
            rw (added missing, getenv-entries n s) (unfold search_env in rw other (ground arith))
        | inr (i, found) ↦
            rw (replaced i found, getenv-entries n s)
              (search_env-set_other n name (entries s) i (setting name (some v)) found
                (λ t answers. value_of_apart n name t hn hm ne answers) other)
      ]

unsetenv_fields :
    (name n : List ℕ) (o : Option (List Entry)) (owned : Bool) (flags : List Bool)
    → has_equals n ≡ false
    → has_equals name ≡ false
    → n ≢ name
    → let s : Env = record { environ = o; owned = owned; flags = flags } in
      getenv (some n) (unsetenv (some name) s).env ≡ getenv (some n) s
unfolding unsetenv getenv find_env_index
unsetenv_fields name n none owned flags hn hm ne = refl
unsetenv_fields name n (some es) owned flags hn hm ne = elim (Option-cases (index_of name es)) [
  | inl missing ↦ rw (hm, missing) refl
  | inr (i, found) ↦
      rw (hm, found)
        (search_env-remove n name es i found
          (λ t answers. value_of_apart n name t hn hm ne answers))
]

-- After unsetenv of a name, whatever it answers, getenv gives for every other name what it gave before;
-- neither name has a "=" in it.
pub getenv-unsetenv_other :
    (name n : List ℕ) (s : Env)
    → has_equals n ≡ false
    → has_equals name ≡ false
    → n ≢ name
    → getenv (some n) (unsetenv (some name) s).env ≡ getenv (some n) s
getenv-unsetenv_other name n s = unsetenv_fields name n s.environ s.owned s.flags
