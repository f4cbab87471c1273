-- ===== src/Env/Owner.antt =====
-- Whose strings src/env.c frees.
use vlibc.Base.{
  ℕ, ◌-◌, ◌≡◌, ◌<◌, refl, sym, ap, ◌∙◌, Bool, true, false, ◌||◌, List, [], ◌∷◌, ◌++◌, none, some,
  arith, length, ◌==◌,
}
use vlibc.Env.{
  Entry, Env, Copy, done, failed, copy_entries, append_entry, setenv, putenv, find_env_index,
  index_of, search_env, value_of, is_some, entries, has_equals, get_entry, name_part,
}
use vlibc.Env.Lookup.{index_of-none, search_env-copy}
use vlibc.Env.Update.{index-entries}

name_part-lem :
    (str name : List ℕ)
    → name_part str ≡ some name
    → (has_equals name ≡ false) × (is_some (value_of name str) ≡ true)
unfolding name_part has_equals value_of
name_part-lem [] name h = cc
name_part-lem (c ∷ str) [] h = ground arith
name_part-lem (c ∷ str) (d ∷ name) h = ground (arith, name_part-lem str name)

search-none : (n : List ℕ) (es : List Entry) → search_env n es ≡ none → index_of n es ≡ none
unfolding search_env index_of
search-none n [] h = refl
search-none n (e ∷ es) h = ground (arith, search-none n es)

index_of-append_last :
    (n : List ℕ) (es : List Entry) (e : Entry)
    → index_of n es ≡ none
    → is_some (value_of n e.text) ≡ true
    → index_of n (es ++ e ∷ []) ≡ some (length es)
unfolding index_of
index_of-append_last n [] e h k = rw k
index_of-append_last n (x ∷ es) e h k = ground (arith, index_of-append_last n es e)

get_entry-append_last : (es : List Entry) (e : Entry) → get_entry (es ++ e ∷ []) (length es) ≡ e
get_entry-append_last [] e = refl
get_entry-append_last (x ∷ es) e = get_entry-append_last es e

-- An append that succeeds leaves an owned environment with the entry last, under the name's index.
append_entry-last :
    (budget : ℕ) (s : Env) (e : Entry) (flag : Bool) (on_error : List Entry) (n : List ℕ)
    → (append_entry budget s e flag on_error).success ≡ true
    → index_of n (entries s) ≡ none
    → is_some (value_of n e.text) ≡ true
    → ((append_entry budget s e flag on_error).env.owned ≡ true)
      × ((i : ℕ) × (find_env_index n (append_entry budget s e flag on_error).env ≡ some i)
          × (get_entry (entries (append_entry budget s e flag on_error).env) i ≡ e))
unfolding append_entry
append_entry-last budget s e flag on_error n h missing answers =
    go (copy_entries (budget - 2) s.owned s.flags (entries s)) refl (ground arith)
  where
    go :
        (c : Copy)
        → copy_entries (budget - 2) s.owned s.flags (entries s) ≡ c
        → (budget == 0 || budget == 1) ≡ false
        → ((append_entry budget s e flag on_error).env.owned ≡ true)
          × ((i : ℕ) × (find_env_index n (append_entry budget s e flag on_error).env ≡ some i)
              × (get_entry (entries (append_entry budget s e flag on_error).env) i ≡ e))
    go (failed es) copied rich = absurd (ground arith)
    go (done es) copied rich =
        let none_found = search_env-copy n _ _ _ _ _ copied ∙ index_of-none n (entries s) missing in
        let last = index_of-append_last n es e (search-none n es none_found) answers in
        rw (rich, copied)
          (refl, (length es, unfold find_env_index in last, get_entry-append_last es e))

setenv-frees :
    (budget : ℕ) (name v : List ℕ) (s : Env) (i : ℕ)
    → has_equals name ≡ false
    → find_env_index name s ≡ some i
    → s.owned ≡ true
    → 0 < budget
    → (setenv budget (some name) (some v) true s).freed ≡ get_entry (entries s) i ∷ []
unfolding setenv
setenv-frees budget name v s i good found owned paid = rw (good, found) (ground arith)

putenv-new :
    (budget : ℕ) (str name : List ℕ) (s : Env)
    → name_part str ≡ some name
    → find_env_index name s ≡ none
    → (putenv budget (some str) s).success ≡ true
    → putenv budget (some str) s
      ≡ append_entry budget s (record { text = str; allocated = false }) false []
unfolding putenv
putenv-new budget str name s part missing h = ground arith

-- Where putenv adds a string for a name that was not set, and setenv with room for one allocation then
-- replaces it, setenv frees the string of the caller of putenv, which malloc did not make.
pub putenv-setenv-frees :
    (budget budget' : ℕ) (str name v : List ℕ) (s : Env)
    → name_part str ≡ some name
    → find_env_index name s ≡ none
    → (putenv budget (some str) s).success ≡ true
    → 0 < budget'
    → (setenv budget' (some name) (some v) true (putenv budget (some str) s).env).freed
      ≡ record { text = str; allocated = false } ∷ []
putenv-setenv-frees budget budget' str name v s part missing h paid =
    let (good, answers) = name_part-lem str name part in
    let e : Entry = record { text = str; allocated = false } in
    let new = putenv-new budget str name s part missing h in
    let (owned, (i, found, here)) =
      append_entry-last budget s e false [] name (rw new at h)
        (sym (index-entries name s) ∙ missing) answers in
    rw new (
      setenv-frees budget' name v (append_entry budget s e false []).env i good found owned paid
      ∙ ap (λ x. x ∷ []) here)
