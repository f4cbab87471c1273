-- ===== src/Env/Lookup.antt =====
-- The search of src/env.c in a list of entries: what an entry answers to a name, and how a search goes
-- through a replaced, an added, a copied and a removed entry.
use vlibc.Base.{
  ℕ, zero, suc, ◌≡◌, ◌≢◌, refl, Bool, true, false, ◌&&◌, List, [], ◌∷◌, ◌++◌, none, some, arith,
  ◌==◌, ◌-◌, if◌then◌else◌, set, get_or, Bool-cases, inl, inr,
}
use vlibc.Env.{
  Entry, value_of, is_some, search_env, index_of, has_equals, copy_entries, Copy, done, failed,
  behind, remove_at, tail_flags,
}

pub value_of_self : (name v : List ℕ) → value_of name (name ++ b'=' ∷ v) ≡ some v
unfolding value_of
value_of_self [] v = refl
value_of_self (c ∷ name) v = ground (arith, value_of_self name v)

-- Two names with no `=` in them are not answered by the same text.
pub value_of_apart :
    (n name t : List ℕ)
    → has_equals n ≡ false
    → has_equals name ≡ false
    → n ≢ name
    → is_some (value_of name t) ≡ true
    → value_of n t ≡ none
unfolding value_of has_equals
value_of_apart [] [] t hn hm ne h = absurd (ne refl)
value_of_apart [] (m ∷ name) [] hn hm ne h = cc
value_of_apart [] (m ∷ name) (c ∷ t) hn hm ne h = ground arith
value_of_apart (d ∷ n) name [] hn hm ne h = refl
value_of_apart (d ∷ n) [] (c ∷ t) hn hm ne h = ground arith
value_of_apart (d ∷ n) (m ∷ name) (c ∷ t) hn hm ne h = elim (Bool-cases (c == d)) [
  | inl same ↦
      let agree : m ≡ d = ground arith in
      rw same (
        value_of_apart n name t (ground arith) (ground arith) (λ eq. ne (ground arith))
          (ground arith))
  | inr other ↦ rw other
]

pub value_of_other :
    (n name v : List ℕ)
    → has_equals n ≡ false
    → has_equals name ≡ false
    → n ≢ name
    → value_of n (name ++ b'=' ∷ v) ≡ none
value_of_other n name v hn hm ne =
    value_of_apart n name (name ++ b'=' ∷ v) hn hm ne (rw (value_of_self name v) refl)

pub search_env-append :
    (n : List ℕ) (es fs : List Entry)
    → search_env n (es ++ fs)
      ≡ (if is_some (search_env n es) then search_env n es else search_env n fs)
unfolding search_env
search_env-append n [] fs = refl
search_env-append n (e ∷ es) fs = ground (arith, search_env-append n es fs)

-- A replaced entry at the index of a name: the name finds it.
pub search_env-set_self :
    (name : List ℕ) (es : List Entry) (i : ℕ) (e : Entry) (v : List ℕ)
    → index_of name es ≡ some i
    → value_of name e.text ≡ some v
    → search_env name (set es i e) ≡ some v
unfolding index_of search_env
search_env-set_self name [] i e v h k = cc
search_env-set_self name (x ∷ es) zero e v h k = ground arith
search_env-set_self name (x ∷ es) (suc i) e v h k =
    ground (arith, search_env-set_self name es i e v)

-- The search for a name that neither the old nor the new entry answers goes on as before.
pub search_env-set_other :
    (n name : List ℕ) (es : List Entry) (i : ℕ) (e : Entry)
    → index_of name es ≡ some i
    → ((t : List ℕ) → is_some (value_of name t) ≡ true → value_of n t ≡ none)
    → value_of n e.text ≡ none
    → search_env n (set es i e) ≡ search_env n es
unfolding index_of search_env
search_env-set_other n name [] i e h apart k = cc
search_env-set_other n name (x ∷ es) zero e h apart k = ground (arith, apart x.text)
search_env-set_other n name (x ∷ es) (suc i) e h apart k =
    ground (arith, search_env-set_other n name es i e)

-- Copying changes what no name finds.
abbrev CopyOf : List ℕ → List Entry → Copy → Type 0
CopyOf n es (done es') = search_env n es' ≡ search_env n es
CopyOf n es (failed _) = Unit

CopyOf-behind :
    (n : List ℕ) (e e' : Entry) (es : List Entry) (c : Copy)
    → e'.text ≡ e.text
    → CopyOf n es c
    → CopyOf n (e ∷ es) (behind e' c)
unfolding search_env
CopyOf-behind n e e' es (done es') same h = rw (same, h) refl
CopyOf-behind n e e' es (failed es') same h = tt

copy_entries-CopyOf :
    (n : List ℕ) (budget : ℕ) (owned : Bool) (flags : List Bool) (es : List Entry)
    → CopyOf n es (copy_entries budget owned flags es)
unfolding copy_entries
copy_entries-CopyOf n budget owned flags [] = unfold search_env in refl
copy_entries-CopyOf n budget owned flags (e ∷ es) =
    elim (Bool-cases (owned && get_or flags 0 false)) [
      | inl kept ↦
          rw kept (
            CopyOf-behind n e e es _ refl
              (copy_entries-CopyOf n budget owned (tail_flags flags) es))
      | inr copied ↦ elim (Bool-cases (budget == 0)) [
        | inl empty ↦ rw (copied, empty) tt
        | inr more ↦
            rw (copied, more)
              (CopyOf-behind n e _ es _ refl
                (copy_entries-CopyOf n (budget - 1) owned (tail_flags flags) es))
      ]
    ]

pub search_env-copy :
    (n : List ℕ) (budget : ℕ) (owned : Bool) (flags : List Bool) (es es' : List Entry)
    → copy_entries budget owned flags es ≡ done es'
    → search_env n es' ≡ search_env n es
search_env-copy n budget owned flags es es' h =
    rw h at (copy_entries-CopyOf n budget owned flags es)

-- Where no index is found, nothing is found.
pub index_of-none : (n : List ℕ) (es : List Entry) → index_of n es ≡ none → search_env n es ≡ none
unfolding index_of search_env
index_of-none n [] h = refl
index_of-none n (e ∷ es) h = ground (arith, index_of-none n es)

-- Removing the entry at the index of a name leaves what other names find.
pub search_env-remove :
    (n name : List ℕ) (es : List Entry) (i : ℕ)
    → index_of name es ≡ some i
    → ((t : List ℕ) → is_some (value_of name t) ≡ true → value_of n t ≡ none)
    → search_env n (remove_at i es) ≡ search_env n es
unfolding index_of search_env remove_at
search_env-remove n name [] i h apart = cc
search_env-remove n name (x ∷ es) zero h apart = ground (arith, apart x.text)
search_env-remove n name (x ∷ es) (suc i) h apart = ground (arith, search_env-remove n name es i)
