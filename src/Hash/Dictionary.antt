-- ===== src/Hash/Dictionary.antt =====
-- src/search_hash.c: what hsearch promises its callers. An entry that was put in is found again under
-- its key, with its value, and no later entry hides an earlier one.
use vlibc.Base.{
  ℕ, ap, ◌+◌, ◌<◌, ◌≡◌, refl, sym, ◌∙◌, Bool, false, List, [], ◌∷◌, Option, none, some, arith, leb,
  length, set, subst, Bool-cases, inl, inr, length-set, if◌then◌else◌,
}
use vlibc.Hash.{
  Entry, Slots, Table, Stop, vacant, matched, exhausted, find, enter, probe, hsearch, hash_str,
  settle, Action,
}
use vlibc.Hash.Filling.{probe-unused, probe-set_self, probe-set_other, probe-vacant_lt}

module _ {ℓ} {D : Type ℓ} where
  abbrev table_of : Slots D → ℕ → Table D
  table_of slots items = record { slots = some slots; items = items }

  start : List ℕ → Slots D → Stop
  start key slots = probe (length slots) 0 (hash_str key) key slots

  hsearch_eq :
      (key : List ℕ) (v : D) (a : Action) (slots : Slots D) (items : ℕ) (s : Stop)
      → start key slots ≡ s
      → hsearch (some key) v a (table_of slots items) ≡ settle key v a slots items s
  unfolding start hsearch
  hsearch_eq key v a slots items s q = ap (settle key v a slots items) q

  -- The table after a search is the table before, or has the entry in the free slot of the loop's end.
  data After (key : List ℕ) (v : D) (slots : Slots D) (i : ℕ) (t : Table D) : Type ℓ where
    kept :
        (items : ℕ) → start key slots ≡ matched i → t ≡ table_of slots items → After key v slots i t
    added :
        (items : ℕ)
        → start key slots ≡ vacant i
        → t ≡ table_of (set slots i (some (record { key = key; value = v }))) items
        → After key v slots i t

  hsearch-After :
      (key : List ℕ) (v : D) (slots : Slots D) (items i : ℕ) (t : Table D)
      → hsearch (some key) v enter (table_of slots items) ≡ (some i, t)
      → After key v slots i t
  unfolding settle
  hsearch-After key v slots items i t h = go (start key slots) refl
    where
      go : (s : Stop) → start key slots ≡ s → After key v slots i t
      go exhausted q =
          absurd (let e = sym (hsearch_eq key v enter slots items exhausted q) ∙ h in cc)
      go (matched j) q =
          let e = sym (hsearch_eq key v enter slots items (matched j) q) ∙ h in
          let m : some j ≡ some i = ap (λ r. r.0) e in
          let k : j ≡ i = cc in kept items (q ∙ ap matched k) (sym (ap (λ r. r.1) e))
      go (vacant j) q =
          let e = sym (hsearch_eq key v enter slots items (vacant j) q) ∙ h in
          elim (Bool-cases (leb (length slots) items)) [
            | inl l ↦ absurd (
                let m : none ≡ some i = ap (λ r. r.0) (subst (λ b. outcome b ≡ (some i, t)) l e) in
                cc)
            | inr l ↦
                let f : outcome false ≡ (some i, t) = subst (λ b. outcome b ≡ (some i, t)) l e in
                let m : some j ≡ some i = ap (λ r. r.0) f in
                let k : j ≡ i = cc in
                added (items + 1) (q ∙ ap vacant k) (sym (ap (λ r. r.1) f) ∙ ap put_at k)
          ]
        where
          put_at : ℕ → Table D
          put_at n = table_of (set slots n (some (record { key = key; value = v }))) (items + 1)

          outcome : Bool → Option ℕ × Table D
          outcome b = if b then (none, table_of slots items) else (some j, put_at j)

  start-vacant_lt :
      (key : List ℕ) (slots : Slots D) (idx : ℕ) → start key slots ≡ vacant idx → idx < length slots
  unfolding start probe
  start-vacant_lt key [] idx q = absurd (let m : exhausted ≡ vacant idx = q in cc)
  start-vacant_lt key (x ∷ slots) idx q =
      probe-vacant_lt (length (x ∷ slots)) 0 (hash_str key) key (x ∷ slots) idx (omega arith) q

  found-start :
      (key : List ℕ) (w : D) (slots : Slots D) (items j : ℕ) (t : Table D)
      → hsearch (some key) w find (table_of slots items) ≡ (some j, t)
      → start key slots ≡ matched j
  unfolding settle
  found-start key w slots items j t h = go (start key slots) refl
    where
      go : (s : Stop) → start key slots ≡ s → start key slots ≡ matched j
      go exhausted q = absurd (
          let m : none ≡ some j =
            ap (λ r. r.0) (sym (hsearch_eq key w find slots items exhausted q) ∙ h) in
          cc)
      go (vacant k) q = absurd (
          let m : none ≡ some j =
            ap (λ r. r.0) (sym (hsearch_eq key w find slots items (vacant k) q) ∙ h) in
          cc)
      go (matched k) q =
          let m : some k ≡ some j =
            ap (λ r. r.0) (sym (hsearch_eq key w find slots items (matched k) q) ∙ h) in
          let e : k ≡ j = cc in q ∙ ap matched e

  entered-start :
      (key : List ℕ) (v : D) (slots : Slots D) (i : ℕ)
      → start key slots ≡ vacant i
      → start key (set slots i (some (record { key = key; value = v }))) ≡ matched i
  unfolding start
  entered-start key v slots i q =
      let e : Entry D = record { key = key; value = v } in
      rw (length-set slots i (some e))
        (probe-set_self (length slots) 0 (hash_str key) e slots i (start-vacant_lt key slots i q) q)

  -- After hsearch with ENTER answers a slot, hsearch with FIND of the same key, with any data, answers
  -- that slot and leaves the table as it is.
  pub hsearch-find_entered :
      (key : List ℕ) (v w : D) (slots : Slots D) (items i : ℕ) (t : Table D)
      → hsearch (some key) v enter (record { slots = some slots; items = items }) ≡ (some i, t)
      → hsearch (some key) w find t ≡ (some i, t)
  unfolding start settle
  hsearch-find_entered key v w slots items i t h = elim (hsearch-After key v slots items i t h) [
    | kept n q e ↦ rw e (hsearch_eq key w find slots n (matched i) q)
    | added n q e ↦ rw e (
        hsearch_eq key w find (set slots i (some (record { key = key; value = v }))) n (matched i)
          (entered-start key v slots i q))
  ]

  -- A key that FIND finds at a slot is found at that slot after any key is put in with ENTER.
  pub hsearch-find_other :
      (key other : List ℕ) (v w : D) (slots : Slots D) (items i j : ℕ) (t : Table D)
      → hsearch (some other) w find (record { slots = some slots; items = items })
        ≡ (some j, record { slots = some slots; items = items })
      → hsearch (some key) v enter (record { slots = some slots; items = items }) ≡ (some i, t)
      → hsearch (some other) w find t ≡ (some j, t)
  unfolding start settle
  hsearch-find_other key other v w slots items i j t found h =
      elim (hsearch-After key v slots items i t h) [
        | kept n q e ↦ rw e (
            hsearch_eq other w find slots n (matched j)
              (found-start other w slots items j (table_of slots items) found))
        | added n q e ↦
            let x : Entry D = record { key = key; value = v } in
            let s : Slots D = set slots i (some x) in
            let m = found-start other w slots items j (table_of slots items) found in
            let free = probe-unused (length slots) 0 (hash_str key) key slots i q in
            let same : start other s ≡ matched j =
              rw (length-set slots i (some x))
                (probe-set_other (length slots) 0 (hash_str other) other x slots i j free m) in
            subst (λ u. hsearch (some other) w find u ≡ (some j, u)) (sym e)
              (hsearch_eq other w find s n (matched j) same)
      ]
