-- ===== src/Hash.antt =====
-- src/search_hash.c: hash_str, hcreate, hdestroy and hsearch. The arrays `table` and `used` are one list
-- of slots, `none` a slot that is not used; a returned `&table[idx]` is idx. A key is the list of its
-- bytes, and strcmp answers 0 for equal lists. Whether each calloc answers is an argument of hcreate.
pub mod Probe
pub mod Filling
pub mod Dictionary
use vlibc.Base.{
  ℕ, zero, suc, ◌+◌, ◌*◌, ◌%◌, ◌^◌, Bool, true, false, not, ◌&&◌, ◌||◌, List, [], ◌∷◌, Option, none,
  some, leb, ◌==◌, if◌then◌else◌, length, get_or, set, replicate,
}

pub record Entry {ℓ} (D : Type ℓ) : Type ℓ where
  pub key : List ℕ
  pub value : D

pub data Action : Type 0 where
  find enter : Action

abbrev pub Slots {ℓ} : Type ℓ → Type ℓ
Slots D = List (Option (Entry D))

-- The statics. `table_size` is the length of the slots.
pub record Table {ℓ} (D : Type ℓ) : Type ℓ where
  pub slots : Option (Slots D)
  pub items : ℕ

-- `h = ((h << 5) + h) + c` in an unsigned long.
unfoldable pub hash_loop : ℕ → List ℕ → ℕ
hash_loop h [] = h
hash_loop h (c ∷ s) = hash_loop ((h * 32 + h + c) % 2 ^ 64) s

unfoldable pub hash_str : List ℕ → ℕ
unfolding hash_loop
hash_str s = hash_loop 5381 s

-- `strcmp(a, b) == 0`
unfoldable pub same_key : List ℕ → List ℕ → Bool
same_key [] [] = true
same_key [] (d ∷ t) = false
same_key (c ∷ s) [] = false
same_key (c ∷ s) (d ∷ t) = c == d && same_key s t

-- How the loop of hsearch ends: at a slot that is not used, at a slot with the key, or by its bound.
pub data Stop : Type 0 where
  vacant : ℕ → Stop
  matched : ℕ → Stop
  exhausted : Stop

-- `(h + i) % table_size`; the sum wraps.
abbrev pub place : ℕ → ℕ → ℕ → ℕ
place h i size = (h + i) % 2 ^ 64 % size

module _ {ℓ} {D : Type ℓ} where
  unfoldable pub hcreate : ℕ → Bool → Bool → Table D → Bool × Table D
  hcreate nel table_ok used_ok t = elim t.slots [
    | some _ ↦ (false, t)
    | none ↦
        if table_ok && used_ok
        then (true, record { slots = some (replicate nel none); items = 0 })
        else (false, t)
  ]

  unfoldable pub hdestroy : Table D → Table D
  hdestroy t = record { slots = none; items = 0 }

  abbrev pub slot_at : Slots D → ℕ → Option (Entry D)
  slot_at slots i = get_or slots i none

  -- What the loop does at a slot, `next` being the rest of the loop.
  abbrev pub visit : List ℕ → ℕ → Option (Entry D) → Stop → Stop
  visit key idx none next = vacant idx
  visit key idx (some e) next = if same_key e.key key then matched idx else next

  -- The loop, with the rounds left and `i`.
  unfoldable pub probe : ℕ → ℕ → ℕ → List ℕ → Slots D → Stop
  probe zero i h key slots = exhausted
  probe (suc n) i h key slots =
      let idx = place h i (length slots) in
      let next = probe n (i + 1) h key slots in visit key idx (slot_at slots idx) next

  -- What hsearch does when its loop has ended.
  unfoldable pub settle : List ℕ → D → Action → Slots D → ℕ → Stop → Option ℕ × Table D
  settle key value action slots items exhausted =
      (none, record { slots = some slots; items = items })
  settle key value action slots items (matched idx) =
      (some idx, record { slots = some slots; items = items })
  settle key value find slots items (vacant idx) =
      (none, record { slots = some slots; items = items })
  settle key value enter slots items (vacant idx) =
      if leb (length slots) items then (none, record { slots = some slots; items = items }) else (
        some idx,
        record {
          slots = some (set slots idx (some (record { key = key; value = value })));
          items = items + 1;
        },
      )

  unfoldable pub hsearch : Option (List ℕ) → D → Action → Table D → Option ℕ × Table D
  unfolding probe hash_str settle
  hsearch none value action t = (none, t)
  hsearch (some key) value action t = elim t.slots [
    | none ↦ (none, t)
    | some slots ↦
        settle key value action slots t.items (probe (length slots) 0 (hash_str key) key slots)
  ]
