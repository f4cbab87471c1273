-- ===== src/Hash/Probe.antt =====
-- The probing loop of src/search_hash.c over a table in which one free slot is filled.
use vlibc.Base.{
  ℕ, zero, suc, ◌+◌, ◌≡◌, refl, true, List, [], ◌∷◌, none, some, arith, length, Bool-cases,
  Option-cases, inl, inr,
}
use vlibc.Hash.{Entry, Slots, Stop, vacant, matched, exhausted, same_key, slot_at, place, probe}

pub same_key_refl : (k : List ℕ) → same_key k k ≡ true
unfolding same_key
same_key_refl [] = refl
same_key_refl (c ∷ k) = ground (arith, same_key_refl k)

pub same_key_eq : (j k : List ℕ) → same_key j k ≡ true → j ≡ k
unfolding same_key
same_key_eq [] [] h = refl
same_key_eq [] (d ∷ k) h = cc
same_key_eq (c ∷ j) [] h = cc
same_key_eq (c ∷ j) (d ∷ k) h = ground (arith, same_key_eq j k)

module _ {ℓ} {D : Type ℓ} where
  -- A match is at a slot with the key; a vacant slot is not used.
  abbrev pub Fair : Slots D → List ℕ → Stop → Type ℓ
  Fair slots key (vacant i) = slot_at slots i ≡ none
  Fair slots key (matched i) = (e : Entry D) × (slot_at slots i ≡ some e) × (e.key ≡ key)
  Fair slots key exhausted = Unit

  pub probe-Fair :
      (n i h : ℕ) (key : List ℕ) (slots : Slots D) → Fair slots key (probe n i h key slots)
  unfolding probe
  probe-Fair zero i h key slots = tt
  probe-Fair (suc n) i h key slots =
      elim (Option-cases (slot_at slots (place h i (length slots)))) [
        | inl e ↦ rw e e
        | inr (x, e) ↦ rw e (elim (Bool-cases (same_key x.key key)) [
          | inl q ↦ rw q (x, e, same_key_eq x.key key q)
          | inr q ↦ rw q (probe-Fair n (i + 1) h key slots)
        ])
      ]
