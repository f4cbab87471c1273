-- ===== src/Hash/Filling.antt =====
-- src/search_hash.c: how the probing loop of hsearch changes when one free slot is filled.
use vlibc.Base.{
  ℕ, zero, suc, ap, ◌+◌, ◌<◌, ◌≡◌, ◌≢◌, refl, sym, ◌∙◌, Bool, List, none, some, arith, length, set,
  subst, Bool-cases, Option-cases, inl, inr, get_or-set_self, get_or-set_ne, length-set,
  if◌then◌else◌,
}
use vlibc.Hash.{Entry, Slots, vacant, matched, exhausted, same_key, slot_at, place, visit, probe}
use vlibc.Hash.Probe.{same_key_refl, Fair, probe-Fair}

place_lt : (h i size : ℕ) → size ≢ 0 → place h i size < size
place_lt h i size e = omega arith

module _ {ℓ} {D : Type ℓ} where
  -- One round of the loop.
  probe-suc :
      (n i h : ℕ) (key : List ℕ) (slots : Slots D)
      → probe (suc n) i h key slots
        ≡ visit key
            (place h i (length slots))
            (slot_at slots (place h i (length slots)))
            (probe n (i + 1) h key slots)
  unfolding probe
  probe-suc n i h key slots = refl

  -- A slot the loop stops at as vacant is not used.
  pub probe-unused :
      (n i h : ℕ) (key : List ℕ) (slots : Slots D) (idx : ℕ)
      → probe n i h key slots ≡ vacant idx
      → slot_at slots idx ≡ none
  probe-unused n i h key slots idx q = subst (Fair slots key) q (probe-Fair n i h key slots)

  some_ne :
      (slots : Slots D) (i j : ℕ) (x : Entry D)
      → slot_at slots i ≡ none
      → slot_at slots j ≡ some x
      → i ≢ j
  some_ne slots i j x a b = λ e. cc

  -- The two ways a round goes on.
  probe-suc_vacant :
      (n i h p : ℕ) (key : List ℕ) (slots : Slots D)
      → place h i (length slots) ≡ p
      → slot_at slots p ≡ none
      → probe (suc n) i h key slots ≡ vacant p
  unfolding probe
  probe-suc_vacant n i h p key slots e o = rw e (rw o refl)

  probe-suc_entry :
      (n i h p : ℕ) (key : List ℕ) (slots : Slots D) (x : Entry D)
      → place h i (length slots) ≡ p
      → slot_at slots p ≡ some x
      → probe (suc n) i h key slots
        ≡ (if same_key x.key key then matched p else probe n (i + 1) h key slots)
  unfolding probe
  probe-suc_entry n i h p key slots x e o = rw e (rw o refl)

  -- The slot a new key is put in is the slot the loop finds it at afterwards.
  pub probe-set_self :
      (n i h : ℕ) (e : Entry D) (slots : Slots D) (idx : ℕ)
      → idx < length slots
      → probe n i h e.key slots ≡ vacant idx
      → probe n i h e.key (set slots idx (some e)) ≡ matched idx
  unfolding probe
  probe-set_self zero i h e slots idx lt q = cc
  probe-set_self (suc n) i h e slots idx lt q =
      let p : ℕ = place h i (length slots) in
      let s : Slots D = set slots idx (some e) in
      let l : place h i (length s) ≡ p = ap (place h i) (length-set slots idx (some e)) in
      elim (Option-cases (slot_at slots p)) [
        | inl o ↦
            let v : vacant p ≡ vacant idx = sym (probe-suc_vacant n i h p e.key slots refl o) ∙ q in
            let m : p ≡ idx = cc in
            let g : slot_at s p ≡ some e =
              ap (slot_at s) m ∙ get_or-set_self slots idx (some e) none lt in
            probe-suc_entry n i h p e.key s e l g ∙ (rw (same_key_refl e.key) (ap matched m))
        | inr (x, o) ↦
            let r = sym (probe-suc_entry n i h p e.key slots x refl o) ∙ q in
            elim (Bool-cases (same_key x.key e.key)) [
              | inl k ↦
                  let w : matched p ≡ vacant idx =
                    subst
                      (λ b. (if b then matched p else probe n (i + 1) h e.key slots) ≡ vacant idx) k
                      r in
                  cc
              | inr k ↦
                  let w : probe n (i + 1) h e.key slots ≡ vacant idx =
                    subst
                      (λ b. (if b then matched p else probe n (i + 1) h e.key slots) ≡ vacant idx) k
                      r in
                  let u : idx ≢ p =
                    some_ne slots idx p x (probe-unused n (i + 1) h e.key slots idx w) o in
                  let g : slot_at s p ≡ some x = get_or-set_ne slots idx p (some e) none u ∙ o in
                  probe-suc_entry n i h p e.key s x l g
                  ∙ (rw k (probe-set_self n (i + 1) h e slots idx lt w))
            ]
      ]

  -- A key that was found is found at the same slot after a free slot is filled.
  pub probe-set_other :
      (n i h : ℕ) (key : List ℕ) (e : Entry D) (slots : Slots D) (idx j : ℕ)
      → slot_at slots idx ≡ none
      → probe n i h key slots ≡ matched j
      → probe n i h key (set slots idx (some e)) ≡ matched j
  unfolding probe
  probe-set_other zero i h key e slots idx j free q = cc
  probe-set_other (suc n) i h key e slots idx j free q =
      let p : ℕ = place h i (length slots) in
      let s : Slots D = set slots idx (some e) in
      let l : place h i (length s) ≡ p = ap (place h i) (length-set slots idx (some e)) in
      elim (Option-cases (slot_at slots p)) [
        | inl o ↦
            let v : vacant p ≡ matched j = sym (probe-suc_vacant n i h p key slots refl o) ∙ q in cc
        | inr (x, o) ↦
            let r = sym (probe-suc_entry n i h p key slots x refl o) ∙ q in
            let u : idx ≢ p = some_ne slots idx p x free o in
            let g : slot_at s p ≡ some x = get_or-set_ne slots idx p (some e) none u ∙ o in
            probe-suc_entry n i h p key s x l g ∙ (elim (Bool-cases (same_key x.key key)) [
              | inl k ↦ rw k (
                  subst (λ b. (if b then matched p else probe n (i + 1) h key slots) ≡ matched j) k
                    r)
              | inr k ↦ rw k (
                  probe-set_other n (i + 1) h key e slots idx j free (
                    subst (λ b. (if b then matched p else probe n (i + 1) h key slots) ≡ matched j)
                      k r))
            ])
      ]

  pub probe-vacant_lt :
      (n i h : ℕ) (key : List ℕ) (slots : Slots D) (idx : ℕ)
      → length slots ≢ 0
      → probe n i h key slots ≡ vacant idx
      → idx < length slots
  unfolding probe
  probe-vacant_lt zero i h key slots idx ne q = absurd (let m : exhausted ≡ vacant idx = q in cc)
  probe-vacant_lt (suc n) i h key slots idx ne q =
      let p : ℕ = place h i (length slots) in
      elim (Option-cases (slot_at slots p)) [
        | inl o ↦
            let v : vacant p ≡ vacant idx = sym (probe-suc_vacant n i h p key slots refl o) ∙ q in
            let m : p ≡ idx = cc in subst (λ k. k < length slots) m (place_lt h i (length slots) ne)
        | inr (x, o) ↦
            let r = sym (probe-suc_entry n i h p key slots x refl o) ∙ q in
            let ends : Bool → Type 0 =
              λ b. (if b then matched p else probe n (i + 1) h key slots) ≡ vacant idx in
            elim (Bool-cases (same_key x.key key)) [
              | inl k ↦ absurd (let w : matched p ≡ vacant idx = subst ends k r in cc)
              | inr k ↦ probe-vacant_lt n (i + 1) h key slots idx ne (subst ends k r)
            ]
      ]
