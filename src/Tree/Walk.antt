-- ===== src/Tree/Walk.antt =====
-- twalk of src/search_tree.c visits the keys in order.
use vlibc.Base.{ℕ, ◌+◌, ◌≡◌, refl, ◌∙◌, ap, List, [], ◌∷◌, ◌++◌, append-nil}
use vlibc.Tree.{Tree, null, node, walk, twalk, Visit, preorder, postorder, endorder, leaf}
use vlibc.Tree.Find.{to_list}

module _ {ℓ} {K : Type ℓ} where
  -- The keys of the calls with `postorder` or `leaf`, which C calls the second visit.
  pub second_visits : List (K × Visit × ℕ) → List K
  second_visits [] = []
  second_visits ((k, preorder, level) ∷ es) = second_visits es
  second_visits ((k, endorder, level) ∷ es) = second_visits es
  second_visits ((k, postorder, level) ∷ es) = k ∷ second_visits es
  second_visits ((k, leaf, level) ∷ es) = k ∷ second_visits es

  second_visits-append :
      (es fs : List (K × Visit × ℕ))
      → second_visits (es ++ fs) ≡ second_visits es ++ second_visits fs
  unfolding second_visits
  second_visits-append [] fs = refl
  second_visits-append ((k, preorder, level) ∷ es) fs = second_visits-append es fs
  second_visits-append ((k, endorder, level) ∷ es) fs = second_visits-append es fs
  second_visits-append ((k, postorder, level) ∷ es) fs =
      ap (λ (t : List K). k ∷ t) (second_visits-append es fs)
  second_visits-append ((k, leaf, level) ∷ es) fs =
      ap (λ (t : List K). k ∷ t) (second_visits-append es fs)

  second_visits-walk : (t : Tree K) (level : ℕ) → second_visits (walk t level) ≡ to_list t
  unfolding second_visits walk to_list
  second_visits-walk null level = refl
  second_visits-walk (node null k null) level = refl
  second_visits-walk (node null k (node l' k' r')) level =
      ap (λ (t : List K). k ∷ t)
        (second_visits-append (walk (node l' k' r') (level + 1)) ((k, endorder, level) ∷ [])
          ∙ ap (λ (t : List K). t ++ []) (second_visits-walk (node l' k' r') (level + 1))
          ∙ append-nil (to_list (node l' k' r')))
  second_visits-walk (node (node l' k' r') k r) level =
      simp
        (second_visits-append, second_visits-walk (node l' k' r'), second_visits-walk r, append-nil)

  -- The keys that twalk reports with postorder or leaf are the keys of the tree from left to right,
  -- each once.
  pub second_visits-twalk : (t : Tree K) → second_visits (twalk t) ≡ to_list t
  unfolding twalk
  second_visits-twalk t = second_visits-walk t 0
