-- ===== src/Tree.antt =====
-- src/search_tree.c: tsearch, tfind, tdelete and twalk. A `struct node` that `*rootp` reaches is a node
-- of a tree; a returned `&node->key` is the key that the node holds. Whether malloc answers is an
-- argument of tsearch.
pub mod Ordered
pub mod Find
pub mod Delete
pub mod Walk
use vlibc.Base.{
  ℕ, zero, suc, ◌+◌, Bool, true, false, ◌&&◌, List, [], ◌∷◌, ◌++◌, Option, none, some,
  if◌then◌else◌,
}
use vlibc.Base.Int.{ℤ, is_positive, is_negative}

pub data Tree {ℓ} (K : Type ℓ) : Type ℓ where
  null : Tree K
  node : Tree K → K → Tree K → Tree K

module _ {ℓ} {K : Type ℓ} (compar : K → K → ℤ) where
  unfoldable pub tsearch : Bool → K → Tree K → Option K × Tree K
  tsearch alloc key null = if alloc then (some key, node null key null) else (none, null)
  tsearch alloc key (node l k r) =
      let left = tsearch alloc key l in
      let right = tsearch alloc key r in
      if is_negative (compar key k)
      then (left.0, node left.1 k r)
      else if is_positive (compar key k)
      then (right.0, node l k right.1)
      else (some k, node l k r)

  unfoldable pub tfind : K → Tree K → Option K
  tfind key null = none
  tfind key (node l k r) =
      let left = tfind key l in
      let right = tfind key r in
      if is_negative (compar key k)
      then left
      else if is_positive (compar key k)
      then right
      else some k

-- The key at the end of the left spine (of a tree with root `l k _`), and the tree without its node.
module _ {ℓ} {K : Type ℓ} where
  unfoldable pub least : Tree K → K → K
  least null k = k
  least (node l k' r) k = least l k'

  unfoldable pub drop_least : Tree K → K → Tree K → Tree K
  drop_least null k r = r
  drop_least (node l k' r') k r = node (drop_least l k' r') k r

  -- What stands in place of the node that is found.
  unfoldable pub unlink : Tree K → Tree K → Tree K
  unlink null r = r
  unlink (node l k l') null = node l k l'
  unlink (node l k l') (node rl rk rr) = node (node l k l') (least rl rk) (drop_least rl rk rr)

-- The pointer that tdelete returns: NULL, the key of the parent, or the key of a root, whose node may
-- be freed by then.
pub data Ret {ℓ} (K : Type ℓ) : Type ℓ where
  not_found : Ret K
  parent : K → Ret K
  root : Ret K

module _ {ℓ} {K : Type ℓ} (compar : K → K → ℤ) where
  -- The search loop with `ret` for the present parent, and what follows it.
  unfoldable pub tdelete_at : K → Ret K → Tree K → Ret K × Tree K
  tdelete_at key ret null = (not_found, null)
  tdelete_at key ret (node l k r) =
      let left = tdelete_at key (parent k) l in
      let right = tdelete_at key (parent k) r in
      if is_negative (compar key k)
      then (left.0, node left.1 k r)
      else if is_positive (compar key k)
      then (right.0, node l k right.1)
      else (ret, unlink l r)

  unfoldable pub tdelete : K → Tree K → Ret K × Tree K
  tdelete key t = tdelete_at key root t

pub data Visit : Type 0 where
  preorder postorder endorder leaf : Visit

-- The calls of `action`, in order.
module _ {ℓ} {K : Type ℓ} where
  unfoldable pub walk : Tree K → ℕ → List (K × Visit × ℕ)
  walk null level = []
  walk (node null k null) level = (k, leaf, level) ∷ []
  walk (node null k (node l' k' r')) level =
      (k, preorder, level)
      ∷ (k, postorder, level)
      ∷ (walk (node l' k' r') (level + 1) ++ (k, endorder, level) ∷ [])
  walk (node (node l' k' r') k r) level =
      (k, preorder, level)
      ∷ (walk (node l' k' r') (level + 1)
          ++ (k, postorder, level) ∷ (walk r (level + 1) ++ (k, endorder, level) ∷ []))

  pub twalk : Tree K → List (K × Visit × ℕ)
  twalk t = walk t 0
