-- ===== src/Tree.antt =====
-- kernel/tree.h (and its copy for user space, user/include/bunix/tree.h): binary search trees with
-- parent links. A tree is the data that the `left` and `right` links reach. A pointer to a node is a
-- cursor: the node, its two subtrees and the way up to the root, which is what `parent` gives.
pub mod Order
pub mod Shape
pub mod Search
pub mod Insert
pub mod Remove
pub mod Walk
pub mod Lookup
pub mod Ops
pub mod Laws
pub mod Wide
pub mod Names
mod Tests
use Prim.Native.Nat.{Ordering}
use bunix.Common.{
  ℕ, zero, suc, Option, none, some, List, [], ◌∷◌, Bool, true, false, if◌then◌else◌, ◌==◌, ◌-◌,
  ◌++◌, add64,
}

-- The fields of `struct tree_node` and `struct u64_tree_node` that are not links.
pub record Node {ℓ} (K V : Type ℓ) : Type ℓ where
  pub key : K
  pub value : V

pub data Tree {ℓ} (K V : Type ℓ) : Type ℓ where
  leaf : Tree K V
  branch : Tree K V → Node K V → Tree K V → Tree K V

-- A step up: to a parent whose left, or right, child one is.
pub data Frame {ℓ} (K V : Type ℓ) : Type ℓ where
  in_left : Node K V → Tree K V → Frame K V
  in_right : Tree K V → Node K V → Frame K V

pub record Cursor {ℓ} (K V : Type ℓ) : Type ℓ where
  pub left : Tree K V
  pub node : Node K V
  pub right : Tree K V
  pub path : List (Frame K V)

module _ {ℓ} {K V : Type ℓ} where
  -- The tree that a subtree becomes under its parents: what is reached from the root.
  unfoldable pub plug : Tree K V → List (Frame K V) → Tree K V
  plug t [] = t
  plug t (in_left n r ∷ path) = plug (branch t n r) path
  plug t (in_right l n ∷ path) = plug (branch l n t) path

  abbrev pub whole : Cursor K V → Tree K V
  whole c = plug (branch c.left c.node c.right) c.path

  -- `while (node->left != 0) node = node->left;` from the root of a branch.
  unfoldable pub descend_left : Tree K V → Node K V → Tree K V → List (Frame K V) → Cursor K V
  descend_left leaf n r path = record { left = leaf; node = n; right = r; path = path }
  descend_left (branch l m k) n r path = descend_left l m k (in_left n r ∷ path)

  unfoldable pub first_node : Tree K V → Option (Cursor K V)
  first_node leaf = none
  first_node (branch l n r) = some (descend_left l n r [])

  -- `while (current->parent != 0 && current == current->parent->right) current = current->parent;`
  -- and the parent after it.
  unfoldable pub climb : Tree K V → List (Frame K V) → Option (Cursor K V)
  climb t [] = none
  climb t (in_left n r ∷ path) = some (record { left = t; node = n; right = r; path = path })
  climb t (in_right l n ∷ path) = climb (branch l n t) path

  unfoldable pub next_from : Tree K V → Node K V → Tree K V → List (Frame K V) → Option (Cursor K V)
  next_from l n leaf path = climb (branch l n leaf) path
  next_from l n (branch a m b) path = some (descend_left a m b (in_right l n ∷ path))

  unfoldable pub next_node : Cursor K V → Option (Cursor K V)
  unfolding next_from
  next_node c = next_from c.left c.node c.right c.path

  -- `transplant(tree, old, new)`: the subtree `new` takes the place of the one at `old`.
  unfoldable pub transplant : List (Frame K V) → Tree K V → Tree K V
  unfolding plug
  transplant path new = plug new path

  -- The right subtree once its least node `next` is out of it. Where `next` is the root of that
  -- subtree its parent is the node that is removed, and its own right subtree stays in place.
  unfoldable pub without_from : Tree K V → List (Frame K V) → Tree K V
  without_from right [] = right
  without_from right (frame ∷ path) = transplant (frame ∷ path) right

  unfoldable pub without_next : Cursor K V → Tree K V
  unfolding without_from
  without_next next = without_from next.right next.path

  unfoldable pub remove_from : Tree K V → Tree K V → List (Frame K V) → Tree K V
  remove_from leaf right path = transplant path right
  remove_from (branch a m b) leaf path = transplant path (branch a m b)
  remove_from (branch a m b) (branch c n d) path =
      let next = descend_left c n d [] in
      transplant path (branch (branch a m b) next.node (without_next next))

module _ {ℓ} {K V : Type ℓ} (cmp : K → K → Ordering) where
  -- The loop of `find_node`.
  unfoldable pub find_from : K → Tree K V → List (Frame K V) → Option (Cursor K V)
  find_from key leaf path = none
  find_from key (branch l n r) path = elim (cmp key n.key) [
    | Ordering.eq ↦ some (record { left = l; node = n; right = r; path = path })
    | Ordering.lt ↦ find_from key l (in_left n r ∷ path)
    | Ordering.gt ↦ find_from key r (in_right l n ∷ path)
  ]

  -- The loop of `insert_node` and the write through the slot that it ends at; `none` where the key is
  -- in use.
  unfoldable pub insert_from : K → V → Tree K V → List (Frame K V) → Option (Tree K V)
  insert_from key value leaf path =
      some (plug (branch leaf (record { key = key; value = value }) leaf) path)
  insert_from key value (branch l n r) path = elim (cmp key n.key) [
    | Ordering.eq ↦ none
    | Ordering.lt ↦ insert_from key value l (in_left n r ∷ path)
    | Ordering.gt ↦ insert_from key value r (in_right l n ∷ path)
  ]

-- `struct tree` and `struct u64_tree`.
pub record Rooted {ℓ} (K V : Type ℓ) : Type ℓ where
  pub root : Tree K V
  pub count : ℕ

-- `if (tree->count != 0) tree->count--;`
abbrev pub less_one : ℕ → ℕ
less_one n = if n == 0 then 0 else n - 1
