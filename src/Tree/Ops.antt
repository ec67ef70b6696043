-- ===== src/Tree/Ops.antt =====
-- kernel/tree.h: the operations on a tree with its count, for any kind of key. `null_key` is the test
-- that the source makes on a key before it looks at the tree. Values are the addresses of the objects
-- that hold the nodes, 0 is none.
use Prim.Native.Nat.{Ordering}
use bunix.Common.{ℕ, Bool, true, false, ◌||◌, Option, none, some, if◌then◌else◌, ◌==◌, add64, []}
use bunix.Tree.{Tree, leaf, Rooted, Cursor, less_one, find_from, insert_from, remove_from}

module _ {ℓ} {K V : Type ℓ} where
  abbrev pub empty : Rooted K V
  empty = record { root = leaf; count = 0 }

module _ {K : Type 0} where
  -- The second half of `insert_node`: the slot's search and the count.
  unfoldable pub insert_result : Rooted K ℕ → Option (Tree K ℕ) → Bool × Rooted K ℕ
  insert_result t none = (false, t)
  insert_result t (some root) = (true, record { root = root; count = add64 t.count 1 })

module _ {K : Type 0} (cmp : K → K → Ordering) (null_key : K → Bool) where
  unfoldable pub find_node : Rooted K ℕ → K → Option (Cursor K ℕ)
  find_node t key = if null_key key then none else find_from cmp key t.root []

  unfoldable pub get : Rooted K ℕ → K → ℕ
  get t key = elim (find_node t key) [ none ↦ 0 | some c ↦ c.node.value ]

  -- `true` is the source's 0, `false` its -1.
  unfoldable pub insert_node : Rooted K ℕ → K → ℕ → Bool × Rooted K ℕ
  unfolding insert_result
  insert_node t key value =
      if null_key key || value == 0
      then (false, t)
      else insert_result t (insert_from cmp key value t.root [])

module _ {K : Type 0} where
  -- The removed node's own fields are cleared, which nothing in the tree shows.
  unfoldable pub remove_node : Rooted K ℕ → Cursor K ℕ → Rooted K ℕ
  remove_node t c = record { root = remove_from c.left c.right c.path; count = less_one t.count }
