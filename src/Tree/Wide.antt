-- ===== src/Tree/Wide.antt =====
-- kernel/tree.h: the tree keyed by `u64`, with 0 no key.
use Prim.Native.Nat.{Ordering, compare}
use bunix.Common.{ℕ, ◌≡◌, Bool, Option, arith, ◌==◌}
use bunix.Tree.{Rooted, Cursor, first_node, next_node}
use bunix.Tree.Order.{KeyOrder}
use bunix.Tree.Ops.{empty, find_node, get, insert_node, remove_node}
use bunix.Tree.Laws.{WellFormed}

abbrev pub U64Tree : Type 0
U64Tree = Rooted ℕ ℕ

abbrev pub U64TreeNode : Type 0
U64TreeNode = Cursor ℕ ℕ

abbrev pub is_zero : ℕ → Bool
is_zero key = key == 0

abbrev pub u64_tree_init : U64Tree
u64_tree_init = empty

abbrev pub u64_tree_find_node : U64Tree → ℕ → Option U64TreeNode
u64_tree_find_node = find_node compare is_zero

abbrev pub u64_tree_get : U64Tree → ℕ → ℕ
u64_tree_get = get compare is_zero

abbrev pub u64_tree_first_node : U64Tree → Option U64TreeNode
u64_tree_first_node t = first_node t.root

abbrev pub u64_tree_next_node : U64TreeNode → Option U64TreeNode
u64_tree_next_node = next_node

abbrev pub u64_tree_insert_node : U64Tree → ℕ → ℕ → Bool × U64Tree
u64_tree_insert_node = insert_node compare is_zero

abbrev pub u64_tree_remove_node : U64Tree → U64TreeNode → U64Tree
u64_tree_remove_node = remove_node

compare-eq_of : (a b : ℕ) → compare a b ≡ Ordering.eq → a ≡ b
compare-eq_of a b h = ground arith

compare_self : (a : ℕ) → compare a a ≡ Ordering.eq
compare_self a = ground arith

compare-gt_flip : (a b : ℕ) → compare a b ≡ Ordering.gt → compare b a ≡ Ordering.lt
compare-gt_flip a b h = ground arith

compare_trans :
    (a b c : ℕ) → compare a b ≡ Ordering.lt → compare b c ≡ Ordering.lt → compare a c ≡ Ordering.lt
compare_trans a b c h k = ground arith

-- The order of the keys is that of the numbers.
pub compare-KeyOrder : KeyOrder compare
compare-KeyOrder = record {
  eq_of = compare-eq_of;
  self = compare_self;
  gt_flip = compare-gt_flip;
  trans = compare_trans;
}

abbrev pub U64WellFormed : U64Tree → Type 0
U64WellFormed = WellFormed compare compare-KeyOrder is_zero
