-- ===== src/Tree/Tests.antt =====
-- Runs of kernel/tree.h on a tree of six keys.
use Prim.Native.Nat.{compare}
use bunix.Common.{ℕ, ◌≡◌, refl, ◌*◌, ◌∷◌, [], List, if◌then◌else◌, arith}
use bunix.Tree.{
  Node, leaf, branch, insert_from, remove_from, first_node, descend_left, without_next, plug,
  transplant,
}
use bunix.Tree.Order.{inorder}
use bunix.Tree.Lookup.{is_eq, lookup}
use bunix.Tree.Ops.{insert_node, remove_node}
use bunix.Tree.Laws.{InsertNode, insert_node-InsertNode, remove_node_lem, get-eq-lookup, or_zero}
use bunix.Tree.Walk.{visit, visit-first_node}
use bunix.Tree.Wide.{
  U64Tree, U64WellFormed, U64TreeNode, is_zero, compare-KeyOrder, u64_tree_init,
  u64_tree_insert_node, u64_tree_remove_node, u64_tree_get,
}

abbrev one : ℕ → Node ℕ ℕ
one key = record { key = key; value = key * 10 }

abbrev six : U64Tree
six = record {
  root =
      branch (branch leaf (one 3) (branch leaf (one 4) leaf)) (one 5)
        (branch (branch leaf (one 7) leaf) (one 8) (branch leaf (one 9) leaf));
  count = 6;
}

insert_all : U64Tree → List ℕ → U64Tree
insert_all t [] = t
insert_all t (k ∷ ks) = insert_all (u64_tree_insert_node t k (k * 10)).1 ks

six_built : insert_all u64_tree_init (5 ∷ 3 ∷ 8 ∷ 4 ∷ 7 ∷ 9 ∷ []) ≡ six
unfolding insert_all insert_node insert_from plug
six_built = refl

six-WellFormed : U64WellFormed six
six-WellFormed = record { valued = ground arith; sorted = ground arith; counted = refl }

-- The root, with both children.
abbrev root_of_six : U64TreeNode
root_of_six = record {
  left = branch leaf (one 3) (branch leaf (one 4) leaf);
  node = one 5;
  right = branch (branch leaf (one 7) leaf) (one 8) (branch leaf (one 9) leaf);
  path = [];
}

removed_root :
    inorder (u64_tree_remove_node six root_of_six).root ≡ one 3 ∷ one 4 ∷ one 7 ∷ one 8 ∷ one 9 ∷ []
unfolding remove_node remove_from descend_left without_next transplant plug
removed_root = refl

insert_node-InsertNode_example :
    InsertNode compare compare-KeyOrder is_zero six 6 60 (u64_tree_insert_node six 6 60)
insert_node-InsertNode_example =
    insert_node-InsertNode compare compare-KeyOrder is_zero six 6 60 six-WellFormed (omega arith)

remove_node_lem_example :
    U64WellFormed (remove_node six root_of_six)
    × ((j : ℕ)
        → u64_tree_get (remove_node six root_of_six) j
          ≡ (if is_eq (compare j 5) then 0 else u64_tree_get six j))
unfolding plug
remove_node_lem_example =
    remove_node_lem compare compare-KeyOrder is_zero six root_of_six six-WellFormed refl

get-eq-lookup_example : u64_tree_get six 7 ≡ (
    if is_zero 7
    then 0
    else or_zero compare compare-KeyOrder is_zero (lookup compare 7 (inorder six.root)))
get-eq-lookup_example = get-eq-lookup compare compare-KeyOrder is_zero six 7 six-WellFormed

visit-first_node_example : visit 7 (first_node six.root) ≡ inorder six.root
visit-first_node_example = visit-first_node 7 six.root (omega arith)
