-- ===== src/Tree/Walk.antt =====
-- kernel/tree.h: `first_node` and `next_node` visit the nodes in order, each once.
use mathlib.Core.List.{append_assoc, append-nil}
use bunix.Common.{
  ℕ, zero, suc, ◌<◌, ◌≡◌, refl, ◌∙◌, sym, ap, List, [], ◌∷◌, ◌++◌, Option, some, none, arith,
  length,
}
use bunix.Tree.{
  Node, Tree, leaf, branch, Frame, in_left, in_right, Cursor, plug, whole, descend_left, first_node,
  climb, next_from, next_node,
}
use bunix.Tree.Order.{inorder}
use bunix.Tree.Shape.{before, after, left_of, right_of, descend_left_lem}

module _ {ℓ} {K V : Type ℓ} where
  -- A cursor on the first of the nodes `ys` of a tree, behind the nodes `xs`; no cursor if there is
  -- none.
  abbrev pub Stands : List (Node K V) → List (Node K V) → Tree K V → Option (Cursor K V) → Type ℓ
  Stands xs ys t none = ys ≡ []
  Stands xs ys t (some c) = (left_of c ≡ xs) × (c.node ∷ right_of c ≡ ys) × (whole c ≡ t)

  climb-Stands :
      (t : Tree K V) (path : List (Frame K V))
      → Stands (before path ++ inorder t) (after path) (plug t path) (climb t path)
  unfolding climb plug
  climb-Stands t [] = refl
  climb-Stands t (in_left n r ∷ path) = (refl, refl, refl)
  climb-Stands t (in_right l n ∷ path) =
      let e : before path ++ (inorder l ++ (n ∷ inorder t))
          ≡ (before path ++ (inorder l ++ (n ∷ []))) ++ inorder t =
        simp append_assoc in
      rw (← e) (climb-Stands (branch l n t) path)

  descend-Stands :
      (l : Tree K V) (n : Node K V) (r : Tree K V) (path : List (Frame K V))
      → Stands
          (before path)
          (inorder (branch l n r) ++ after path)
          (plug (branch l n r) path)
          (some (descend_left l n r path))
  descend-Stands l n r path =
      let (all, none_left, bare, rest) = descend_left_lem l n r path in (none_left, rest, all)

  next_from-Stands :
      (l : Tree K V) (n : Node K V) (r : Tree K V) (path : List (Frame K V))
      → Stands
          (before path ++ (inorder l ++ (n ∷ [])))
          (inorder r ++ after path)
          (plug (branch l n r) path)
          (next_from l n r path)
  unfolding next_from plug
  next_from-Stands l n leaf path = climb-Stands (branch l n leaf) path
  next_from-Stands l n (branch a m b) path = descend-Stands a m b (in_right l n ∷ path)

  -- `next_node` goes to the node that follows, and to none from the last.
  pub next_node-Stands :
      (c : Cursor K V) → Stands (left_of c ++ (c.node ∷ [])) (right_of c) (whole c) (next_node c)
  unfolding next_node
  next_node-Stands c =
      let e : before c.path ++ (inorder c.left ++ (c.node ∷ [])) ≡ left_of c ++ (c.node ∷ []) =
        simp append_assoc in
      rw (← e) (next_from-Stands c.left c.node c.right c.path)

  -- `first_node` goes to the first node, and to none in the empty tree.
  pub first_node-Stands : (t : Tree K V) → Stands [] (inorder t) t (first_node t)
  unfolding first_node plug
  first_node-Stands leaf = refl
  first_node-Stands (branch l n r) =
      let (a, b, c) = descend-Stands l n r [] in (a, b ∙ append-nil _, c)

  -- The loop over all nodes, on fuel.
  unfoldable pub visit : ℕ → Option (Cursor K V) → List (Node K V)
  visit zero c = []
  visit (suc fuel) none = []
  visit (suc fuel) (some c) = c.node ∷ visit fuel (next_node c)

  visit-Stands :
      (fuel : ℕ) (xs ys : List (Node K V)) (t : Tree K V) (c : Option (Cursor K V))
      → length ys < fuel
      → Stands xs ys t c
      → visit fuel c ≡ ys
  unfolding visit
  visit-Stands zero xs ys t c h s = absurd (omega arith)
  visit-Stands (suc fuel) xs ys t none h s = sym s
  visit-Stands (suc fuel) xs ys t (some c) h s =
      ap (◌∷◌ c.node) (
        visit-Stands fuel _ (right_of c) (whole c) (next_node c) (omega (arith, ap length s.1))
          (next_node-Stands c))
      ∙ s.1

  -- The loop from first_node by next_node, with fuel for more steps than there are nodes, visits
  -- the nodes of the tree in order, each once.
  pub visit-first_node :
      (fuel : ℕ) (t : Tree K V) → length (inorder t) < fuel → visit fuel (first_node t) ≡ inorder t
  visit-first_node fuel t h =
      visit-Stands fuel [] (inorder t) t (first_node t) h (first_node-Stands t)
