-- ===== src/Tree/Shape.antt =====
-- kernel/tree.h: where a cursor stands among the nodes of its tree.
use mathlib.Core.List.{append_assoc, append-nil}
use bunix.Common.{◌≡◌, refl, ◌∙◌, List, [], ◌∷◌, ◌++◌}
use bunix.Tree.{
  Node, Tree, leaf, branch, Frame, in_left, in_right, Cursor, plug, whole, descend_left,
}
use bunix.Tree.Order.{inorder}

module _ {ℓ} {K V : Type ℓ} where
  -- The nodes to the left, and to the right, of everything below a path.
  abbrev pub before : List (Frame K V) → List (Node K V)
  before [] = []
  before (in_left n r ∷ path) = before path
  before (in_right l n ∷ path) = before path ++ (inorder l ++ (n ∷ []))

  abbrev pub after : List (Frame K V) → List (Node K V)
  after [] = []
  after (in_left n r ∷ path) = n ∷ (inorder r ++ after path)
  after (in_right l n ∷ path) = after path

  abbrev pub left_of : Cursor K V → List (Node K V)
  left_of c = before c.path ++ inorder c.left

  abbrev pub right_of : Cursor K V → List (Node K V)
  right_of c = inorder c.right ++ after c.path

  pub inorder-plug :
      (t : Tree K V) (path : List (Frame K V))
      → inorder (plug t path) ≡ before path ++ (inorder t ++ after path)
  unfolding plug
  inorder-plug t [] = simp append-nil
  inorder-plug t (in_left n r ∷ path) = inorder-plug (branch t n r) path ∙ simp append_assoc
  inorder-plug t (in_right l n ∷ path) = inorder-plug (branch l n t) path ∙ simp append_assoc

  pub inorder-whole : (c : Cursor K V) → inorder (whole c) ≡ left_of c ++ (c.node ∷ right_of c)
  inorder-whole c = inorder-plug (branch c.left c.node c.right) c.path ∙ simp append_assoc

  -- Going down to the least node of a subtree passes nothing on the left.
  pub descend_left_lem :
      (l : Tree K V) (n : Node K V) (r : Tree K V) (path : List (Frame K V))
      → let c = descend_left l n r path in
        (whole c ≡ plug (branch l n r) path)
        × (left_of c ≡ before path)
        × (c.left ≡ leaf)
        × (c.node ∷ right_of c ≡ inorder (branch l n r) ++ after path)
  unfolding descend_left plug
  descend_left_lem leaf n r path = (refl, append-nil (before path), refl, refl)
  descend_left_lem (branch a m b) n r path =
      let (all, none_left, bare, rest) = descend_left_lem a m b (in_left n r ∷ path) in
      (all, none_left, bare, rest ∙ simp append_assoc)
