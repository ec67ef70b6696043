-- ===== src/Tree/Remove.antt =====
-- kernel/tree.h: removing a node takes that node out and leaves the others in their order.
use mathlib.Core.List.{append_assoc, append-nil}
use bunix.Common.{◌≡◌, refl, ◌∙◌, sym, ap, List, [], ◌∷◌, ◌++◌}
use bunix.Tree.{
  Node, Tree, leaf, branch, Frame, plug, whole, descend_left, remove_from, without_next,
  without_from, transplant,
}
use bunix.Tree.Order.{inorder}
use bunix.Tree.Shape.{before, after, right_of, inorder-plug, inorder-whole, descend_left_lem}

module _ {ℓ} {K V : Type ℓ} where
  without_from-eq-plug :
      (right : Tree K V) (path : List (Frame K V)) → without_from right path ≡ plug right path
  unfolding without_from transplant plug
  without_from-eq-plug right [] = refl
  without_from-eq-plug right (frame ∷ path) = refl

  nil_of_append : (xs ys : List (Node K V)) → ys ≡ [] → xs ++ ys ≡ [] → xs ≡ []
  nil_of_append xs ys e h = sym (append-nil xs) ∙ ap (λ l. xs ++ l) (sym e) ∙ h

  -- The least node and what is left without it are the nodes of the subtree.
  inorder-without_next :
      (l : Tree K V) (n : Node K V) (r : Tree K V)
      → let next = descend_left l n r [] in
        next.node ∷ inorder (without_next next) ≡ inorder (branch l n r)
  unfolding without_next plug
  inorder-without_next l n r =
      let next = descend_left l n r [] in
      let (all, none_left, bare, _) = descend_left_lem l n r [] in
      let clear : before next.path ≡ [] =
        nil_of_append (before next.path) (inorder next.left) (ap inorder bare) none_left in
      let whole_of : inorder (whole next) ≡ inorder (branch l n r) = ap inorder all in
      let rest : inorder (without_next next) ≡ right_of next =
        ap inorder (without_from-eq-plug next.right next.path)
        ∙ (inorder-plug next.right next.path ∙ rw clear) in
      let from_next : inorder (whole next) ≡ next.node ∷ right_of next =
        inorder-whole next ∙ rw none_left in
      rw rest (sym from_next ∙ whole_of)

  -- What is left after the node at a cursor is removed.
  pub inorder-remove_from :
      (l r : Tree K V) (path : List (Frame K V))
      → inorder (remove_from l r path) ≡ (before path ++ inorder l) ++ (inorder r ++ after path)
  unfolding remove_from transplant
  inorder-remove_from leaf r path = inorder-plug r path ∙ simp (append-nil, append_assoc)
  inorder-remove_from (branch a m b) leaf path =
      inorder-plug (branch a m b) path ∙ simp append_assoc
  inorder-remove_from (branch a m b) (branch c n d) path =
      inorder-plug _ path ∙ rw (inorder-without_next c n d) (simp append_assoc)
