-- ===== src/Tree/Search.antt =====
-- kernel/tree.h: `find_node` finds the node of a key, if there is one.
use Prim.Native.Nat.{Ordering}
use bunix.Common.{◌≡◌, refl, sym, List, ◌∷◌, ◌++◌, Option, some, none, ◌⊎◌, inl, inr}
use bunix.Tree.{Node, Tree, leaf, branch, Frame, in_left, in_right, Cursor, plug, whole, find_from}
use bunix.Tree.Order.{
  KeyOrder, inorder, Sorted, Absent, Sorted-split, Absent-append, Absent-of_above, Absent-of_below,
  AllAbove-trans, AllBelow-trans, ne_of_lt,
}

-- The three outcomes of a comparison, with the equation.
pub Ordering-cases : (o : Ordering) → (o ≡ Ordering.eq) ⊎ ((o ≡ Ordering.lt) ⊎ (o ≡ Ordering.gt))
Ordering-cases Ordering.eq = inl refl
Ordering-cases Ordering.lt = inr (inl refl)
Ordering-cases Ordering.gt = inr (inr refl)

module _ {ℓ} {K V : Type ℓ} (cmp : K → K → Ordering) (o : KeyOrder cmp) where
  -- What the search of a subtree for a key says: a node of the tree with that key, or that no node
  -- of the subtree has it.
  abbrev pub Found : K → List (Node K V) → Tree K V → Option (Cursor K V) → Type ℓ
  Found key nodes t none = Absent key nodes
  Found key nodes t (some c) = (whole c ≡ t) × (c.node.key ≡ key)

  Absent-left :
      (key : K) (xs : List (Node K V)) (n : Node K V) (ys : List (Node K V))
      → Sorted cmp (xs ++ (n ∷ ys))
      → cmp key n.key ≡ Ordering.lt
      → Absent key xs
      → Absent key (xs ++ (n ∷ ys))
  Absent-left key xs n ys s h a =
      let (_, _, above, _) = Sorted-split cmp xs n ys s in
      Absent-append key xs (n ∷ ys) a (
        (λ e. ne_of_lt o key n.key h (sym e)),
        Absent-of_above cmp o key ys (AllAbove-trans cmp o key n.key ys h above),
      )

  Absent-right :
      (key : K) (xs : List (Node K V)) (n : Node K V) (ys : List (Node K V))
      → Sorted cmp (xs ++ (n ∷ ys))
      → cmp key n.key ≡ Ordering.gt
      → Absent key ys
      → Absent key (xs ++ (n ∷ ys))
  Absent-right key xs n ys s h a =
      let (_, below, _, _) = Sorted-split cmp xs n ys s in
      let h' : cmp n.key key ≡ Ordering.lt = o.gt_flip key n.key h in
      Absent-append key xs (n ∷ ys)
        (Absent-of_below cmp o key xs (AllBelow-trans cmp o n.key key xs h' below))
        (ne_of_lt o n.key key h', a)

  Found-more :
      (key : K) (xs ys : List (Node K V)) (t : Tree K V) (r : Option (Cursor K V))
      → (Absent key xs → Absent key ys)
      → Found key xs t r
      → Found key ys t r
  Found-more key xs ys t none f a = f a
  Found-more key xs ys t (some c) f a = a

  pub find_from-Found :
      (key : K) (t : Tree K V) (path : List (Frame K V))
      → Sorted cmp (inorder t)
      → Found key (inorder t) (plug t path) (find_from cmp key t path)
  unfolding find_from plug
  find_from-Found key leaf path s = tt
  find_from-Found key (branch l n r) path s =
      let (left, _, _, right) = Sorted-split cmp (inorder l) n (inorder r) s in
      elim (Ordering-cases (cmp key n.key)) [
        | inl e ↦ rw (e, find_from) (refl, sym (o.eq_of key n.key e))
        | inr (inl e) ↦
            rw (e, find_from)
              (Found-more key _ _ _ _ (Absent-left key (inorder l) n (inorder r) s e)
                (find_from-Found key l (in_left n r ∷ path) left))
        | inr (inr e) ↦
            rw (e, find_from)
              (Found-more key _ _ _ _ (Absent-right key (inorder l) n (inorder r) s e)
                (find_from-Found key r (in_right l n ∷ path) right))
      ]
