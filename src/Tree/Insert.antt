-- ===== src/Tree/Insert.antt =====
-- kernel/tree.h: `insert_node` puts a node where the order wants it.
use Prim.Native.Nat.{Ordering}
use mathlib.Core.List.{append_assoc, append-nil}
use bunix.Common.{◌≡◌, refl, ◌∙◌, sym, List, [], ◌∷◌, ◌++◌, Option, some, none, inl, inr}
use bunix.Tree.{Node, Tree, leaf, branch, Frame, in_left, in_right, insert_from}
use bunix.Tree.Order.{
  KeyOrder, inorder, Sorted, AllBelow, AllAbove, Sorted-split, AllBelow-append, AllAbove-append,
  AllAbove-trans, AllBelow-trans,
}
use bunix.Tree.Shape.{before, after, inorder-plug}
use bunix.Tree.Search.{Ordering-cases}

module _ {ℓ} {K V : Type ℓ} (cmp : K → K → Ordering) (o : KeyOrder cmp) where
  -- The key is in use; or the new node stands behind the nodes below its key and before those above,
  -- with the nodes `left` and `right` of the rest of the tree around them.
  abbrev pub Inserted :
      Node K V → List (Node K V) → List (Node K V) → List (Node K V) → Option (Tree K V) → Type ℓ
  Inserted new left nodes right none =
      (xs : List (Node K V)) × (n : Node K V) × (ys : List (Node K V)) × (nodes ≡ xs ++ (n ∷ ys))
      × (n.key ≡ new.key)
  Inserted new left nodes right (some t') =
      (xs : List (Node K V)) × (ys : List (Node K V)) × (nodes ≡ xs ++ ys)
      × AllBelow cmp new.key xs
      × AllAbove cmp new.key ys
      × (inorder t' ≡ (left ++ xs) ++ (new ∷ (ys ++ right)))

  go_left :
      (new : Node K V) (left nodes right : List (Node K V)) (n : Node K V) (rest : List (Node K V))
      (r : Option (Tree K V))
      → AllAbove cmp new.key (n ∷ rest)
      → Inserted new left nodes (n ∷ (rest ++ right)) r
      → Inserted new left (nodes ++ (n ∷ rest)) right r
  go_left new left nodes right n rest none a (xs, m, ys, e, k) =
      (xs, m, ys ++ (n ∷ rest), rw e (simp append_assoc), k)
  go_left new left nodes right n rest (some t') a (xs, ys, e, b, c, f) = (
    xs,
    ys ++ (n ∷ rest),
    rw e (simp append_assoc),
    b,
    AllAbove-append cmp new.key ys (n ∷ rest) c a,
    f ∙ simp append_assoc,
  )

  go_right :
      (new : Node K V) (left nodes right : List (Node K V)) (n : Node K V) (rest : List (Node K V))
      (r : Option (Tree K V))
      → AllBelow cmp new.key rest
      → cmp n.key new.key ≡ Ordering.lt
      → Inserted new (left ++ (rest ++ (n ∷ []))) nodes right r
      → Inserted new left (rest ++ (n ∷ nodes)) right r
  go_right new left nodes right n rest none a h (xs, m, ys, e, k) =
      (rest ++ (n ∷ xs), m, ys, rw e (simp append_assoc), k)
  go_right new left nodes right n rest (some t') a h (xs, ys, e, b, c, f) = (
    rest ++ (n ∷ xs),
    ys,
    rw e (simp append_assoc),
    AllBelow-append cmp new.key rest (n ∷ xs) a (h, b),
    c,
    f ∙ simp append_assoc,
  )

  pub insert_from-Inserted :
      (key : K) (value : V) (t : Tree K V) (path : List (Frame K V))
      → Sorted cmp (inorder t)
      → Inserted
          (record { key = key; value = value })
          (before path)
          (inorder t)
          (after path)
          (insert_from cmp key value t path)
  unfolding insert_from
  insert_from-Inserted key value leaf path s = (
    [],
    [],
    refl,
    tt,
    tt,
    inorder-plug (branch leaf (record { key = key; value = value }) leaf) path ∙ simp append-nil,
  )
  insert_from-Inserted key value (branch l n r) path s =
      let new : Node K V = record { key = key; value = value } in
      let (left, below, above, right) = Sorted-split cmp (inorder l) n (inorder r) s in
      elim (Ordering-cases (cmp key n.key)) [
        | inl e ↦ rw (e, insert_from) (inorder l, n, inorder r, refl, sym (o.eq_of key n.key e))
        | inr (inl e) ↦
            rw (e, insert_from)
              (go_left new (before path) (inorder l) (after path) n (inorder r) _
                (e, AllAbove-trans cmp o key n.key (inorder r) e above)
                (insert_from-Inserted key value l (in_left n r ∷ path) left))
        | inr (inr e) ↦
            rw (e, insert_from)
              (let h : cmp n.key key ≡ Ordering.lt = o.gt_flip key n.key e in
                go_right new (before path) (inorder r) (after path) n (inorder l) _
                  (AllBelow-trans cmp o n.key key (inorder l) h below) h
                  (insert_from-Inserted key value r (in_right l n ∷ path) right))
      ]
