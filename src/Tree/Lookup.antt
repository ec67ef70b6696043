-- ===== src/Tree/Lookup.antt =====
-- kernel/tree.h: the tree as a finite map from keys to values.
use Prim.Native.Nat.{Ordering}
use bunix.Common.{
  Bool, true, false, if◌then◌else◌, Bool-cases, ◌≡◌, refl, ◌∙◌, sym, ap, List, [], ◌∷◌, ◌++◌,
  Option, some, none, arith, ◌⊎◌, inl, inr, ◌≢◌, Option-cases,
}
use bunix.Tree.{Node, Tree, Cursor, plug, whole, find_from}
use bunix.Tree.Order.{
  KeyOrder, inorder, Sorted, Absent, AllBelow, Sorted-split, Absent-append, Absent-of_above,
  Absent-of_below, ne_of_lt,
}
use bunix.Tree.Shape.{left_of, right_of, inorder-whole}
use bunix.Tree.Search.{Ordering-cases, find_from-Found}

abbrev pub is_eq : Ordering → Bool
is_eq Ordering.eq = true
is_eq _ = false

unfoldable pub value_at {ℓ} : {K V : Type ℓ} → Option (Cursor K V) → Option V
value_at none = none
value_at (some c) = some c.node.value

module _ {ℓ} {K : Type ℓ} (cmp : K → K → Ordering) (o : KeyOrder cmp) where
  pub is_eq_self : (k : K) → is_eq (cmp k k) ≡ true
  is_eq_self k = ground (arith, o.self k)

  pub is_eq_ne : (j k : K) → k ≢ j → is_eq (cmp j k) ≡ false
  is_eq_ne j k ne = elim (Bool-cases (is_eq (cmp j k))) [
    | inr e ↦ e
    | inl e ↦ absurd (ne (sym (o.eq_of j k (ground arith))))
  ]

  -- Two keys are the same or not.
  pub key-cases : (j k : K) → (k ≡ j) ⊎ (k ≢ j)
  key-cases j k = elim (Ordering-cases (cmp j k)) [
    | inl e ↦ inl (sym (o.eq_of j k e))
    | inr (inl e) ↦ inr (λ q. ne_of_lt o j k e (sym q))
    | inr (inr e) ↦ inr (ne_of_lt o k j (o.gt_flip j k e))
  ]

module _ {ℓ} {K V : Type ℓ} (cmp : K → K → Ordering) where
  -- The value at a key in a list of nodes.
  unfoldable pub lookup : K → List (Node K V) → Option V
  lookup key [] = none
  lookup key (n ∷ ns) = if is_eq (cmp key n.key) then some n.value else lookup key ns

  module _ (o : KeyOrder cmp) where
    pub lookup-Absent : (key : K) (xs : List (Node K V)) → Absent key xs → lookup key xs ≡ none
    unfolding lookup
    lookup-Absent key [] a = refl
    lookup-Absent key (n ∷ ns) a = rw (is_eq_ne cmp o key n.key a.0) (lookup-Absent key ns a.1)

    pub lookup_skip :
        (key : K) (xs : List (Node K V)) (n : Node K V) (ys : List (Node K V))
        → n.key ≢ key
        → lookup key (xs ++ (n ∷ ys)) ≡ lookup key (xs ++ ys)
    unfolding lookup
    lookup_skip key [] n ys ne = rw (is_eq_ne cmp o key n.key ne)
    lookup_skip key (x ∷ xs) n ys ne = rw (lookup_skip key xs n ys ne)

    pub lookup_here :
        (xs : List (Node K V)) (n : Node K V) (ys : List (Node K V))
        → Absent n.key xs
        → lookup n.key (xs ++ (n ∷ ys)) ≡ some n.value
    unfolding lookup
    lookup_here [] n ys a = rw (is_eq_self cmp o n.key)
    lookup_here (x ∷ xs) n ys a = rw (is_eq_ne cmp o n.key x.key a.0) (lookup_here xs n ys a.1)

    -- `find_node` gives the value that the nodes have at the key.
    pub value_at-find_from :
        (key : K) (t : Tree K V)
        → Sorted cmp (inorder t)
        → value_at (find_from cmp key t []) ≡ lookup key (inorder t)
    unfolding value_at plug
    value_at-find_from key t s = elim (Option-cases (find_from cmp key t [])) [
      | inl e ↦
          rw e (sym (lookup-Absent key (inorder t) (rw e at (find_from-Found cmp o key t [] s))))
      | inr (c, e) ↦ rw e (found c (rw e at (find_from-Found cmp o key t [] s)))
    ]
      where
        found :
            (c : Cursor K V)
            → (whole c ≡ t) × (c.node.key ≡ key)
            → some c.node.value ≡ lookup key (inorder t)
        found c (w, k) =
            let parts : inorder t ≡ left_of c ++ (c.node ∷ right_of c) =
              ap inorder (sym w) ∙ inorder-whole c in
            let (_, below, _, _) =
              Sorted-split cmp (left_of c) c.node (right_of c) (rw parts at s) in
            rw (parts, ← k)
              (sym (
                lookup_here (left_of c) c.node (right_of c)
                  (Absent-of_below cmp o c.node.key (left_of c) below)))

    -- A new node changes the value at its own key alone.
    pub lookup-insert :
        (j : K) (xs : List (Node K V)) (new : Node K V) (ys : List (Node K V))
        → AllBelow cmp new.key xs
        → lookup j (xs ++ (new ∷ ys))
          ≡ (if is_eq (cmp j new.key) then some new.value else lookup j (xs ++ ys))
    lookup-insert j xs new ys below = elim (key-cases cmp o j new.key) [
      | inl e ↦ rw (← e) (
          rw (is_eq_self cmp o new.key)
            (lookup_here xs new ys (Absent-of_below cmp o new.key xs below)))
      | inr ne ↦ rw (is_eq_ne cmp o j new.key ne) (lookup_skip j xs new ys ne)
    ]

    -- A node that is taken out leaves nothing at its own key, and all else as it was.
    pub lookup-remove :
        (j : K) (xs : List (Node K V)) (n : Node K V) (ys : List (Node K V))
        → Sorted cmp (xs ++ (n ∷ ys))
        → lookup j (xs ++ ys) ≡ (if is_eq (cmp j n.key) then none else lookup j (xs ++ (n ∷ ys)))
    lookup-remove j xs n ys s =
        let (_, below, above, _) = Sorted-split cmp xs n ys s in
        elim (key-cases cmp o j n.key) [
          | inl e ↦ rw (← e) (
              rw (is_eq_self cmp o n.key) (
                lookup-Absent n.key (xs ++ ys) (
                  Absent-append n.key xs ys (Absent-of_below cmp o n.key xs below)
                    (Absent-of_above cmp o n.key ys above))))
          | inr ne ↦ rw (is_eq_ne cmp o j n.key ne) (sym (lookup_skip j xs n ys ne))
        ]
