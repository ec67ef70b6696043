-- ===== src/Tree/Order.antt =====
-- kernel/tree.h: what a comparison of keys must satisfy, and the order of the nodes of a tree.
use Prim.Native.Nat.{Ordering}
use bunix.Common.{◌≡◌, sym, ap, List, [], ◌∷◌, ◌++◌, arith, ◌≢◌}
use bunix.Tree.{Node, Tree, leaf, branch}

pub record KeyOrder {ℓ} {K : Type ℓ} (cmp : K → K → Ordering) : Type ℓ where
  pub eq_of : (a b : K) → cmp a b ≡ Ordering.eq → a ≡ b
  pub self : (a : K) → cmp a a ≡ Ordering.eq
  pub gt_flip : (a b : K) → cmp a b ≡ Ordering.gt → cmp b a ≡ Ordering.lt
  pub trans : (a b c : K) → cmp a b ≡ Ordering.lt → cmp b c ≡ Ordering.lt → cmp a c ≡ Ordering.lt

-- The nodes of a tree from left to right.
abbrev pub inorder {ℓ} : {K V : Type ℓ} → Tree K V → List (Node K V)
inorder leaf = []
inorder (branch l n r) = inorder l ++ (n ∷ inorder r)

module _ {ℓ} {K V : Type ℓ} (cmp : K → K → Ordering) where
  abbrev pub AllBelow : K → List (Node K V) → Type ℓ
  AllBelow k [] = Unit {ℓ}
  AllBelow k (n ∷ ns) = (cmp n.key k ≡ Ordering.lt) × AllBelow k ns

  abbrev pub AllAbove : K → List (Node K V) → Type ℓ
  AllAbove k [] = Unit {ℓ}
  AllAbove k (n ∷ ns) = (cmp k n.key ≡ Ordering.lt) × AllAbove k ns

  -- Keys go up strictly.
  abbrev pub Sorted : List (Node K V) → Type ℓ
  Sorted [] = Unit {ℓ}
  Sorted (n ∷ ns) = AllAbove n.key ns × Sorted ns

-- No node has the key.
abbrev pub Absent {ℓ} : {K V : Type ℓ} → K → List (Node K V) → Type ℓ
Absent k [] = Unit
Absent k (n ∷ ns) = (n.key ≢ k) × Absent k ns

pub Absent-append {ℓ} :
    {K V : Type ℓ} (k : K) (xs ys : List (Node K V))
    → Absent k xs
    → Absent k ys
    → Absent k (xs ++ ys)
Absent-append k [] ys a b = b
Absent-append k (x ∷ xs) ys a b = (a.0, Absent-append k xs ys a.1 b)

pub ne_of_lt {ℓ} :
    {K : Type ℓ} {cmp : K → K → Ordering} → KeyOrder cmp → (a b : K) → cmp a b ≡ Ordering.lt → a ≢ b
ne_of_lt {cmp = cmp} o a b h e = ground (arith, h, o.self b, ap (λ x. cmp x b) e)

module _ {ℓ} {K V : Type ℓ} (cmp : K → K → Ordering) where
  pub AllBelow-append :
      (k : K) (xs ys : List (Node K V))
      → AllBelow cmp k xs
      → AllBelow cmp k ys
      → AllBelow cmp k (xs ++ ys)
  AllBelow-append k [] ys a b = b
  AllBelow-append k (x ∷ xs) ys a b = (a.0, AllBelow-append k xs ys a.1 b)

  pub AllAbove-append :
      (k : K) (xs ys : List (Node K V))
      → AllAbove cmp k xs
      → AllAbove cmp k ys
      → AllAbove cmp k (xs ++ ys)
  AllAbove-append k [] ys a b = b
  AllAbove-append k (x ∷ xs) ys a b = (a.0, AllAbove-append k xs ys a.1 b)

  pub AllAbove-split :
      (k : K) (xs ys : List (Node K V))
      → AllAbove cmp k (xs ++ ys)
      → AllAbove cmp k xs × AllAbove cmp k ys
  AllAbove-split k [] ys a = (tt, a)
  AllAbove-split k (x ∷ xs) ys a = let (b, c) = AllAbove-split k xs ys a.1 in ((a.0, b), c)

  -- A sorted list parts at each of its nodes.
  pub Sorted-split :
      (xs : List (Node K V)) (n : Node K V) (ys : List (Node K V))
      → Sorted cmp (xs ++ (n ∷ ys))
      → Sorted cmp xs × AllBelow cmp n.key xs × AllAbove cmp n.key ys × Sorted cmp ys
  Sorted-split [] n ys s = (tt, tt, s.0, s.1)
  Sorted-split (x ∷ xs) n ys s =
      let (a, b, c, d) = Sorted-split xs n ys s.1 in
      let (e, f) = AllAbove-split x.key xs (n ∷ ys) s.0 in ((e, a), (f.0, b), c, d)

  pub Sorted-parts :
      (xs ys : List (Node K V)) → Sorted cmp (xs ++ ys) → Sorted cmp xs × Sorted cmp ys
  Sorted-parts [] ys s = (tt, s)
  Sorted-parts (x ∷ xs) ys s =
      let (a, b) = Sorted-parts xs ys s.1 in (((AllAbove-split x.key xs ys s.0).0, a), b)

  module _ (o : KeyOrder cmp) where
    pub AllBelow-trans :
        (j k : K) (xs : List (Node K V))
        → cmp j k ≡ Ordering.lt
        → AllBelow cmp j xs
        → AllBelow cmp k xs
    AllBelow-trans j k [] h a = tt
    AllBelow-trans j k (x ∷ xs) h a = (o.trans x.key j k a.0 h, AllBelow-trans j k xs h a.1)

    pub AllAbove-trans :
        (j k : K) (xs : List (Node K V))
        → cmp j k ≡ Ordering.lt
        → AllAbove cmp k xs
        → AllAbove cmp j xs
    AllAbove-trans j k [] h a = tt
    AllAbove-trans j k (x ∷ xs) h a = (o.trans j k x.key h a.0, AllAbove-trans j k xs h a.1)

    pub Absent-of_below : (k : K) (xs : List (Node K V)) → AllBelow cmp k xs → Absent k xs
    Absent-of_below k [] a = tt
    Absent-of_below k (x ∷ xs) a = (ne_of_lt o x.key k a.0, Absent-of_below k xs a.1)

    pub Absent-of_above : (k : K) (xs : List (Node K V)) → AllAbove cmp k xs → Absent k xs
    Absent-of_above k [] a = tt
    Absent-of_above k (x ∷ xs) a = (λ e. ne_of_lt o k x.key a.0 (sym e), Absent-of_above k xs a.1)

    -- Every node below `k` also lies before what is above `k`.
    Sorted_between :
        (k : K) (x : Node K V) (ys : List (Node K V))
        → cmp x.key k ≡ Ordering.lt
        → AllAbove cmp k ys
        → AllAbove cmp x.key ys
    Sorted_between k x ys h a = AllAbove-trans x.key k ys h a

    -- A node goes in where all before it are below and all after it are above.
    pub Sorted-insert :
        (xs : List (Node K V)) (n : Node K V) (ys : List (Node K V))
        → Sorted cmp (xs ++ ys)
        → AllBelow cmp n.key xs
        → AllAbove cmp n.key ys
        → Sorted cmp (xs ++ (n ∷ ys))
    Sorted-insert [] n ys s b a = (a, s)
    Sorted-insert (x ∷ xs) n ys s b a =
        let (e, f) = AllAbove-split x.key xs ys s.0 in
        (AllAbove-append x.key xs (n ∷ ys) e (b.0, f), Sorted-insert xs n ys s.1 b.1 a)

  -- Taking a node out keeps the order.
  pub Sorted-remove :
      (xs : List (Node K V)) (n : Node K V) (ys : List (Node K V))
      → Sorted cmp (xs ++ (n ∷ ys))
      → Sorted cmp (xs ++ ys)
  Sorted-remove [] n ys s = s.1
  Sorted-remove (x ∷ xs) n ys s =
      let (e, f) = AllAbove-split x.key xs (n ∷ ys) s.0 in
      (AllAbove-append x.key xs ys e f.1, Sorted-remove xs n ys s.1)
