-- ===== src/Tree/Laws.antt =====
-- kernel/tree.h: a tree with its count is a finite map.
use Prim.Native.Nat.{Ordering}
use bunix.Common.{
  ◌≢◌, ℕ, ◌≡◌, refl, ◌∙◌, sym, ap, List, [], ◌∷◌, ◌++◌, ◌+◌, ◌<◌, Option, some, none, arith, ◌⊎◌,
  inl, inr, Bool, true, false, if◌then◌else◌, ◌==◌, ◌%◌, ◌-◌, Bool-cases, length, length-append,
  u64_mod,
}
use mathlib.Core.List.{append-nil}
use bunix.Tree.{Node, Tree, Cursor, Rooted, whole, remove_from, less_one}
use bunix.Tree.Order.{
  KeyOrder, inorder, Sorted, AllBelow, AllAbove, Absent, Absent-append, Absent-of_below,
  Absent-of_above, Sorted-remove, Sorted-split, Sorted-insert,
}
use bunix.Tree.Shape.{left_of, right_of, inorder-whole}
use bunix.Tree.Insert.{Inserted, insert_from-Inserted}
use bunix.Tree.Remove.{inorder-remove_from}
use bunix.Tree.Lookup.{
  lookup, lookup-Absent, is_eq, is_eq_self, is_eq_ne, key-cases, value_at, value_at-find_from,
  lookup-insert, lookup-remove,
}
use bunix.Tree.Ops.{empty, find_node, get, insert_result, insert_node, remove_node}

less_one_lem : (n : ℕ) → less_one n ≡ n - 1
less_one_lem n = ground arith

zero_both : (b : Bool) → ◌≡◌ {A = ℕ} 0 (if b then 0 else 0)
zero_both b = ground arith

-- No node has the value 0.
abbrev pub Valued : {K : Type 0} → List (Node K ℕ) → Type 0
Valued [] = Unit {0}
Valued (n ∷ ns) = (n.value ≢ 0) × Valued ns

module _ {K : Type 0} where
  Valued-at :
      (xs : List (Node K ℕ)) (n : Node K ℕ) (ys : List (Node K ℕ))
      → Valued (xs ++ (n ∷ ys))
      → n.value ≢ 0
  Valued-at [] n ys v = v.0
  Valued-at (x ∷ xs) n ys v = Valued-at xs n ys v.1

  Valued-insert :
      (xs : List (Node K ℕ)) (n : Node K ℕ) (ys : List (Node K ℕ))
      → n.value ≢ 0
      → Valued (xs ++ ys)
      → Valued (xs ++ (n ∷ ys))
  Valued-insert [] n ys nz v = (nz, v)
  Valued-insert (x ∷ xs) n ys nz v = (v.0, Valued-insert xs n ys nz v.1)

  Valued-remove :
      (xs : List (Node K ℕ)) (n : Node K ℕ) (ys : List (Node K ℕ))
      → Valued (xs ++ (n ∷ ys))
      → Valued (xs ++ ys)
  Valued-remove [] n ys v = v.1
  Valued-remove (x ∷ xs) n ys v = (v.0, Valued-remove xs n ys v.1)

module _ {K : Type 0} (cmp : K → K → Ordering) (o : KeyOrder cmp) (null_key : K → Bool) where
  -- Keys are sorted, no value is 0, and the count is the number of nodes.
  pub record WellFormed (t : Rooted K ℕ) : Type 0 where
    pub sorted : Sorted cmp (inorder t.root)
    pub valued : Valued (inorder t.root)
    pub counted : t.count ≡ length (inorder t.root)

  abbrev pub or_zero : Option ℕ → ℕ
  or_zero none = 0
  or_zero (some v) = v

  push_or_zero :
      (b : Bool) (m : Option ℕ) → or_zero (if b then none else m) ≡ (if b then 0 else or_zero m)
  push_or_zero b m = ground arith

  get_of :
      (t : Rooted K ℕ) (key : K)
      → get cmp null_key t key ≡ or_zero (value_at (find_node cmp null_key t key))
  unfolding get value_at
  get_of t key = ground arith

  -- On a well-formed tree get is a look-up in the sorted list of the nodes, with 0 for a null key
  -- and for a key that is not there.
  pub get-eq-lookup :
      (t : Rooted K ℕ) (key : K)
      → WellFormed t
      → get cmp null_key t key
        ≡ (if null_key key then 0 else or_zero (lookup cmp key (inorder t.root)))
  unfolding find_node value_at
  get-eq-lookup t key v = elim (Bool-cases (null_key key)) [
    | inl e ↦ get_of t key ∙ rw e
    | inr e ↦ get_of t key ∙ rw e (ap or_zero (value_at-find_from cmp o key t.root v.sorted))
  ]

  pub get-empty : (key : K) → get cmp null_key empty key ≡ 0
  unfolding lookup
  get-empty key =
      get-eq-lookup empty key (record { sorted = tt; valued = tt; counted = refl })
      ∙ sym (zero_both (null_key key))

  -- A key that is in use.
  get_used :
      (t : Rooted K ℕ) (key : K) (xs : List (Node K ℕ)) (n : Node K ℕ) (ys : List (Node K ℕ))
      → WellFormed t
      → null_key key ≡ false
      → inorder t.root ≡ xs ++ (n ∷ ys)
      → n.key ≡ key
      → get cmp null_key t key ≢ 0
  get_used t key xs n ys v nk e k z =
      let (before, below, above, after) = Sorted-split cmp xs n ys (rw e at v.sorted) in
      let here : lookup cmp key (xs ++ (n ∷ ys)) ≡ some n.value =
        lookup-insert cmp o key xs n ys below ∙ rw (← k) (rw (is_eq_self cmp o n.key) refl) in
      let found : get cmp null_key t key ≡ n.value =
        get-eq-lookup t key v ∙ rw nk (ap or_zero (ap (λ l. lookup cmp key l) e ∙ here)) in
      Valued-at xs n ys (rw e at v.valued) (sym found ∙ z)

  -- A key that is between the nodes of a tree.
  get_unused :
      (t : Rooted K ℕ) (key : K) (xs ys : List (Node K ℕ))
      → WellFormed t
      → null_key key ≡ false
      → inorder t.root ≡ xs ++ ys
      → AllBelow cmp key xs
      → AllAbove cmp key ys
      → get cmp null_key t key ≡ 0
  get_unused t key xs ys v nk e below above =
      let absent : Absent key (xs ++ ys) =
        Absent-append key xs ys (Absent-of_below cmp o key xs below)
          (Absent-of_above cmp o key ys above) in
      get-eq-lookup t key v
      ∙ rw nk
          (ap or_zero (ap (λ l. lookup cmp key l) e ∙ lookup-Absent cmp o key (xs ++ ys) absent))

  -- What a call of `insert_node` did.
  abbrev pub InsertNode : Rooted K ℕ → K → ℕ → Bool × Rooted K ℕ → Type 0
  InsertNode t key value (false, t') =
      (t' ≡ t) × ((null_key key ≡ true) ⊎ ((value ≡ 0) ⊎ (get cmp null_key t key ≢ 0)))
  InsertNode t key value (true, t') =
      (null_key key ≡ false)
      × (value ≢ 0)
      × (get cmp null_key t key ≡ 0)
      × WellFormed t'
      × ((j : K)
          → get cmp null_key t' j ≡ (if is_eq (cmp j key) then value else get cmp null_key t j))

  insert_changes :
      (j key : K) (value : ℕ) (xs ys : List (Node K ℕ))
      → null_key key ≡ false
      → AllBelow cmp key xs
      → (if null_key j
          then 0
          else or_zero (lookup cmp j (xs ++ (record { key = key; value = value } ∷ ys))))
        ≡ (if is_eq (cmp j key)
            then value
            else (if null_key j then 0 else or_zero (lookup cmp j (xs ++ ys))))
  insert_changes j key value xs ys nk below =
      let new : Node K ℕ = record { key = key; value = value } in
      let law = lookup-insert cmp o j xs new ys below in
      elim (key-cases cmp o j key) [
        | inl same ↦ rw law (rw (← same) (rw (is_eq_self cmp o key, nk) refl))
        | inr ne ↦ rw law (rw (is_eq_ne cmp o j key ne) refl)
      ]

  insert_some :
      (t : Rooted K ℕ) (key : K) (value : ℕ)
      → null_key key ≡ false
      → value ≢ 0
      → WellFormed t
      → t.count + 1 < u64_mod
      → (r : Option (Tree K ℕ))
      → Inserted cmp o (record { key = key; value = value }) [] (inorder t.root) [] r
      → InsertNode t key value (insert_result t r)
  unfolding insert_result
  insert_some t key value nk nz v room none (xs, n, ys, e, k) =
      (refl, inr (inr (get_used t key xs n ys v nk e k)))
  insert_some t key value nk nz v room (some root) (xs, ys, e, below, above, f) =
      let new : Node K ℕ = record { key = key; value = value } in
      let nodes : inorder root ≡ xs ++ (new ∷ ys) = f ∙ ap (λ l. xs ++ (new ∷ l)) (append-nil ys) in
      let w : WellFormed (record { root = root; count = (t.count + 1) % u64_mod }) = record {
        valued = rw nodes (Valued-insert xs new ys nz (rw e at v.valued));
        sorted = rw nodes (Sorted-insert cmp o xs new ys (rw e at v.sorted) below above);
        counted = omega (
          arith,
          v.counted,
          ap length nodes,
          ap length e,
          length-append xs (new ∷ ys),
          length-append xs ys,
        );
      } in
      (
        nk,
        nz,
        get_unused t key xs ys v nk e below above,
        w,
        λ j.
            get-eq-lookup _ j w
            ∙ (ap (λ l. if null_key j then 0 else or_zero (lookup cmp j l)) nodes
                ∙ (insert_changes j key value xs ys nk below
                    ∙ ap
                        (λ l.
                          if is_eq (cmp j key)
                          then value
                          else (if null_key j then 0 else or_zero (lookup cmp j l)))
                        (sym e))
                ∙ ap (λ z. if is_eq (cmp j key) then value else z) (sym (get-eq-lookup t j v))),
      )

  -- On a well-formed tree with room in the counter, insert_node fails, changing nothing, only for a
  -- null key, a value of 0 or a key in use. Where it succeeds the key was none of these and not in
  -- use, the value was not 0, and the tree stays well formed, maps the key to the value and leaves
  -- every other key alone.
  pub insert_node-InsertNode :
      (t : Rooted K ℕ) (key : K) (value : ℕ)
      → WellFormed t
      → t.count + 1 < u64_mod
      → InsertNode t key value (insert_node cmp null_key t key value)
  unfolding insert_node
  insert_node-InsertNode t key value v room = elim (Bool-cases (null_key key)) [
    | inl bad ↦ rw bad (refl, inl bad)
    | inr good ↦ elim (Bool-cases (value == 0)) [
      | inl z ↦ rw (good, z) (refl, inr (inl (ground arith)))
      | inr z ↦
          rw (good, z)
            (insert_some t key value good (ground (arith, z)) v room _
              (insert_from-Inserted cmp o key value t.root [] v.sorted))
    ]
  ]

  -- The new tree, where an insertion succeeds.
  abbrev pub InsertedNode : Rooted K ℕ → K → ℕ → Bool × Rooted K ℕ → Type 0
  InsertedNode t key value r =
      (t' : Rooted K ℕ) × (r ≡ (true, t'))
      × WellFormed t'
      × ((j : K)
          → get cmp null_key t' j ≡ (if is_eq (cmp j key) then value else get cmp null_key t j))

  insert_fresh_result :
      (t : Rooted K ℕ) (key : K) (value : ℕ) (r : Bool × Rooted K ℕ)
      → null_key key ≡ false
      → value ≢ 0
      → get cmp null_key t key ≡ 0
      → InsertNode t key value r
      → InsertedNode t key value r
  insert_fresh_result t key value (true, t') nk nz free (_, _, _, w, law) = (t', refl, w, law)
  insert_fresh_result t key value (false, t') nk nz free (same, inl bad) = ground arith
  insert_fresh_result t key value (false, t') nk nz free (same, inr (inl z)) = absurd (nz z)
  insert_fresh_result t key value (false, t') nk nz free (same, inr (inr used)) = absurd (used free)

  pub insert_node_fresh :
      (t : Rooted K ℕ) (key : K) (value : ℕ)
      → WellFormed t
      → t.count + 1 < u64_mod
      → null_key key ≡ false
      → value ≢ 0
      → get cmp null_key t key ≡ 0
      → InsertedNode t key value (insert_node cmp null_key t key value)
  insert_node_fresh t key value v room nk nz free =
      insert_fresh_result t key value (insert_node cmp null_key t key value) nk nz free
        (insert_node-InsertNode t key value v room)

  remove_changes :
      (j : K) (xs : List (Node K ℕ)) (n : Node K ℕ) (ys : List (Node K ℕ))
      → Sorted cmp (xs ++ (n ∷ ys))
      → (if null_key j then 0 else or_zero (lookup cmp j (xs ++ ys))) ≡ (
          if is_eq (cmp j n.key)
          then 0
          else (if null_key j then 0 else or_zero (lookup cmp j (xs ++ (n ∷ ys)))))
  remove_changes j xs n ys s = elim (Bool-cases (null_key j)) [
    | inl e ↦ rw e (zero_both (is_eq (cmp j n.key)))
    | inr e ↦ rw e (
        rw (lookup-remove cmp o j xs n ys s)
          (push_or_zero (is_eq (cmp j n.key)) (lookup cmp j (xs ++ (n ∷ ys)))))
  ]

  -- The nodes of a tree, around a cursor in it.
  around :
      (t : Rooted K ℕ) (c : Cursor K ℕ)
      → whole c ≡ t.root
      → inorder t.root ≡ left_of c ++ (c.node ∷ right_of c)
  around t c w = ap inorder (sym w) ∙ inorder-whole c

  -- remove_node of a node of a well-formed tree leaves it well formed, takes the key of the node
  -- out and leaves every other key alone.
  pub remove_node_lem :
      (t : Rooted K ℕ) (c : Cursor K ℕ)
      → WellFormed t
      → whole c ≡ t.root
      → WellFormed (remove_node t c)
        × ((j : K)
            → get cmp null_key (remove_node t c) j
              ≡ (if is_eq (cmp j c.node.key) then 0 else get cmp null_key t j))
  unfolding remove_node
  remove_node_lem t c v w =
      let nodes = around t c w in
      let left_over : inorder (remove_from c.left c.right c.path) ≡ left_of c ++ right_of c =
        inorder-remove_from c.left c.right c.path in
      let w' : WellFormed
          (record { root = remove_from c.left c.right c.path; count = less_one t.count }) =
        record {
          valued =
              rw left_over (Valued-remove (left_of c) c.node (right_of c) (rw nodes at v.valued));
          sorted =
              rw left_over
                (Sorted-remove cmp (left_of c) c.node (right_of c) (rw nodes at v.sorted));
          counted = omega (
            arith,
            less_one_lem t.count,
            v.counted,
            ap length nodes,
            ap length left_over,
            length-append (left_of c) (c.node ∷ right_of c),
            length-append (left_of c) (right_of c),
          );
        } in
      (
        w',
        λ j.
            get-eq-lookup _ j w'
            ∙ ap (λ l. if null_key j then 0 else or_zero (lookup cmp j l)) left_over
            ∙ remove_changes j (left_of c) c.node (right_of c) (rw nodes at v.sorted)
            ∙ ap
                (λ l.
                  if is_eq (cmp j c.node.key)
                  then 0
                  else (if null_key j then 0 else or_zero (lookup cmp j l)))
                (sym nodes)
            ∙ ap (λ z. if is_eq (cmp j c.node.key) then 0 else z) (sym (get-eq-lookup t j v)),
      )
