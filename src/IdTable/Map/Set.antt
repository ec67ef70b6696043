-- ===== src/IdTable/Map/Set.antt =====
-- user/include/bunix/id_table.h: `bunix_map_set` changes one key.
use bunix.Common.{
  ℕ, ◌+◌, ◌<◌, ◌≡◌, ◌≢◌, ◌∙◌, sym, refl, ap, Bool, true, false, Option, none, some, ◌==◌,
  if◌then◌else◌, ◌⊎◌, inl, inr, u64_mod, arith, Bool-cases, ==_self,
}
use Prim.Native.Nat.{compare}
use bunix.Tree.Lookup.{is_eq}
use bunix.Tree.Laws.{InsertNode, insert_node-InsertNode}
use bunix.Tree.Wide.{
  U64Tree, u64_tree_get, u64_tree_insert_node, is_zero, compare-KeyOrder, U64WellFormed,
}
use bunix.IdTable.Map.{
  MapEntry, Map, value_behind, bunix_map_get, write_map_entry, update_value, insert_entry,
  add_value, bunix_map_set,
}

-- The pointer `p` under a key is null, or leads to an entry with this key and a value.
abbrev pub Kept : (ℕ → Option MapEntry) → ℕ → ℕ → Type 0
Kept entries key p =
    (p ≡ 0) ⊎ ((e : MapEntry) × (entries p ≡ some e) × (e.key ≡ key) × (e.value ≢ 0))

pub record IsValid (m : Map) : Type 0 where
  pub tree : U64WellFormed m.tree
  pub kept : (key : ℕ) → Kept m.entries key (u64_tree_get m.tree key)

-- What a call of `bunix_map_set` did. It failed, for a key or a value of 0 or where there is no memory
-- for a new entry, and changed nothing; or the key, and no other, has the value now.
abbrev pub Changed : Map → ℕ → ℕ → Option ℕ → Bool × Map → Type 0
Changed m key value memory (false, m') =
    (m' ≡ m) × ((key ≡ 0) ⊎ ((value ≡ 0) ⊎ ((memory ≡ none) × (bunix_map_get m key ≡ 0))))
Changed m key value memory (true, m') =
    IsValid m' × ((j : ℕ) → bunix_map_get m' j ≡ (if j == key then value else bunix_map_get m j))

write_self :
    (entries : ℕ → Option MapEntry) (p : ℕ) (e : Option MapEntry)
    → write_map_entry entries p e p ≡ e
write_self entries p e = rw (==_self p) refl

write_ne :
    (entries : ℕ → Option MapEntry) (p : ℕ) (e : Option MapEntry) (q : ℕ)
    → p ≢ q
    → write_map_entry entries p e q ≡ entries q
write_ne entries p e q ne = let f : (p == q) ≡ false = ground (arith, ne) in rw f refl

-- The entries `f` have the value under `key`, and all else as `entries`.
value_self :
    (f : ℕ → Option MapEntry) (p : ℕ) (e : MapEntry)
    → p ≢ 0
    → f p ≡ some e
    → value_behind f p ≡ e.value
value_self f p e nz at = let z : (p == 0) ≡ false = ground (arith, nz) in rw (z, at) refl

value_ne :
    (entries : ℕ → Option MapEntry) (p : ℕ) (e : Option MapEntry) (q : ℕ)
    → (q ≡ 0) ⊎ (p ≢ q)
    → value_behind (write_map_entry entries p e) q ≡ value_behind entries q
value_ne entries p e q (inl z) = rw z refl
value_ne entries p e q (inr ne) = rw (write_ne entries p e q ne) refl

-- The pointers of two keys differ.
other_key :
    (entries : ℕ → Option MapEntry) (j key q p : ℕ) (e : MapEntry)
    → j ≢ key
    → entries p ≡ some e
    → e.key ≡ key
    → Kept entries j q
    → (q ≡ 0) ⊎ (p ≢ q)
other_key entries j key q p e ne at k (inl z) = inl z
other_key entries j key q p e ne at k (inr (e', at', k', nz)) = inr (λ same. ne (
    sym k'
    ∙ ap (λ o. elim o [ none ↦ 0 | some x ↦ x.key ]) (sym at' ∙ (ap entries (sym same) ∙ at))
    ∙ k))

get_lem :
    (m : Map) (j : ℕ)
    → bunix_map_get m j ≡ (if j == 0 then 0 else value_behind m.entries (u64_tree_get m.tree j))
unfolding bunix_map_get
get_lem m j = elim (Bool-cases (j == 0)) [ inl e ↦ rw e refl | inr e ↦ rw e refl ]

-- The key `key` leads to `q`, whose entry is new; all other keys are as before.
module _ (m m' : Map) (key value q : ℕ) (v : IsValid m) (nk : key ≢ 0) (nv : value ≢ 0) (nq : q ≢ 0)
    (wf : U64WellFormed m'.tree)
    (written : m'.entries
      ≡ write_map_entry m.entries q (some (record { key = key; value = value })))
    (here : u64_tree_get m'.tree key ≡ q)
    (there : (j : ℕ) → j ≢ key → u64_tree_get m'.tree j ≡ u64_tree_get m.tree j)
    (apart : (j : ℕ) → j ≢ key → (u64_tree_get m.tree j ≡ 0) ⊎ (q ≢ u64_tree_get m.tree j)) where
  entry_now : m'.entries q ≡ some (record { key = key; value = value })
  entry_now = ap (λ f. f q) written ∙ write_self m.entries q _

  kept_now :
      (j : ℕ)
      → j ≢ key
      → Kept m.entries j (u64_tree_get m.tree j)
      → Kept m'.entries j (u64_tree_get m'.tree j)
  kept_now j ne (inl z) = inl (there j ne ∙ z)
  kept_now j ne (inr (e, at, k, nz)) = elim (apart j ne) [
    | inl z ↦ inl (there j ne ∙ z)
    | inr d ↦ inr (
      e,
      ap m'.entries (there j ne)
          ∙ (ap (λ f. f (u64_tree_get m.tree j)) written ∙ (write_ne m.entries q _ _ d ∙ at)),
      k,
      nz,
    )
  ]

  value_now :
      (j : ℕ)
      → j ≢ key
      → value_behind m'.entries (u64_tree_get m'.tree j)
        ≡ value_behind m.entries (u64_tree_get m.tree j)
  value_now j ne =
      ap (value_behind m'.entries) (there j ne)
      ∙ (ap (λ f. value_behind f (u64_tree_get m.tree j)) written
          ∙ value_ne m.entries q _ _ (apart j ne))

  set-Changed :
      IsValid m' × ((j : ℕ) → bunix_map_get m' j ≡ (if j == key then value else bunix_map_get m j))
  set-Changed = (
    record {
      tree = wf;
      kept = λ j. elim (Bool-cases (j == key)) [
        | inl e ↦
            let same : key ≡ j = ground (arith, e) in
            inr (
              record { key = key; value = value },
              ap (λ k. m'.entries (u64_tree_get m'.tree k)) (sym same)
                  ∙ (ap m'.entries here ∙ entry_now),
              same,
              nv,
            )
        | inr e ↦ kept_now j (ground (arith, e)) (v.kept j)
      ];
    },
    λ j. elim (Bool-cases (j == key)) [
      | inl e ↦
          let same : j ≡ key = ground (arith, e) in
          let z : (key == 0) ≡ false = ground (arith, nk) in
          rw e (
            ap (bunix_map_get m') same
            ∙ (get_lem m' key
                ∙ rw z
                    (ap (value_behind m'.entries) here ∙ value_self m'.entries q _ nq entry_now)))
      | inr e ↦ rw e (
          get_lem m' j
          ∙ (ap (λ n. if j == 0 then 0 else n) (value_now j (ground (arith, e)))
              ∙ sym (get_lem m j)))
    ],
  )

is_key : (j key : ℕ) → is_eq (compare j key) ≡ (j == key)
unfolding is_eq
is_key j key = ground arith

module _ (m : Map) (key value : ℕ) (v : IsValid m) (nk : key ≢ 0) (nv : value ≢ 0) where
  update_lem :
      (o : Option MapEntry)
      → m.entries (u64_tree_get m.tree key) ≡ o
      → u64_tree_get m.tree key ≢ 0
      → Kept m.entries key (u64_tree_get m.tree key)
      → Changed m key value none (true, update_value m (u64_tree_get m.tree key) value o)
  unfolding update_value
  update_lem o at nz (inl z) = absurd (nz z)
  update_lem none at nz (inr (e, at', k, ne)) =
      let clash : some e ≡ none = sym at' ∙ at in absurd (ground (arith, clash))
  update_lem (some x) at nz (inr (e, at', k, ne)) =
      let same : x ≡ e = ap (λ o. elim o [ none ↦ x | some y ↦ y ]) (sym at ∙ at') in
      let q = u64_tree_get m.tree key in
      set-Changed m
        (record m { entries = write_map_entry m.entries q (some (record x { value = value })) }) key
        value q v nk nv nz v.tree
        (ap (λ n. write_map_entry m.entries q (some (record { key = n; value = value })))
          (ap (λ y. y.key) same ∙ k))
        refl (λ j d. refl)
        (λ j d. other_key m.entries j key (u64_tree_get m.tree j) q e d at' k (v.kept j))

  insert_lem :
      (q : ℕ) (r : Bool × U64Tree)
      → q ≢ 0
      → m.entries q ≡ none
      → u64_tree_get m.tree key ≡ 0
      → InsertNode compare compare-KeyOrder is_zero m.tree key q r
      → Changed m key value (some q) (insert_entry m q key value r)
  unfolding insert_entry
  insert_lem q (false, t) nq free z (same, inl bad) = absurd (ground (arith, bad, nk))
  insert_lem q (false, t) nq free z (same, inr (inl bad)) = absurd (nq bad)
  insert_lem q (false, t) nq free z (same, inr (inr used)) = absurd (used z)
  insert_lem q (true, t) nq free z (_, _, _, wf, law) =
      set-Changed m _ key value q v nk nv nq wf refl
        (law key ∙ rw (is_key key key) (rw (==_self key) refl))
        (λ j d.
          let f : (j == key) ≡ false = ground (arith, d) in law j ∙ rw (is_key j key) (rw f refl))
        (λ j d. fresh (u64_tree_get m.tree j) (v.kept j))
    where
      fresh : {j : ℕ} (p : ℕ) → Kept m.entries j p → (p ≡ 0) ⊎ (q ≢ p)
      fresh p (inl e) = inl e
      fresh p (inr (e, at, k, ne)) = inr (λ same.
          let clash : some e ≡ none = sym at ∙ (ap m.entries (sym same) ∙ free) in
          absurd (ground (arith, clash)))

-- A pointer that the allocator hands out is not null, and leads to no entry.
abbrev pub Fresh : Map → Option ℕ → Type 0
Fresh m none = Unit {0}
Fresh m (some q) = (q ≢ 0) × (m.entries q ≡ none)

add_lem :
    (m : Map) (key value : ℕ) (memory : Option ℕ)
    → IsValid m
    → key ≢ 0
    → value ≢ 0
    → Fresh m memory
    → m.tree.count + 1 < u64_mod
    → u64_tree_get m.tree key ≡ 0
    → Changed m key value memory (add_value m key value memory)
unfolding add_value bunix_map_get
add_lem m key value none v nk nv f room z =
    let e : (key == 0) ≡ false = ground (arith, nk) in (refl, inr (inr (refl, rw (e, z) refl)))
add_lem m key value (some q) v nk nv (nq, free) room z =
    insert_lem m key value v nk nv q (u64_tree_insert_node m.tree key q) nq free z
      (insert_node-InsertNode compare compare-KeyOrder is_zero m.tree key q v.tree room)

-- On a valid map with room in the counter of its tree, and an allocator that hands out memory not
-- in use, bunix_map_set fails only for a key or a value of 0, or where there is no memory for an
-- entry under a new key, and changes nothing; otherwise the key has the value, every other key is
-- as before, and the map stays valid.
pub bunix_map_set-Changed :
    (m : Map) (key value : ℕ) (memory : Option ℕ)
    → IsValid m
    → Fresh m memory
    → m.tree.count + 1 < u64_mod
    → Changed m key value memory (bunix_map_set m key value memory)
unfolding bunix_map_set
bunix_map_set-Changed m key value memory v f room = elim (Bool-cases (key == 0)) [
  | inl e ↦ rw (e, Changed) (refl, inl (ground (arith, e)))
  | inr e ↦ elim (Bool-cases (value == 0)) [
    | inl d ↦ rw (e, d, Changed) (refl, inr (inl (ground (arith, d))))
    | inr d ↦ elim (Bool-cases (u64_tree_get m.tree key == 0)) [
      | inl z ↦
          rw (e, d, z, Changed)
            (add_lem m key value memory v (ground (arith, e)) (ground (arith, d)) f room
              (ground (arith, z)))
      | inr z ↦
          rw (e, d, z, Changed)
            (update_lem m key value v (ground (arith, e)) (ground (arith, d)) _ refl
              (ground (arith, z)) (v.kept key))
    ]
  ]
]
