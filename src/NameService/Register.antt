-- ===== src/NameService/Register.antt =====
-- kernel/name.c: `name_service_register` of a name that is not in the table.
use bunix.Common.{
  ℕ, ◌<◌, ◌+◌, ◌≡◌, ◌≢◌, ◌∙◌, sym, refl, ap, false, none, some, if◌then◌else◌, ◌==◌, ◌⊎◌, inl, inr,
  arith, u64_mod, add64,
}
use bunix.Tree.Lookup.{is_eq, is_eq_self, is_eq_ne, key-cases}
use bunix.Tree.Laws.{insert_node_fresh}
use bunix.Tree.Names.{
  CString, NameTree, tree_key_cmp, tree_key_cmp-KeyOrder, never_null, tree_get, NamesWellFormed,
}
use bunix.Tree.Wide.{U64Tree, is_zero, compare-KeyOrder, u64_tree_get, U64WellFormed}
use Prim.Native.Nat.{compare}
use bunix.NameService.{
  NameServiceKind, empty, NameEntry, Names, write_entry, read, insert_id, insert_name, add_entry,
  name_service_lookup, name_service_kind, name_service_object,
}
use bunix.NameService.Laws.{
  Named, Known, IsValid, Registered, write_entry_self, write_entry_ne, read_at, read_ne, apart,
}

module _ (s : Names) (v : IsValid s) (name : CString) (kind : NameServiceKind) (object p : ℕ)
    (absent : tree_get s.names_by_name name ≡ 0) (nz : p ≢ 0) (free : s.entries p ≡ none)
    (more : s.next_name_id + 1 < u64_mod) where
  abbrev pub new_entry : NameEntry
  new_entry = record { id = s.next_name_id; name = name; kind = kind; object = object }

  abbrev pub added : NameTree → U64Tree → Names
  added t u = record {
    entries = write_entry s.entries p (some new_entry);
    names_by_name = t;
    names_by_id = u;
    next_name_id = add64 s.next_name_id 1;
  }

  id_free : u64_tree_get s.names_by_id s.next_name_id ≡ 0
  id_free = elim (v.known s.next_name_id) [
    | inl z ↦ z
    | inr (e, pnz, at, same, lt, back) ↦ absurd (omega (arith, lt))
  ]

  module _ (t : NameTree) (tw : NamesWellFormed t)
      (tl : (j : CString)
        → tree_get t j ≡ (if is_eq (tree_key_cmp j name) then p else tree_get s.names_by_name j))
      (u : U64Tree) (uw : U64WellFormed u)
      (ul : (j : ℕ)
        → u64_tree_get u j
          ≡ (if is_eq (compare j s.next_name_id) then p else u64_tree_get s.names_by_id j)) where
    name_new : tree_get t name ≡ p
    name_new = tl name ∙ rw (is_eq_self tree_key_cmp tree_key_cmp-KeyOrder name) refl

    name_old : (j : CString) → name ≢ j → tree_get t j ≡ tree_get s.names_by_name j
    name_old j ne = tl j ∙ rw (is_eq_ne tree_key_cmp tree_key_cmp-KeyOrder j name ne) refl

    id_new : u64_tree_get u s.next_name_id ≡ p
    id_new = ul s.next_name_id ∙ rw (is_eq_self compare compare-KeyOrder s.next_name_id) refl

    id_old : (j : ℕ) → s.next_name_id ≢ j → u64_tree_get u j ≡ u64_tree_get s.names_by_id j
    id_old j ne = ul j ∙ rw (is_eq_ne compare compare-KeyOrder j s.next_name_id ne) refl

    Named-old : (j : CString) → name ≢ j → (q : ℕ) → Named s j q → Named (added t u) j q
    Named-old j ne q (inl z) = inl z
    Named-old j ne q (inr (e, qnz, at, nm, id_ne, back)) =
        let new_id : s.next_name_id ≢ e.id =
          λ same. qnz (sym back ∙ (ap (λ i. u64_tree_get s.names_by_id i) (sym same) ∙ id_free)) in
        inr (
          e,
          qnz,
          write_entry_ne s.entries p (some new_entry) q (apart s.entries p q e free at) ∙ at,
          nm,
          id_ne,
          id_old e.id new_id ∙ back,
        )

    added-Named : (j : CString) → Named (added t u) j (tree_get t j)
    added-Named j = elim (key-cases tree_key_cmp tree_key_cmp-KeyOrder j name) [
      | inl e ↦ rw (← e) (
          rw name_new (
            inr (
              new_entry,
              nz,
              write_entry_self s.entries p (some new_entry),
              refl,
              omega (arith, v.started),
              id_new,
            )))
      | inr ne ↦ rw (name_old j ne) (Named-old j ne (tree_get s.names_by_name j) (v.named j))
    ]

    Known-old : (j : ℕ) → s.next_name_id ≢ j → (q : ℕ) → Known s j q → Known (added t u) j q
    Known-old j ne q (inl z) = inl z
    Known-old j ne q (inr (e, qnz, at, same, lt, back)) =
        let other : name ≢ e.name =
          λ clash. qnz (sym back ∙ (ap (λ n. tree_get s.names_by_name n) (sym clash) ∙ absent)) in
        inr (
          e,
          qnz,
          write_entry_ne s.entries p (some new_entry) q (apart s.entries p q e free at) ∙ at,
          same,
          omega (arith, lt, more),
          name_old e.name other ∙ back,
        )

    added-Known : (j : ℕ) → Known (added t u) j (u64_tree_get u j)
    added-Known j = elim (key-cases compare compare-KeyOrder j s.next_name_id) [
      | inl e ↦ rw (← e) (
          rw id_new (
            inr (
              new_entry,
              nz,
              write_entry_self s.entries p (some new_entry),
              refl,
              omega (arith, more),
              name_new,
            )))
      | inr ne ↦ rw (id_old j ne) (Known-old j ne (u64_tree_get s.names_by_id j) (v.known j))
    ]

    -- A pointer that a tree gives is null or not the new one.
    Named-apart : (j : CString) (q : ℕ) → Named s j q → (q ≡ 0) ⊎ (p ≢ q)
    Named-apart j q (inl z) = inl z
    Named-apart j q (inr (e, qnz, at, r1, r2, r3)) = inr (apart s.entries p q e free at)

    Known-apart : (j q : ℕ) → Known s j q → (q ≡ 0) ⊎ (p ≢ q)
    Known-apart j q (inl z) = inl z
    Known-apart j q (inr (e, qnz, at, r1, r2, r3)) = inr (apart s.entries p q e free at)

    read_old :
        {A : Type 0} (a : A) (f : NameEntry → A) (j : ℕ)
        → j ≢ s.next_name_id
        → read (write_entry s.entries p (some new_entry)) a f (u64_tree_get u j)
          ≡ read s.entries a f (u64_tree_get s.names_by_id j)
    read_old a f j ne = rw (id_old j (λ e. ne (sym e))) (
        read_ne s.entries a f p (some new_entry) (u64_tree_get s.names_by_id j)
          (Known-apart j (u64_tree_get s.names_by_id j) (v.known j)))

    added-Registered : Registered s name kind object s.next_name_id (added t u)
    unfolding name_service_lookup name_service_kind name_service_object
    added-Registered =
        let at : write_entry s.entries p (some new_entry) p ≡ some new_entry =
          write_entry_self s.entries p (some new_entry) in
        let entries' = write_entry s.entries p (some new_entry) in
        record {
          given = omega (arith, v.started);
          valid = record {
            names = tw;
            ids = uw;
            started = omega (arith, more);
            named = added-Named;
            known = added-Known;
          };
          looked_up = rw name_new (read_at entries' 0 (λ e. e.id) p new_entry nz at);
          kind_of = rw id_new (read_at entries' empty (λ e. e.kind) p new_entry nz at);
          object_of = rw id_new (read_at entries' 0 (λ e. e.object) p new_entry nz at);
          other_names = λ j ne. rw (name_old j (λ e. ne (sym e))) (
              read_ne s.entries 0 (λ e. e.id) p (some new_entry) (tree_get s.names_by_name j)
                (Named-apart j (tree_get s.names_by_name j) (v.named j)));
          other_ids = λ j ne. (read_old empty (λ e. e.kind) j ne, read_old 0 (λ e. e.object) j ne);
        }

  -- With room in the two trees, both insertions succeed.
  pub insert-Registered :
      s.names_by_name.count + 1 < u64_mod
      → s.names_by_id.count + 1 < u64_mod
      → let (id, s') = add_entry s kind object (some p) (some name) in
        Registered s name kind object id s'
  unfolding add_entry insert_name insert_id
  insert-Registered room id_room =
      let (t, e, tw, tl) =
        insert_node_fresh tree_key_cmp tree_key_cmp-KeyOrder never_null s.names_by_name name p
          v.names room refl nz absent in
      let started : (s.next_name_id == 0) ≡ false = ground (arith, v.started) in
      let (u, f, uw, ul) =
        insert_node_fresh compare compare-KeyOrder is_zero s.names_by_id s.next_name_id p v.ids
          id_room started nz id_free in
      rw (started, e, f) (added-Registered t tw tl u uw ul)
