-- ===== src/NameService/Update.antt =====
-- kernel/name.c: `name_service_register` of a name that is in the table already, and in general.
use bunix.Common.{
  ℕ, ◌<◌, ◌+◌, ◌≡◌, ◌≢◌, ◌∙◌, sym, refl, ap, true, false, not, ◌||◌, none, some, ◌==◌, ◌⊎◌, inl,
  inr, arith, u64_mod, length, ltb, ℕ_discrete, Bool-cases,
}
use bunix.Tree.Names.{CString, tree_get}
use bunix.Tree.Wide.{u64_tree_get}
use bunix.NameService.{
  NameServiceKind, empty, is_empty, NameEntry, Names, write_entry, update, name_copy,
  name_service_register, name_service_lookup, name_service_kind, name_service_object,
}
use bunix.NameService.Laws.{
  Named, Known, IsValid, Registered, write_entry_self, write_entry_ne, read_at, read_ne,
}
use bunix.NameService.Register.{insert-Registered}

some_inj : (a b : NameEntry) → some a ≡ some b → a ≡ b
some_inj a b e = ground arith

module _ (s : Names) (v : IsValid s) (kind : NameServiceKind) (object p : ℕ) (e : NameEntry)
    (at : s.entries p ≡ some e) (nz : p ≢ 0) (id_ne : e.id ≢ 0)
    (name_back : tree_get s.names_by_name e.name ≡ p)
    (id_back : u64_tree_get s.names_by_id e.id ≡ p) where
  abbrev changed : NameEntry
  changed = record e { kind = kind; object = object }

  abbrev updated : Names
  updated = record s { entries = write_entry s.entries p (some changed) }

  Named-still : (j : CString) (q : ℕ) → Named s j q → Named updated j q
  Named-still j q (inl z) = inl z
  Named-still j q (inr (d, qnz, there, nm, d_ne, back)) = elim (ℕ_discrete p q) [
    | no ne ↦ inr (d, qnz, write_entry_ne s.entries p (some changed) q ne ∙ there, nm, d_ne, back)
    | yes same ↦
        let de : e ≡ d = some_inj e d (sym at ∙ (ap s.entries same ∙ there)) in
        inr (
          changed,
          qnz,
          rw (← same) (write_entry_self s.entries p (some changed)),
          ap (λ (x : NameEntry). x.name) de ∙ nm,
          id_ne,
          id_back ∙ same,
        )
  ]

  Known-still : (j q : ℕ) → Known s j q → Known updated j q
  Known-still j q (inl z) = inl z
  Known-still j q (inr (d, qnz, there, same_id, lt, back)) = elim (ℕ_discrete p q) [
    | no ne ↦
        inr (d, qnz, write_entry_ne s.entries p (some changed) q ne ∙ there, same_id, lt, back)
    | yes same ↦
        let de : e ≡ d = some_inj e d (sym at ∙ (ap s.entries same ∙ there)) in
        inr (
          changed,
          qnz,
          rw (← same) (write_entry_self s.entries p (some changed)),
          ap (λ (x : NameEntry). x.id) de ∙ same_id,
          lt,
          name_back ∙ same,
        )
  ]

  -- Names other than the entry's lead to other pointers, and so do identifiers.
  name_apart : (j : CString) → j ≢ e.name → (q : ℕ) → Named s j q → (q ≡ 0) ⊎ (p ≢ q)
  name_apart j ne q (inl z) = inl z
  name_apart j ne q (inr (d, qnz, there, nm, d_ne, back)) = inr (λ same. ne (
      sym (
        ap (λ (x : NameEntry). x.name) (some_inj e d (sym at ∙ (ap s.entries same ∙ there))) ∙ nm)))

  id_apart : (j : ℕ) → j ≢ e.id → (q : ℕ) → Known s j q → (q ≡ 0) ⊎ (p ≢ q)
  id_apart j ne q (inl z) = inl z
  id_apart j ne q (inr (d, qnz, there, same_id, lt, back)) = inr (λ same. ne (
      sym (
        ap (λ (x : NameEntry). x.id) (some_inj e d (sym at ∙ (ap s.entries same ∙ there)))
        ∙ same_id)))

  updated-Registered : Registered s e.name kind object e.id updated
  unfolding name_service_lookup name_service_kind name_service_object
  updated-Registered =
      let now : write_entry s.entries p (some changed) p ≡ some changed =
        write_entry_self s.entries p (some changed) in
      let entries' = write_entry s.entries p (some changed) in
      record {
        given = id_ne;
        valid = record {
          names = v.names;
          ids = v.ids;
          started = v.started;
          named = λ j. Named-still j (tree_get s.names_by_name j) (v.named j);
          known = λ j. Known-still j (u64_tree_get s.names_by_id j) (v.known j);
        };
        looked_up = rw name_back (read_at entries' 0 (λ x. x.id) p changed nz now);
        kind_of = rw id_back (read_at entries' empty (λ x. x.kind) p changed nz now);
        object_of = rw id_back (read_at entries' 0 (λ x. x.object) p changed nz now);
        other_names = λ j ne.
            read_ne s.entries 0 (λ x. x.id) p (some changed) (tree_get s.names_by_name j)
              (name_apart j ne (tree_get s.names_by_name j) (v.named j));
        other_ids = λ j ne.
            let q = u64_tree_get s.names_by_id j in
            let far = id_apart j ne q (v.known j) in
            (
              read_ne s.entries empty (λ x. x.kind) p (some changed) q far,
              read_ne s.entries 0 (λ x. x.object) p (some changed) q far,
            );
      }

update-Registered :
    (s : Names) (name : CString) (kind : NameServiceKind) (object : ℕ)
    → IsValid s
    → (q : ℕ) → q ≢ 0
    → tree_get s.names_by_name name ≡ q
    → Named s name q
    → let (id, s') = update s q kind object (s.entries q) in Registered s name kind object id s'
unfolding update
update-Registered s name kind object v q nz e (inl z) = absurd (nz z)
update-Registered s name kind object v q nz e (inr (d, qnz, at, nm, id_ne, back)) = rw at (
    rw (← nm) (
      updated-Registered s v kind object q d at nz id_ne
        (ap (λ n. tree_get s.names_by_name n) nm ∙ e) back))

-- Registering a service of a kind that is not empty, under a name of 1 to 63 bytes and with memory
-- for its entry, works: the name leads to an identifier that is not 0, under which the kind and the
-- object are found, the table stays valid, and nothing else changes. The table is valid, the trees'
-- counters and the identifiers have room, and the memory for the entry is not in use.
pub name_service_register-Registered :
    (s : Names) (name : CString) (kind : NameServiceKind) (object p : ℕ)
    → IsValid s
    → is_empty kind ≡ false
    → 0 < length name
    → length name < 64
    → p ≢ 0
    → s.entries p ≡ none
    → s.next_name_id + 1 < u64_mod
    → s.names_by_name.count + 1 < u64_mod
    → s.names_by_id.count + 1 < u64_mod
    → let (id, s') = name_service_register s name kind object (some p) true in
      Registered s name kind object id s'
unfolding name_service_register name_copy
name_service_register-Registered s name kind object p v k long short nz free more room id_room =
    elim (Bool-cases (tree_get s.names_by_name name == 0)) [
      | inr e ↦
          rw (k, e)
            (update-Registered s name kind object v (tree_get s.names_by_name name)
              (ground (arith, e)) refl (v.named name))
      | inl e ↦
          let copies : (length name == 0 || not (ltb (length name) 64)) ≡ false =
            ground (arith, long, short) in
          rw (k, e, copies)
            (insert-Registered s v name kind object p (ground (arith, e)) nz free more room id_room)
    ]
