-- ===== src/NameService/Laws.antt =====
-- kernel/name.c: the two trees and the entries fit together.
use bunix.Common.{
  ℕ, ◌<◌, ◌≡◌, ◌≢◌, ◌∙◌, sym, refl, ap, false, Option, none, some, ◌==◌, ◌⊎◌, inl, inr, arith,
  ==_self,
}
use bunix.Tree.Names.{CString, tree_get, NamesWellFormed}
use bunix.Tree.Wide.{u64_tree_get, U64WellFormed}
use bunix.NameService.{
  NameServiceKind, NameEntry, Names, write_entry, read, name_service_lookup, name_service_kind,
  name_service_object,
}

-- What the pointer `p` under a name is: null, or an entry with this name, which its identifier leads
-- to as well.
abbrev pub Named : Names → CString → ℕ → Type 0
Named s name p =
    (p ≡ 0)
    ⊎ ((e : NameEntry) × (p ≢ 0)
        × (s.entries p ≡ some e)
        × (e.name ≡ name)
        × (e.id ≢ 0)
        × (u64_tree_get s.names_by_id e.id ≡ p))

abbrev pub Known : Names → ℕ → ℕ → Type 0
Known s id p =
    (p ≡ 0)
    ⊎ ((e : NameEntry) × (p ≢ 0)
        × (s.entries p ≡ some e)
        × (e.id ≡ id)
        × (id < s.next_name_id)
        × (tree_get s.names_by_name e.name ≡ p))

pub record IsValid (s : Names) : Type 0 where
  pub names : NamesWellFormed s.names_by_name
  pub ids : U64WellFormed s.names_by_id
  pub started : 0 < s.next_name_id
  pub named : (name : CString) → Named s name (tree_get s.names_by_name name)
  pub known : (id : ℕ) → Known s id (u64_tree_get s.names_by_id id)

-- What a call that answers `id` did: the name leads to the service, and no other name and no other
-- identifier changed.
pub record Registered (s : Names) (name : CString) (kind : NameServiceKind) (object id : ℕ)
    (s' : Names) : Type 0 where
  pub given : id ≢ 0
  pub valid : IsValid s'
  pub looked_up : name_service_lookup s' name ≡ id
  pub kind_of : name_service_kind s' id ≡ kind
  pub object_of : name_service_object s' id ≡ object
  pub other_names : (j : CString) → j ≢ name → name_service_lookup s' j ≡ name_service_lookup s j
  pub other_ids :
      (j : ℕ)
      → j ≢ id
      → (name_service_kind s' j ≡ name_service_kind s j)
        × (name_service_object s' j ≡ name_service_object s j)

pub write_entry_self :
    (entries : ℕ → Option NameEntry) (p : ℕ) (e : Option NameEntry) → write_entry entries p e p ≡ e
write_entry_self entries p e = rw (==_self p) refl

pub write_entry_ne :
    (entries : ℕ → Option NameEntry) (p : ℕ) (e : Option NameEntry) (q : ℕ)
    → p ≢ q
    → write_entry entries p e q ≡ entries q
write_entry_ne entries p e q ne = let f : (p == q) ≡ false = ground (arith, ne) in rw f refl

module _ {ℓ} {A : Type ℓ} (entries : ℕ → Option NameEntry) (a : A) (f : NameEntry → A) where
  pub read_at : (p : ℕ) (e : NameEntry) → p ≢ 0 → entries p ≡ some e → read entries a f p ≡ f e
  read_at p e nz at = let z : (p == 0) ≡ false = ground (arith, nz) in rw (z, at) refl

  pub read_ne :
      (p : ℕ) (e : Option NameEntry) (q : ℕ)
      → (q ≡ 0) ⊎ (p ≢ q)
      → read (write_entry entries p e) a f q ≡ read entries a f q
  read_ne p e q (inl z) = rw z refl
  read_ne p e q (inr ne) = rw (write_entry_ne entries p e q ne) refl

-- A pointer in use is not one that is free.
pub apart :
    (entries : ℕ → Option NameEntry) (p q : ℕ) (e : NameEntry)
    → entries p ≡ none
    → entries q ≡ some e
    → p ≢ q
apart entries p q e free at pq =
    let clash : some e ≡ none = sym at ∙ (ap entries (sym pq) ∙ free) in ground arith
