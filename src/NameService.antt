-- ===== src/NameService.antt =====
-- kernel/name.c: the kernel's table of named services. Entries live in memory that the slab allocator
-- hands out; a pointer to one is a number that is not 0, and `entries` gives the entry behind it. Both
-- trees map to these pointers. What the allocator answers is an argument: `memory` for the entry, and
-- `copied` for whether there is room for the copy of the name. Log lines are left out.
pub mod Laws
pub mod Register
pub mod Update
mod Tests
use bunix.Common.{
  ℕ, Bool, true, false, not, ◌||◌, Option, none, some, if◌then◌else◌, ◌==◌, ltb, length, add64,
}
use bunix.Tree.{Cursor}
use bunix.Tree.Names.{
  CString, NameTree, tree_init, tree_get, tree_find_node, tree_insert_node, tree_remove_node,
}
use bunix.Tree.Wide.{U64Tree, u64_tree_init, u64_tree_get, u64_tree_insert_node}

pub data NameServiceKind : Type 0 where
  empty console ipc_port task : NameServiceKind

pub record NameEntry : Type 0 where
  pub id : ℕ
  pub name : CString
  pub kind : NameServiceKind
  pub object : ℕ

pub record Names : Type 0 where
  pub entries : ℕ → Option NameEntry
  pub names_by_name : NameTree
  pub names_by_id : U64Tree
  pub next_name_id : ℕ

abbrev pub name_service_init : Names
name_service_init = record {
  entries = λ p. none;
  names_by_name = tree_init;
  names_by_id = u64_tree_init;
  next_name_id = 1;
}

-- `NAME_MAX` is 64. The length is counted up to it, so a longer name counts as 64. `none` is the null
-- pointer.
unfoldable pub name_copy : CString → Bool → Option CString
name_copy name copied =
    if length name == 0 || not (ltb (length name) 64)
    then none
    else if copied
    then some name
    else none

abbrev pub write_entry : (ℕ → Option NameEntry) → ℕ → Option NameEntry → ℕ → Option NameEntry
write_entry entries p e q = if p == q then e else entries q

-- A write to an entry that is in the table.
unfoldable pub update : Names → ℕ → NameServiceKind → ℕ → Option NameEntry → ℕ × Names
update s p kind object none = (0, s)
update s p kind object (some e) = (
  e.id,
  record s { entries = write_entry s.entries p (some (record e { kind = kind; object = object })) },
)

-- `next_name_id++`, twice where the first identifier is 0.
abbrev pub fresh_id : ℕ → ℕ × ℕ
fresh_id next =
    let second = add64 next 1 in if next == 0 then (second, add64 second 1) else (next, second)

unfoldable pub unlink_name : NameTree → Option (Cursor CString ℕ) → NameTree
unlink_name t none = t
unlink_name t (some node) = tree_remove_node t node

-- The insertion under the identifier, which follows that under the name. If it fails the name is taken
-- out again and the entry is freed.
unfoldable pub insert_id : Names → ℕ → NameEntry → Bool × U64Tree → ℕ × Names
unfolding unlink_name
insert_id s p e (true, ids) =
    (e.id, record s { entries = write_entry s.entries p (some e); names_by_id = ids })
insert_id s p e (false, ids) = (
  0,
  record s { names_by_name = unlink_name s.names_by_name (tree_find_node s.names_by_name e.name) },
)

unfoldable pub insert_name : Names → ℕ → NameEntry → Bool × NameTree → ℕ × Names
unfolding insert_id
insert_name s p e (false, names) = (0, s)
insert_name s p e (true, names) =
    insert_id (record s { names_by_name = names }) p e (u64_tree_insert_node s.names_by_id e.id p)

unfoldable pub add_entry : Names → NameServiceKind → ℕ → Option ℕ → Option CString → ℕ × Names
unfolding insert_name
add_entry s kind object none name = (0, s)
add_entry s kind object (some p) none = (0, s)
add_entry s kind object (some p) (some name) =
    let (id, next) = fresh_id s.next_name_id in
    insert_name (record s { next_name_id = next }) p
      (record { id = id; name = name; kind = kind; object = object })
      (tree_insert_node s.names_by_name name p)

abbrev pub is_empty : NameServiceKind → Bool
is_empty empty = true
is_empty _ = false

unfoldable pub name_service_register :
    Names → CString → NameServiceKind → ℕ → Option ℕ → Bool → ℕ × Names
unfolding update add_entry name_copy
name_service_register s name kind object memory copied =
    let p = tree_get s.names_by_name name in
    if is_empty kind
    then (0, s)
    else if p == 0
    then add_entry s kind object memory (name_copy name copied)
    else update s p kind object (s.entries p)

-- What is read off an entry through its pointer, and what is read where the pointer is null.
abbrev pub read {ℓ} : {A : Type ℓ} → (ℕ → Option NameEntry) → A → (NameEntry → A) → ℕ → A
read entries a f p = if p == 0 then a else elim (entries p) [ none ↦ a | some e ↦ f e ]

unfoldable pub name_service_lookup : Names → CString → ℕ
name_service_lookup s name = read s.entries 0 (λ e. e.id) (tree_get s.names_by_name name)

unfoldable pub name_service_kind : Names → ℕ → NameServiceKind
name_service_kind s id = read s.entries empty (λ e. e.kind) (u64_tree_get s.names_by_id id)

unfoldable pub name_service_object : Names → ℕ → ℕ
name_service_object s id = read s.entries 0 (λ e. e.object) (u64_tree_get s.names_by_id id)
