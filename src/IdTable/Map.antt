-- ===== src/IdTable/Map.antt =====
-- user/include/bunix/id_table.h: `bunix_map`, from keys to values. Its entries live in memory that is
-- allocated for each; a pointer to one is a number that is not 0, `entries` gives the entry behind it,
-- and the tree maps to these pointers. What the allocator answers is an argument.
pub mod Set
use bunix.Common.{
  ℕ, suc, zero, ◌+◌, ◌-◌, Bool, true, false, not, ◌||◌, Option, none, some, List, [], ◌∷◌,
  if◌then◌else◌, ◌==◌, add64,
}
use bunix.Tree.{Node, Cursor}
use bunix.Tree.Walk.{visit}
use bunix.Tree.Wide.{
  U64Tree, U64TreeNode, u64_tree_init, u64_tree_get, u64_tree_find_node, u64_tree_first_node,
  u64_tree_insert_node, u64_tree_remove_node,
}

pub record MapEntry : Type 0 where
  pub key : ℕ
  pub value : ℕ

pub record Map : Type 0 where
  pub tree : U64Tree
  pub entries : ℕ → Option MapEntry
  pub count : ℕ

abbrev pub bunix_map_init : Map
bunix_map_init = record { tree = u64_tree_init; entries = λ p. none; count = 0 }

-- The pointer to the entry of a key, 0 for none.
abbrev pub bunix_map_find_entry : Map → ℕ → ℕ
bunix_map_find_entry m key = if key == 0 then 0 else u64_tree_get m.tree key

abbrev pub value_of : Option MapEntry → ℕ
value_of none = 0
value_of (some e) = e.value

abbrev pub value_behind : (ℕ → Option MapEntry) → ℕ → ℕ
value_behind entries p = if p == 0 then 0 else value_of (entries p)

unfoldable pub bunix_map_get : Map → ℕ → ℕ
bunix_map_get m key = value_behind m.entries (bunix_map_find_entry m key)

abbrev pub write_map_entry : (ℕ → Option MapEntry) → ℕ → Option MapEntry → ℕ → Option MapEntry
write_map_entry entries p e q = if p == q then e else entries q

unfoldable pub update_value : Map → ℕ → ℕ → Option MapEntry → Map
update_value m p value none = m
update_value m p value (some e) = record m {
  entries = write_map_entry m.entries p (some (record e { value = value }));
}

unfoldable pub insert_entry : Map → ℕ → ℕ → ℕ → Bool × U64Tree → Bool × Map
insert_entry m q key value (false, t) = (false, m)
insert_entry m q key value (true, t) = (
  true,
  record {
    tree = t;
    entries = write_map_entry m.entries q (some (record { key = key; value = value }));
    count = add64 m.count 1;
  },
)

unfoldable pub add_value : Map → ℕ → ℕ → Option ℕ → Bool × Map
unfolding insert_entry
add_value m key value none = (false, m)
add_value m key value (some q) = insert_entry m q key value (u64_tree_insert_node m.tree key q)

-- `true` is the source's 0, `false` its -1.
unfoldable pub bunix_map_set : Map → ℕ → ℕ → Option ℕ → Bool × Map
unfolding update_value add_value
bunix_map_set m key value memory =
    let p = bunix_map_find_entry m key in
    if key == 0 || value == 0
    then (false, m)
    else if p == 0
    then add_value m key value memory
    else (true, update_value m p value (m.entries p))

-- `&entry->node` is the node that the search found.
unfoldable pub remove_entry : Map → ℕ → Option U64TreeNode → Map
remove_entry m p none = m
remove_entry m p (some node) = record {
  tree = u64_tree_remove_node m.tree node;
  entries = write_map_entry m.entries p none;
  count = if m.count == 0 then m.count else m.count - 1;
}

unfoldable pub bunix_map_remove : Map → ℕ → Bool × Map
unfolding remove_entry
bunix_map_remove m key =
    let p = bunix_map_find_entry m key in
    if p == 0 then (false, m) else (true, remove_entry m p (u64_tree_find_node m.tree key))

-- The value at an index among those that are not 0.
unfoldable pub value_at_index : (ℕ → Option MapEntry) → List (Node ℕ ℕ) → ℕ → ℕ
value_at_index entries [] index = 0
value_at_index entries (n ∷ ns) index =
    let value = value_behind entries n.value in
    if value == 0
    then value_at_index entries ns index
    else if index == 0
    then value
    else value_at_index entries ns (index - 1)

-- The loop by `bunix_u64_tree_next_node` visits no more nodes than the tree counts.
unfoldable pub bunix_map_at : Map → ℕ → ℕ
unfolding value_at_index
bunix_map_at m index =
    value_at_index m.entries (visit (m.tree.count + 1) (u64_tree_first_node m.tree)) index
