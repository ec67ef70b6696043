-- ===== src/Handles.antt =====
-- kernel/sched.c: the handles of a task, from `task_grant_port` to `task_close_handle`. A table is the list
-- of its entries, whose length is `handle_capacity`; handle `n` is the entry at `n - 1`. An object is a
-- pointer, so a number. The references that a call takes or gives back are part of its result: whether
-- one was taken (`retained`), or what was released. What the retaining call answers (`lives`), and
-- whether there is memory for a number of entries (`memory`), are arguments. The processor that a port
-- suggests for a task without threads, and the log lines, are left out; the tasks are there.
pub mod Rights
pub mod Share
pub mod Granted
mod Tests
use bunix.Common.{
  ℕ, zero, suc, ◌+◌, ◌-◌, ◌*◌, ◌/◌, ◌%◌, Bool, true, false, not, ◌&&◌, ◌||◌, Option, none, some,
  List, [], ◌∷◌, ◌++◌, ltb, leb, ◌==◌, if◌then◌else◌, length, replicate, get_elem?, modify, u32_mod,
}

pub data HandleType : Type 0 where
  empty port task buffer hw_resource sched_policy : HandleType

-- The value of the enumeration.
abbrev pub type_number : HandleType → ℕ
type_number empty = 0
type_number port = 1
type_number task = 2
type_number buffer = 3
type_number hw_resource = 4
type_number sched_policy = 5

abbrev pub same_type : HandleType → HandleType → Bool
same_type a b = type_number a == type_number b

pub record TaskHandle : Type 0 where
  pub type : HandleType
  pub rights : ℕ
  pub tag : ℕ
  pub object : ℕ

abbrev pub empty_handle : TaskHandle
empty_handle = record { type = empty; rights = 0; tag = 0; object = 0 }

-- `(rights & ~held) == 0`, which is `(held & rights) == rights`, on words of so many bits.
unfoldable pub bits_within : ℕ → ℕ → ℕ → Bool
bits_within zero rights held = true
bits_within (suc bits) rights held =
    (not (rights % 2 == 1) || held % 2 == 1) && bits_within bits (rights / 2) (held / 2)

abbrev pub within : ℕ → ℕ → Bool
within rights held = bits_within 32 rights held

-- `(rights & TASK_RIGHT_DUP) != 0`, bit 2.
abbrev pub can_dup : ℕ → Bool
can_dup rights = rights / 4 % 2 == 1

-- `while (new_capacity < min_capacity) new_capacity *= 2;`, with fuel, from 16.
unfoldable pub double_handles : ℕ → ℕ → ℕ → ℕ
double_handles zero capacity min_capacity = capacity
double_handles (suc fuel) capacity min_capacity = elim (ltb capacity min_capacity) [
  | true ↦ double_handles fuel (capacity * 2 % u32_mod) min_capacity
  | false ↦ capacity
]

abbrev pub new_capacity : ℕ → ℕ → ℕ
new_capacity capacity min_capacity =
    double_handles 32 (if capacity == 0 then 16 else capacity) min_capacity

-- The entry of a handle that is not 0 and not beyond the table.
unfoldable pub entry_of : List TaskHandle → ℕ → Option TaskHandle
entry_of handles zero = none
entry_of handles (suc i) = get_elem? handles i

-- The first entry with this type, object and rights, as a handle; 0 if there is none.
unfoldable pub find_same : List TaskHandle → ℕ → HandleType → ℕ → ℕ → ℕ
find_same [] i type object rights = 0
find_same (h ∷ hs) i type object rights =
    if same_type h.type type && h.object == object && h.rights == rights
    then i + 1
    else find_same hs (i + 1) type object rights

-- The first empty entry.
unfoldable pub find_empty : List TaskHandle → ℕ → Option ℕ
find_empty [] i = none
find_empty (h ∷ hs) i = if same_type h.type empty then some i else find_empty hs (i + 1)

pub record Grant : Type 0 where
  pub handle : ℕ
  pub handles : List TaskHandle
  pub retained : Bool

-- A grant of an entry writes all but its tag, which is 0 in an empty entry.
abbrev pub granted_entry : HandleType → ℕ → ℕ → TaskHandle → TaskHandle
granted_entry type object rights h = record h { type = type; rights = rights; object = object }

abbrev pub no_grant : List TaskHandle → Grant
no_grant handles = record { handle = 0; handles = handles; retained = false }

-- The entries that a table of this size gets where it grows for one more.
abbrev pub new_entries : ℕ → List TaskHandle
new_entries capacity = replicate (new_capacity capacity (capacity + 1) - capacity - 1) empty_handle

-- A grant to the first entry behind the old ones.
unfoldable pub grant_behind : Bool → List TaskHandle → HandleType → ℕ → ℕ → Grant
grant_behind true handles type object rights = record {
  handle = length handles + 1;
  handles =
      handles ++ (granted_entry type object rights empty_handle ∷ new_entries (length handles));
  retained = true;
}
grant_behind false handles type object rights =
    no_grant (handles ++ (empty_handle ∷ new_entries (length handles)))

-- The search for an empty entry. Where there is none, the table grows; no old entry is empty, so the
-- search that starts again ends at the first new one.
unfoldable pub grant_empty :
    (ℕ → Bool) → Bool → List TaskHandle → HandleType → ℕ → ℕ → Option ℕ → Grant
unfolding grant_behind double_handles
grant_empty memory true handles type object rights (some i) = record {
  handle = i + 1;
  handles = modify handles i (granted_entry type object rights);
  retained = true;
}
grant_empty memory false handles type object rights (some i) = no_grant handles
grant_empty memory lives handles type object rights none =
    if memory (length handles + 1)
    then grant_behind lives handles type object rights
    else no_grant handles

unfoldable pub grant : (ℕ → Bool) → Bool → List TaskHandle → HandleType → ℕ → ℕ → Grant
unfolding find_same find_empty grant_empty
grant memory lives handles type object rights =
    let same = find_same handles 0 type object rights in
    if same == 0
    then grant_empty memory lives handles type object rights (find_empty handles 0)
    else record { handle = same; handles = handles; retained = false }

-- A reference to a port or a buffer is always taken.
unfoldable pub task_grant_port : (ℕ → Bool) → List TaskHandle → ℕ → ℕ → Grant
unfolding grant
task_grant_port memory handles object rights =
    if object == 0 then no_grant handles else grant memory true handles port object rights

unfoldable pub task_grant_buffer : (ℕ → Bool) → List TaskHandle → ℕ → ℕ → Grant
unfolding grant
task_grant_buffer memory handles object rights =
    if object == 0 then no_grant handles else grant memory true handles buffer object rights

-- `before` is that the target is not dead as the call begins, `lives` that it is not once an entry is
-- found.
unfoldable pub task_grant_task : (ℕ → Bool) → Bool → Bool → List TaskHandle → ℕ → ℕ → Grant
unfolding grant
task_grant_task memory before lives handles object rights =
    if object == 0 || rights == 0 || not before
    then no_grant handles
    else grant memory lives handles task object rights

unfoldable pub task_grant_hw_resource : (ℕ → Bool) → Bool → List TaskHandle → ℕ → ℕ → Grant
unfolding grant
task_grant_hw_resource memory lives handles object rights =
    if object == 0 || rights == 0
    then no_grant handles
    else grant memory lives handles hw_resource object rights

unfoldable pub task_grant_sched_policy : (ℕ → Bool) → Bool → List TaskHandle → ℕ → ℕ → Grant
unfolding grant
task_grant_sched_policy memory lives handles object rights =
    if object == 0 || rights == 0
    then no_grant handles
    else grant memory lives handles sched_policy object rights

unfoldable pub grant_type : (ℕ → Bool) → Bool → Bool → List TaskHandle → HandleType → ℕ → ℕ → Grant
unfolding task_grant_port task_grant_buffer task_grant_task task_grant_hw_resource
    task_grant_sched_policy
grant_type memory before lives handles empty object rights = no_grant handles
grant_type memory before lives handles port object rights =
    task_grant_port memory handles object rights
grant_type memory before lives handles task object rights =
    task_grant_task memory before lives handles object rights
grant_type memory before lives handles buffer object rights =
    task_grant_buffer memory handles object rights
grant_type memory before lives handles hw_resource object rights =
    task_grant_hw_resource memory lives handles object rights
grant_type memory before lives handles sched_policy object rights =
    task_grant_sched_policy memory lives handles object rights

-- `true` is the source's 0.
unfoldable pub task_can_inherit_handle : List TaskHandle → ℕ → ℕ → Bool
unfolding entry_of bits_within
task_can_inherit_handle handles handle rights =
    if rights == 0 then false else elim (entry_of handles handle) [
      | none ↦ false
      | some h ↦ not (same_type h.type empty) && can_dup h.rights && within rights h.rights
    ]

-- The reference that is taken for the time of the call is given back at its end. `alive` is what the
-- retaining call answers for it, `before` and `lives` what the grant finds.
unfoldable pub inherit_entry :
    (ℕ → Bool) → Bool → Bool → Bool → List TaskHandle → ℕ → Option TaskHandle → Grant
unfolding bits_within grant_type
inherit_entry memory alive before lives dst rights none = no_grant dst
inherit_entry memory alive before lives dst rights (some h) =
    if not (same_type h.type empty) && can_dup h.rights && within rights h.rights && alive
    then grant_type memory before lives dst h.type h.object rights
    else no_grant dst

unfoldable pub task_grant_inherited_handle :
    (ℕ → Bool) → Bool → Bool → Bool → List TaskHandle → List TaskHandle → ℕ → ℕ → Grant
unfolding inherit_entry entry_of
task_grant_inherited_handle memory alive before lives dst src handle rights =
    if rights == 0
    then no_grant dst
    else inherit_entry memory alive before lives dst rights (entry_of src handle)

-- The object that a handle leads to, with a reference taken, for a type and the rights that are needed:
-- `task_port_from_handle` and the four calls like it, and `task_export_cap`, which asks for any type.
unfoldable pub object_from : (HandleType → Bool) → Bool → Option TaskHandle → ℕ → Option TaskHandle
unfolding bits_within
object_from wanted alive none rights = none
object_from wanted alive (some h) rights =
    if wanted h.type && within rights h.rights && alive then some h else none

unfoldable pub task_object_from_handle :
    HandleType → Bool → List TaskHandle → ℕ → ℕ → Option TaskHandle
unfolding object_from entry_of
task_object_from_handle type alive handles handle rights =
    object_from (λ t. same_type t type) alive (entry_of handles handle) rights

unfoldable pub task_export_cap : Bool → List TaskHandle → ℕ → ℕ → Option TaskHandle
unfolding object_from entry_of
task_export_cap alive handles handle rights =
    object_from (λ t. not (same_type t empty)) alive (entry_of handles handle) rights

unfoldable pub set_tag : List TaskHandle → ℕ → ℕ → Option TaskHandle → Bool × List TaskHandle
set_tag handles i tag none = (false, handles)
set_tag handles i tag (some h) =
    if same_type h.type empty
    then (false, handles)
    else (true, modify handles i (λ e. record e { tag = tag }))

unfoldable pub task_set_handle_tag : List TaskHandle → ℕ → ℕ → Bool × List TaskHandle
unfolding set_tag entry_of
task_set_handle_tag handles handle tag = set_tag handles (handle - 1) tag (entry_of handles handle)

unfoldable pub find_tag : List TaskHandle → ℕ → ℕ → ℕ
find_tag [] i tag = 0
find_tag (h ∷ hs) i tag =
    if not (same_type h.type empty) && h.tag == tag then i + 1 else find_tag hs (i + 1) tag

unfoldable pub task_handle_find : List TaskHandle → ℕ → ℕ
unfolding find_tag
task_handle_find handles tag = if tag == 0 then 0 else find_tag handles 0 tag

-- The entry whose reference is released, if the handle is in use.
unfoldable pub close_entry :
    List TaskHandle → ℕ → Option TaskHandle → Option TaskHandle × List TaskHandle
close_entry handles i none = (none, handles)
close_entry handles i (some h) =
    if same_type h.type empty
    then (none, handles)
    else (some h, modify handles i (λ e. empty_handle))

unfoldable pub task_close_handle : List TaskHandle → ℕ → Option TaskHandle × List TaskHandle
unfolding close_entry entry_of
task_close_handle handles handle = close_entry handles (handle - 1) (entry_of handles handle)
