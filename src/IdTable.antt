-- ===== src/IdTable.antt =====
-- user/include/bunix/id_table.h, the table of a server's objects: each gets an identifier that is not
-- in use. `slots` has `capacity` entries, and is null where that is 0. The allocator's answer, whether
-- `bunix_calloc` finds memory, is an argument.
pub mod Map
pub mod Laws
pub mod Update
mod Tests
use bunix.Common.{
  ℕ, zero, suc, ◌+◌, ◌-◌, Bool, true, false, ◌||◌, Option, none, some, List, [], ◌∷◌, ◌++◌, ◌==◌,
  ltb, if◌then◌else◌, length, replicate, add64, mul64,
}

pub record IdSlot : Type 0 where
  pub id : ℕ
  pub value : ℕ

pub record IdTable : Type 0 where
  pub slots : List IdSlot
  pub next_id : ℕ
  pub count : ℕ

abbrev pub capacity : IdTable → ℕ
capacity t = length t.slots

abbrev pub empty_slot : IdSlot
empty_slot = record { id = 0; value = 0 }

abbrev pub bunix_id_table_init : IdTable
bunix_id_table_init = record { slots = []; next_id = 1; count = 0 }

-- The old slots come first in the new block, which is cleared. `none` is a failed allocation.
unfoldable pub bunix_id_table_grow : Bool → IdTable → Option IdTable
bunix_id_table_grow memory t =
    let new_capacity = if capacity t == 0 then 8 else mul64 (capacity t) 2 in
    if memory
    then some (record t { slots = t.slots ++ replicate (new_capacity - capacity t) empty_slot })
    else none

unfoldable pub bunix_id_table_ensure_space : Bool → IdTable → Option IdTable
unfolding bunix_id_table_grow
bunix_id_table_ensure_space memory t =
    if ltb t.count (capacity t) then some t else bunix_id_table_grow memory t

-- The first slot with no identifier takes the new one; `none` if all are in use.
unfoldable pub fill : ℕ → ℕ → List IdSlot → Option (List IdSlot)
fill id value [] = none
fill id value (s ∷ ss) =
    if s.id == 0
    then some (record { id = id; value = value } ∷ ss)
    else elim (fill id value ss) [ none ↦ none | some ss' ↦ some (s ∷ ss') ]

-- `table->next_id++`, and 1 in place of 0.
abbrev pub next_of : ℕ → ℕ
next_of id = if add64 id 1 == 0 then 1 else add64 id 1

unfoldable pub alloc_in : IdTable → Option (List IdSlot) → ℕ × IdTable
alloc_in t none = (0, t)
alloc_in t (some slots) =
    (t.next_id, record { slots = slots; next_id = next_of t.next_id; count = add64 t.count 1 })

unfoldable pub alloc_with : ℕ → IdTable → Option IdTable → ℕ × IdTable
unfolding alloc_in
alloc_with value t none = (0, t)
alloc_with value t (some grown) = alloc_in grown (fill grown.next_id value grown.slots)

unfoldable pub bunix_id_alloc : Bool → IdTable → ℕ → ℕ × IdTable
unfolding alloc_with
bunix_id_alloc memory t value =
    if value == 0 then (0, t) else alloc_with value t (bunix_id_table_ensure_space memory t)

-- The value in the first slot with the identifier.
unfoldable pub get_from : ℕ → List IdSlot → ℕ
get_from id [] = 0
get_from id (s ∷ ss) = if s.id == id then s.value else get_from id ss

unfoldable pub bunix_id_get : IdTable → ℕ → ℕ
unfolding get_from
bunix_id_get t id = if id == 0 then 0 else get_from id t.slots

-- The first slot with the identifier is overwritten; `none` if there is none.
unfoldable pub replace : ℕ → IdSlot → List IdSlot → Option (List IdSlot)
replace id new [] = none
replace id new (s ∷ ss) =
    if s.id == id
    then some (new ∷ ss)
    else elim (replace id new ss) [ none ↦ none | some ss' ↦ some (s ∷ ss') ]

-- `true` is the source's 0, `false` its -1.
unfoldable pub set_in : IdTable → Option (List IdSlot) → Bool × IdTable
set_in t none = (false, t)
set_in t (some slots) = (true, record t { slots = slots })

unfoldable pub bunix_id_set : IdTable → ℕ → ℕ → Bool × IdTable
unfolding set_in
bunix_id_set t id value =
    if id == 0 || value == 0
    then (false, t)
    else set_in t (replace id (record { id = id; value = value }) t.slots)

unfoldable pub remove_in : IdTable → Option (List IdSlot) → Bool × IdTable
remove_in t none = (false, t)
remove_in t (some slots) =
    (true, record t { slots = slots; count = if t.count == 0 then 0 else t.count - 1 })

unfoldable pub bunix_id_remove : IdTable → ℕ → Bool × IdTable
unfolding remove_in
bunix_id_remove t id = if id == 0 then (false, t) else remove_in t (replace id empty_slot t.slots)
