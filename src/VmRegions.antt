-- ===== src/VmRegions.antt =====
-- kernel/sched.c: the memory regions of a task, from `region_end` to `task_vm_fault_is_file_backed`.
-- `vm_regions` holds the entries below `vm_region_count`, so its length is that count. `memory` is the
-- slab allocator's answer to a request to grow the table for a number of regions. A call asks for each
-- number once at most: the table is larger afterwards, or the call fails. Log lines are left out.
pub mod Count
pub mod Cut
pub mod Remove
pub mod Steps
pub mod Protect
pub mod Protected
pub mod Cover
pub mod Add
pub mod Place
pub mod Added
pub mod Joined
pub mod Extended
pub mod Calls
pub mod Full
mod Tests
use bunix.Common.{
  ℕ, zero, suc, ◌+◌, ◌*◌, ◌/◌, ◌%◌, Bool, true, false, not, ◌&&◌, ◌||◌, Option, none, some, List,
  [], ◌∷◌, ◌++◌, ltb, leb, ◌==◌, if◌then◌else◌, length, add64, sub64, u32_mod,
}

pub record VmRegion : Type 0 where
  pub base : ℕ
  pub len : ℕ
  pub offset : ℕ
  pub writable : Bool
  pub kind : ℕ
  pub prot : ℕ
  pub flags : ℕ
  pub object_type : ℕ
  pub object_id : ℕ

pub record VmTable : Type 0 where
  pub vm_regions : List VmRegion
  pub vm_region_capacity : ℕ

-- `while (new_capacity < min_capacity) new_capacity *= 2;`, with fuel.
unfoldable pub double_until : ℕ → ℕ → ℕ → ℕ
double_until zero capacity min_capacity = capacity
double_until (suc fuel) capacity min_capacity = elim (ltb capacity min_capacity) [
  | true ↦ double_until fuel (capacity * 2 % u32_mod) min_capacity
  | false ↦ capacity
]

-- The capacity afterwards; `none` is the source's -1. The entries are copied.
unfoldable pub task_grow_vm_regions : (ℕ → Bool) → ℕ → ℕ → Option ℕ
unfolding double_until
task_grow_vm_regions memory capacity min_capacity =
    if leb min_capacity capacity
    then some capacity
    else if memory min_capacity
    then some (double_until 32 (if capacity == 0 then 32 else capacity) min_capacity)
    else none

abbrev pub region_end : VmRegion → ℕ
region_end r = add64 r.base r.len

unfoldable pub regions_overlap : ℕ → ℕ → ℕ → ℕ → Bool
regions_overlap a_base a_len b_base b_len =
    ltb a_base (add64 b_base b_len) && ltb b_base (add64 a_base a_len)

-- `(prot & TASK_VM_PROT_WRITE) != 0`.
abbrev pub can_write : ℕ → Bool
can_write prot = prot / 2 % 2 == 1

abbrev pub region_set_prot : ℕ → VmRegion → VmRegion
region_set_prot prot r = record r { prot = prot; writable = can_write prot }

-- How a range and a region that it meets lie to each other, as `task_remove_vm_region` and
-- `task_protect_vm_region` test it.
pub data Part : Type 0 where
  apart whole front back middle : Part

-- The part of the region that the range takes: `remove_base` and `remove_end`, or `protect_base` and
-- `protect_end`.
abbrev pub cut_base : ℕ → VmRegion → ℕ
cut_base base r = if ltb r.base base then base else r.base

abbrev pub cut_end : ℕ → VmRegion → ℕ
cut_end end r = if ltb end (region_end r) then end else region_end r

unfoldable pub part_of : ℕ → ℕ → VmRegion → Part
unfolding regions_overlap
part_of base len r =
    let end = add64 base len in
    if not (regions_overlap base len r.base r.len)
    then apart
    else if cut_base base r == r.base && cut_end end r == region_end r
    then whole
    else if cut_base base r == r.base
    then front
    else if cut_end end r == region_end r
    then back
    else middle

-- What is left behind the range, and what is left before it.
abbrev pub right_of : ℕ → VmRegion → VmRegion
right_of end r = record r { base = cut_end end r; len = sub64 (region_end r) (cut_end end r) }

abbrev pub left_of : ℕ → VmRegion → VmRegion
left_of base r = record r { len = sub64 (cut_base base r) r.base }

-- The part itself.
abbrev pub inner_of : ℕ → ℕ → VmRegion → VmRegion
inner_of base end r = record r {
  base = cut_base base r;
  len = sub64 (cut_end end r) (cut_base base r);
}

-- The list with its last element in front of the others: the last entry takes the place of the entry
-- that goes.
abbrev pub put_second {ℓ} : {A : Type ℓ} → A → List A → List A
put_second x [] = x ∷ []
put_second x (y ∷ ys) = y ∷ x ∷ ys

unfoldable pub last_first {ℓ} : {A : Type ℓ} → List A → List A
last_first [] = []
last_first (x ∷ xs) = put_second x (last_first xs)

-- `done` and `denied` are the source's 0 and -1.
pub data Outcome : Type 0 where
  done : VmTable → Outcome
  denied : VmTable → Outcome
  out_of_fuel : Outcome

-- The loop of `task_remove_vm_region`: `seen` are the entries below `i`, `rest` the others.
unfoldable pub remove_loop : ℕ → (ℕ → Bool) → ℕ → ℕ → ℕ → List VmRegion → List VmRegion → Outcome
unfolding task_grow_vm_regions
remove_loop zero memory base len capacity seen rest = out_of_fuel
remove_loop (suc fuel) memory base len capacity seen [] =
    done (record { vm_regions = seen; vm_region_capacity = capacity })
remove_loop (suc fuel) memory base len capacity seen (r ∷ rest) = elim (part_of base len r) [
  | apart ↦ remove_loop fuel memory base len capacity (seen ++ (r ∷ [])) rest
  | whole ↦ remove_loop fuel memory base len capacity seen (last_first rest)
  | front ↦
      remove_loop fuel memory base len capacity (seen ++ (right_of (add64 base len) r ∷ [])) rest
  | back ↦ remove_loop fuel memory base len capacity (seen ++ (left_of base r ∷ [])) rest
  | middle ↦ elim (task_grow_vm_regions memory capacity (length (seen ++ (r ∷ rest)) + 1)) [
    | none ↦ denied (record { vm_regions = seen ++ (r ∷ rest); vm_region_capacity = capacity })
    | some grown ↦
        remove_loop fuel memory base len grown (seen ++ (left_of base r ∷ []))
          (rest ++ (right_of (add64 base len) r ∷ []))
  ]
]

abbrev pub bad_range : ℕ → ℕ → Bool
bad_range base len = len == 0 || ltb (add64 base len) base

-- Each entry is seen once, and what is split off it once more.
unfoldable pub task_remove_vm_region : (ℕ → Bool) → VmTable → ℕ → ℕ → Outcome
unfolding remove_loop
task_remove_vm_region memory t base len =
    if bad_range base len
    then denied t
    else remove_loop (2 * length t.vm_regions + 1) memory base len t.vm_region_capacity []
        t.vm_regions

-- The end of the first region that holds the address `cursor`.
unfoldable pub end_of_cover : ℕ → List VmRegion → Option ℕ
end_of_cover cursor [] = none
end_of_cover cursor (r ∷ rs) =
    if leb r.base cursor && ltb cursor (region_end r)
    then some (region_end r)
    else end_of_cover cursor rs

-- `while (cursor < end)`; `none` is out of fuel.
unfoldable pub covered_loop : ℕ → List VmRegion → ℕ → ℕ → Option Bool
unfolding end_of_cover
covered_loop zero rs cursor end = none
covered_loop (suc fuel) rs cursor end = elim (ltb cursor end) [
  | false ↦ some true
  | true ↦ elim (end_of_cover cursor rs) [
    | none ↦ some false
    | some e ↦ covered_loop fuel rs (if ltb e end then e else end) end
  ]
]

-- Each round leaves a region behind; then come the round that finds none and the one that ends.
unfoldable pub task_vm_range_is_covered : List VmRegion → ℕ → ℕ → Option Bool
unfolding covered_loop
task_vm_range_is_covered rs base len = covered_loop (length rs + 2) rs base (add64 base len)

-- The loop of `task_protect_vm_region`. The inner part goes to the end of the table, and so does what
-- lies behind the range where the range is in the middle of the region.
unfoldable pub protect_loop :
    ℕ → (ℕ → Bool) → ℕ → ℕ → ℕ → ℕ → List VmRegion → List VmRegion → Outcome
unfolding task_grow_vm_regions
protect_loop zero memory base len prot capacity seen rest = out_of_fuel
protect_loop (suc fuel) memory base len prot capacity seen [] =
    done (record { vm_regions = seen; vm_region_capacity = capacity })
protect_loop (suc fuel) memory base len prot capacity seen (r ∷ rest) =
    let inner = region_set_prot prot (inner_of base (add64 base len) r) in
    let right = right_of (add64 base len) r in
    let left = left_of base r in
    let count = length seen + 1 + length rest in
    elim (part_of base len r) [
      | apart ↦ protect_loop fuel memory base len prot capacity (seen ++ (r ∷ [])) rest
      | whole ↦
          protect_loop fuel memory base len prot capacity (seen ++ (region_set_prot prot r ∷ []))
            rest
      | front ↦ elim (task_grow_vm_regions memory capacity (count + 1)) [
        | none ↦
            denied (record { vm_regions = seen ++ (right ∷ rest); vm_region_capacity = capacity })
        | some grown ↦
            protect_loop fuel memory base len prot grown (seen ++ (right ∷ []))
              (rest ++ (inner ∷ []))
      ]
      | back ↦ elim (task_grow_vm_regions memory capacity (count + 1)) [
        | none ↦
            denied (record { vm_regions = seen ++ (left ∷ rest); vm_region_capacity = capacity })
        | some grown ↦
            protect_loop fuel memory base len prot grown (seen ++ (left ∷ []))
              (rest ++ (inner ∷ []))
      ]
      | middle ↦ elim (task_grow_vm_regions memory capacity (count + 1)) [
        | none ↦
            denied (record { vm_regions = seen ++ (left ∷ rest); vm_region_capacity = capacity })
        | some grown ↦ elim (task_grow_vm_regions memory grown (count + 2)) [
          | none ↦ denied (record {
            vm_regions = seen ++ (left ∷ (rest ++ (inner ∷ [])));
            vm_region_capacity = grown;
          })
          | some grown' ↦
              protect_loop fuel memory base len prot grown' (seen ++ (left ∷ []))
                (rest ++ (inner ∷ right ∷ []))
        ]
      ]
    ]

-- An entry is seen once, its inner part once more, and what lies behind the range once more.
unfoldable pub protect_covered : (ℕ → Bool) → VmTable → ℕ → ℕ → ℕ → Option Bool → Outcome
unfolding protect_loop
protect_covered memory t base len prot none = out_of_fuel
protect_covered memory t base len prot (some false) = denied t
protect_covered memory t base len prot (some true) =
    protect_loop (3 * length t.vm_regions + 1) memory base len prot t.vm_region_capacity []
      t.vm_regions

unfoldable pub task_protect_vm_region : (ℕ → Bool) → VmTable → ℕ → ℕ → ℕ → Outcome
unfolding task_vm_range_is_covered protect_covered
task_protect_vm_region memory t base len prot =
    if bad_range base len
    then denied t
    else protect_covered memory t base len prot (task_vm_range_is_covered t.vm_regions base len)
