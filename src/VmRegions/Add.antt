-- ===== src/VmRegions/Add.antt =====
-- kernel/sched.c: new memory regions of a task, from `writable_to_prot` to
-- `task_vm_range_overlaps_other_locked` and from `task_add_vm_region` to `task_vm_range_is_free`.
-- `VmMapping` holds the arguments that describe a mapping. The lock, and the log line of a call that is
-- denied, are left out; the task is there.
use bunix.Common.{
  ℕ, zero, suc, ◌+◌, ◌-◌, ◌%◌, Bool, true, false, not, ◌&&◌, ◌||◌, Option, none, some, List, [],
  ◌∷◌, ◌++◌, ltb, leb, ◌==◌, if◌then◌else◌, length, add64, sub64,
}
use bunix.VmRegions.{
  VmRegion, VmTable, region_end, regions_overlap, can_write, bad_range, task_grow_vm_regions,
  Outcome, done, denied,
}

pub record VmMapping : Type 0 where
  pub prot : ℕ
  pub map_flags : ℕ
  pub kind : ℕ
  pub object_type : ℕ
  pub object_id : ℕ
  pub offset : ℕ

-- Read is bit 0, write is bit 1.
abbrev pub writable_to_prot : Bool → ℕ
writable_to_prot writable = 1 + (if writable then 2 else 0)

-- The kinds are 1 for an ELF image, 2 for the stack, 3 for the heap and 4 for `mmap`. A private mapping
-- is bit 0, an anonymous one bit 1.
abbrev pub writable_to_flags : ℕ → ℕ
writable_to_flags kind = 1 + (if kind == 4 || kind == 3 || kind == 2 then 2 else 0)

-- 1 is an anonymous object, 2 a file.
abbrev pub kind_to_object_type : ℕ → ℕ
kind_to_object_type kind = if kind == 1 then 2 else 1

unfoldable pub vm_region_metadata_matches : VmRegion → VmMapping → Bool
vm_region_metadata_matches r m =
    r.kind == m.kind
    && r.prot == m.prot
    && r.flags == m.map_flags
    && r.object_type == m.object_type
    && r.object_id == m.object_id

unfoldable pub vm_region_append_offset_matches : VmRegion → VmMapping → Bool
vm_region_append_offset_matches r m =
    m.object_id == 0 || m.object_type == 1 || add64 r.offset r.len == m.offset

unfoldable pub vm_region_prepend_offset_matches : VmRegion → ℕ → ℕ → VmMapping → Bool
vm_region_prepend_offset_matches r base len m =
    if leb r.base base || m.object_id == 0 || m.object_type == 1
    then true
    else add64 m.offset (sub64 r.base base) == r.offset && leb r.offset (add64 m.offset len)

-- Whether a region meets the range.
unfoldable pub overlaps_any : ℕ → ℕ → List VmRegion → Bool
unfolding regions_overlap
overlaps_any base len [] = false
overlaps_any base len (r ∷ rs) = regions_overlap base len r.base r.len || overlaps_any base len rs

-- The entry at `skip_index` is left out, all behind it are tested.
unfoldable pub task_vm_range_overlaps_other : List VmRegion → ℕ → ℕ → ℕ → Bool
unfolding overlaps_any
task_vm_range_overlaps_other [] skip_index base len = false
task_vm_range_overlaps_other (r ∷ rs) zero base len = overlaps_any base len rs
task_vm_range_overlaps_other (r ∷ rs) (suc skip_index) base len =
    regions_overlap base len r.base r.len || task_vm_range_overlaps_other rs skip_index base len

unfoldable pub can_append : VmMapping → ℕ → ℕ → List VmRegion → ℕ → VmRegion → Bool
unfolding vm_region_metadata_matches vm_region_append_offset_matches task_vm_range_overlaps_other
can_append m base len rs i r =
    vm_region_metadata_matches r m
    && vm_region_append_offset_matches r m
    && region_end r == base
    && leb r.len (add64 r.len len)
    && not (task_vm_range_overlaps_other rs i r.base (add64 r.len len))

-- The first loop of `task_add_vm_mapping`: `seen` are the entries below `i`, `rest` the others. The
-- entries afterwards; `none` is that no region ends where the mapping begins.
unfoldable pub append_loop :
    VmMapping → ℕ → ℕ → List VmRegion → List VmRegion → Option (List VmRegion)
unfolding can_append
append_loop m base len seen [] = none
append_loop m base len seen (r ∷ rest) =
    elim (can_append m base len (seen ++ (r ∷ rest)) (length seen) r) [
      | true ↦ some (seen ++ (record r { len = add64 r.len len } ∷ rest))
      | false ↦ append_loop m base len (seen ++ (r ∷ [])) rest
    ]

abbrev pub mapped_region : VmMapping → ℕ → ℕ → VmRegion
mapped_region m base len = record {
  base = base;
  len = len;
  offset = m.offset;
  writable = can_write m.prot;
  kind = m.kind;
  prot = m.prot;
  flags = m.map_flags;
  object_type = m.object_type;
  object_id = m.object_id;
}

unfoldable pub put_mapping : VmTable → VmMapping → ℕ → ℕ → Option ℕ → Outcome
put_mapping t m base len none = denied t
put_mapping t m base len (some grown) = done (record {
  vm_regions = t.vm_regions ++ (mapped_region m base len ∷ []);
  vm_region_capacity = grown;
})

-- The part of `task_add_vm_mapping` behind the first loop, or its early return.
unfoldable pub finish_mapping :
    (ℕ → Bool) → VmTable → VmMapping → ℕ → ℕ → Option (List VmRegion) → Outcome
unfolding overlaps_any task_grow_vm_regions put_mapping
finish_mapping memory t m base len (some rs) = done (record t { vm_regions = rs })
finish_mapping memory t m base len none =
    if overlaps_any base len t.vm_regions
    then denied t
    else put_mapping t m base len
        (task_grow_vm_regions memory t.vm_region_capacity (length t.vm_regions + 1))

unfoldable pub task_add_vm_mapping : (ℕ → Bool) → VmTable → VmMapping → ℕ → ℕ → Outcome
unfolding append_loop finish_mapping
task_add_vm_mapping memory t m base len =
    if bad_range base len
    then denied t
    else finish_mapping memory t m base len (append_loop m base len [] t.vm_regions)

-- The mapping of `task_add_vm_region` and `task_add_or_extend_vm_region`.
abbrev pub region_mapping : Bool → ℕ → VmMapping
region_mapping writable kind = record {
  prot = writable_to_prot writable;
  map_flags = writable_to_flags kind;
  kind = kind;
  object_type = kind_to_object_type kind;
  object_id = 0;
  offset = 0;
}

unfoldable pub task_add_vm_region : (ℕ → Bool) → VmTable → ℕ → ℕ → Bool → ℕ → Outcome
unfolding task_add_vm_mapping
task_add_vm_region memory t base len writable kind =
    task_add_vm_mapping memory t (region_mapping writable kind) base len

-- `new_base` and `new_end`.
abbrev pub joined_base : ℕ → VmRegion → ℕ
joined_base base r = if ltb base r.base then base else r.base

abbrev pub joined_end : ℕ → VmRegion → ℕ
joined_end req_end r = if ltb (region_end r) req_end then req_end else region_end r

abbrev pub joined_len : ℕ → ℕ → VmRegion → ℕ
joined_len base len r = sub64 (joined_end (add64 base len) r) (joined_base base r)

unfoldable pub can_extend : VmMapping → ℕ → ℕ → List VmRegion → ℕ → VmRegion → Bool
unfolding vm_region_metadata_matches vm_region_prepend_offset_matches task_vm_range_overlaps_other
can_extend m base len rs i r =
    vm_region_metadata_matches r m
    && vm_region_prepend_offset_matches r base len m
    && leb r.base (add64 base len)
    && leb base (region_end r)
    && not (
        ltb (joined_end (add64 base len) r) (joined_base base r)
        || task_vm_range_overlaps_other rs i (joined_base base r) (joined_len base len r))

-- The entry once the mapping is part of it.
abbrev pub extended : VmMapping → ℕ → ℕ → VmRegion → VmRegion
extended m base len r = record r {
  base = joined_base base r;
  offset = if joined_base base r == r.base then r.offset else m.offset;
  len = joined_len base len r;
}

-- The loop of `task_add_or_extend_vm_mapping`, like `append_loop`.
unfoldable pub extend_loop :
    VmMapping → ℕ → ℕ → List VmRegion → List VmRegion → Option (List VmRegion)
unfolding can_extend
extend_loop m base len seen [] = none
extend_loop m base len seen (r ∷ rest) =
    elim (can_extend m base len (seen ++ (r ∷ rest)) (length seen) r) [
      | true ↦ some (seen ++ (extended m base len r ∷ rest))
      | false ↦ extend_loop m base len (seen ++ (r ∷ [])) rest
    ]

unfoldable pub extended_or_not : VmTable → Option (List VmRegion) → Outcome
extended_or_not t none = denied t
extended_or_not t (some rs) = done (record t { vm_regions = rs })

-- The first section of `task_add_or_extend_vm_mapping` that holds the lock, on its own: `denied` is that
-- it extended no region.
unfoldable pub task_extend_vm_mapping : VmTable → VmMapping → ℕ → ℕ → Outcome
unfolding extend_loop extended_or_not
task_extend_vm_mapping t m base len =
    if bad_range base len
    then denied t
    else extended_or_not t (extend_loop m base len [] t.vm_regions)

-- The lock is dropped before `task_add_vm_mapping` takes it again. This is the call where no other call
-- runs between the two sections; where others do, it is the first section, then those, then
-- `task_add_vm_mapping`.
unfoldable pub extend_or_add :
    (ℕ → Bool) → VmTable → VmMapping → ℕ → ℕ → Option (List VmRegion) → Outcome
unfolding task_add_vm_mapping
extend_or_add memory t m base len (some rs) = done (record t { vm_regions = rs })
extend_or_add memory t m base len none = task_add_vm_mapping memory t m base len

unfoldable pub task_add_or_extend_vm_mapping : (ℕ → Bool) → VmTable → VmMapping → ℕ → ℕ → Outcome
unfolding extend_loop extend_or_add
task_add_or_extend_vm_mapping memory t m base len =
    if bad_range base len
    then denied t
    else extend_or_add memory t m base len (extend_loop m base len [] t.vm_regions)

unfoldable pub task_add_or_extend_vm_region : (ℕ → Bool) → VmTable → ℕ → ℕ → Bool → ℕ → Outcome
unfolding task_add_or_extend_vm_mapping
task_add_or_extend_vm_region memory t base len writable kind =
    task_add_or_extend_vm_mapping memory t (region_mapping writable kind) base len

unfoldable pub task_vm_range_is_free : List VmRegion → ℕ → ℕ → Bool
unfolding overlaps_any
task_vm_range_is_free rs base len =
    if bad_range base len then false else not (overlaps_any base len rs)

-- `addr & ~(VM_PAGE_SIZE - 1)`.
abbrev pub page_of : ℕ → ℕ
page_of addr = addr - addr % 4096

unfoldable pub holds_file : ℕ → List VmRegion → Bool
holds_file page [] = false
holds_file page (r ∷ rs) =
    (leb r.base page && ltb page (region_end r) && r.object_type == 2) || holds_file page rs

unfoldable pub task_vm_fault_is_file_backed : List VmRegion → ℕ → Bool
unfolding holds_file
task_vm_fault_is_file_backed rs addr = holds_file (page_of addr) rs
