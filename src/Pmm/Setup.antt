-- ===== src/Pmm/Setup.antt =====
-- kernel/pmm.c: how the allocator is set up from the boot loader's memory map.
use bunix.Common.{
  ℕ, zero, suc, ◌-◌, ◌/◌, ◌%◌, Bool, true, false, ◌&&◌, ◌||◌, Option, none, some, List, [], ◌∷◌,
  ltb, leb, ◌==◌, if◌then◌else◌, get_elem?, modify, add64, sub64, mul64, ◌++◌,
}
use bunix.Pmm.{Pmm, Page, page_list_push, page_size, total_pages}

-- `struct pmm_memory_range` and `struct pmm_reserved_range`.
pub record MemoryRange : Type 0 where
  pub base : ℕ
  pub size : ℕ

pub record ReservedRange : Type 0 where
  pub from : ℕ
  pub to : ℕ

-- `value & ~(align - 1)` for a power of two, which is every `align` in use.
abbrev pub align_down : ℕ → ℕ → ℕ
align_down value align = value - value % align

abbrev pub align_up : ℕ → ℕ → ℕ
align_up value align = align_down (sub64 (add64 value align) 1) align

abbrev pub ranges_overlap : ℕ → ℕ → ℕ → ℕ → Bool
ranges_overlap a_start a_end b_start b_end = ltb a_start b_end && ltb b_start a_end

-- The test on a range before it is used: not empty, and its end does not wrap.
abbrev pub range_ignored : MemoryRange → Bool
range_ignored r = r.size == 0 || ltb (add64 r.base r.size) r.base

abbrev pub range_start : MemoryRange → ℕ
range_start r = align_up r.base page_size

abbrev pub range_end : MemoryRange → ℕ
range_end r = align_down (add64 r.base r.size) page_size

unfoldable pub add_available_page : ℕ → Pmm → Pmm
unfolding page_list_push
add_available_page addr m =
    if ltb (total_pages m) m.page_capacity
    then page_list_push
        (record m {
          pages = m.pages ++ (record { addr = addr; is_free = false; ref_count = 0 } ∷ []);
        })
        (total_pages m)
    else m

-- `while (start < end) { add_available_page(start); start += PMM_PAGE_SIZE; }`; the fuel is the
-- number of pages between the two, which are page aligned.
unfoldable pub import_pages : ℕ → ℕ → ℕ → Pmm → Pmm
import_pages zero start end m = m
import_pages (suc fuel) start end m = elim (ltb start end) [
  | true ↦ import_pages fuel (add64 start page_size) end (add_available_page start m)
  | false ↦ m
]

unfoldable pub import_available_range : MemoryRange → Pmm → Pmm
unfolding import_pages
import_available_range r m =
    if range_ignored r
    then m
    else import_pages ((range_end r - range_start r) / page_size) (range_start r) (range_end r) m

-- The pages of one range, 0 for a range that is skipped.
unfoldable pub pages_in : MemoryRange → ℕ
pages_in r =
    if range_ignored r
    then 0
    else if ltb (range_start r) (range_end r)
    then (range_end r - range_start r) / page_size
    else 0

unfoldable pub count_from : ℕ → List MemoryRange → ℕ
unfolding pages_in
count_from count [] = count
count_from count (r ∷ rs) = count_from (add64 count (pages_in r)) rs

unfoldable pub count_available_pages : List MemoryRange → ℕ
unfolding count_from
count_available_pages available = count_from 0 available

unfoldable pub range_is_reserved_by_list : ℕ → ℕ → List ReservedRange → Bool
range_is_reserved_by_list start end [] = false
range_is_reserved_by_list start end (r ∷ rs) =
    ranges_overlap start end r.from r.to || range_is_reserved_by_list start end rs

-- The search of one range for `bytes` bytes that no reserved range meets.
unfoldable pub find_storage_in : ℕ → ℕ → ℕ → ℕ → List ReservedRange → Option ℕ
find_storage_in zero bytes start end reserved = none
find_storage_in (suc fuel) bytes start end reserved =
    elim (ltb start end && leb bytes (end - start)) [
      | true ↦ elim (range_is_reserved_by_list start (add64 start bytes) reserved) [
        | false ↦ some start
        | true ↦ find_storage_in fuel bytes (add64 start page_size) end reserved
      ]
      | false ↦ none
    ]

-- `sizeof(struct pmm_page)`: two words of 8 bytes and two of 4.
abbrev pub sizeof_page : ℕ
sizeof_page = 24

abbrev pub metadata_bytes : ℕ → ℕ
metadata_bytes page_count = align_up (mul64 page_count sizeof_page) page_size

-- The start of the storage for the page array.
unfoldable pub find_metadata_storage_from_ranges :
    List MemoryRange → List ReservedRange → ℕ → Option ℕ
unfolding find_storage_in
find_metadata_storage_from_ranges [] reserved bytes = none
find_metadata_storage_from_ranges (r ∷ rs) reserved bytes =
    let rest = find_metadata_storage_from_ranges rs reserved bytes in
    let here =
      find_storage_in (suc ((range_end r - range_start r) / page_size)) bytes (range_start r)
        (range_end r) reserved in
    if range_ignored r then rest else elim here [ none ↦ rest | some start ↦ some start ]

-- The page's own range meets the given one; `none` is no page of the array.
abbrev pub page_meets : ℕ → ℕ → Option Page → Bool
page_meets start end none = false
page_meets start end (some page) = ranges_overlap page.addr (add64 page.addr page_size) start end

-- The loop of `reserve_range` over the free list that is left: pages that meet the range are taken
-- off, the others are moved to `new_free`.
unfoldable pub reserve_loop : ℕ → ℕ → List ℕ → List ℕ → ℕ → Pmm → Pmm
reserve_loop start end [] new_free removed m = record m {
  free_pages = new_free;
  free_pages_count = sub64 m.free_pages_count removed;
}
reserve_loop start end (i ∷ next) new_free removed m =
    let hit = page_meets start end (get_elem? m.pages i) in
    reserve_loop start end next (if hit then new_free else i ∷ new_free)
      (if hit then add64 removed 1 else removed)
      (if hit then record m { pages = modify m.pages i (λ q. record q { is_free = false }) } else m)

unfoldable pub reserve_range : ℕ → ℕ → Pmm → Pmm
unfolding reserve_loop
reserve_range start end m =
    reserve_loop (align_down start page_size) (align_up end page_size) m.free_pages [] 0 m

unfoldable pub import_all : List MemoryRange → Pmm → Pmm
unfolding import_available_range
import_all [] m = m
import_all (r ∷ rs) m = import_all rs (import_available_range r m)

unfoldable pub reserve_all : List ReservedRange → Pmm → Pmm
unfolding reserve_range
reserve_all [] m = m
reserve_all (r ∷ rs) m = reserve_all rs (reserve_range r.from r.to m)

abbrev pub cleared : ℕ → ℕ → ℕ → Pmm
cleared capacity start end = record {
  pages = [];
  free_pages = [];
  page_capacity = capacity;
  free_pages_count = 0;
  metadata_start = start;
  metadata_end = end;
}

-- The rest of the set-up, once the storage for the page array is found. `none` is the source's
-- endless loop when there is no room for it.
unfoldable pub init_at : List MemoryRange → List ReservedRange → ℕ → Option ℕ → Option Pmm
unfolding import_all reserve_all
init_at available reserved detected none = none
init_at available reserved detected (some start) =
    let end = add64 start (metadata_bytes detected) in
    if start == 0 || leb end start
    then none
    else some (
        reserve_range start end
          (reserve_all reserved (import_all available (cleared detected start end))))

unfoldable pub pmm_init_from_ranges : List MemoryRange → List ReservedRange → Option Pmm
unfolding count_available_pages find_metadata_storage_from_ranges init_at
pmm_init_from_ranges available reserved =
    let detected = count_available_pages available in
    init_at available reserved detected
      (find_metadata_storage_from_ranges available reserved (metadata_bytes detected))
