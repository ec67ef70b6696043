-- ===== src/Pmm.antt =====
-- kernel/pmm.c, the physical page allocator: the state, and the calls made once it is set up.
-- `pages` holds the entries of the page array below `total_pages`, so its length is that count. A
-- `struct pmm_page *` is an index into the array, and the chain of `next` pointers that starts at
-- `free_pages` is the list of the indices on it.
pub mod Setup
pub mod Invariant
pub mod Alloc
pub mod Contiguous
pub mod Refs
pub mod Import
pub mod Addresses
pub mod Reserve
pub mod Reserved
pub mod Boot
pub mod Calls
mod Tests
use bunix.Common.{
  ℕ, zero, suc, ◌+◌, ◌*◌, Bool, true, false, ◌&&◌, ◌||◌, not, Option, none, some, List, [], ◌∷◌,
  ltb, leb, ◌==◌, if◌then◌else◌, length, get_elem?, modify, remove, add64, sub64, mul64, add32,
  sub32,
}

abbrev pub page_size : ℕ
page_size = 4096

-- `struct pmm_page`, without its link.
pub record Page : Type 0 where
  pub addr : ℕ
  pub is_free : Bool
  pub ref_count : ℕ

pub record Pmm : Type 0 where
  pub pages : List Page
  pub free_pages : List ℕ
  pub page_capacity : ℕ
  pub free_pages_count : ℕ
  pub metadata_start : ℕ
  pub metadata_end : ℕ

abbrev pub total_pages : Pmm → ℕ
total_pages m = length m.pages

abbrev pub mark_free : Page → Page
mark_free page = record page { is_free = true; ref_count = 0 }

abbrev pub mark_used : Page → Page
mark_used page = record page { is_free = false; ref_count = 1 }

unfoldable pub page_list_push : Pmm → ℕ → Pmm
page_list_push m i = record m {
  pages = modify m.pages i mark_free;
  free_pages = i ∷ m.free_pages;
  free_pages_count = add64 m.free_pages_count 1;
}

-- The index of the first page at an address; `i` is the index of the list's head.
pub find_from : ℕ → ℕ → List Page → Option ℕ
find_from i addr [] = none
find_from i addr (page ∷ ps) = if page.addr == addr then some i else find_from (suc i) addr ps

pub find_page : Pmm → ℕ → Option ℕ
find_page m addr = find_from 0 addr m.pages

unfoldable pub page_list_remove : Pmm → ℕ → Pmm
page_list_remove m i = record m { free_pages = remove i m.free_pages }

unfoldable pub alloc_from : Pmm → List ℕ → Option ℕ × Pmm
alloc_from m [] = (none, m)
alloc_from m (i ∷ next) = (
  some i,
  record m {
    pages = modify m.pages i mark_used;
    free_pages = next;
    free_pages_count = sub64 m.free_pages_count 1;
  },
)

unfoldable pub pmm_page_alloc : Pmm → Option ℕ × Pmm
unfolding alloc_from
pmm_page_alloc m = alloc_from m m.free_pages

-- The inner loop of `pmm_pages_alloc_contiguous`: `n` rounds are left, `j` are done.
unfoldable pub usable : ℕ → ℕ → ℕ → List Page → Bool
usable start j zero ps = true
usable start j (suc n) [] = false
usable start j (suc n) (page ∷ ps) =
    page.is_free && page.addr == add64 start (mul64 j page_size) && usable start (suc j) n ps

-- The outer loop, from index `i` at the head of the list.
unfoldable pub find_run : ℕ → ℕ → List Page → Option (ℕ × ℕ)
find_run count i [] = none
find_run count i (page ∷ ps) =
    let rest = find_run count (suc i) ps in
    if leb count (length (page ∷ ps))
    then if usable page.addr 0 count (page ∷ ps) then some (i, page.addr) else rest
    else none

-- The loop that takes the `n` pages from index `i` on out of the free list.
unfoldable pub take_run : ℕ → ℕ → Pmm → Pmm
unfolding page_list_remove
take_run zero i m = m
take_run (suc n) i m =
    let m' = page_list_remove m i in
    take_run n (suc i) (record m' { pages = modify m'.pages i mark_used })

-- 0 is the source's failure value.
unfoldable pub pmm_pages_alloc_contiguous : Pmm → ℕ → ℕ × Pmm
unfolding find_run take_run
pmm_pages_alloc_contiguous m zero = (0, m)
pmm_pages_alloc_contiguous m (suc n) = elim (find_run (suc n) 0 m.pages) [
  | none ↦ (0, m)
  | some (i, start) ↦
      let m' = take_run (suc n) i m in
      (start, record m' { free_pages_count = sub64 m'.free_pages_count (suc n) })
]

-- `true` is the source's 0, `false` its -1.
unfoldable pub retain_at : Pmm → ℕ → Option Page → Bool × Pmm
retain_at m i none = (false, m)
retain_at m i (some page) = if page.is_free || page.ref_count == 0 then (false, m) else (
  true,
  record m { pages = modify m.pages i (λ q. record q { ref_count = add32 q.ref_count 1 }) },
)

unfoldable pub pmm_page_retain_addr : Pmm → ℕ → Bool × Pmm
unfolding retain_at
pmm_page_retain_addr m addr = elim (find_page m addr) [
  | none ↦ (false, m)
  | some i ↦ retain_at m i (get_elem? m.pages i)
]

abbrev pub is_index : Option ℕ → ℕ → Bool
is_index none i = false
is_index (some j) i = j == i

unfoldable pub free_at : Pmm → ℕ → Option Page → Pmm
unfolding page_list_push
free_at m i none = m
free_at m i (some page) =
    if not (is_index (find_page m page.addr) i) || page.is_free
    then m
    else if ltb 1 page.ref_count
    then record m { pages = modify m.pages i (λ q. record q { ref_count = sub32 q.ref_count 1 }) }
    else page_list_push m i

-- The null pointer is `none`; a pointer that is not into the array is no index.
unfoldable pub pmm_page_free : Pmm → Option ℕ → Pmm
unfolding free_at
pmm_page_free m none = m
pmm_page_free m (some i) = free_at m i (get_elem? m.pages i)

unfoldable pub pmm_page_free_addr : Pmm → ℕ → Pmm
pmm_page_free_addr m addr = pmm_page_free m (find_page m addr)

-- `for (i = 0; i < count; i++)`: `n` rounds are left, `i` are done.
unfoldable pub free_run : ℕ → ℕ → ℕ → Pmm → Pmm
free_run zero i addr m = m
free_run (suc n) i addr m =
    free_run n (suc i) addr (pmm_page_free_addr m (add64 addr (mul64 i page_size)))

pub pmm_pages_free_contiguous : Pmm → ℕ → ℕ → Pmm
unfolding free_run
pmm_pages_free_contiguous m addr count = free_run count 0 addr m

pub pmm_page_addr : Pmm → Option ℕ → ℕ
pmm_page_addr m none = 0
pmm_page_addr m (some i) = elim (get_elem? m.pages i) [ none ↦ 0 | some page ↦ page.addr ]

pub pmm_free_page_count : Pmm → ℕ
pmm_free_page_count m = m.free_pages_count
