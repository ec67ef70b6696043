-- ===== src/Pmm/Tests.antt =====
-- Runs of kernel/pmm.c on a memory map of four pages.
use bunix.Common.{
  some, List, [], ◌∷◌, ◌≡◌, refl, ◌⊎◌, ◌&&◌, not, mem, get_elem?, true, false, arith,
}
use bunix.Pmm.{
  Pmm, Page, pmm_page_alloc, pmm_page_retain_addr, pmm_page_free, pmm_pages_alloc_contiguous,
  usable, find_page, find_from,
}
use bunix.Pmm.Setup.{
  MemoryRange, ReservedRange, pmm_init_from_ranges, pages_in, reserve_range,
  range_is_reserved_by_list, add_available_page,
}
use bunix.Pmm.Invariant.{IsValid}
use mathlib.Core.Path.{subst}
use bunix.Pmm.Boot.{Ready, SetUp, pmm_init_from_ranges-SetUp}
use bunix.Pmm.Calls.{run, run-IsValid, alloc, retain_addr, free_addr, alloc_contiguous}
use bunix.Pmm.Alloc.{AllocResult, pmm_page_alloc-AllocResult}
use bunix.Pmm.Contiguous.{RunAllocated, NoRun, pmm_pages_alloc_contiguous_lem}
use bunix.Pmm.Reserved.{mem-reserve_range, reserved_by}
use bunix.Pmm.Refs.{free-retain, free-alloc}

abbrev available : List MemoryRange
available = record { base = 0x10_0800; size = 0x4900 } ∷ []

abbrev reserved : List ReservedRange
reserved = record { from = 0x10_2800; to = 0x10_2900 } ∷ []

-- The first page holds the page array, the second meets the reserved range.
abbrev ready : Pmm
ready = record {
  pages =
      record { addr = 0x10_1000; is_free = false; ref_count = 0 }
      ∷ record { addr = 0x10_2000; is_free = false; ref_count = 0 }
      ∷ record { addr = 0x10_3000; is_free = true; ref_count = 0 }
      ∷ record { addr = 0x10_4000; is_free = true; ref_count = 0 }
      ∷ [];
  free_pages = 3 ∷ 2 ∷ [];
  page_capacity = 4;
  free_pages_count = 2;
  metadata_start = 0x10_1000;
  metadata_end = 0x10_2000;
}

set_up : pmm_init_from_ranges available reserved ≡ some ready
unfolding pmm_init_from_ranges range_is_reserved_by_list add_available_page
set_up = refl

pmm_init_from_ranges-SetUp_example :
    SetUp available reserved (pmm_init_from_ranges available reserved)
unfolding pages_in
pmm_init_from_ranges-SetUp_example =
    pmm_init_from_ranges-SetUp available reserved (omega arith) (omega arith, omega arith, tt)
      (omega arith, tt)

ready-Ready : Ready available reserved ready
unfolding pages_in
ready-Ready = subst (SetUp available reserved) set_up (
    pmm_init_from_ranges-SetUp available reserved (omega arith) (omega arith, omega arith, tt)
      (omega arith, tt))

ready-IsValid : IsValid ready
ready-IsValid = ready-Ready.valid

run-IsValid_example :
    IsValid
      (run ready (alloc ∷ retain_addr 0x10_4000 ∷ free_addr 0x10_4000 ∷ alloc_contiguous 1 ∷ []))
run-IsValid_example =
    run-IsValid (alloc ∷ retain_addr 0x10_4000 ∷ free_addr 0x10_4000 ∷ alloc_contiguous 1 ∷ [])
      ready ready-IsValid

pmm_page_alloc-AllocResult_example : AllocResult ready (pmm_page_alloc ready)
pmm_page_alloc-AllocResult_example = pmm_page_alloc-AllocResult ready ready-IsValid

pmm_pages_alloc_contiguous_lem_example :
    let (start, m') = pmm_pages_alloc_contiguous ready 2 in
    RunAllocated ready 2 start m' ⊎ ((start ≡ 0) × (m' ≡ ready) × NoRun ready 2)
pmm_pages_alloc_contiguous_lem_example = pmm_pages_alloc_contiguous_lem ready ready-IsValid 1

finds_the_run : (pmm_pages_alloc_contiguous ready 2).0 ≡ 0x10_3000
unfolding pmm_pages_alloc_contiguous usable
finds_the_run = refl

mem-reserve_range_example :
    mem 3 (reserve_range 0x10_4fff 0x10_5000 ready).free_pages
    ≡ (mem 3 ready.free_pages && not (reserved_by 0x10_4fff 0x10_5000 (get_elem? ready.pages 3)))
mem-reserve_range_example =
    mem-reserve_range 0x10_4fff 0x10_5000 ready 3 (omega arith)
      (omega arith, (omega arith, (omega arith, (omega arith, tt))))

abbrev used : Page
used = record { addr = 0x10_4000; is_free = false; ref_count = 1 }

abbrev holding : Pmm
holding = record ready {
  pages =
      record { addr = 0x10_1000; is_free = false; ref_count = 0 }
      ∷ record { addr = 0x10_2000; is_free = false; ref_count = 0 }
      ∷ record { addr = 0x10_3000; is_free = true; ref_count = 0 }
      ∷ used
      ∷ [];
  free_pages = 2 ∷ [];
  free_pages_count = 1;
}

free-retain_example :
    let (done, m') = pmm_page_retain_addr holding 0x10_4000 in
    (done ≡ true) × (pmm_page_free m' (some 3) ≡ holding)
unfolding find_page find_from
free-retain_example = free-retain holding 3 used refl refl refl (omega arith) (omega arith)

free-alloc_example :
    let (got, m') = pmm_page_alloc ready in (got ≡ some 3) × (pmm_page_free m' (some 3) ≡ ready)
unfolding find_page find_from
free-alloc_example =
    free-alloc ready ready-IsValid 3 (2 ∷ [])
      (record { addr = 0x10_4000; is_free = true; ref_count = 0 }) refl refl refl refl
