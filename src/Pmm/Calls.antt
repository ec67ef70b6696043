-- ===== src/Pmm/Calls.antt =====
-- kernel/pmm.c: any sequence of its calls. Each runs under `pmm_lock`, so calls do not overlap.
use bunix.Common.{ℕ, Option, List, [], ◌∷◌}
use bunix.Pmm.{
  Pmm, pmm_page_alloc, pmm_pages_alloc_contiguous, pmm_page_retain_addr, pmm_page_free,
  pmm_page_free_addr, pmm_pages_free_contiguous, find_page,
}
use bunix.Pmm.Invariant.{IsValid}
use bunix.Pmm.Alloc.{pmm_page_alloc-IsValid}
use bunix.Pmm.Contiguous.{pmm_pages_alloc_contiguous-IsValid}
use bunix.Pmm.Refs.{pmm_page_retain_addr-IsValid, pmm_page_free-IsValid, free_run-IsValid}

pub data Call : Type 0 where
  alloc : Call
  alloc_contiguous : ℕ → Call
  retain_addr : ℕ → Call
  free : Option ℕ → Call
  free_addr : ℕ → Call
  free_contiguous : ℕ → ℕ → Call

pub step : Pmm → Call → Pmm
step m alloc = (pmm_page_alloc m).1
step m (alloc_contiguous count) = (pmm_pages_alloc_contiguous m count).1
step m (retain_addr addr) = (pmm_page_retain_addr m addr).1
step m (free page) = pmm_page_free m page
step m (free_addr addr) = pmm_page_free_addr m addr
step m (free_contiguous addr count) = pmm_pages_free_contiguous m addr count

pub run : Pmm → List Call → Pmm
run m [] = m
run m (c ∷ cs) = run (step m c) cs

step-IsValid : (m : Pmm) (c : Call) → IsValid m → IsValid (step m c)
unfolding step pmm_page_free_addr pmm_pages_free_contiguous
step-IsValid m alloc v = pmm_page_alloc-IsValid m v
step-IsValid m (alloc_contiguous count) v = pmm_pages_alloc_contiguous-IsValid m v count
step-IsValid m (retain_addr addr) v = pmm_page_retain_addr-IsValid m addr v
step-IsValid m (free page) v = pmm_page_free-IsValid m page v
step-IsValid m (free_addr addr) v = pmm_page_free-IsValid m (find_page m addr) v
step-IsValid m (free_contiguous addr count) v = free_run-IsValid count 0 addr m v

-- No sequence of calls brings the free list, the marks in the page array and the counter out of
-- step: the pages on the list are those marked free, each once, and the counter is their number.
pub run-IsValid : (cs : List Call) (m : Pmm) → IsValid m → IsValid (run m cs)
unfolding run
run-IsValid [] m v = v
run-IsValid (c ∷ cs) m v = run-IsValid cs (step m c) (step-IsValid m c v)
