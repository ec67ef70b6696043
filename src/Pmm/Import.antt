-- ===== src/Pmm/Import.antt =====
-- kernel/pmm.c: `import_available_range` enters every page of the memory map, and no page twice.
use bunix.Common.{
  ℕ, zero, suc, ◌+◌, ◌-◌, ◌*◌, ◌/◌, ◌<◌, ◌≤◌, ◌≡◌, ◌∙◌, refl, sym, false, List, [], ◌∷◌, ◌++◌,
  if◌then◌else◌, length, u64_mod, arith, inl, inr, Bool-cases, ltb, ltb→lt, length-append,
  length-modify, add64,
}
use bunix.Pmm.{Pmm, Page, total_pages, page_size, mark_free}
use bunix.Pmm.Setup.{
  MemoryRange, range_ignored, range_start, range_end, add_available_page, import_pages,
  import_available_range, import_all, pages_in, count_from,
}
use bunix.Pmm.Invariant.{IsValid, marked, count_free}
use bunix.Pmm.Alloc.{page_list_push-IsValid}

marked-append :
    (ps : List Page) (p : Page) (i : ℕ)
    → p.is_free ≡ false
    → marked (ps ++ (p ∷ [])) i ≡ marked ps i
marked-append [] p zero h = h
marked-append [] p (suc i) h = refl
marked-append (q ∷ ps) p zero h = refl
marked-append (q ∷ ps) p (suc i) h = marked-append ps p i h

count_free-append :
    (ps : List Page) (p : Page) → p.is_free ≡ false → count_free (ps ++ (p ∷ [])) ≡ count_free ps
count_free-append [] p h = ground arith
count_free-append (q ∷ ps) p h = ground (arith, count_free-append ps p h)

marked_beyond : (ps : List Page) (i : ℕ) → length ps ≤ i → marked ps i ≡ false
marked_beyond [] i h = refl
marked_beyond (p ∷ ps) zero h = absurd (omega arith)
marked_beyond (p ∷ ps) (suc i) h = marked_beyond ps i (omega arith)

abbrev pub entry : ℕ → Page
entry addr = record { addr = addr; is_free = false; ref_count = 0 }

-- While the map is imported.
pub record Importing (m : Pmm) : Type 0 where
  pub valid : IsValid m
  pub bounded : m.page_capacity < u64_mod

append-IsValid :
    (addr : ℕ) (m : Pmm)
    → Importing m
    → total_pages m < m.page_capacity
    → IsValid (record m { pages = m.pages ++ (entry addr ∷ []) })
append-IsValid addr m v room = record {
  listed = λ i. v.valid.listed i ∙ sym (marked-append m.pages (entry addr) i refl);
  distinct = v.valid.distinct;
  counted = v.valid.counted ∙ sym (count_free-append m.pages (entry addr) refl);
  small = omega (arith, v.bounded, length-append m.pages (entry addr ∷ []));
}

add_available_page-Importing :
    (addr : ℕ) (m : Pmm) → Importing m → Importing (add_available_page addr m)
unfolding add_available_page
add_available_page-Importing addr m v = elim (Bool-cases (ltb (total_pages m) m.page_capacity)) [
  | inl room ↦
      rw (room, add_available_page)
        (record {
          valid =
              page_list_push-IsValid _ (total_pages m)
                (omega (arith, length-append m.pages (entry addr ∷ [])))
                (marked-append m.pages (entry addr) (total_pages m) refl
                  ∙ marked_beyond m.pages (total_pages m) (omega arith))
                (append-IsValid addr m v (ground arith));
          bounded = v.bounded;
        })
  | inr full ↦ rw (full, add_available_page) v
]

pub total-add_available_page :
    (addr : ℕ) (m : Pmm)
    → total_pages m < m.page_capacity
    → total_pages (add_available_page addr m) ≡ total_pages m + 1
unfolding add_available_page
total-add_available_page addr m room = ground (
  arith,
  length-modify (m.pages ++ (entry addr ∷ [])) (total_pages m) mark_free,
  length-append m.pages (entry addr ∷ []),
)

pub capacity-add_available_page :
    (addr : ℕ) (m : Pmm) → (add_available_page addr m).page_capacity ≡ m.page_capacity
unfolding add_available_page
capacity-add_available_page addr m = ground arith

import_pages-Importing :
    (fuel start end : ℕ) (m : Pmm) → Importing m → Importing (import_pages fuel start end m)
unfolding import_pages
import_pages-Importing zero start end m v = v
import_pages-Importing (suc fuel) start end m v = elim (Bool-cases (ltb start end)) [
  | inl more ↦
      rw (more, import_pages)
        (import_pages-Importing fuel (add64 start page_size) end _
          (add_available_page-Importing start m v))
  | inr done ↦ rw (done, import_pages) v
]

-- With room for them, exactly the pages between the two bounds are entered, and the loop is over.
total-import_pages :
    (fuel start end : ℕ) (m : Pmm)
    → start + fuel * page_size ≡ end
    → end < u64_mod
    → total_pages m + fuel ≤ m.page_capacity
    → (total_pages (import_pages fuel start end m) ≡ total_pages m + fuel)
      × ((import_pages fuel start end m).page_capacity ≡ m.page_capacity)
unfolding import_pages
total-import_pages zero start end m e b room = (omega arith, refl)
total-import_pages (suc fuel) start end m e b room = ground (
  arith,
  total-add_available_page start m,
  capacity-add_available_page start m,
  total-import_pages fuel (add64 start page_size) end (add_available_page start m),
)

-- The pages of a range lie below its end, page by page from its start.
pub span :
    (r : MemoryRange)
    → range_ignored r ≡ false
    → range_start r < range_end r
    → range_start r + (range_end r - range_start r) / page_size * page_size ≡ range_end r
span r used more = omega arith

import_rounds :
    (start end : ℕ) (m : Pmm)
    → (start < end → start + (end - start) / page_size * page_size ≡ end)
    → end < u64_mod
    → total_pages m + (if ltb start end then (end - start) / page_size else 0) ≤ m.page_capacity
    → let m' = import_pages ((end - start) / page_size) start end m in
      (total_pages m' ≡ total_pages m + (if ltb start end then (end - start) / page_size else 0))
      × (m'.page_capacity ≡ m.page_capacity)
unfolding import_pages
import_rounds start end m e b room = elim (Bool-cases (ltb start end)) [
  | inl more ↦ rw more (
      total-import_pages ((end - start) / page_size) start end m (e (ltb→lt start end more)) b
        (rw more at room))
  | inr over ↦ rw over (
      let z : (end - start) / page_size ≡ 0 = ground arith in
      rw (z, import_pages) (omega arith, refl))
]

import_available_range-Importing :
    (r : MemoryRange) (m : Pmm) → Importing m → Importing (import_available_range r m)
unfolding import_available_range
import_available_range-Importing r m v = ground (
  arith,
  v,
  import_pages-Importing ((range_end r - range_start r) / page_size) (range_start r) (range_end r) m
      v,
)

pub import_all-Importing :
    (rs : List MemoryRange) (m : Pmm) → Importing m → Importing (import_all rs m)
unfolding import_all
import_all-Importing [] m v = v
import_all-Importing (r ∷ rs) m v =
    import_all-Importing rs (import_available_range r m) (import_available_range-Importing r m v)

pub total-import_available_range :
    (r : MemoryRange) (m : Pmm)
    → total_pages m + pages_in r ≤ m.page_capacity
    → (total_pages (import_available_range r m) ≡ total_pages m + pages_in r)
      × ((import_available_range r m).page_capacity ≡ m.page_capacity)
unfolding import_available_range pages_in
total-import_available_range r m room = elim (Bool-cases (range_ignored r)) [
  | inl skip ↦ rw (skip, import_available_range, pages_in) (omega arith, refl)
  | inr used ↦
      rw (used, import_available_range, pages_in)
        (import_rounds (range_start r) (range_end r) m (span r used) (omega arith)
          (rw (used, pages_in) at room))
]

-- The number of pages of the map, as a number with no bound.
abbrev pub sum_pages : List MemoryRange → ℕ
sum_pages [] = 0
sum_pages (r ∷ rs) = pages_in r + sum_pages rs

pub count_from_sum :
    (n : ℕ) (rs : List MemoryRange)
    → n + sum_pages rs < u64_mod
    → count_from n rs ≡ n + sum_pages rs
unfolding count_from
count_from_sum n [] h = omega arith
count_from_sum n (r ∷ rs) h = ground (arith, count_from_sum (add64 n (pages_in r)) rs)

pub total-import_all :
    (rs : List MemoryRange) (m : Pmm)
    → total_pages m + sum_pages rs ≤ m.page_capacity
    → total_pages (import_all rs m) ≡ total_pages m + sum_pages rs
unfolding import_all
total-import_all [] m room = omega arith
total-import_all (r ∷ rs) m room =
    let e = total-import_available_range r m (omega arith) in
    omega (arith, total-import_all rs (import_available_range r m) (omega (arith, e)), e)
