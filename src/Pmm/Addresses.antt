-- ===== src/Pmm/Addresses.antt =====
-- kernel/pmm.c: the addresses in the page array, which are those of the whole pages of the memory map.
use bunix.Common.{
  ℕ, zero, suc, ◌+◌, ◌-◌, ◌*◌, ◌/◌, ◌<◌, ◌≤◌, ◌≡◌, ◌∙◌, refl, sym, ap, true, false, List, [], ◌∷◌,
  ◌++◌, ltb, if◌then◌else◌, modify, u64_mod, arith, inl, inr, Bool-cases, ltb→lt, add64,
}
use mathlib.Core.List.{append_assoc, append-nil}
use bunix.Pmm.{Pmm, Page, total_pages, page_size, mark_free}
use bunix.Pmm.Setup.{
  MemoryRange, range_ignored, range_start, range_end, add_available_page, import_pages,
  import_available_range, import_all, pages_in,
}
use bunix.Pmm.Import.{
  entry, total-add_available_page, capacity-add_available_page, span, total-import_available_range,
  sum_pages,
}

abbrev pub addresses : List Page → List ℕ
addresses [] = []
addresses (p ∷ ps) = p.addr ∷ addresses ps

-- `n` pages from `start` on.
abbrev pub pages_from : ℕ → ℕ → List ℕ
pages_from zero start = []
pages_from (suc n) start = start ∷ pages_from n (start + 4096)

-- The whole pages of a range, in numbers that do not wrap: none where its end does not fit in a word.
abbrev pub whole_pages : MemoryRange → List ℕ
whole_pages r =
    pages_from
      (if ltb (r.base + r.size) u64_mod
        then (r.base + r.size) / 4096 - (r.base + 4095) / 4096
        else 0)
      ((r.base + 4095) / 4096 * 4096)

abbrev pub pages_of : List MemoryRange → List ℕ
pages_of [] = []
pages_of (r ∷ rs) = whole_pages r ++ pages_of rs

-- Ranges with sizes in words that do not begin in the last page of the address space.
abbrev pub BeginLow : List MemoryRange → Type 0
BeginLow [] = Unit {0}
BeginLow (r ∷ rs) = (r.base + 4095 < u64_mod) × (r.size < u64_mod) × BeginLow rs

-- Pages whose ends do not wrap.
abbrev pub InSpace : List ℕ → Type 0
InSpace [] = Unit {0}
InSpace (a ∷ rest) = (a + 4096 < u64_mod) × InSpace rest

InSpace-append : (xs ys : List ℕ) → InSpace xs → InSpace ys → InSpace (xs ++ ys)
InSpace-append [] ys a b = b
InSpace-append (x ∷ xs) ys a b = (a.0, InSpace-append xs ys a.1 b)

pages_from-InSpace : (n start : ℕ) → start + n * 4096 < u64_mod → InSpace (pages_from n start)
pages_from-InSpace zero start h = tt
pages_from-InSpace (suc n) start h =
    (omega (arith, h), pages_from-InSpace n (start + 4096) (omega (arith, h)))

whole_pages-InSpace : (r : MemoryRange) → r.base + 4095 < u64_mod → InSpace (whole_pages r)
whole_pages-InSpace r h = elim (Bool-cases (ltb (r.base + r.size) u64_mod)) [
  | inl e ↦
      let b : r.base + r.size < u64_mod = ltb→lt _ _ e in
      rw e (pages_from-InSpace _ _ (omega (arith, b, h)))
  | inr e ↦ rw e tt
]

pub pages_of-InSpace : (rs : List MemoryRange) → BeginLow rs → InSpace (pages_of rs)
pages_of-InSpace [] h = tt
pages_of-InSpace (r ∷ rs) h =
    InSpace-append (whole_pages r) (pages_of rs) (whole_pages-InSpace r h.0)
      (pages_of-InSpace rs h.2)

pub addresses-modify :
    (f : Page → Page)
    → ((p : Page) → (f p).addr ≡ p.addr)
    → (ps : List Page) (i : ℕ) → addresses (modify ps i f) ≡ addresses ps
addresses-modify f k [] i = refl
addresses-modify f k (p ∷ ps) zero = ap (λ a. a ∷ addresses ps) (k p)
addresses-modify f k (p ∷ ps) (suc i) = ap (◌∷◌ p.addr) (addresses-modify f k ps i)

addresses-append : (ps qs : List Page) → addresses (ps ++ qs) ≡ addresses ps ++ addresses qs
addresses-append [] qs = refl
addresses-append (p ∷ ps) qs = ap (◌∷◌ p.addr) (addresses-append ps qs)

addresses-add_available_page :
    (addr : ℕ) (m : Pmm)
    → total_pages m < m.page_capacity
    → addresses (add_available_page addr m).pages ≡ addresses m.pages ++ (addr ∷ [])
unfolding add_available_page
addresses-add_available_page addr m room =
    let e : ltb (total_pages m) m.page_capacity ≡ true = ground (arith, room) in
    rw (e, add_available_page)
      (addresses-modify mark_free (λ _. refl) (m.pages ++ (entry addr ∷ [])) (total_pages m)
        ∙ addresses-append m.pages (entry addr ∷ []))

addresses-import_pages :
    (fuel start end : ℕ) (m : Pmm)
    → start + fuel * page_size ≡ end
    → end < u64_mod
    → total_pages m + fuel ≤ m.page_capacity
    → addresses (import_pages fuel start end m).pages ≡ addresses m.pages ++ pages_from fuel start
unfolding import_pages
addresses-import_pages zero start end m e b room = sym (append-nil _)
addresses-import_pages (suc fuel) start end m e b room =
    let more : ltb start end ≡ true = ground (arith, e) in
    let next : add64 start page_size ≡ start + 4096 = omega (arith, e, b) in
    let total = total-add_available_page start m (omega (arith, room)) in
    let cap = capacity-add_available_page start m in
    rw (more, import_pages)
      (rw next (
        addresses-import_pages fuel (start + 4096) end (add_available_page start m)
          (omega (arith, e)) b (omega (arith, room, total, cap))
        ∙ (ap (λ l. l ++ pages_from fuel (start + 4096))
              (addresses-add_available_page start m (omega (arith, room)))
            ∙ append_assoc (addresses m.pages) (start ∷ []) (pages_from fuel (start + 4096)))))

import_rounds :
    (start end : ℕ) (m : Pmm)
    → (start < end → start + (end - start) / page_size * page_size ≡ end)
    → end < u64_mod
    → total_pages m + (if ltb start end then (end - start) / page_size else 0) ≤ m.page_capacity
    → addresses (import_pages ((end - start) / page_size) start end m).pages
      ≡ addresses m.pages ++ pages_from ((end - start) / page_size) start
unfolding import_pages
import_rounds start end m e b room = elim (Bool-cases (ltb start end)) [
  | inl more ↦
      addresses-import_pages ((end - start) / page_size) start end m (e (ltb→lt start end more)) b
        (rw more at room)
  | inr over ↦
      let z : (end - start) / page_size ≡ 0 = ground (arith, over) in
      rw (z, import_pages) (sym (append-nil _))
]

no_pages : (r : MemoryRange) → range_ignored r ≡ true → r.base + 4095 < u64_mod → whole_pages r ≡ []
no_pages r e h =
    let z : (if ltb (r.base + r.size) u64_mod
          then (r.base + r.size) / 4096 - (r.base + 4095) / 4096
          else 0)
        ≡ 0 =
      ground (arith, e, h) in
    ap (λ n. pages_from n ((r.base + 4095) / 4096 * 4096)) z

some_pages :
    (r : MemoryRange)
    → range_ignored r ≡ false
    → r.base + 4095 < u64_mod
    → r.size < u64_mod
    → pages_from ((range_end r - range_start r) / page_size) (range_start r) ≡ whole_pages r
some_pages r e h w =
    let fits : r.base + r.size < u64_mod = ground (arith, e, w) in
    let t : ltb (r.base + r.size) u64_mod ≡ true = ground (arith, fits) in
    let a : range_start r ≡ (r.base + 4095) / 4096 * 4096 = omega (arith, h) in
    let b : range_end r ≡ (r.base + r.size) / 4096 * 4096 = omega (arith, fits) in
    rw t (
      ap (λ k. pages_from k (range_start r))
        (ap (λ k. (k - range_start r) / page_size) b
          ∙ (ap (λ k. ((r.base + r.size) / 4096 * 4096 - k) / page_size) a
              ∙ quotient ((r.base + r.size) / 4096) ((r.base + 4095) / 4096)))
      ∙ ap (pages_from ((r.base + r.size) / 4096 - (r.base + 4095) / 4096)) a)
  where
    quotient : (q p : ℕ) → (q * 4096 - p * 4096) / page_size ≡ q - p
    quotient q p = omega arith

addresses-import_available_range :
    (r : MemoryRange) (m : Pmm)
    → r.base + 4095 < u64_mod
    → r.size < u64_mod
    → total_pages m + pages_in r ≤ m.page_capacity
    → addresses (import_available_range r m).pages ≡ addresses m.pages ++ whole_pages r
unfolding import_available_range pages_in
addresses-import_available_range r m h w room = elim (Bool-cases (range_ignored r)) [
  | inl skip ↦
      rw (skip, import_available_range)
        (sym (append-nil _) ∙ ap (λ l. addresses m.pages ++ l) (sym (no_pages r skip h)))
  | inr used ↦
      rw (used, import_available_range)
        (import_rounds (range_start r) (range_end r) m (span r used) (omega arith)
            (rw (used, pages_in) at room)
          ∙ ap (λ l. addresses m.pages ++ l) (some_pages r used h w))
]

-- The import enters the whole pages of the map.
pub addresses-import_all :
    (rs : List MemoryRange) (m : Pmm)
    → BeginLow rs
    → total_pages m + sum_pages rs ≤ m.page_capacity
    → addresses (import_all rs m).pages ≡ addresses m.pages ++ pages_of rs
unfolding import_all
addresses-import_all [] m h room = sym (append-nil _)
addresses-import_all (r ∷ rs) m h room =
    let e = total-import_available_range r m (omega (arith, room)) in
    addresses-import_all rs (import_available_range r m) h.2 (omega (arith, e, room))
    ∙ (ap (λ l. l ++ pages_of rs)
          (addresses-import_available_range r m h.0 h.1 (omega (arith, room)))
        ∙ append_assoc (addresses m.pages) (whole_pages r) (pages_of rs))
