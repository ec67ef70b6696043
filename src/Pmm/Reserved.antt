-- ===== src/Pmm/Reserved.antt =====
-- kernel/pmm.c: the pages that a reservation takes, in numbers that do not wrap.
use bunix.Common.{
  ℕ, zero, suc, ◌+◌, ◌*◌, ◌/◌, ◌<◌, ◌≡◌, ◌∙◌, refl, ap, Bool, false, ◌&&◌, ◌||◌, not, Option, none,
  some, List, [], ◌∷◌, ltb, get_elem?, mem, u64_mod, arith, inl, inr, Bool-cases,
}
use bunix.Pmm.{Pmm, Page}
use bunix.Pmm.Setup.{
  ReservedRange, page_meets, reserve_loop, reserve_range, reserve_all, align_down, align_up,
}
use bunix.Pmm.Reserve.{taken_by, taken_by_any, mem-taken_by}
use bunix.Pmm.Addresses.{addresses, addresses-modify, InSpace}

-- A page meets the range, widened to whole pages at both ends.
abbrev pub reserved_by : ℕ → ℕ → Option Page → Bool
reserved_by start end none = false
reserved_by start end (some page) =
    ltb page.addr ((end + 4095) / 4096 * 4096) && ltb (start / 4096 * 4096) (page.addr + 4096)

abbrev pub reserved_by_any : List ReservedRange → Option Page → Bool
reserved_by_any [] page = false
reserved_by_any (r ∷ rs) page = reserved_by r.from r.to page || reserved_by_any rs page

-- Ranges that do not end in the last page of the address space.
abbrev pub EndLow : List ReservedRange → Type 0
EndLow [] = Unit {0}
EndLow (r ∷ rs) = (r.to + 4095 < u64_mod) × EndLow rs

pub taken_by-eq :
    (start end : ℕ) (ps : List Page) (j : ℕ)
    → end + 4095 < u64_mod
    → InSpace (addresses ps)
    → taken_by start end (get_elem? ps j) ≡ reserved_by start end (get_elem? ps j)
taken_by-eq start end [] j h v = refl
taken_by-eq start end (p ∷ ps) zero h v =
    let a : align_up end 4096 ≡ (end + 4095) / 4096 * 4096 = omega (arith, h) in
    let b : align_down start 4096 ≡ start / 4096 * 4096 = omega arith in
    rw (a, b) (ground (arith, v.0))
taken_by-eq start end (p ∷ ps) (suc j) h v = taken_by-eq start end ps j h v.1

pub taken_by_any-eq :
    (rs : List ReservedRange) (ps : List Page) (j : ℕ)
    → EndLow rs
    → InSpace (addresses ps)
    → taken_by_any rs (get_elem? ps j) ≡ reserved_by_any rs (get_elem? ps j)
taken_by_any-eq [] ps j h v = refl
taken_by_any-eq (r ∷ rs) ps j h v =
    rw (taken_by-eq r.from r.to ps j h.0 v, taken_by_any-eq rs ps j h.1 v) refl

addresses-reserve_loop :
    (start end : ℕ) (rest new_free : List ℕ) (removed : ℕ) (m : Pmm)
    → addresses (reserve_loop start end rest new_free removed m).pages ≡ addresses m.pages
unfolding reserve_loop
addresses-reserve_loop start end [] new_free removed m = refl
addresses-reserve_loop start end (i ∷ next) new_free removed m =
    elim (Bool-cases (page_meets start end (get_elem? m.pages i))) [
      | inl hit ↦
          rw (hit, reserve_loop)
            (addresses-reserve_loop start end next new_free _ _
              ∙ addresses-modify (λ q. record q { is_free = false }) (λ _. refl) m.pages i)
      | inr miss ↦
          rw (miss, reserve_loop) (addresses-reserve_loop start end next (i ∷ new_free) removed m)
    ]

pub addresses-reserve_range :
    (start end : ℕ) (m : Pmm) → addresses (reserve_range start end m).pages ≡ addresses m.pages
unfolding reserve_range
addresses-reserve_range start end m = addresses-reserve_loop _ _ m.free_pages [] 0 m

pub addresses-reserve_all :
    (rs : List ReservedRange) (m : Pmm) → addresses (reserve_all rs m).pages ≡ addresses m.pages
unfolding reserve_all
addresses-reserve_all [] m = refl
addresses-reserve_all (r ∷ rs) m =
    addresses-reserve_all rs (reserve_range r.from r.to m) ∙ addresses-reserve_range r.from r.to m

-- For a range that does not end in the last page of the address space, and pages none of which is
-- there, reserve_range takes off the free list the pages that meet the range, widened to whole
-- pages in numbers that do not wrap, and no others.
pub mem-reserve_range :
    (start end : ℕ) (m : Pmm) (j : ℕ)
    → end + 4095 < u64_mod
    → InSpace (addresses m.pages)
    → mem j (reserve_range start end m).free_pages
      ≡ (mem j m.free_pages && not (reserved_by start end (get_elem? m.pages j)))
mem-reserve_range start end m j h v =
    mem-taken_by start end m j
    ∙ ap (λ b. mem j m.free_pages && not b) (taken_by-eq start end m.pages j h v)
