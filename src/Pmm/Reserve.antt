-- ===== src/Pmm/Reserve.antt =====
-- kernel/pmm.c: `reserve_range` takes every page that meets a range off the free list.
use bunix.Common.{
  ℕ, zero, suc, ◌+◌, ◌<◌, ◌≡◌, ◌∙◌, refl, Bool, true, false, ◌||◌, ◌&&◌, not, Option, List, [], ◌∷◌,
  length, get_elem?, modify, mem, Distinct, u64_mod, arith, inl, inr, Bool-cases, length-modify,
  add64, ℕ_discrete,
}
use bunix.Pmm.{Pmm, Page, total_pages, page_size}
use bunix.Pmm.Setup.{
  page_meets, reserve_loop, reserve_range, reserve_all, ReservedRange, align_down, align_up,
}
use bunix.Pmm.Invariant.{
  IsValid, marked, count_free, count_free_le, marked-modify, marked_bound, count_free-modify_used,
}

abbrev unmark : Page → Page
unmark q = record q { is_free = false }

-- Between two rounds: every free page is on one of the two lists, and the counter still has the
-- pages that were removed.
record Reserving (rest new_free : List ℕ) (removed : ℕ) (m : Pmm) : Type 0 where
  listed : (i : ℕ) → (mem i rest || mem i new_free) ≡ marked m.pages i
  apart : (i : ℕ) → mem i rest ≡ true → mem i new_free ≡ false
  distinct : Distinct rest
  new_distinct : Distinct new_free
  counted : m.free_pages_count ≡ removed + count_free m.pages
  small : m.free_pages_count < u64_mod
  size : total_pages m < u64_mod

keep_one :
    (i : ℕ) (next new_free : List ℕ) (removed : ℕ) (m : Pmm)
    → Reserving (i ∷ next) new_free removed m
    → Reserving next (i ∷ new_free) removed m
keep_one i next new_free removed m r = record {
  listed = λ j. ground (arith, r.listed j);
  apart = λ j h. ground (arith, r.apart j, r.distinct);
  distinct = r.distinct.1;
  new_distinct = (r.apart i (ground arith), r.new_distinct);
  counted = r.counted;
  small = r.small;
  size = r.size;
}

drop_one :
    (i : ℕ) (next new_free : List ℕ) (removed : ℕ) (m : Pmm)
    → Reserving (i ∷ next) new_free removed m
    → Reserving next new_free (add64 removed 1) (record m { pages = modify m.pages i unmark })
drop_one i next new_free removed m r =
    let free : marked m.pages i ≡ true = ground (arith, r.listed i) in
    record {
      listed = λ j. ground (
        arith,
        r.listed j,
        r.apart i,
        r.distinct,
        marked_bound m.pages i free,
        marked-modify unmark false (λ _. refl) m.pages i j,
      );
      apart = λ j h. ground (arith, r.apart j);
      distinct = r.distinct.1;
      new_distinct = r.new_distinct;
      counted =
          omega
            (arith, r.counted, r.small, count_free-modify_used unmark (λ _. refl) m.pages i free);
      small = r.small;
      size = omega (arith, r.size, length-modify m.pages i unmark);
    }

reserve_loop-IsValid :
    (start end : ℕ) (rest new_free : List ℕ) (removed : ℕ) (m : Pmm)
    → Reserving rest new_free removed m
    → IsValid (reserve_loop start end rest new_free removed m)
unfolding reserve_loop
reserve_loop-IsValid start end [] new_free removed m r = record {
  listed = r.listed;
  distinct = r.new_distinct;
  counted = omega (arith, r.counted, r.small);
  small = r.size;
}
reserve_loop-IsValid start end (i ∷ next) new_free removed m r =
    elim (Bool-cases (page_meets start end (get_elem? m.pages i))) [
      | inl hit ↦
          rw (hit, reserve_loop)
            (reserve_loop-IsValid start end next new_free (add64 removed 1)
              (record m { pages = modify m.pages i unmark }) (drop_one i next new_free removed m r))
      | inr miss ↦
          rw (miss, reserve_loop)
            (reserve_loop-IsValid start end next (i ∷ new_free) removed m
              (keep_one i next new_free removed m r))
    ]

pub reserve_range-IsValid :
    (start end : ℕ) (m : Pmm) → IsValid m → IsValid (reserve_range start end m)
unfolding reserve_range
reserve_range-IsValid start end m v =
    reserve_loop-IsValid (align_down start page_size) (align_up end page_size) m.free_pages [] 0 m
      (record {
        listed = λ i. ground (arith, v.listed i);
        apart = λ i h. refl;
        distinct = v.distinct;
        new_distinct = tt;
        counted = omega (arith, v.counted);
        small = omega (arith, v.counted, v.small, count_free_le m.pages);
        size = v.small;
      })

meets-unmark :
    (s e : ℕ) (ps : List Page) (i j : ℕ)
    → page_meets s e (get_elem? (modify ps i unmark) j) ≡ page_meets s e (get_elem? ps j)
meets-unmark s e [] i j = refl
meets-unmark s e (p ∷ ps) zero zero = refl
meets-unmark s e (p ∷ ps) zero (suc j) = refl
meets-unmark s e (p ∷ ps) (suc i) zero = refl
meets-unmark s e (p ∷ ps) (suc i) (suc j) = meets-unmark s e ps i j

-- What stays on the free list.
mem-reserve_loop :
    (start end : ℕ) (rest new_free : List ℕ) (removed : ℕ) (m : Pmm) (j : ℕ)
    → mem j (reserve_loop start end rest new_free removed m).free_pages
      ≡ (mem j new_free || (mem j rest && not (page_meets start end (get_elem? m.pages j))))
unfolding reserve_loop
mem-reserve_loop start end [] new_free removed m j = ground arith
mem-reserve_loop start end (i ∷ next) new_free removed m j =
    elim (Bool-cases (page_meets start end (get_elem? m.pages i))) [
      | inl hit ↦
          rw (hit, reserve_loop)
            (mem-reserve_loop start end next new_free (add64 removed 1)
                (record m { pages = modify m.pages i unmark }) j
              ∙ rw (meets-unmark start end m.pages i j)
                  (dropped i next new_free j start end m.pages hit))
      | inr miss ↦
          rw (miss, reserve_loop)
            (mem-reserve_loop start end next (i ∷ new_free) removed m j
              ∙ kept i next new_free j start end m.pages miss)
    ]
  where
    dropped :
        (i : ℕ) (next new_free : List ℕ) (j s e : ℕ) (ps : List Page)
        → page_meets s e (get_elem? ps i) ≡ true
        → (mem j new_free || (mem j next && not (page_meets s e (get_elem? ps j))))
          ≡ (mem j new_free || (mem j (i ∷ next) && not (page_meets s e (get_elem? ps j))))
    dropped i next new_free j s e ps hit = elim (ℕ_discrete i j) [
      | yes q ↦ rw (← q) (rw hit (ground arith))
      | no q ↦ ground arith
    ]

    kept :
        (i : ℕ) (next new_free : List ℕ) (j s e : ℕ) (ps : List Page)
        → page_meets s e (get_elem? ps i) ≡ false
        → (mem j (i ∷ new_free) || (mem j next && not (page_meets s e (get_elem? ps j))))
          ≡ (mem j new_free || (mem j (i ∷ next) && not (page_meets s e (get_elem? ps j))))
    kept i next new_free j s e ps miss = elim (ℕ_discrete i j) [
      | yes q ↦ rw (← q) (rw miss (ground arith))
      | no q ↦ ground arith
    ]

meets-reserve_loop :
    (start end : ℕ) (rest new_free : List ℕ) (removed : ℕ) (m : Pmm) (s e j : ℕ)
    → page_meets s e (get_elem? (reserve_loop start end rest new_free removed m).pages j)
      ≡ page_meets s e (get_elem? m.pages j)
unfolding reserve_loop
meets-reserve_loop start end [] new_free removed m s e j = refl
meets-reserve_loop start end (i ∷ next) new_free removed m s e j =
    elim (Bool-cases (page_meets start end (get_elem? m.pages i))) [
      | inl hit ↦
          rw (hit, reserve_loop)
            (meets-reserve_loop start end next new_free (add64 removed 1)
                (record m { pages = modify m.pages i unmark }) s e j
              ∙ meets-unmark s e m.pages i j)
      | inr miss ↦
          rw (miss, reserve_loop) (meets-reserve_loop start end next (i ∷ new_free) removed m s e j)
    ]

length-reserve_loop :
    (start end : ℕ) (rest new_free : List ℕ) (removed : ℕ) (m : Pmm)
    → (length (reserve_loop start end rest new_free removed m).pages ≡ length m.pages)
      × ((reserve_loop start end rest new_free removed m).page_capacity ≡ m.page_capacity)
unfolding reserve_loop
length-reserve_loop start end [] new_free removed m = (refl, refl)
length-reserve_loop start end (i ∷ next) new_free removed m =
    elim (Bool-cases (page_meets start end (get_elem? m.pages i))) [
      | inl hit ↦
          rw (hit, reserve_loop)
            (let r =
                length-reserve_loop start end next new_free (add64 removed 1)
                  (record m { pages = modify m.pages i unmark }) in
              (r.0 ∙ length-modify m.pages i unmark, r.1))
      | inr miss ↦
          rw (miss, reserve_loop) (length-reserve_loop start end next (i ∷ new_free) removed m)
    ]

-- The test of the code on a page, for a range.
abbrev pub taken_by : ℕ → ℕ → Option Page → Bool
taken_by start end page = page_meets (align_down start page_size) (align_up end page_size) page

pub mem-taken_by :
    (start end : ℕ) (m : Pmm) (j : ℕ)
    → mem j (reserve_range start end m).free_pages
      ≡ (mem j m.free_pages && not (taken_by start end (get_elem? m.pages j)))
unfolding reserve_range
mem-taken_by start end m j =
    mem-reserve_loop (align_down start page_size) (align_up end page_size) m.free_pages [] 0 m j

taken_by-reserve_range :
    (start end : ℕ) (m : Pmm) (s e j : ℕ)
    → taken_by s e (get_elem? (reserve_range start end m).pages j)
      ≡ taken_by s e (get_elem? m.pages j)
unfolding reserve_range
taken_by-reserve_range start end m s e j =
    meets-reserve_loop (align_down start page_size) (align_up end page_size) m.free_pages [] 0 m _ _
      j

pub length-reserve_range :
    (start end : ℕ) (m : Pmm)
    → (total_pages (reserve_range start end m) ≡ total_pages m)
      × ((reserve_range start end m).page_capacity ≡ m.page_capacity)
unfolding reserve_range
length-reserve_range start end m =
    length-reserve_loop (align_down start page_size) (align_up end page_size) m.free_pages [] 0 m

abbrev pub taken_by_any : List ReservedRange → Option Page → Bool
taken_by_any [] page = false
taken_by_any (r ∷ rs) page = taken_by r.from r.to page || taken_by_any rs page

taken_by_any-reserve_range :
    (start end : ℕ) (m : Pmm) (rs : List ReservedRange) (j : ℕ)
    → taken_by_any rs (get_elem? (reserve_range start end m).pages j)
      ≡ taken_by_any rs (get_elem? m.pages j)
taken_by_any-reserve_range start end m [] j = refl
taken_by_any-reserve_range start end m (r ∷ rs) j =
    rw (
      taken_by-reserve_range start end m r.from r.to j,
      taken_by_any-reserve_range start end m rs j,
    )

and_not : (a b c : Bool) → ((a && not b) && not c) ≡ (a && not (b || c))
and_not true true c = refl
and_not true false c = refl
and_not false b c = refl

-- What the reservations of a whole list leave.
pub mem-reserve_all :
    (rs : List ReservedRange) (m : Pmm) (j : ℕ)
    → mem j (reserve_all rs m).free_pages
      ≡ (mem j m.free_pages && not (taken_by_any rs (get_elem? m.pages j)))
unfolding reserve_all
mem-reserve_all [] m j = ground arith
mem-reserve_all (r ∷ rs) m j =
    mem-reserve_all rs (reserve_range r.from r.to m) j
    ∙ rw (mem-taken_by r.from r.to m j, taken_by_any-reserve_range r.from r.to m rs j)
        (and_not _ _ _)

pub reserve_all_keeps :
    (rs : List ReservedRange) (m : Pmm)
    → IsValid m
    → IsValid (reserve_all rs m)
      × (total_pages (reserve_all rs m) ≡ total_pages m)
      × ((reserve_all rs m).page_capacity ≡ m.page_capacity)
unfolding reserve_all
reserve_all_keeps [] m v = (v, refl, refl)
reserve_all_keeps (r ∷ rs) m v =
    let (w, t, c) =
      reserve_all_keeps rs (reserve_range r.from r.to m) (reserve_range-IsValid r.from r.to m v) in
    let (t', c') = length-reserve_range r.from r.to m in (w, t ∙ t', c ∙ c')

taken_by_any-reserve_all :
    (rs qs : List ReservedRange) (m : Pmm) (j : ℕ)
    → taken_by_any qs (get_elem? (reserve_all rs m).pages j) ≡ taken_by_any qs (get_elem? m.pages j)
unfolding reserve_all
taken_by_any-reserve_all [] qs m j = refl
taken_by_any-reserve_all (r ∷ rs) qs m j =
    taken_by_any-reserve_all rs qs (reserve_range r.from r.to m) j
    ∙ taken_by_any-reserve_range r.from r.to m qs j

-- After all reservations no page on the free list meets a reserved range.
pub reserve_all_clear :
    (rs : List ReservedRange) (m : Pmm) (j : ℕ)
    → mem j (reserve_all rs m).free_pages ≡ true
    → taken_by_any rs (get_elem? (reserve_all rs m).pages j) ≡ false
reserve_all_clear rs m j h =
    taken_by_any-reserve_all rs rs m j ∙ ground (arith, mem-reserve_all rs m j)

-- A further reservation keeps clear what is clear.
pub reserve_range_clear :
    (start end : ℕ) (rs : List ReservedRange) (m : Pmm) (j : ℕ)
    → (mem j m.free_pages ≡ true → taken_by_any rs (get_elem? m.pages j) ≡ false)
    → mem j (reserve_range start end m).free_pages ≡ true
    → (taken_by_any rs (get_elem? (reserve_range start end m).pages j) ≡ false)
      × (taken_by start end (get_elem? (reserve_range start end m).pages j) ≡ false)
reserve_range_clear start end rs m j clear h = (
  taken_by_any-reserve_range start end m rs j ∙ clear (ground (arith, mem-taken_by start end m j)),
  taken_by-reserve_range start end m start end j ∙ ground (arith, mem-taken_by start end m j),
)
