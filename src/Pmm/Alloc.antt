-- ===== src/Pmm/Alloc.antt =====
-- kernel/pmm.c: `pmm_page_alloc` and `page_list_push`.
use bunix.Common.{
  ℕ, suc, ◌+◌, ◌<◌, ◌≡◌, ◌∙◌, refl, ◌≢◌, true, false, Option, none, some, List, [], ◌∷◌, get_elem?,
  modify, arith, length-modify, get_elem?-modify_self, get_elem?-modify_ne,
}
use bunix.Pmm.{
  Pmm, Page, total_pages, mark_free, mark_used, page_list_push, alloc_from, pmm_page_alloc,
}
use bunix.Pmm.Invariant.{
  IsValid, marked, count_free, count_free_le, of_marked, marked-modify, marked_bound,
  count_free-modify_used, count_free-modify_free,
}

pub page_list_push-IsValid :
    (m : Pmm) (i : ℕ)
    → i < total_pages m
    → marked m.pages i ≡ false
    → IsValid m
    → IsValid (page_list_push m i)
unfolding page_list_push
page_list_push-IsValid m i h u v = record {
  listed = λ j. ground (arith, v.listed j, marked-modify mark_free true (λ _. refl) m.pages i j);
  distinct = (v.listed i ∙ u, v.distinct);
  counted = omega (
    arith,
    v.counted,
    v.small,
    count_free-modify_free mark_free (λ _. refl) m.pages i h u,
    count_free_le (modify m.pages i mark_free),
    length-modify m.pages i mark_free,
  );
  small = omega (arith, v.small, length-modify m.pages i mark_free);
}

module _ (m : Pmm) (v : IsValid m) where
  -- The head of the free list is a page that is marked free, and is not on the rest of the list.
  head_marked : (i : ℕ) (next : List ℕ) → m.free_pages ≡ i ∷ next → marked m.pages i ≡ true
  head_marked i next e = ground (arith, v.listed i)

  alloc_from-IsValid : (xs : List ℕ) → m.free_pages ≡ xs → IsValid (alloc_from m xs).1
  unfolding alloc_from
  alloc_from-IsValid [] e = v
  alloc_from-IsValid (i ∷ next) e =
      let free : marked m.pages i ≡ true = head_marked i next e in
      let in_range : i < total_pages m = marked_bound m.pages i free in
      record {
        listed = λ j. ground (
          arith,
          v.listed j,
          v.distinct,
          in_range,
          marked-modify mark_used false (λ _. refl) m.pages i j,
        );
        distinct = ground (arith, v.distinct);
        counted = omega (
          arith,
          v.counted,
          v.small,
          count_free-modify_used mark_used (λ _. refl) m.pages i free,
          count_free_le m.pages,
        );
        small = omega (arith, v.small, length-modify m.pages i mark_used);
      }

  -- `pmm_page_alloc` keeps the free list, the marks and the counter in agreement.
  pub pmm_page_alloc-IsValid : IsValid (pmm_page_alloc m).1
  unfolding pmm_page_alloc
  pmm_page_alloc-IsValid = alloc_from-IsValid m.free_pages refl

-- What an allocation that returned page `i` did: the page was free, it now has one reference, no
-- other page changed, and one page fewer is free.
pub record Allocated (m : Pmm) (i : ℕ) (m' : Pmm) : Type 0 where
  pub was_free :
      (page : Page) × (get_elem? m.pages i ≡ some page)
      × (page.is_free ≡ true)
      × (get_elem? m'.pages i ≡ some (mark_used page))
  pub others : (j : ℕ) → i ≢ j → get_elem? m'.pages j ≡ get_elem? m.pages j
  pub one_fewer : m'.free_pages_count + 1 ≡ m.free_pages_count

abbrev pub AllocResult : Pmm → Option ℕ × Pmm → Type 0
AllocResult m (none, m') = (m' ≡ m) × (m.free_pages_count ≡ 0)
AllocResult m (some i, m') = Allocated m i m'

none_free : (ps : List Page) → ((i : ℕ) → false ≡ marked ps i) → count_free ps ≡ 0
none_free [] h = refl
none_free (p ∷ ps) h = ground (arith, h 0, none_free ps (λ i. h (suc i)))

module _ (m : Pmm) (v : IsValid m) where
  alloc_from-AllocResult : (xs : List ℕ) → m.free_pages ≡ xs → AllocResult m (alloc_from m xs)
  unfolding alloc_from
  alloc_from-AllocResult [] e =
      (refl, v.counted ∙ none_free m.pages (λ i. ground (arith, v.listed i)))
  alloc_from-AllocResult (i ∷ next) e =
      let free : marked m.pages i ≡ true = head_marked m v i next e in
      let (page, here, is_free) = of_marked m.pages i free in
      record {
        was_free = (page, here, is_free, get_elem?-modify_self m.pages i mark_used here);
        others = λ j ne. get_elem?-modify_ne m.pages i j mark_used ne;
        one_fewer = omega (
          arith,
          v.counted,
          v.small,
          count_free-modify_used mark_used (λ _. refl) m.pages i free,
          count_free_le m.pages,
        );
      }

  -- On a valid state pmm_page_alloc fails, changing nothing, only when no page is free, and
  -- otherwise hands out a page that was free, with one reference, leaving every other page alone.
  pub pmm_page_alloc-AllocResult : AllocResult m (pmm_page_alloc m)
  unfolding pmm_page_alloc
  pmm_page_alloc-AllocResult = alloc_from-AllocResult m.free_pages refl
