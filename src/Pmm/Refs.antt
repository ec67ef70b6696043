-- ===== src/Pmm/Refs.antt =====
-- kernel/pmm.c: reference counts, `pmm_page_retain_addr` and `pmm_page_free`.
use bunix.Common.{
  ap, ℕ, zero, suc, ◌+◌, ◌<◌, ◌≡◌, ◌∙◌, refl, sym, true, false, Option, none, some, List, [], ◌∷◌,
  get_elem?, modify, u32_mod, arith, inl, inr, Option-cases, length-modify, get_elem?-modify_self,
  get_elem?_bound, add32, sub32, add64, mul64,
}
use bunix.Pmm.{
  pmm_page_alloc, Pmm, Page, mark_free, mark_used, retain_at, pmm_page_retain_addr, free_at,
  pmm_page_free, pmm_page_free_addr, free_run, find_from, find_page,
}
use bunix.Pmm.Invariant.{
  count_free_le, count_free-modify_used, IsValid, marked_of, marked-modify_keep,
  count_free-modify_keep,
}
use bunix.Pmm.Alloc.{page_list_push-IsValid}

-- A write that keeps the marks keeps the invariant.
keep-IsValid :
    (m : Pmm) (i : ℕ) (f : Page → Page)
    → ((page : Page) → (f page).is_free ≡ page.is_free)
    → IsValid m
    → IsValid (record m { pages = modify m.pages i f })
keep-IsValid m i f keeps v = record {
  listed = λ j. v.listed j ∙ sym (marked-modify_keep f keeps m.pages i j);
  distinct = v.distinct;
  counted = v.counted ∙ sym (count_free-modify_keep f keeps m.pages i);
  small = omega (arith, v.small, length-modify m.pages i f);
}

abbrev pub add_ref : Page → Page
add_ref q = record q { ref_count = add32 q.ref_count 1 }

abbrev pub drop_ref : Page → Page
drop_ref q = record q { ref_count = sub32 q.ref_count 1 }

retain_at-IsValid : (m : Pmm) (i : ℕ) (o : Option Page) → IsValid m → IsValid (retain_at m i o).1
unfolding retain_at
retain_at-IsValid m i none v = v
retain_at-IsValid m i (some page) v = ground (arith, keep-IsValid m i add_ref (λ q. refl) v)

pub pmm_page_retain_addr-IsValid :
    (m : Pmm) (addr : ℕ) → IsValid m → IsValid (pmm_page_retain_addr m addr).1
unfolding pmm_page_retain_addr
pmm_page_retain_addr-IsValid m addr v = elim (Option-cases (find_page m addr)) [
  | inl e ↦ rw (e, pmm_page_retain_addr) v
  | inr (i, e) ↦ rw (e, pmm_page_retain_addr) (retain_at-IsValid m i (get_elem? m.pages i) v)
]

free_at-IsValid :
    (m : Pmm) (i : ℕ) (o : Option Page)
    → get_elem? m.pages i ≡ o
    → IsValid m
    → IsValid (free_at m i o)
unfolding free_at
free_at-IsValid m i none e v = v
free_at-IsValid m i (some page) e v = ground (
  arith,
  keep-IsValid m i drop_ref (λ q. refl) v,
  page_list_push-IsValid m i (get_elem?_bound m.pages i e),
  marked_of m.pages i e,
  v,
)

pub pmm_page_free-IsValid : (m : Pmm) (page : Option ℕ) → IsValid m → IsValid (pmm_page_free m page)
unfolding pmm_page_free
pmm_page_free-IsValid m none v = v
pmm_page_free-IsValid m (some i) v = free_at-IsValid m i (get_elem? m.pages i) refl v

pub free_run-IsValid : (n i addr : ℕ) (m : Pmm) → IsValid m → IsValid (free_run n i addr m)
unfolding free_run pmm_page_free_addr
free_run-IsValid zero i addr m v = v
free_run-IsValid (suc n) i addr m v =
    free_run-IsValid n (suc i) addr _
      (pmm_page_free-IsValid m (find_page m (add64 addr (mul64 i 4096))) v)

modify_undo :
    (ps : List Page) (i : ℕ) (f g : Page → Page) {page : Page}
    → get_elem? ps i ≡ some page
    → g (f page) ≡ page
    → modify (modify ps i f) i g ≡ ps
modify_undo [] i f g h u = refl
modify_undo (p ∷ ps) zero f g h u = ground arith
modify_undo (p ∷ ps) (suc i) f g h u = ap (◌∷◌ p) (modify_undo ps i f g h u)

find_from-modify :
    (k addr : ℕ) (ps : List Page) (i : ℕ) (f : Page → Page)
    → ((page : Page) → (f page).addr ≡ page.addr)
    → find_from k addr (modify ps i f) ≡ find_from k addr ps
unfolding find_from
find_from-modify k addr [] i f keeps = refl
find_from-modify k addr (p ∷ ps) zero f keeps = rw (keeps p)
find_from-modify k addr (p ∷ ps) (suc i) f keeps = rw (find_from-modify (suc k) addr ps i f keeps)

page_ext :
    (p q : Page) → p.addr ≡ q.addr → p.is_free ≡ q.is_free → p.ref_count ≡ q.ref_count → p ≡ q
page_ext p q a f r = λ i. record { addr = a i; is_free = f i; ref_count = r i }

module _ (m : Pmm) (i : ℕ) (page : Page) (at : get_elem? m.pages i ≡ some page)
    (first : find_page m page.addr ≡ some i) where
  -- A reference that is taken by address on a page in use and given back leaves the allocator as it
  -- was; the count of references has room.
  pub free-retain :
      page.is_free ≡ false
      → 0 < page.ref_count
      → page.ref_count + 1 < u32_mod
      → let (done, m') = pmm_page_retain_addr m page.addr in
        (done ≡ true) × (pmm_page_free m' (some i) ≡ m)
  unfolding pmm_page_retain_addr pmm_page_free find_page
  free-retain used held small = ground (
    arith,
    first,
    at,
    get_elem?-modify_self m.pages i add_ref at,
    find_from-modify 0 page.addr m.pages i add_ref (λ _. refl),
    modify_undo m.pages i add_ref drop_ref at,
  )

-- On a valid state a page that is allocated and freed at once leaves the allocator as it was, where
-- the page has no references and is the first at its address.
pub free-alloc :
    (m : Pmm) (v : IsValid m) (i : ℕ) (next : List ℕ) (page : Page)
    → m.free_pages ≡ i ∷ next
    → get_elem? m.pages i ≡ some page
    → find_page m page.addr ≡ some i
    → page.ref_count ≡ 0
    → let (got, m') = pmm_page_alloc m in (got ≡ some i) × (pmm_page_free m' (some i) ≡ m)
unfolding pmm_page_alloc pmm_page_free find_page
free-alloc m v i next page head at first idle = ground (
  arith,
  first,
  at,
  v.listed i,
  v.counted,
  v.small,
  marked_of m.pages i at,
  get_elem?-modify_self m.pages i mark_used at,
  find_from-modify 0 page.addr m.pages i mark_used (λ _. refl),
  modify_undo m.pages i mark_used mark_free at,
  count_free_le m.pages,
  count_free-modify_used mark_used (λ _. refl) m.pages i,
)
