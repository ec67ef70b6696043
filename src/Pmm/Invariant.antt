-- ===== src/Pmm/Invariant.antt =====
-- kernel/pmm.c: the free list and the page array agree.
use bunix.Common.{
  ℕ, zero, suc, ◌<◌, ◌≡◌, refl, Bool, true, false, some, List, [], ◌∷◌, if◌then◌else◌, length,
  get_elem?, modify, mem, Distinct, u64_mod, arith, ◌==◌,
}
use bunix.Pmm.{Pmm, Page, total_pages}

-- Whether the page at an index is marked free; out of range it is not.
abbrev pub marked : List Page → ℕ → Bool
marked [] i = false
marked (page ∷ ps) zero = page.is_free
marked (page ∷ ps) (suc i) = marked ps i

-- The number of pages marked free.
abbrev pub count_free : List Page → ℕ
count_free [] = 0
count_free (page ∷ ps) = if page.is_free then suc (count_free ps) else count_free ps

pub record IsValid (m : Pmm) : Type 0 where
  pub listed : (i : ℕ) → mem i m.free_pages ≡ marked m.pages i
  pub distinct : Distinct m.free_pages
  pub counted : m.free_pages_count ≡ count_free m.pages
  pub small : total_pages m < u64_mod

pub count_free_le : (ps : List Page) → count_free ps < suc (length ps)
count_free_le [] = omega arith
count_free_le (page ∷ ps) = ground (arith, count_free_le ps)

pub marked_of :
    (ps : List Page) (i : ℕ) {page : Page} → get_elem? ps i ≡ some page → marked ps i ≡ page.is_free
marked_of [] i h = ground arith
marked_of (p ∷ ps) zero h = ground arith
marked_of (p ∷ ps) (suc i) h = marked_of ps i h

pub of_marked :
    (ps : List Page) (i : ℕ)
    → marked ps i ≡ true
    → (page : Page) × (get_elem? ps i ≡ some page) × (page.is_free ≡ true)
of_marked [] i h = ground arith
of_marked (p ∷ ps) zero h = (p, refl, h)
of_marked (p ∷ ps) (suc i) h = of_marked ps i h

module _ (f : Page → Page) (b : Bool) (sets : (page : Page) → (f page).is_free ≡ b) where
  pub marked-modify :
      (ps : List Page) (i j : ℕ)
      → i < length ps
      → marked (modify ps i f) j ≡ (if i == j then b else marked ps j)
  marked-modify [] i j h = absurd (omega arith)
  marked-modify (p ∷ ps) zero zero h = sets p
  marked-modify (p ∷ ps) zero (suc j) h = ground arith
  marked-modify (p ∷ ps) (suc i) zero h = ground arith
  marked-modify (p ∷ ps) (suc i) (suc j) h = ground (arith, marked-modify ps i j)

pub count_free-modify_used :
    (f : Page → Page) (sets : (page : Page) → (f page).is_free ≡ false) (ps : List Page) (i : ℕ)
    → marked ps i ≡ true
    → suc (count_free (modify ps i f)) ≡ count_free ps
count_free-modify_used f sets [] i h = ground arith
count_free-modify_used f sets (p ∷ ps) zero h = ground (arith, sets p)
count_free-modify_used f sets (p ∷ ps) (suc i) h =
    ground (arith, count_free-modify_used f sets ps i h)

pub count_free-modify_free :
    (f : Page → Page) (sets : (page : Page) → (f page).is_free ≡ true) (ps : List Page) (i : ℕ)
    → i < length ps
    → marked ps i ≡ false
    → count_free (modify ps i f) ≡ suc (count_free ps)
count_free-modify_free f sets [] i l h = absurd (omega arith)
count_free-modify_free f sets (p ∷ ps) zero l h = ground (arith, sets p)
count_free-modify_free f sets (p ∷ ps) (suc i) l h =
    ground (arith, count_free-modify_free f sets ps i (omega arith) h)

-- A write that leaves the mark alone.
module _ (f : Page → Page) (keeps : (page : Page) → (f page).is_free ≡ page.is_free) where
  pub marked-modify_keep : (ps : List Page) (i j : ℕ) → marked (modify ps i f) j ≡ marked ps j
  marked-modify_keep [] i j = refl
  marked-modify_keep (p ∷ ps) zero zero = keeps p
  marked-modify_keep (p ∷ ps) zero (suc j) = refl
  marked-modify_keep (p ∷ ps) (suc i) zero = refl
  marked-modify_keep (p ∷ ps) (suc i) (suc j) = marked-modify_keep ps i j

  pub count_free-modify_keep : (ps : List Page) (i : ℕ) → count_free (modify ps i f) ≡ count_free ps
  count_free-modify_keep [] i = refl
  count_free-modify_keep (p ∷ ps) zero = ground (arith, keeps p)
  count_free-modify_keep (p ∷ ps) (suc i) = ground (arith, count_free-modify_keep ps i)

pub marked_bound : (ps : List Page) (i : ℕ) → marked ps i ≡ true → i < length ps
marked_bound [] i h = ground arith
marked_bound (p ∷ ps) zero h = omega arith
marked_bound (p ∷ ps) (suc i) h = omega (arith, marked_bound ps i h)
