-- ===== src/Pmm/Contiguous.antt =====
-- kernel/pmm.c: `pmm_pages_alloc_contiguous` finds a run of free pages and takes all of it.
use bunix.Common.{
  ℕ, zero, suc, ◌+◌, ◌-◌, ◌<◌, ◌≤◌, ◌≡◌, ◌∙◌, refl, ◌⊎◌, true, false, none, some, List, [], ◌∷◌,
  length, get_elem?, modify, mem, Distinct, remove, arith, leb, inl, inr, Bool-cases, Option-cases,
  length-modify, get_elem?-modify_self, get_elem?-modify_ne, add64, sub64, ℕ_discrete, mul64,
  mem-remove_ne, mem-remove_self, remove-Distinct,
}
use bunix.Pmm.{
  Pmm, Page, total_pages, mark_used, page_size, usable, find_run, take_run,
  pmm_pages_alloc_contiguous,
}
use bunix.Pmm.Invariant.{
  IsValid, marked, count_free, count_free_le, marked_of, marked-modify, marked_bound,
  count_free-modify_used,
}

-- The page at an index is free and has the given address.
abbrev pub FreeAt : List Page → ℕ → ℕ → Type 0
FreeAt ps i addr =
    (page : Page) × (get_elem? ps i ≡ some page) × (page.is_free ≡ true) × (page.addr ≡ addr)

-- From index `d` on stand `count` free pages whose addresses go up page by page from `start`.
abbrev pub FreeRun : List Page → ℕ → ℕ → ℕ → Type 0
FreeRun ps d start count =
    (t s : ℕ) → t < count → d + t ≡ s → FreeAt ps s (add64 start (mul64 t page_size))

usable_sound :
    (start j n : ℕ) (ps : List Page)
    → usable start j n ps ≡ true
    → (t u : ℕ) → t < n
    → j + t ≡ u
    → FreeAt ps t (add64 start (mul64 u page_size))
unfolding usable
usable_sound start j zero ps h t u l e = absurd (omega arith)
usable_sound start j (suc n) [] h t u l e = ground arith
usable_sound start j (suc n) (p ∷ ps) h zero u l e =
    let e' : u ≡ j = omega arith in (p, refl, ground arith, ground arith)
usable_sound start j (suc n) (p ∷ ps) h (suc t) u l e =
    usable_sound start (suc j) n ps (ground arith) t u (omega arith) (omega arith)

usable_complete :
    (start j n : ℕ) (ps : List Page)
    → ((t u : ℕ) → t < n → j + t ≡ u → FreeAt ps t (add64 start (mul64 u page_size)))
    → usable start j n ps ≡ true
unfolding usable
usable_complete start j zero ps h = refl
usable_complete start j (suc n) [] h =
    let (p, e, _, _) = h 0 j (omega arith) (omega arith) in ground arith
usable_complete start j (suc n) (p ∷ ps) h =
    let (q, e, f, a) = h 0 j (omega arith) (omega arith) in
    ground (
      arith,
      usable_complete start (suc j) n ps (λ t u l e'. h (suc t) u (omega arith) (omega arith)),
    )

run_here :
    (start count : ℕ) (ps : List Page) → usable start 0 count ps ≡ true → FreeRun ps 0 start count
run_here start count ps good t s l e =
    let q : s ≡ t = omega arith in rw q (usable_sound start 0 count ps good t t l (omega arith))

run_later :
    (start count d : ℕ) (p : Page) (ps : List Page)
    → FreeRun ps d start count
    → FreeRun (p ∷ ps) (suc d) start count
run_later start count d p ps run t zero l e = absurd (omega arith)
run_later start count d p ps run t (suc s) l e = run t s l (omega arith)

-- The scan from index `k` finds a run that lies in the list.
find_run_sound :
    (count k : ℕ) (ps : List Page) (i start : ℕ)
    → find_run count k ps ≡ some (i, start)
    → (d : ℕ) × (i ≡ k + d) × (d + count ≤ length ps) × FreeRun ps d start count
unfolding find_run
find_run_sound count k [] i start h = ground arith
find_run_sound count k (p ∷ ps) i start h = elim (Bool-cases (leb count (length (p ∷ ps)))) [
  | inr short ↦ ground arith
  | inl fits ↦ elim (Bool-cases (usable p.addr 0 count (p ∷ ps))) [
    | inl good ↦ (0, ground arith, ground arith, run_here start count (p ∷ ps) (ground arith))
    | inr bad ↦
        let (d, e, l, run) = find_run_sound count (suc k) ps i start (ground arith) in
        (suc d, omega arith, omega arith, run_later start count d p ps run)
  ]
]

run_first :
    (start count : ℕ) (ps : List Page) → FreeRun ps 0 start count → usable start 0 count ps ≡ true
run_first start count ps run =
    usable_complete start 0 count ps
      (λ t u l e. let q : u ≡ t = omega arith in rw q (run t t l (omega arith)))

-- The scan misses no run: where it fails, no index starts one.
find_run_complete :
    (count k : ℕ) (ps : List Page)
    → find_run count k ps ≡ none
    → (d : ℕ) (page : Page) → 0 < count
    → get_elem? ps d ≡ some page
    → d + count ≤ length ps
    → ¬ FreeRun ps d page.addr count
unfolding find_run
find_run_complete count k [] h d page pos e l run = ground arith
find_run_complete count k (p ∷ ps) h zero page pos e l run =
    ground (arith, run_first page.addr count (p ∷ ps) run)
find_run_complete count k (p ∷ ps) h (suc d) page pos e l run =
    find_run_complete count (suc k) ps (ground arith) d page pos e (omega arith)
      (λ t s l' e'. run t (suc s) l' (omega arith))

-- While `take_run` runs, the counter is still ahead by the pages already taken.
record Taking (k : ℕ) (m : Pmm) : Type 0 where
  listed : (i : ℕ) → mem i m.free_pages ≡ marked m.pages i
  distinct : Distinct m.free_pages
  counted : m.free_pages_count ≡ k + count_free m.pages

take_one : Pmm → ℕ → Pmm
take_one m i = record m { free_pages = remove i m.free_pages; pages = modify m.pages i mark_used }

take_one-Taking :
    (k : ℕ) (m : Pmm) (i : ℕ) → marked m.pages i ≡ true → Taking k m → Taking (suc k) (take_one m i)
unfolding take_one
take_one-Taking k m i free t = record {
  listed = λ j. ground (
    arith,
    t.listed j,
    mem-remove_ne i j m.free_pages,
    mem-remove_self i m.free_pages t.distinct,
    marked-modify mark_used false (λ _. refl) m.pages i j (marked_bound m.pages i free),
  );
  distinct = remove-Distinct i m.free_pages t.distinct;
  counted = omega (arith, t.counted, count_free-modify_used mark_used (λ _. refl) m.pages i free);
}

-- What taking the `n` pages from `i` on leaves.
record Taken (n i : ℕ) (m m' : Pmm) : Type 0 where
  inside :
      (j : ℕ) (page : Page)
      → i ≤ j
      → j < i + n
      → get_elem? m.pages j ≡ some page
      → get_elem? m'.pages j ≡ some (mark_used page)
  outside : (j : ℕ) → (j < i) ⊎ (i + n ≤ j) → get_elem? m'.pages j ≡ get_elem? m.pages j
  size : length m'.pages ≡ length m.pages
  counter : m'.free_pages_count ≡ m.free_pages_count

abbrev AllMarked : Pmm → ℕ → ℕ → Type 0
AllMarked m i n = (j : ℕ) → i ≤ j → j < i + n → marked m.pages j ≡ true

take_one-AllMarked :
    (m : Pmm) (i n : ℕ) → AllMarked m i (suc n) → AllMarked (take_one m i) (suc i) n
unfolding take_one
take_one-AllMarked m i n all j l u = ground (
  arith,
  all j (omega arith) (omega arith),
  all i (omega arith) (omega arith),
  marked-modify mark_used false (λ _. refl) m.pages i j,
  marked_bound m.pages i,
)

take_run-Taking :
    (n i k : ℕ) (m : Pmm) → AllMarked m i n → Taking k m → Taking (n + k) (take_run n i m)
unfolding take_run take_one
take_run-Taking zero i k m all t = record {
  listed = t.listed;
  distinct = t.distinct;
  counted = omega (arith, t.counted);
}
take_run-Taking (suc n) i k m all t =
    let r =
      take_run-Taking n (suc i) (suc k) (take_one m i) (take_one-AllMarked m i n all)
        (take_one-Taking k m i (all i (omega arith) (omega arith)) t) in
    record { listed = r.listed; distinct = r.distinct; counted = omega (arith, r.counted) }

further : (i n j : ℕ) → (j < i) ⊎ (i + suc n ≤ j) → (j < suc i) ⊎ (suc i + n ≤ j)
further i n j (inl h) = inl (omega arith)
further i n j (inr h) = inr (omega arith)

take_run-Taken : (n i : ℕ) (m : Pmm) → Taken n i m (take_run n i m)
unfolding take_run take_one
take_run-Taken zero i m = record {
  inside = λ j page l u e. absurd (omega arith);
  outside = λ j _. refl;
  size = refl;
  counter = refl;
}
take_run-Taken (suc n) i m =
    let r = take_run-Taken n (suc i) (take_one m i) in
    record {
      inside = λ j page l u e. elim (ℕ_discrete i j) [
        | yes same ↦
            r.outside j (inl (omega arith))
            ∙ ground (arith, same, get_elem?-modify_self m.pages i mark_used {x = page})
        | no other ↦
            r.inside j page (omega arith) (omega arith)
              (get_elem?-modify_ne m.pages i j mark_used other ∙ e)
      ];
      outside = λ j o.
          r.outside j (further i n j o)
          ∙ get_elem?-modify_ne m.pages i j mark_used (λ e. ground (arith, o, e));
      size = r.size ∙ length-modify m.pages i mark_used;
      counter = r.counter;
    }

module _ (m : Pmm) (v : IsValid m) (n i start : ℕ) (fits : i + suc n ≤ total_pages m)
    (run : FreeRun m.pages i start (suc n)) where
  run_marked : AllMarked m i (suc n)
  run_marked j l u =
      let (page, e, f, _) = run (j - i) j (omega arith) (omega arith) in marked_of m.pages j e ∙ f

  run_Taking : Taking (suc n + 0) (take_run (suc n) i m)
  run_Taking =
      take_run-Taking (suc n) i 0 m run_marked
        (record { listed = v.listed; distinct = v.distinct; counted = omega (arith, v.counted) })

  finish-IsValid : IsValid (record (take_run (suc n) i m) {
    free_pages_count = sub64 (take_run (suc n) i m).free_pages_count (suc n);
  })
  finish-IsValid =
      let t = run_Taking in
      let s = take_run-Taken (suc n) i m in
      record {
        listed = t.listed;
        distinct = t.distinct;
        counted = omega (arith, t.counted, s.counter, v.counted, v.small, count_free_le m.pages);
        small = omega (arith, s.size, v.small);
      }

-- What a call that found a run did.
pub record RunAllocated (m : Pmm) (count start : ℕ) (m' : Pmm) : Type 0 where
  pub first : ℕ
  pub in_array : first + count ≤ total_pages m
  pub was_free : FreeRun m.pages first start count
  pub now_used :
      (j : ℕ) (page : Page)
      → first ≤ j
      → j < first + count
      → get_elem? m.pages j ≡ some page
      → get_elem? m'.pages j ≡ some (mark_used page)
  pub others :
      (j : ℕ) → (j < first) ⊎ (first + count ≤ j) → get_elem? m'.pages j ≡ get_elem? m.pages j
  pub fewer : m'.free_pages_count + count ≡ m.free_pages_count

abbrev pub NoRun : Pmm → ℕ → Type 0
NoRun m count =
    (d : ℕ) (page : Page)
    → get_elem? m.pages d ≡ some page
    → d + count ≤ total_pages m
    → ¬ FreeRun m.pages d page.addr count

module _ (m : Pmm) (v : IsValid m) where
  -- `pmm_pages_alloc_contiguous` keeps the invariant.
  pub pmm_pages_alloc_contiguous-IsValid :
      (count : ℕ) → IsValid (pmm_pages_alloc_contiguous m count).1
  unfolding pmm_pages_alloc_contiguous
  pmm_pages_alloc_contiguous-IsValid zero = v
  pmm_pages_alloc_contiguous-IsValid (suc n) = elim (Option-cases (find_run (suc n) 0 m.pages)) [
    | inl e ↦ rw (e, pmm_pages_alloc_contiguous) v
    | inr ((i, start), e) ↦
        rw (e, pmm_pages_alloc_contiguous)
          (let (d, same, fits, run) = find_run_sound (suc n) 0 m.pages i start e in
            let q : i ≡ d = omega arith in finish-IsValid m v n i start (omega arith) (rw q run))
  ]

  -- On a valid state, for a count that is not 0, pmm_pages_alloc_contiguous either takes a run of
  -- free pages at consecutive addresses, or changes nothing, answers 0, and there was no such run.
  pub pmm_pages_alloc_contiguous_lem :
      (n : ℕ)
      → let (start, m') = pmm_pages_alloc_contiguous m (suc n) in
        RunAllocated m (suc n) start m' ⊎ ((start ≡ 0) × (m' ≡ m) × NoRun m (suc n))
  unfolding pmm_pages_alloc_contiguous
  pmm_pages_alloc_contiguous_lem n = elim (Option-cases (find_run (suc n) 0 m.pages)) [
    | inl e ↦
        rw (e, pmm_pages_alloc_contiguous)
          (inr (
            refl,
            refl,
            λ d page at fits. find_run_complete (suc n) 0 m.pages e d page (omega arith) at fits,
          ))
    | inr ((i, start), e) ↦
        rw (e, pmm_pages_alloc_contiguous)
          (let (d, same, fits, run) = find_run_sound (suc n) 0 m.pages i start e in
            let q : i ≡ d = omega arith in
            let t = take_run-Taken (suc n) i m in
            let k = run_Taking m v n i start (omega arith) (rw q run) in
            inl (record {
              first = i;
              in_array = omega arith;
              was_free = rw q run;
              now_used = t.inside;
              others = t.outside;
              fewer =
                  omega (arith, t.counter, k.counted, v.counted, v.small, count_free_le m.pages);
            }))
  ]
