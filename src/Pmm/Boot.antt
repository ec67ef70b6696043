-- ===== src/Pmm/Boot.antt =====
-- kernel/pmm.c: `pmm_init_from_ranges`, the state in which the allocator starts.
use bunix.Common.{
  ℕ, zero, suc, ◌+◌, ◌-◌, ◌/◌, ◌%◌, ◌∙◌, ◌≢◌, ◌&&◌, ltb, [], ◌∷◌, ◌<◌, ◌≤◌, ◌==◌, ◌||◌, ◌⊎◌, inl,
  inr, leb, Bool-cases, ◌≡◌, refl, sym, ap, true, false, Option, none, some, List, get_elem?, mem,
  u64_mod, arith, add64,
}
use bunix.Pmm.{Pmm, total_pages, page_size}
use bunix.Pmm.Setup.{
  MemoryRange, ReservedRange, cleared, count_available_pages, import_all, reserve_all,
  reserve_range, metadata_bytes, find_storage_in, range_is_reserved_by_list, range_ignored,
  range_start, range_end, find_metadata_storage_from_ranges, pmm_init_from_ranges, init_at,
}
use bunix.Pmm.Invariant.{IsValid}
use bunix.Pmm.Import.{Importing, import_all-Importing, sum_pages, count_from_sum, total-import_all}
use bunix.Pmm.Addresses.{
  addresses, addresses-import_all, BeginLow, InSpace, pages_of, pages_of-InSpace,
}
use bunix.Pmm.Reserved.{
  reserved_by, reserved_by_any, taken_by-eq, taken_by_any-eq, EndLow, addresses-reserve_range,
  addresses-reserve_all,
}
use bunix.Pmm.Reserve.{
  reserve_all_keeps, reserve_all_clear, reserve_range_clear, reserve_range-IsValid,
  length-reserve_range,
}

-- The storage begins at a page.
find_storage_in-page :
    (fuel bytes start end : ℕ) (reserved : List ReservedRange) (a : ℕ)
    → start % 4096 ≡ 0
    → find_storage_in fuel bytes start end reserved ≡ some a
    → a % 4096 ≡ 0
unfolding find_storage_in
find_storage_in-page zero bytes start end reserved a h = λ e. ground (arith, e)
find_storage_in-page (suc fuel) bytes start end reserved a h =
    elim (Bool-cases (ltb start end && leb bytes (end - start))) [
      | inl room ↦
          elim (Bool-cases (range_is_reserved_by_list start (add64 start bytes) reserved)) [
            | inl taken ↦
                rw (room, find_storage_in)
                  (rw (taken, find_storage_in)
                    (find_storage_in-page fuel bytes (add64 start page_size) end reserved a
                      (omega (arith, h))))
            | inr free ↦
                rw (room, find_storage_in) (rw (free, find_storage_in) (λ e. ground (arith, e, h)))
          ]
      | inr over ↦ rw (over, find_storage_in) (λ e. ground (arith, e))
    ]

find_metadata-page :
    (available : List MemoryRange) (reserved : List ReservedRange) (bytes a : ℕ)
    → find_metadata_storage_from_ranges available reserved bytes ≡ some a
    → a % 4096 ≡ 0
unfolding find_metadata_storage_from_ranges
find_metadata-page [] reserved bytes a = λ e. ground (arith, e)
find_metadata-page (r ∷ rs) reserved bytes a = elim (Bool-cases (range_ignored r)) [
  | inl skip ↦ rw skip (find_metadata-page rs reserved bytes a)
  | inr used ↦ rw used (
      first
        (find_storage_in (suc ((range_end r - range_start r) / page_size)) bytes (range_start r)
          (range_end r) reserved)
        (find_metadata_storage_from_ranges rs reserved bytes)
        (find_storage_in-page (suc ((range_end r - range_start r) / page_size)) bytes
          (range_start r) (range_end r) reserved a (omega arith))
        (find_metadata-page rs reserved bytes a))
]
  where
    first :
        (here rest : Option ℕ)
        → (here ≡ some a → a % 4096 ≡ 0)
        → (rest ≡ some a → a % 4096 ≡ 0)
        → (elim here [ none ↦ rest | some start ↦ some start ]) ≡ some a
        → a % 4096 ≡ 0
    first none rest k l e = l e
    first (some x) rest k l e = k e

ends_lem :
    (start bytes : ℕ)
    → start % 4096 ≡ 0
    → bytes % 4096 ≡ 0
    → bytes < u64_mod
    → (start == 0 || leb (add64 start bytes) start) ≡ false
    → (start ≢ 0) × (add64 start bytes ≡ start + bytes) × (start + bytes + 4095 < u64_mod)
ends_lem start bytes h k b e =
    let s : add64 start bytes ≡ start + bytes = ground (arith, b, e) in
    (ground (arith, e), s, ground (arith, s, b, e, h, k))

metadata_pages : (n : ℕ) → (metadata_bytes n % 4096 ≡ 0) × (metadata_bytes n < u64_mod)
metadata_pages n = (omega arith, omega arith)

-- The state that a successful set-up builds, with the page array at `start`.
built : List MemoryRange → List ReservedRange → ℕ → Pmm
built available reserved start =
    let detected = count_available_pages available in
    let end = add64 start (metadata_bytes detected) in
    reserve_range start end
      (reserve_all reserved (import_all available (cleared detected start end)))

-- What holds when the allocator is set up: it is consistent, its entries are the whole pages of the
-- memory map, in the order of the map, and no free page meets a reserved range or the page array
-- itself, all of them widened to whole pages.
pub record Ready (available : List MemoryRange) (reserved : List ReservedRange) (m : Pmm)
    : Type 0 where
  pub valid : IsValid m
  pub complete : total_pages m ≡ sum_pages available
  pub entered : addresses m.pages ≡ pages_of available
  pub clear :
      (j : ℕ) → mem j m.free_pages ≡ true → reserved_by_any reserved (get_elem? m.pages j) ≡ false
  pub start : ℕ
  pub placed :
      find_metadata_storage_from_ranges available reserved (metadata_bytes (sum_pages available))
      ≡ some start
  pub not_null : start ≢ 0
  pub ends_in_space : start + metadata_bytes (sum_pages available) < u64_mod
  pub own_storage :
      (j : ℕ)
      → mem j m.free_pages ≡ true
      → reserved_by start (start + metadata_bytes (sum_pages available)) (get_elem? m.pages j)
        ≡ false

module _ (available : List MemoryRange) (reserved : List ReservedRange) (start : ℕ)
    (countable : sum_pages available < u64_mod) (begin : BeginLow available)
    (ends : EndLow reserved) where
  detected_sum : count_available_pages available ≡ sum_pages available
  unfolding count_available_pages
  detected_sum = omega (arith, count_from_sum 0 available)

  cleared-Importing : (end : ℕ) → Importing (cleared (count_available_pages available) start end)
  cleared-Importing end = record {
    valid = record { listed = λ i. refl; distinct = tt; counted = refl; small = omega arith };
    bounded = omega (arith, detected_sum, countable);
  }

  built-addresses : addresses (built available reserved start).pages ≡ pages_of available
  unfolding built
  built-addresses =
      addresses-reserve_range _ _ _
      ∙ (addresses-reserve_all reserved _
          ∙ addresses-import_all available _ begin (omega (arith, detected_sum)))

  built-InSpace : InSpace (addresses (built available reserved start).pages)
  built-InSpace = rw built-addresses (pages_of-InSpace available begin)

  built-Ready :
      find_metadata_storage_from_ranges available reserved (metadata_bytes (sum_pages available))
        ≡ some start
      → (start == 0 || leb (add64 start (metadata_bytes (count_available_pages available))) start)
        ≡ false
      → Ready available reserved (built available reserved start)
  unfolding built
  built-Ready placed good =
      let bytes = metadata_bytes (count_available_pages available) in
      let end = add64 start bytes in
      let m1 = import_all available (cleared (count_available_pages available) start end) in
      let m2 = reserve_all reserved m1 in
      let imported =
        import_all-Importing available (cleared (count_available_pages available) start end)
          (cleared-Importing end) in
      let (v, t, _) = reserve_all_keeps reserved m1 imported.valid in
      let clear2 =
        λ (j : ℕ). reserve_range_clear start end reserved m2 j (reserve_all_clear reserved m1 j) in
      let (nz, sum, low) =
        ends_lem start bytes
          (find_metadata-page available reserved (metadata_bytes (sum_pages available)) start
            placed)
          (metadata_pages (count_available_pages available)).0
          (metadata_pages (count_available_pages available)).1 good in
      let pages = (reserve_range start end m2).pages in
      record {
        valid = reserve_range-IsValid start end m2 v;
        complete = omega (
          arith,
          (length-reserve_range start end m2).0,
          t,
          detected_sum,
          total-import_all available (cleared (count_available_pages available) start end),
        );
        entered = built-addresses;
        clear = λ j h. sym (taken_by_any-eq reserved pages j ends built-InSpace) ∙ (clear2 j h).0;
        start = start;
        placed = placed;
        not_null = nz;
        ends_in_space = rw (← detected_sum) (omega (arith, low));
        own_storage = λ j h. rw (← detected_sum) (
            ap (λ e. reserved_by start e (get_elem? pages j)) (sym sum)
            ∙ (sym (taken_by-eq start end pages j (omega (arith, low, sum)) built-InSpace)
                ∙ (clear2 j h).1));
      }

-- What the set-up did: it does not return, since no storage was found for the page array, or only
-- storage at address 0 or up to the end of the address space; or it returned a state that is ready.
abbrev pub SetUp : List MemoryRange → List ReservedRange → Option Pmm → Type 0
SetUp available reserved none =
    let bytes = metadata_bytes (sum_pages available) in
    let place = find_metadata_storage_from_ranges available reserved bytes in
    (place ≡ none)
    ⊎ ((start : ℕ) × (place ≡ some start) × ((start ≡ 0) ⊎ (add64 start bytes ≤ start)))
SetUp available reserved (some m) = Ready available reserved m

no_room : (start end : ℕ) → (start == 0 || leb end start) ≡ true → (start ≡ 0) ⊎ (end ≤ start)
no_room start end h = ground (arith, h)

init_at-SetUp :
    (available : List MemoryRange) (reserved : List ReservedRange) (place : Option ℕ)
    → sum_pages available < u64_mod
    → BeginLow available
    → EndLow reserved
    → find_metadata_storage_from_ranges available reserved (metadata_bytes (sum_pages available))
      ≡ place
    → SetUp available reserved (init_at available reserved (count_available_pages available) place)
unfolding init_at built
init_at-SetUp available reserved none countable b d e = inl e
init_at-SetUp available reserved (some start) countable b d e =
    let sum = detected_sum available reserved start countable b d in
    let end = add64 start (metadata_bytes (count_available_pages available)) in
    elim (Bool-cases (start == 0 || leb end start)) [
      | inl bad ↦ rw bad (inr (start, e, rw (← sum) (no_room start end bad)))
      | inr good ↦ rw good (built-Ready available reserved start countable b d e good)
    ]

-- For a memory map of fewer than 2^64 pages, whose ranges do not begin in the last page of the
-- address space, and reserved ranges that do not end in it, the set-up does not return only where
-- no storage is found for the page array, or only storage at address 0 or up to the end of the
-- address space. Otherwise it leaves the allocator consistent, its entries are the addresses of the
-- whole pages of the map, in the order of the map, and no free page meets a reserved range or the
-- storage of the page array, each widened to whole pages.
pub pmm_init_from_ranges-SetUp :
    (available : List MemoryRange) (reserved : List ReservedRange)
    → sum_pages available < u64_mod
    → BeginLow available
    → EndLow reserved
    → SetUp available reserved (pmm_init_from_ranges available reserved)
unfolding pmm_init_from_ranges
pmm_init_from_ranges-SetUp available reserved countable b d =
    init_at-SetUp available reserved _ countable b d (
      ap (λ n. find_metadata_storage_from_ranges available reserved (metadata_bytes n))
        (sym (detected_sum available reserved 0 countable b d)))
