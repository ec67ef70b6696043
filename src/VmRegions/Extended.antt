-- ===== src/VmRegions/Extended.antt =====
-- kernel/sched.c: what `task_add_or_extend_vm_mapping` and `task_vm_fault_is_file_backed` do, address by
-- address.
use bunix.Common.{
  ℕ, ◌+◌, ◌≤◌, ◌<◌, ◌≡◌, ◌∙◌, refl, Bool, true, false, ◌&&◌, Option, none, some, List, [], ◌∷◌, ◌↔◌,
  ◌⊎◌, inl, inr, ◌==◌, u64_mod, arith, Bool-cases,
}
use bunix.VmRegions.{VmRegion, VmTable, Outcome, done, denied, out_of_fuel, bad_range}
use bunix.VmRegions.Count.{Attributes, inside, one_if, count_at, anything, AllBounded}
use bunix.VmRegions.Place.{placed, forget}
use bunix.VmRegions.Cut.{add64_small}
use bunix.VmRegions.Remove.{no_wrap}
use bunix.VmRegions.Add.{
  VmMapping, extend_loop, extended_or_not, task_extend_vm_mapping, extend_or_add,
  task_add_vm_mapping, task_add_or_extend_vm_mapping, holds_file, page_of,
  task_vm_fault_is_file_backed,
}
use bunix.VmRegions.Added.{mapped_with, mapping_place, Added, task_add_vm_mapping-Added}
use bunix.VmRegions.Joined.{with_mapping, PlacedBy, Holding, Joined, extend_loop-Joined}

-- What a call of `task_add_or_extend_vm_mapping` did. It was denied as `task_add_vm_mapping` is, and
-- changed nothing. Otherwise each address of the range is held with the attributes of the mapping: those
-- that no region held are held once more, and all else is as before.
abbrev pub Extended : (ℕ → Bool) → VmTable → VmMapping → ℕ → ℕ → Outcome → Type 0
Extended memory t m base len (done t') =
    (bad_range base len ≡ false)
    × AllBounded t'.vm_regions
    × (place : ℕ → ℕ) × ((a : ℕ)
        → inside base len a ≡ true
        → PlacedBy m base t.vm_regions a (place a))
    × ((p : Attributes → Bool) (a : ℕ)
        → placed p a t'.vm_regions ≡ with_mapping m base len t.vm_regions place p a)
    × ((p : Attributes → Bool) (a : ℕ)
        → one_if (inside base len a && p (mapped_with m 0))
          ≤ placed (λ x. p (forget x)) a t'.vm_regions)
Extended memory t m base len (denied t') =
    (t' ≡ t)
    × ((bad_range base len ≡ true)
        ⊎ (((a : ℕ) × (inside base len a ≡ true) × (0 < count_at anything a t.vm_regions))
            ⊎ ((n : ℕ) × (memory n ≡ false))))
Extended memory t m base len out_of_fuel = ◌≡◌ {A = Bool} true false

-- Where no address of the range was held, the call did what `task_add_vm_mapping` does.
Added→Extended :
    (memory : ℕ → Bool) (t : VmTable) (m : VmMapping) (base len : ℕ) (o : Outcome)
    → Added memory t m base len o
    → Extended memory t m base len o
Added→Extended memory t m base len (done t') (g, b, free, c) = (
  g,
  b,
  mapping_place m base,
  λ a i. inl refl,
  λ p a. c p a ∙ fresh p a (inside base len a) refl,
  λ p a. omega (arith, c (λ x. p (forget x)) a),
)
  where
    fresh :
        (p : Attributes → Bool) (a : ℕ) (i : Bool)
        → inside base len a ≡ i
        → placed p a t.vm_regions
            + one_if (inside base len a && p (mapped_with m (mapping_place m base a)))
          ≡ with_mapping m base len t.vm_regions (mapping_place m base) p a
    fresh p a true e = rw (e, free a e) refl
    fresh p a false e = rw e refl
Added→Extended memory t m base len (denied t') d = d
Added→Extended memory t m base len out_of_fuel d = d

extend_or_add-Extended :
    (memory : ℕ → Bool) (t : VmTable) (m : VmMapping) (base len : ℕ) (o : Option (List VmRegion))
    → base < u64_mod
    → len < u64_mod
    → bad_range base len ≡ false
    → AllBounded t.vm_regions
    → Joined m base len t.vm_regions o
    → Extended memory t m base len (extend_or_add memory t m base len o)
unfolding extend_or_add
extend_or_add-Extended memory t m base len none h k g v j =
    Added→Extended memory t m base len (task_add_vm_mapping memory t m base len)
      (task_add_vm_mapping-Added memory t m base len h k v)
extend_or_add-Extended memory t m base len (some rs) h k g v j = (g, j.0, j.1, j.2, j.3, j.4)

-- On a table of bounded regions task_add_or_extend_vm_mapping, with no other call between its two
-- sections, is denied, changing nothing, only for an empty range, one that wraps around, an address
-- of the range that a region holds, or want of memory. Otherwise each address of the range is held
-- with the attributes of the mapping apart from its place in the file. Those that no region held
-- are held once more, at the place that the mapping gives them or, where the mapping begins in or
-- at the end of a region, the place that this region gives them; and whatever was held is held with
-- the same attributes and at the same place.
pub task_add_or_extend_vm_mapping-Extended :
    (memory : ℕ → Bool) (t : VmTable) (m : VmMapping) (base len : ℕ)
    → base < u64_mod
    → len < u64_mod
    → AllBounded t.vm_regions
    → Extended memory t m base len (task_add_or_extend_vm_mapping memory t m base len)
unfolding task_add_or_extend_vm_mapping
task_add_or_extend_vm_mapping-Extended memory t m base len h k v =
    elim (Bool-cases (bad_range base len)) [
      | inl g ↦ rw (g, Extended) (refl, inl g)
      | inr g ↦
          let fits = no_wrap base len h k g in
          rw (g, Extended)
            (extend_or_add-Extended memory t m base len (extend_loop m base len [] t.vm_regions) h k
              g v (extend_loop-Joined m base len [] t.vm_regions fits tt v))
    ]

-- What the first section did: it extended a region, or nothing.
abbrev pub Grown : VmTable → VmMapping → ℕ → ℕ → Outcome → Type 0
Grown t m base len (done t') = Holding m base len t.vm_regions t'.vm_regions
Grown t m base len (denied t') = t' ≡ t
Grown t m base len out_of_fuel = ◌≡◌ {A = Bool} true false

extended_or_not-Grown :
    (t : VmTable) (m : VmMapping) (base len : ℕ) (o : Option (List VmRegion))
    → Joined m base len t.vm_regions o
    → Grown t m base len (extended_or_not t o)
unfolding extended_or_not
extended_or_not-Grown t m base len none j = refl
extended_or_not-Grown t m base len (some rs) j = j

pub task_extend_vm_mapping-Grown :
    (t : VmTable) (m : VmMapping) (base len : ℕ)
    → base < u64_mod
    → len < u64_mod
    → AllBounded t.vm_regions
    → Grown t m base len (task_extend_vm_mapping t m base len)
unfolding task_extend_vm_mapping
task_extend_vm_mapping-Grown t m base len h k v = elim (Bool-cases (bad_range base len)) [
  | inl g ↦ rw (g, Grown) refl
  | inr g ↦
      rw (g, Grown)
        (extended_or_not-Grown t m base len (extend_loop m base len [] t.vm_regions)
          (extend_loop-Joined m base len [] t.vm_regions (no_wrap base len h k g) tt v))
]

abbrev pub is_file : Attributes → Bool
is_file x = x.object_type == 2

holds_file_lem :
    (page : ℕ) (rs : List VmRegion)
    → AllBounded rs
    → (holds_file page rs ≡ true) ↔ (0 < count_at is_file page rs)
unfolding holds_file
holds_file_lem page [] v = ground arith
holds_file_lem page (r ∷ rs) v =
    let e = add64_small r.base r.len v.0.in_space in
    let h = holds_file_lem page rs v.1 in ground (arith, e, h)

-- For a table of bounded regions a fault is file backed if and only if a region of a file holds the
-- start of the page.
pub task_vm_fault_is_file_backed_lem :
    (rs : List VmRegion) (addr : ℕ)
    → AllBounded rs
    → (task_vm_fault_is_file_backed rs addr ≡ true) ↔ (0 < count_at is_file (page_of addr) rs)
unfolding task_vm_fault_is_file_backed
task_vm_fault_is_file_backed_lem rs addr v = holds_file_lem (page_of addr) rs v
