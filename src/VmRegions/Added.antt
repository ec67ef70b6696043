-- ===== src/VmRegions/Added.antt =====
-- kernel/sched.c: what `task_add_vm_mapping` and `task_vm_range_is_free` do, address by address.
use bunix.Common.{
  ℕ, ◌+◌, ◌<◌, ◌≡◌, ◌∙◌, refl, ap, Bool, true, false, ◌&&◌, Option, none, some, List, [], ◌∷◌, ◌++◌,
  ◌⊎◌, inl, inr, ltb, if◌then◌else◌, length, add64, u64_mod, arith, Bool-cases,
}
use mathlib.Core.Path.{subst}
use mathlib.Core.List.{append_assoc}
use bunix.VmRegions.{
  VmRegion, VmTable, regions_overlap, can_write, Outcome, done, denied, out_of_fuel, bad_range,
  task_grow_vm_regions,
}
use bunix.VmRegions.Count.{
  Attributes, attributes, inside, one_if, weight, count_at, anything, Bounded, AllBounded,
  count_at-append, append-AllBounded,
}
use bunix.VmRegions.Place.{place_of, at_address, placed_weight, placed, placed-middle, placed-end}
use bunix.VmRegions.Cut.{add64_small}
use bunix.VmRegions.Remove.{grow_none, no_wrap}
use bunix.VmRegions.Add.{
  VmMapping, vm_region_metadata_matches, vm_region_append_offset_matches, overlaps_any,
  task_vm_range_overlaps_other, can_append, append_loop, mapped_region, put_mapping, finish_mapping,
  task_add_vm_mapping, task_vm_range_is_free,
}

-- What a region of the mapping says of an address, with its place in the object.
abbrev pub mapped_with : VmMapping → ℕ → Attributes
mapped_with m x = record {
  writable = can_write m.prot;
  kind = m.kind;
  prot = m.prot;
  flags = m.map_flags;
  object_type = m.object_type;
  object_id = m.object_id;
  offset = x;
}

abbrev pub mapping_place : VmMapping → ℕ → ℕ → ℕ
mapping_place m base a = place_of m.object_id m.object_type m.offset base a

pub overlaps_any-false :
    (base len : ℕ) (rs : List VmRegion)
    → base + len < u64_mod
    → AllBounded rs
    → overlaps_any base len rs ≡ false
    → (a : ℕ) → inside base len a ≡ true
    → count_at anything a rs ≡ 0
unfolding overlaps_any regions_overlap
overlaps_any-false base len [] fits v e a i = refl
overlaps_any-false base len (r ∷ rs) fits v e a i = ground (
  arith,
  e,
  i,
  v.0,
  add64_small base len fits,
  add64_small r.base r.len v.0.in_space,
  overlaps_any-false base len rs fits v.1 (ground (arith, e)) a i,
)

pub overlaps_any-true :
    (base len : ℕ) (rs : List VmRegion)
    → 0 < len
    → base + len < u64_mod
    → AllBounded rs
    → overlaps_any base len rs ≡ true
    → (a : ℕ) × (inside base len a ≡ true) × (0 < count_at anything a rs)
unfolding overlaps_any regions_overlap
overlaps_any-true base len [] more fits v e = absurd (ground (arith, e))
overlaps_any-true base len (r ∷ rs) more fits v e =
    elim (Bool-cases (regions_overlap base len r.base r.len)) [
      | inl o ↦
          let s = add64_small base len fits in
          let s' = add64_small r.base r.len v.0.in_space in
          (
            if ltb base r.base then r.base else base,
            ground (arith, o, s, s', more, v.0),
            ground (arith, o, s, s', v.0),
          )
      | inr o ↦
          let (a, i, c) = overlaps_any-true base len rs more fits v.1 (ground (arith, o, e)) in
          (a, i, omega (arith, c))
    ]

-- No other entry meets the range.
pub others_false :
    (base len : ℕ) (seen : List VmRegion) (r : VmRegion) (rest : List VmRegion)
    → task_vm_range_overlaps_other (seen ++ (r ∷ rest)) (length seen) base len ≡ false
    → (overlaps_any base len seen ≡ false) × (overlaps_any base len rest ≡ false)
unfolding task_vm_range_overlaps_other overlaps_any
others_false base len [] r rest e = (refl, e)
others_false base len (x ∷ xs) r rest e =
    let (s, t) = others_false base len xs r rest (ground (arith, e)) in (ground (arith, e, s), t)

-- The attributes of a region that fits the mapping, with equal places.
pub matching_attributes :
    (r : VmRegion) (m : VmMapping) (x y : ℕ)
    → r.writable ≡ can_write r.prot
    → vm_region_metadata_matches r m ≡ true
    → x ≡ y
    → record (attributes r) { offset = x } ≡ mapped_with m y
unfolding vm_region_metadata_matches
matching_attributes r m x y w h eo =
    let ek : r.kind ≡ m.kind = ground (arith, h) in
    let ep : r.prot ≡ m.prot = ground (arith, h) in
    let ef : r.flags ≡ m.map_flags = ground (arith, h) in
    let et : r.object_type ≡ m.object_type = ground (arith, h) in
    let ei : r.object_id ≡ m.object_id = ground (arith, h) in
    let ew : r.writable ≡ can_write m.prot = w ∙ ap can_write ep in
    λ i. record {
      writable = ew i;
      kind = ek i;
      prot = ep i;
      flags = ef i;
      object_type = et i;
      object_id = ei i;
      offset = eo i;
    }

pub count_at-middle :
    (p : Attributes → Bool) (a : ℕ) (xs : List VmRegion) (r : VmRegion) (ys : List VmRegion)
    → count_at p a (xs ++ (r ∷ ys)) ≡ count_at p a xs + weight p a r + count_at p a ys
count_at-middle p a xs r ys = omega (arith, count_at-append p a xs (r ∷ ys))

-- What the first loop of `task_add_vm_mapping` leaves: no region held an address of the range, and one
-- with the attributes of the mapping does now.
abbrev Appended : VmMapping → ℕ → ℕ → List VmRegion → Option (List VmRegion) → Type 0
Appended m base len rs none = Unit {0}
Appended m base len rs (some rs') =
    AllBounded rs'
    × ((a : ℕ) → inside base len a ≡ true → count_at anything a rs ≡ 0)
    × ((p : Attributes → Bool) (a : ℕ)
        → placed p a rs'
          ≡ placed p a rs
            + one_if (inside base len a && p (mapped_with m (mapping_place m base a))))

-- The tests of `can_append`.
record CanAppend (m : VmMapping) (base len : ℕ) (seen : List VmRegion) (r : VmRegion)
    (rest : List VmRegion) : Type 0 where
  same :
      (a : ℕ) → inside base len a ≡ true → at_address a r ≡ mapped_with m (mapping_place m base a)
  ends_there : r.base + r.len ≡ base
  free_seen : overlaps_any r.base (r.len + len) seen ≡ false
  free_rest : overlaps_any r.base (r.len + len) rest ≡ false

-- The place of an address behind a region that a mapping continues.
same_place :
    (m : VmMapping) (base len : ℕ) (r : VmRegion) (a : ℕ)
    → r.base + r.len ≡ base
    → inside base len a ≡ true
    → r.object_id ≡ m.object_id
    → r.object_type ≡ m.object_type
    → vm_region_append_offset_matches r m ≡ true
    → place_of r.object_id r.object_type r.offset r.base a ≡ mapping_place m base a
unfolding vm_region_append_offset_matches
same_place m base len r a e i ei et o = rw (ei, et) (ground (arith, e, i, o))

can_append-CanAppend :
    (m : VmMapping) (base len : ℕ) (seen : List VmRegion) (r : VmRegion) (rest : List VmRegion)
    → base + len < u64_mod
    → Bounded r
    → can_append m base len (seen ++ (r ∷ rest)) (length seen) r ≡ true
    → CanAppend m base len seen r rest
unfolding can_append vm_region_append_offset_matches vm_region_metadata_matches
can_append-CanAppend m base len seen r rest fits b h =
    let e : r.base + r.len ≡ base = ground (arith, h, add64_small r.base r.len b.in_space) in
    let l : add64 r.len len ≡ r.len + len = add64_small r.len len (omega (arith, e, fits)) in
    let o = others_false r.base (r.len + len) seen r rest (
      subst (λ n. task_vm_range_overlaps_other (seen ++ (r ∷ rest)) (length seen) r.base n ≡ false)
        l (ground (arith, h))) in
    record {
      same = λ a i.
          matching_attributes r m _ (mapping_place m base a) b.follows_prot (ground (arith, h)) (
            same_place m base len r a e i (ground (arith, h)) (ground (arith, h))
              (ground (arith, h)));
      ends_there = e;
      free_seen = o.0;
      free_rest = o.1;
    }

appended_lem :
    (m : VmMapping) (base len : ℕ) (seen : List VmRegion) (r : VmRegion) (rest : List VmRegion)
    → base + len < u64_mod
    → Bounded r
    → AllBounded seen
    → AllBounded rest
    → CanAppend m base len seen r rest
    → Appended m base len
        (seen ++ (r ∷ rest))
        (some (seen ++ (record r { len = add64 r.len len } ∷ rest)))
appended_lem m base len seen r rest fits b w v c =
    let s = c.ends_there in
    let l : add64 r.len len ≡ r.len + len = add64_small r.len len (omega (arith, s, fits)) in
    let room : r.base + (r.len + len) < u64_mod = omega (arith, s, fits) in
    let x = record r { len = add64 r.len len } in
    let xb : Bounded x = record {
      not_empty = ground (arith, l, b);
      in_space = ground (arith, l, room);
      follows_prot = b.follows_prot;
    } in
    (
      append-AllBounded seen (x ∷ rest) w (xb, v),
      λ a i.
          let i' : inside r.base (r.len + len) a ≡ true = ground (arith, s, i) in
          ground (
            arith,
            count_at-middle anything a seen r rest,
            s,
            i,
            overlaps_any-false r.base (r.len + len) seen room w c.free_seen a i',
            overlaps_any-false r.base (r.len + len) rest room v c.free_rest a i',
          ),
      λ p a. omega (
        arith,
        placed-middle p a seen r rest,
        placed-middle p a seen x rest,
        longer p a (inside base len a) refl l s,
      ),
    )
  where
    longer :
        (p : Attributes → Bool) (a : ℕ) (i : Bool)
        → inside base len a ≡ i
        → add64 r.len len ≡ r.len + len
        → r.base + r.len ≡ base
        → placed_weight p a (record r { len = add64 r.len len })
          ≡ placed_weight p a r + one_if (i && p (mapped_with m (mapping_place m base a)))
    longer p a true e l s = rw (← c.same a e) (behind (p (at_address a r)) a l s e)
      where
        behind :
            (q : Bool) (a : ℕ)
            → add64 r.len len ≡ r.len + len
            → r.base + r.len ≡ base
            → inside base len a ≡ true
            → one_if (inside r.base (add64 r.len len) a && q)
              ≡ one_if (inside r.base r.len a && q) + one_if q
        behind q a l s e = ground (arith, l, s, e)
    longer p a false e l s = before (p (at_address a r)) a l s e
      where
        before :
            (q : Bool) (a : ℕ)
            → add64 r.len len ≡ r.len + len
            → r.base + r.len ≡ base
            → inside base len a ≡ false
            → one_if (inside r.base (add64 r.len len) a && q)
              ≡ one_if (inside r.base r.len a && q) + 0
        before q a l s e = ground (arith, l, s, e)

append_loop-Appended :
    (m : VmMapping) (base len : ℕ) (seen rest : List VmRegion)
    → base + len < u64_mod
    → AllBounded seen
    → AllBounded rest
    → Appended m base len (seen ++ rest) (append_loop m base len seen rest)
unfolding append_loop
append_loop-Appended m base len seen [] fits w v = tt
append_loop-Appended m base len seen (r ∷ rest) fits w v =
    elim (Bool-cases (can_append m base len (seen ++ (r ∷ rest)) (length seen) r)) [
      | inl e ↦
          rw (e, Appended)
            (appended_lem m base len seen r rest fits v.0 w v.1
              (can_append-CanAppend m base len seen r rest fits v.0 e))
      | inr e ↦
          rw (e, Appended)
            (subst (λ xs. Appended m base len xs (append_loop m base len (seen ++ (r ∷ [])) rest))
              (append_assoc seen (r ∷ []) rest)
              (append_loop-Appended m base len (seen ++ (r ∷ [])) rest fits
                (append-AllBounded seen (r ∷ []) w (v.0, tt)) v.1))
    ]

-- What a call of `task_add_vm_mapping` did. It was denied for an empty range or one that wraps around,
-- for an address of the range that a region holds, or for want of memory, and changed nothing.
-- Otherwise no region held an address of the range, and one with the attributes of the mapping holds
-- it now; all else is as before.
abbrev pub Added : (ℕ → Bool) → VmTable → VmMapping → ℕ → ℕ → Outcome → Type 0
Added memory t m base len (done t') =
    (bad_range base len ≡ false)
    × AllBounded t'.vm_regions
    × ((a : ℕ) → inside base len a ≡ true → count_at anything a t.vm_regions ≡ 0)
    × ((p : Attributes → Bool) (a : ℕ)
        → placed p a t'.vm_regions
          ≡ placed p a t.vm_regions
            + one_if (inside base len a && p (mapped_with m (mapping_place m base a))))
Added memory t m base len (denied t') =
    (t' ≡ t)
    × ((bad_range base len ≡ true)
        ⊎ (((a : ℕ) × (inside base len a ≡ true) × (0 < count_at anything a t.vm_regions))
            ⊎ ((n : ℕ) × (memory n ≡ false))))
Added memory t m base len out_of_fuel = ◌≡◌ {A = Bool} true false

module _ (memory : ℕ → Bool) (t : VmTable) (m : VmMapping) (base len : ℕ)
    (fits : base + len < u64_mod) (g : bad_range base len ≡ false)
    (v : AllBounded t.vm_regions) where
  put_mapping-Added :
      (n : ℕ) (o : Option ℕ)
      → (o ≡ none → memory n ≡ false)
      → overlaps_any base len t.vm_regions ≡ false
      → Added memory t m base len (put_mapping t m base len o)
  unfolding put_mapping
  put_mapping-Added n none k e = (refl, inr (inr (n, k refl)))
  put_mapping-Added n (some grown) k e = (
    g,
    append-AllBounded t.vm_regions (mapped_region m base len ∷ []) v
        (record { not_empty = ground (arith, g); in_space = fits; follows_prot = refl }, tt),
    overlaps_any-false base len t.vm_regions fits v e,
    λ p a. omega (arith, placed-end p a t.vm_regions (mapped_region m base len)),
  )

  finish_mapping-Added :
      (o : Option (List VmRegion))
      → Appended m base len t.vm_regions o
      → Added memory t m base len (finish_mapping memory t m base len o)
  unfolding finish_mapping
  finish_mapping-Added (some rs) (b, free, c) = (g, b, free, c)
  finish_mapping-Added none c = elim (Bool-cases (overlaps_any base len t.vm_regions)) [
    | inl e ↦
        rw (e, Added)
          (refl, inr (inl (overlaps_any-true base len t.vm_regions (ground (arith, g)) fits v e)))
    | inr e ↦
        rw (e, Added)
          (put_mapping-Added (length t.vm_regions + 1)
            (task_grow_vm_regions memory t.vm_region_capacity (length t.vm_regions + 1))
            (grow_none memory t.vm_region_capacity (length t.vm_regions + 1)) e)
  ]

-- On a table of bounded regions task_add_vm_mapping is denied, changing nothing, only for an empty
-- range, one that wraps around, an address of the range that a region holds, or want of memory.
-- Otherwise no region held an address of the range, one with the attributes of the mapping holds it
-- now, at the place in the file that the mapping gives it, and everything else is held as before,
-- at the same place.
pub task_add_vm_mapping-Added :
    (memory : ℕ → Bool) (t : VmTable) (m : VmMapping) (base len : ℕ)
    → base < u64_mod
    → len < u64_mod
    → AllBounded t.vm_regions
    → Added memory t m base len (task_add_vm_mapping memory t m base len)
unfolding task_add_vm_mapping
task_add_vm_mapping-Added memory t m base len h k v = elim (Bool-cases (bad_range base len)) [
  | inl g ↦ rw (g, Added) (refl, inl g)
  | inr g ↦
      let fits = no_wrap base len h k g in
      rw (g, Added)
        (finish_mapping-Added memory t m base len fits g v (append_loop m base len [] t.vm_regions)
          (append_loop-Appended m base len [] t.vm_regions fits tt v))
]

-- The answer of `task_vm_range_is_free`.
abbrev pub Free : List VmRegion → ℕ → ℕ → Bool → Type 0
Free rs base len true =
    (bad_range base len ≡ false) × ((a : ℕ) → inside base len a ≡ true → count_at anything a rs ≡ 0)
Free rs base len false =
    (bad_range base len ≡ true)
    ⊎ ((a : ℕ) × (inside base len a ≡ true) × (0 < count_at anything a rs))

-- For a table of bounded regions task_vm_range_is_free says yes only for a range that is not empty,
-- does not wrap around and has no address that a region holds; otherwise it is empty, wraps around,
-- or a region holds an address of it.
pub task_vm_range_is_free-Free :
    (rs : List VmRegion) (base len : ℕ)
    → base < u64_mod
    → len < u64_mod
    → AllBounded rs
    → Free rs base len (task_vm_range_is_free rs base len)
unfolding task_vm_range_is_free
task_vm_range_is_free-Free rs base len h k v = elim (Bool-cases (bad_range base len)) [
  | inl g ↦ rw (g, Free) (inl g)
  | inr g ↦
      let fits = no_wrap base len h k g in
      elim (Bool-cases (overlaps_any base len rs)) [
        | inl e ↦ rw (g, e, Free) (inr (overlaps_any-true base len rs (ground (arith, g)) fits v e))
        | inr e ↦ rw (g, e, Free) (g, overlaps_any-false base len rs fits v e)
      ]
]
