-- ===== src/VmRegions/Joined.antt =====
-- kernel/sched.c: the loop of `task_add_or_extend_vm_mapping`, which joins a mapping to a region that it
-- touches.
use bunix.Common.{
  ℕ, ◌+◌, ◌≤◌, ◌<◌, ◌≡◌, ◌∙◌, refl, ap, Bool, true, false, not, ◌&&◌, Option, none, some, List, [],
  ◌⊎◌, ◌∷◌, ◌++◌, inl, inr, ltb, ◌==◌, if◌then◌else◌, length, add64, u64_mod, arith, Bool-cases,
}
use mathlib.Core.Path.{subst}
use mathlib.Core.List.{append_assoc}
use bunix.VmRegions.{VmRegion}
use bunix.VmRegions.Count.{
  Attributes, attributes, inside, one_if, count_at, anything, Bounded, AllBounded,
  append-AllBounded,
}
use bunix.VmRegions.Cut.{add64_small, sub64_small}
use bunix.VmRegions.Add.{
  VmMapping, vm_region_metadata_matches, vm_region_prepend_offset_matches, overlaps_any,
  joined_base, joined_end, joined_len, can_extend, extended, extend_loop,
}
use bunix.VmRegions.Place.{place_of, at_address, placed_weight, placed, placed-middle, forget}
use bunix.VmRegions.Added.{
  mapped_with, mapping_place, overlaps_any-false, others_false, matching_attributes,
  count_at-middle,
}

-- What an address holds once the mapping is there: one region more, with the attributes of the mapping
-- and the place `place a`, where the address is in the range and no region held it.
abbrev pub with_mapping : VmMapping → ℕ → ℕ → List VmRegion → (ℕ → ℕ) → (Attributes → Bool) → ℕ → ℕ
with_mapping m base len rs place p a =
    placed p a rs
    + one_if (inside base len a && (count_at anything a rs == 0) && p (mapped_with m (place a)))

-- The place `x` of an address that is new is the one that the mapping gives it, or, where the mapping
-- begins in or at the end of a region, the one that this region gives it.
abbrev pub PlacedBy : VmMapping → ℕ → List VmRegion → ℕ → ℕ → Type 0
PlacedBy m base rs a x =
    (x ≡ mapping_place m base a)
    ⊎ ((r : VmRegion) × (xs : List VmRegion) × (ys : List VmRegion) × (rs ≡ xs ++ (r ∷ ys))
        × (r.base ≤ base)
        × (base ≤ r.base + r.len)
        × (x ≡ place_of m.object_id m.object_type r.offset r.base a))

-- The regions `rs'` are `rs` and the mapping.
abbrev pub Holding : VmMapping → ℕ → ℕ → List VmRegion → List VmRegion → Type 0
Holding m base len rs rs' =
    AllBounded rs'
    × (place : ℕ → ℕ) × ((a : ℕ) → inside base len a ≡ true → PlacedBy m base rs a (place a))
    × ((p : Attributes → Bool) (a : ℕ) → placed p a rs' ≡ with_mapping m base len rs place p a)
    × ((p : Attributes → Bool) (a : ℕ)
        → one_if (inside base len a && p (mapped_with m 0)) ≤ placed (λ x. p (forget x)) a rs')

abbrev pub Joined : VmMapping → ℕ → ℕ → List VmRegion → Option (List VmRegion) → Type 0
Joined m base len rs none = Unit {0}
Joined m base len rs (some rs') = Holding m base len rs rs'

-- The place that the entry gives an address afterwards.
abbrev place_in : VmMapping → ℕ → ℕ → VmRegion → ℕ → ℕ
place_in m base len r a =
    let x = extended m base len r in place_of x.object_id x.object_type x.offset x.base a

kept_lem :
    (m : VmMapping) (base len : ℕ) (r : VmRegion) (a : ℕ)
    → Bounded r
    → r.object_id ≡ m.object_id
    → r.object_type ≡ m.object_type
    → vm_region_prepend_offset_matches r base len m ≡ true
    → inside r.base r.len a ≡ true
    → place_in m base len r a ≡ place_of r.object_id r.object_type r.offset r.base a
unfolding vm_region_prepend_offset_matches
kept_lem m base len r a b e f h i = rw (e, f) (ground (arith, b.in_space, h, i))

-- The tests of `can_extend`, and the ends of the entry afterwards, without wrap-around.
record CanExtend (m : VmMapping) (base len : ℕ) (seen : List VmRegion) (r : VmRegion)
    (rest : List VmRegion) : Type 0 where
  same : (x y : ℕ) → x ≡ y → record (attributes r) { offset = x } ≡ mapped_with m y
  same_id : r.object_id ≡ m.object_id
  same_type : r.object_type ≡ m.object_type
  kept_place :
      (a : ℕ)
      → inside r.base r.len a ≡ true
      → place_in m base len r a ≡ place_of r.object_id r.object_type r.offset r.base a
  from_below : r.base ≤ base + len
  from_above : base ≤ r.base + r.len
  new_end :
      joined_end (add64 base len) r
      ≡ (if ltb (r.base + r.len) (base + len) then base + len else r.base + r.len)
  new_len : joined_base base r + joined_len base len r ≡ joined_end (add64 base len) r
  free_seen : overlaps_any (joined_base base r) (joined_len base len r) seen ≡ false
  free_rest : overlaps_any (joined_base base r) (joined_len base len r) rest ≡ false

can_extend-CanExtend :
    (m : VmMapping) (base len : ℕ) (seen : List VmRegion) (r : VmRegion) (rest : List VmRegion)
    → base + len < u64_mod
    → Bounded r
    → can_extend m base len (seen ++ (r ∷ rest)) (length seen) r ≡ true
    → CanExtend m base len seen r rest
unfolding can_extend vm_region_metadata_matches
can_extend-CanExtend m base len seen r rest fits b h =
    let s = add64_small base len fits in
    let e = add64_small r.base r.len b.in_space in
    let o =
      others_false (joined_base base r) (joined_len base len r) seen r rest (ground (arith, h)) in
    let n : joined_end (add64 base len) r
        ≡ (if ltb (r.base + r.len) (base + len) then base + len else r.base + r.len) =
      rw (s, e) refl in
    record {
      same = λ x y q. matching_attributes r m x y b.follows_prot (ground (arith, h)) q;
      same_id = ground (arith, h);
      same_type = ground (arith, h);
      kept_place = λ a.
          kept_lem m base len r a b (ground (arith, h)) (ground (arith, h)) (ground (arith, h));
      from_below = ground (arith, h, s);
      from_above = ground (arith, h, e);
      new_end = n;
      new_len = ground (
        arith,
        n,
        fits,
        b.in_space,
        sub64_small (joined_end (add64 base len) r) (joined_base base r),
      );
      free_seen = o.0;
      free_rest = o.1;
    }

-- A range that touches another one, and both together.
module _ (r_base r_len base len j_base j_len : ℕ) (below : r_base ≤ base + len)
    (above : base ≤ r_base + r_len) where
  hull :
      (q : Bool) (a : ℕ)
      → j_base ≡ (if ltb base r_base then base else r_base)
      → j_base + j_len ≡ (if ltb (r_base + r_len) (base + len) then base + len else r_base + r_len)
      → one_if (inside j_base j_len a && q)
        ≡ one_if (inside r_base r_len a && q)
          + one_if (inside base len a && not (inside r_base r_len a) && q)
  hull true a e f = ground (arith, e, f, below, above)
  hull false a e f = ground arith

  hull_inside :
      (a : ℕ)
      → j_base ≡ (if ltb base r_base then base else r_base)
      → j_base + j_len ≡ (if ltb (r_base + r_len) (base + len) then base + len else r_base + r_len)
      → inside base len a ≡ true
      → inside j_base j_len a ≡ true
  hull_inside a e f i = ground (arith, e, f, below, above, i)

module _ (m : VmMapping) (base len : ℕ) (seen : List VmRegion) (r : VmRegion) (rest : List VmRegion)
    (fits : base + len < u64_mod) (b : Bounded r) (w : AllBounded seen) (v : AllBounded rest)
    (c : CanExtend m base len seen r rest) where
  abbrev joined : VmRegion
  joined = extended m base len r

  ends_at :
      joined.base + joined.len
      ≡ (if ltb (r.base + r.len) (base + len) then base + len else r.base + r.len)
  ends_at = c.new_len ∙ c.new_end

  joined-room : joined.base + joined.len < u64_mod
  joined-room = ground (arith, ends_at, fits, b.in_space)

  joined-Bounded : Bounded joined
  joined-Bounded = record {
    not_empty = ground (arith, ends_at, b.not_empty);
    in_space = joined-room;
    follows_prot = b.follows_prot;
  }

  others_empty :
      (a : ℕ)
      → inside joined.base joined.len a ≡ true
      → (count_at anything a seen ≡ 0) × (count_at anything a rest ≡ 0)
  others_empty a i = (
    overlaps_any-false joined.base joined.len seen joined-room w c.free_seen a i,
    overlaps_any-false joined.base joined.len rest joined-room v c.free_rest a i,
  )

  -- In the range, an address is held if and only if the entry itself held it.
  held_by_entry :
      (a : ℕ)
      → inside base len a ≡ true
      → (count_at anything a (seen ++ (r ∷ rest)) == 0) ≡ not (inside r.base r.len a)
  held_by_entry a i =
      let (s, t) = others_empty a (
        hull_inside r.base r.len base len joined.base joined.len c.from_below c.from_above a refl
          ends_at i) in
      few (inside r.base r.len a) _ _ s t (count_at-middle anything a seen r rest)
    where
      few :
          (q : Bool) (s t : ℕ) {n : ℕ}
          → s ≡ 0
          → t ≡ 0
          → n ≡ s + one_if (q && true) + t
          → (n == 0) ≡ not q
      few true s t e f g = ground (arith, e, f, g)
      few false s t e f g = ground (arith, e, f, g)

  new_place : (a : ℕ) → PlacedBy m base (seen ++ (r ∷ rest)) a (place_in m base len r a)
  new_place a = elim (Bool-cases (ltb base r.base)) [
    | inl e ↦
        let z : (base == r.base) ≡ false = ground (arith, e) in
        inl (rw (e, z, c.same_id, c.same_type) refl)
    | inr e ↦
        let z : (r.base == r.base) ≡ true = ground arith in
        inr (
          r,
          seen,
          rest,
          refl,
          ground (arith, e),
          c.from_above,
          rw (e, z, c.same_id, c.same_type) refl,
        )
  ]

  one_if_and : (i : Bool) (q q' : Bool) → (i ≡ true → q ≡ q') → one_if (i && q) ≡ one_if (i && q')
  one_if_and true q q' k = ap one_if (k refl)
  one_if_and false q q' k = refl

  -- The entry counts what it counted, and the addresses that are new.
  joined_weight :
      (p : Attributes → Bool) (a : ℕ)
      → placed_weight p a joined
        ≡ placed_weight p a r
          + one_if (
              inside base len a
              && not (inside r.base r.len a)
              && p (mapped_with m (place_in m base len r a)))
  joined_weight p a =
      let q = p (at_address a joined) in
      omega (
        arith,
        hull r.base r.len base len joined.base joined.len c.from_below c.from_above q a refl
            ends_at,
        one_if_and (inside r.base r.len a) q (p (at_address a r))
            (λ i. ap (λ n. p (record (attributes r) { offset = n })) (c.kept_place a i)),
        ap (λ x. one_if (inside base len a && not (inside r.base r.len a) && p x))
            (c.same (place_in m base len r a) _ refl),
      )

  joined_lem : Joined m base len (seen ++ (r ∷ rest)) (some (seen ++ (joined ∷ rest)))
  joined_lem = (
    append-AllBounded seen (joined ∷ rest) w (joined-Bounded, v),
    place_in m base len r,
    λ a i. new_place a,
    grown,
    λ p a. omega (
      arith,
      at_least (p (mapped_with m 0)) a,
      placed-middle (λ x. p (forget x)) a seen joined rest,
      hull r.base r.len base len joined.base joined.len c.from_below c.from_above
          (p (mapped_with m 0)) a refl ends_at,
      ap (λ x. one_if (inside joined.base joined.len a && p x)) (c.same 0 0 refl),
    ),
  )
    where
      at_least :
          (q : Bool) (a : ℕ)
          → one_if (inside base len a && q)
            ≤ one_if (inside r.base r.len a && q)
              + one_if (inside base len a && not (inside r.base r.len a) && q)
      at_least q a = ground arith

      same_test :
          (q : Bool) (a : ℕ) (i : Bool)
          → inside base len a ≡ i
          → one_if (i && (count_at anything a (seen ++ (r ∷ rest)) == 0) && q)
            ≡ one_if (i && not (inside r.base r.len a) && q)
      same_test q a true e = ap (λ x. one_if (true && x && q)) (held_by_entry a e)
      same_test q a false e = refl

      grown :
          (p : Attributes → Bool) (a : ℕ)
          → placed p a (seen ++ (joined ∷ rest))
            ≡ with_mapping m base len (seen ++ (r ∷ rest)) (place_in m base len r) p a
      grown p a = omega (
        arith,
        placed-middle p a seen joined rest,
        placed-middle p a seen r rest,
        same_test (p (mapped_with m (place_in m base len r a))) a (inside base len a) refl,
        joined_weight p a,
      )

pub extend_loop-Joined :
    (m : VmMapping) (base len : ℕ) (seen rest : List VmRegion)
    → base + len < u64_mod
    → AllBounded seen
    → AllBounded rest
    → Joined m base len (seen ++ rest) (extend_loop m base len seen rest)
unfolding extend_loop
extend_loop-Joined m base len seen [] fits w v = tt
extend_loop-Joined m base len seen (r ∷ rest) fits w v =
    elim (Bool-cases (can_extend m base len (seen ++ (r ∷ rest)) (length seen) r)) [
      | inl e ↦
          rw (e, Joined)
            (joined_lem m base len seen r rest fits v.0 w v.1
              (can_extend-CanExtend m base len seen r rest fits v.0 e))
      | inr e ↦
          rw (e, Joined)
            (subst (λ xs. Joined m base len xs (extend_loop m base len (seen ++ (r ∷ [])) rest))
              (append_assoc seen (r ∷ []) rest)
              (extend_loop-Joined m base len (seen ++ (r ∷ [])) rest fits
                (append-AllBounded seen (r ∷ []) w (v.0, tt)) v.1))
    ]
