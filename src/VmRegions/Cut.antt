-- ===== src/VmRegions/Cut.antt =====
-- kernel/sched.c: the parts of a region inside and outside of a range.
use bunix.Common.{
  ℕ, ◌+◌, ◌-◌, ◌<◌, ◌≤◌, ◌≡◌, ◌≢◌, refl, ◌⊎◌, inl, inr, Bool, true, false, if◌then◌else◌, add64,
  sub64, u64_mod, arith,
}
use bunix.VmRegions.{
  VmRegion, region_end, Part, apart, whole, front, back, middle, cut_base, cut_end, part_of,
  right_of, left_of, inner_of, region_set_prot,
}
use bunix.VmRegions.Count.{Attributes, inside, covers, weight, Bounded, protect}

pub add64_small : (a b : ℕ) → a + b < u64_mod → add64 a b ≡ a + b
add64_small a b h = omega (arith, h)

pub sub64_small : (a b : ℕ) → b ≤ a → a < u64_mod → sub64 a b ≡ a - b
sub64_small a b h k = omega (arith, h, k)

pub Part-cases :
    (x : Part) → (x ≡ apart) ⊎ ((x ≡ whole) ⊎ ((x ≡ front) ⊎ ((x ≡ back) ⊎ (x ≡ middle))))
Part-cases apart = inl refl
Part-cases whole = inr (inl refl)
Part-cases front = inr (inr (inl refl))
Part-cases back = inr (inr (inr (inl refl)))
Part-cases middle = inr (inr (inr (inr refl)))

pub part_of-region_set_prot :
    (base len prot : ℕ) (r : VmRegion)
    → part_of base len (region_set_prot prot r) ≡ part_of base len r
unfolding part_of
part_of-region_set_prot base len prot r = refl

-- What is left of a region at an address, once a range is taken out.
abbrev pub kept : (Attributes → Bool) → ℕ → ℕ → ℕ → VmRegion → ℕ
kept p base len a r = if inside base len a then 0 else weight p a r

-- The ends without wrap-around.
record Ends (base len : ℕ) (r : VmRegion) : Type 0 where
  range_end : add64 base len ≡ base + len
  own_end : region_end r ≡ r.base + r.len

-- The parts together, at an address `a`.
module _ (base len : ℕ) (r : VmRegion) (prot : ℕ) (p : Attributes → Bool) (a : ℕ) where
  abbrev changed_at : VmRegion → ℕ
  changed_at x = if inside base len a then weight (λ y. p (protect prot y)) a x else weight p a x

  abbrev inner_part : VmRegion
  inner_part = region_set_prot prot (inner_of base (add64 base len) r)

  module _ (ends : Ends base len r) (more : 0 < r.len) (room : r.base + r.len < u64_mod)
      (fits : base + len < u64_mod) where
    front_parts :
        part_of base len r ≡ front
        → changed_at r ≡ weight p a (right_of (add64 base len) r) + changed_at inner_part
    unfolding part_of
    front_parts e = ground (arith, e, ends)

    middle_parts :
        part_of base len r ≡ middle
        → changed_at r
          ≡ weight p a (left_of base r)
            + changed_at inner_part
            + changed_at (right_of (add64 base len) r)
    unfolding part_of
    middle_parts e = ground (arith, e, ends)

module _ (base len : ℕ) (r : VmRegion) (fits : base + len < u64_mod) (b : Bounded r) where
  ends : Ends base len r
  ends = record {
    range_end = add64_small base len fits;
    own_end = add64_small r.base r.len b.in_space;
  }

  pub apart-covers :
      part_of base len r ≡ apart → (a : ℕ) → covers r a ≡ true → inside base len a ≡ false
  unfolding part_of
  apart-covers e a h = ground (arith, e, h, b, ends)

  pub apart-kept :
      (p : Attributes → Bool)
      → part_of base len r ≡ apart
      → (a : ℕ) → kept p base len a r ≡ weight p a r
  unfolding part_of
  apart-kept p e a = ground (arith, e, b, ends)

  pub whole-kept :
      (p : Attributes → Bool) → part_of base len r ≡ whole → (a : ℕ) → kept p base len a r ≡ 0
  unfolding part_of
  whole-kept p e a = ground (arith, e, b, ends)

  pub front-kept :
      (p : Attributes → Bool)
      → part_of base len r ≡ front
      → (a : ℕ) → kept p base len a r ≡ weight p a (right_of (add64 base len) r)
  unfolding part_of
  front-kept p e a = ground (arith, e, b, ends)

  pub back-kept :
      (p : Attributes → Bool)
      → part_of base len r ≡ back
      → (a : ℕ) → kept p base len a r ≡ weight p a (left_of base r)
  unfolding part_of
  back-kept p e a = ground (arith, e, b, ends)

  pub middle-kept :
      (p : Attributes → Bool)
      → part_of base len r ≡ middle
      → (a : ℕ)
      → kept p base len a r ≡ weight p a (left_of base r) + weight p a (right_of (add64 base len) r)
  unfolding part_of
  middle-kept p e a = ground (arith, e, b, ends)

  pub middle-right_of :
      part_of base len r ≡ middle
      → Bounded (right_of (add64 base len) r)
        × (part_of base len (right_of (add64 base len) r) ≡ apart)
  unfolding part_of
  middle-right_of e =
      let w : Bounded (right_of (add64 base len) r) = record {
        not_empty = ground (arith, e, b, ends);
        in_space = ground (arith, e, b, ends);
        follows_prot = b.follows_prot;
      } in
      (w, ground (arith, e, b, ends, w))

  pub middle-left_of : part_of base len r ≡ middle → Bounded (left_of base r)
  unfolding part_of
  middle-left_of e = record {
    not_empty = ground (arith, e, b, ends);
    in_space = ground (arith, e, b, ends);
    follows_prot = b.follows_prot;
  }

  pub back-left_of : part_of base len r ≡ back → Bounded (left_of base r)
  unfolding part_of
  back-left_of e = record {
    not_empty = ground (arith, e, b, ends);
    in_space = ground (arith, e, b, ends);
    follows_prot = b.follows_prot;
  }

  pub front-right_of : part_of base len r ≡ front → Bounded (right_of (add64 base len) r)
  unfolding part_of
  front-right_of e = record {
    not_empty = ground (arith, e, b, ends);
    in_space = ground (arith, e, b, ends);
    follows_prot = b.follows_prot;
  }

  module _ (prot : ℕ) (p : Attributes → Bool) (a : ℕ) where
    abbrev changed_weight : VmRegion → ℕ
    changed_weight x =
        if inside base len a then weight (λ y. p (protect prot y)) a x else weight p a x

    abbrev inner : VmRegion
    inner = region_set_prot prot (inner_of base (add64 base len) r)

    pub apart-changed : part_of base len r ≡ apart → changed_weight r ≡ weight p a r
    unfolding part_of
    apart-changed e = ground (arith, e, b, ends)

    pub whole-changed :
        part_of base len r ≡ whole → changed_weight r ≡ weight p a (region_set_prot prot r)
    unfolding part_of
    whole-changed e = ground (arith, e, b, ends)

    pub front-changed :
        part_of base len r ≡ front
        → changed_weight r ≡ weight p a (right_of (add64 base len) r) + changed_weight inner
    front-changed e = front_parts base len r prot p a ends b.not_empty b.in_space fits e

    pub back-changed :
        part_of base len r ≡ back
        → changed_weight r ≡ weight p a (left_of base r) + changed_weight inner
    unfolding part_of
    back-changed e = ground (arith, e, b, ends)

    pub middle-changed :
        part_of base len r ≡ middle
        → changed_weight r
          ≡ weight p a (left_of base r)
            + changed_weight inner
            + changed_weight (right_of (add64 base len) r)
    middle-changed e = middle_parts base len r prot p a ends b.not_empty b.in_space fits e

  -- The inner part of a region that the range meets.
  pub inner_of-Bounded :
      0 < len → part_of base len r ≢ apart → Bounded (inner_of base (add64 base len) r)
  unfolding part_of
  inner_of-Bounded more e = record {
    not_empty = ground (arith, e, b, ends);
    in_space = ground (arith, e, b, ends);
    follows_prot = b.follows_prot;
  }

  pub inner_of-whole :
      0 < len
      → part_of base len r ≢ apart
      → part_of base len (inner_of base (add64 base len) r) ≡ whole
  unfolding part_of
  inner_of-whole more e =
      let w = inner_of-Bounded more e in
      ground (
        arith,
        e,
        b,
        ends,
        w,
        add64_small (cut_base base r) (sub64 (cut_end (add64 base len) r) (cut_base base r))
            w.in_space,
      )
