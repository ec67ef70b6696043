-- ===== src/VmRegions/Place.antt =====
-- kernel/sched.c: where in its object an address lies. A region of a file maps its base to its recorded
-- offset; the source reads no offset where the object has no identifier or is anonymous.
use bunix.Common.{
  ℕ, ◌+◌, ◌-◌, ◌%◌, ◌≡◌, ◌∙◌, sym, ap, refl, Bool, ◌&&◌, ◌||◌, List, [], ◌∷◌, ◌++◌, ◌==◌,
  if◌then◌else◌, u64_mod, arith,
}
use bunix.VmRegions.{VmRegion}
use bunix.VmRegions.Count.{Attributes, attributes, covers, one_if, count_at, anything}

-- The place of the address `a` in the object, by the offset that belongs to `base`.
abbrev pub place_of : ℕ → ℕ → ℕ → ℕ → ℕ → ℕ
place_of object_id object_type offset base a =
    if object_id == 0 || object_type == 1 then 0 else (offset + (a - base)) % u64_mod

-- What the region says of the address `a`, with the place of that address for the offset.
abbrev pub at_address : ℕ → VmRegion → Attributes
at_address a r = record (attributes r) {
  offset = place_of r.object_id r.object_type r.offset r.base a;
}

abbrev pub placed_weight : (Attributes → Bool) → ℕ → VmRegion → ℕ
placed_weight p a r = one_if (covers r a && p (at_address a r))

-- The number of regions that hold the address `a` with attributes and place `p`.
abbrev pub placed : (Attributes → Bool) → ℕ → List VmRegion → ℕ
placed p a [] = 0
placed p a (r ∷ rs) = placed_weight p a r + placed p a rs

placed-append :
    (p : Attributes → Bool) (a : ℕ) (xs ys : List VmRegion)
    → placed p a (xs ++ ys) ≡ placed p a xs + placed p a ys
placed-append p a [] ys = omega arith
placed-append p a (x ∷ xs) ys = omega (arith, placed-append p a xs ys)

pub placed-middle :
    (p : Attributes → Bool) (a : ℕ) (xs : List VmRegion) (r : VmRegion) (ys : List VmRegion)
    → placed p a (xs ++ (r ∷ ys)) ≡ placed p a xs + placed_weight p a r + placed p a ys
placed-middle p a xs r ys = omega (arith, placed-append p a xs (r ∷ ys))

pub placed-end :
    (p : Attributes → Bool) (a : ℕ) (xs : List VmRegion) (r : VmRegion)
    → placed p a (xs ++ (r ∷ [])) ≡ placed p a xs + placed_weight p a r
placed-end p a xs r = omega (arith, placed-append p a xs (r ∷ []))

-- The attributes without an offset.
abbrev pub forget : Attributes → Attributes
forget x = record x { offset = 0 }

-- Where `p` reads no offset, the two counts are the same.
pub placed-forget :
    (p : Attributes → Bool) (a : ℕ) (rs : List VmRegion)
    → placed (λ x. p (forget x)) a rs ≡ count_at (λ x. p (forget x)) a rs
placed-forget p a [] = refl
placed-forget p a (r ∷ rs) = omega (arith, placed-forget p a rs)

-- The same for any `p` that reads no offset.
pub placed-plain :
    (p : Attributes → Bool)
    → ((x : Attributes) → p x ≡ p (forget x))
    → (a : ℕ) (rs : List VmRegion) → placed p a rs ≡ count_at p a rs
placed-plain p k a [] = refl
placed-plain p k a (r ∷ rs) = omega (
  arith,
  placed-plain p k a rs,
  ap (λ q. one_if (covers r a && q)) (k (at_address a r) ∙ sym (k (attributes r))),
)

pub placed-anything : (a : ℕ) (rs : List VmRegion) → placed anything a rs ≡ count_at anything a rs
placed-anything a rs = placed-forget anything a rs
