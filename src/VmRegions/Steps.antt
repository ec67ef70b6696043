-- ===== src/VmRegions/Steps.antt =====
-- kernel/sched.c: one step of the loop of `task_protect_vm_region`, and what it leaves.
use bunix.Common.{
  ℕ, ◌+◌, ◌*◌, ◌≤◌, ◌≡◌, ◌∙◌, Bool, true, false, List, [], ◌∷◌, ◌++◌, if◌then◌else◌, length, arith,
}
use bunix.VmRegions.{
  VmRegion, Part, apart, whole, front, back, middle, part_of, Outcome, done, denied, out_of_fuel,
}
use bunix.VmRegions.Count.{
  Attributes, inside, weight, count_at, anything, protect, changed, AllBounded, count_at-append,
}

-- The visits that an entry still takes.
abbrev pub visits : Part → ℕ
visits apart = 1
visits whole = 1
visits front = 2
visits back = 2
visits middle = 3

abbrev pub visits_of : ℕ → ℕ → List VmRegion → ℕ
visits_of base len [] = 0
visits_of base len (r ∷ rs) = visits (part_of base len r) + visits_of base len rs

pub visits_of-append :
    (base len : ℕ) (xs ys : List VmRegion)
    → visits_of base len (xs ++ ys) ≡ visits_of base len xs + visits_of base len ys
visits_of-append base len [] ys = omega arith
visits_of-append base len (x ∷ xs) ys = omega (arith, visits_of-append base len xs ys)

visits-le : (x : Part) → visits x ≤ 3
visits-le apart = omega arith
visits-le whole = omega arith
visits-le front = omega arith
visits-le back = omega arith
visits-le middle = omega arith

pub visits_of-le : (base len : ℕ) (rs : List VmRegion) → visits_of base len rs ≤ 3 * length rs
visits_of-le base len [] = omega arith
visits_of-le base len (r ∷ rs) =
    omega (arith, visits-le (part_of base len r), visits_of-le base len rs)

changed-append :
    (prot : ℕ) (p : Attributes → Bool) (base len a : ℕ) (xs ys : List VmRegion)
    → changed prot p base len a (xs ++ ys)
      ≡ changed prot p base len a xs + changed prot p base len a ys
changed-append prot p base len a xs ys =
    ground (arith, count_at-append p a xs ys, count_at-append (λ x. p (protect prot x)) a xs ys)

-- What the call leaves of the regions `seen` and `rest`, where the protection of `rest` changes.
abbrev pub Left : (ℕ → Bool) → ℕ → ℕ → ℕ → List VmRegion → List VmRegion → Outcome → Type 0
Left memory prot base len seen rest (done t) =
    AllBounded t.vm_regions
    × ((p : Attributes → Bool) (a : ℕ)
        → count_at p a t.vm_regions ≡ count_at p a seen + changed prot p base len a rest)
Left memory prot base len seen rest (denied t) =
    ((n : ℕ) × (memory n ≡ false))
    × AllBounded t.vm_regions
    × ((a : ℕ)
        → count_at anything a t.vm_regions
          ≤ count_at anything a seen + changed prot anything base len a rest)
Left memory prot base len seen rest out_of_fuel = ◌≡◌ {A = Bool} true false

-- One step of the loop, from `seen` and `rest` to `seen'` and `rest'`.
abbrev pub Stepped :
    ℕ → ℕ → ℕ → List VmRegion → List VmRegion → List VmRegion → List VmRegion → Type 0
Stepped prot base len seen rest seen' rest' =
    (p : Attributes → Bool) (a : ℕ)
    → count_at p a seen' + changed prot p base len a rest'
      ≡ count_at p a seen + changed prot p base len a rest

pub Left-step :
    (memory : ℕ → Bool) (prot base len : ℕ) (seen rest seen' rest' : List VmRegion) (o : Outcome)
    → Stepped prot base len seen rest seen' rest'
    → Left memory prot base len seen' rest' o
    → Left memory prot base len seen rest o
Left-step memory prot base len seen rest seen' rest' (done t) s l = (l.0, λ p a. l.1 p a ∙ s p a)
Left-step memory prot base len seen rest seen' rest' (denied t) s l =
    (l.0, l.1, λ a. omega (arith, l.2 a, s anything a))
Left-step memory prot base len seen rest seen' rest' out_of_fuel s l = l

abbrev pub changed_weight : ℕ → (Attributes → Bool) → ℕ → ℕ → ℕ → VmRegion → ℕ
changed_weight prot p base len a x =
    if inside base len a then weight (λ y. p (protect prot y)) a x else weight p a x

pub changed-cons :
    (prot : ℕ) (p : Attributes → Bool) (base len a : ℕ) (r : VmRegion) (rs : List VmRegion)
    → changed prot p base len a (r ∷ rs)
      ≡ changed_weight prot p base len a r + changed prot p base len a rs
changed-cons prot p base len a r rs = ground arith

pub changed-nil :
    (prot : ℕ) (p : Attributes → Bool) (base len a : ℕ) → changed prot p base len a [] ≡ 0
changed-nil prot p base len a = ground arith

-- An entry becomes `x`, and `ys` go to the end of the table.
module _ (prot base len : ℕ) (seen : List VmRegion) (r : VmRegion) (rest : List VmRegion) where
  pub replaced :
      (x : VmRegion) (ys : List VmRegion)
      → ((p : Attributes → Bool) (a : ℕ)
          → changed_weight prot p base len a r ≡ weight p a x + changed prot p base len a ys)
      → Stepped prot base len seen (r ∷ rest) (seen ++ (x ∷ [])) (rest ++ ys)
  replaced x ys k p a = omega (
    arith,
    k p a,
    changed-cons prot p base len a r rest,
    changed-append prot p base len a rest ys,
    count_at-append p a seen (x ∷ []),
  )

  pub alone :
      (x : VmRegion)
      → ((p : Attributes → Bool) (a : ℕ) → changed_weight prot p base len a r ≡ weight p a x)
      → Stepped prot base len seen (r ∷ rest) (seen ++ (x ∷ [])) rest
  alone x k p a =
      omega (arith, k p a, changed-cons prot p base len a r rest, count_at-append p a seen (x ∷ []))

  -- What is left where there is no memory for a part.
  pub kept_one :
      (x : VmRegion) (ys : List VmRegion)
      → ((a : ℕ)
          → weight anything a x + changed prot anything base len a ys
            ≤ changed_weight prot anything base len a r)
      → (a : ℕ)
      → count_at anything a (seen ++ (x ∷ (rest ++ ys)))
        ≤ count_at anything a seen + changed prot anything base len a (r ∷ rest)
  kept_one x ys k a = ground (
    arith,
    k a,
    changed-cons prot anything base len a r rest,
    count_at-append anything a seen (x ∷ (rest ++ ys)),
    count_at-append anything a rest ys,
  )

  pub kept_alone :
      (x : VmRegion)
      → ((a : ℕ) → weight anything a x ≤ changed_weight prot anything base len a r)
      → (a : ℕ)
      → count_at anything a (seen ++ (x ∷ rest))
        ≤ count_at anything a seen + changed prot anything base len a (r ∷ rest)
  kept_alone x k a = ground (
    arith,
    k a,
    changed-cons prot anything base len a r rest,
    count_at-append anything a seen (x ∷ rest),
  )
