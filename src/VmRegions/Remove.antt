-- ===== src/VmRegions/Remove.antt =====
-- kernel/sched.c: `task_remove_vm_region` takes exactly the range out.
use bunix.Common.{
  ℕ, zero, suc, ◌+◌, ◌*◌, ◌≤◌, ◌<◌, ◌≡◌, ◌∙◌, refl, ap, Bool, true, false, none, List, [], ◌∷◌,
  ◌++◌, ◌⊎◌, inl, inr, if◌then◌else◌, length, length-append, add64, u64_mod, arith, Bool-cases,
  Option-cases,
}
use bunix.VmRegions.{
  VmRegion, VmTable, Part, apart, whole, front, back, middle, part_of, right_of, left_of,
  put_second, last_first, Outcome, done, denied, out_of_fuel, task_grow_vm_regions, remove_loop,
  bad_range, task_remove_vm_region,
}
use bunix.VmRegions.Count.{
  Attributes, inside, weight, count_at, AllBounded, count_at-append, count_at-last_first,
  length-last_first, append-AllBounded, last_first-AllBounded,
}
use bunix.VmRegions.Cut.{
  Part-cases, kept, apart-kept, whole-kept, front-kept, back-kept, middle-kept, middle-right_of,
  middle-left_of, front-right_of, back-left_of,
}

-- The entries that the range still meets.
abbrev met : Part → ℕ
met apart = 0
met _ = 1

abbrev met_in : ℕ → ℕ → List VmRegion → ℕ
met_in base len [] = 0
met_in base len (r ∷ rs) = met (part_of base len r) + met_in base len rs

met_in-append :
    (base len : ℕ) (xs ys : List VmRegion)
    → met_in base len (xs ++ ys) ≡ met_in base len xs + met_in base len ys
met_in-append base len [] ys = omega arith
met_in-append base len (x ∷ xs) ys = omega (arith, met_in-append base len xs ys)

met_in-put_second :
    (base len : ℕ) (x : VmRegion) (xs : List VmRegion)
    → met_in base len (put_second x xs) ≡ met (part_of base len x) + met_in base len xs
met_in-put_second base len x [] = refl
met_in-put_second base len x (y ∷ ys) = omega arith

met_in-last_first :
    (base len : ℕ) (xs : List VmRegion) → met_in base len (last_first xs) ≡ met_in base len xs
unfolding last_first
met_in-last_first base len [] = refl
met_in-last_first base len (x ∷ xs) =
    omega (arith, met_in-put_second base len x (last_first xs), met_in-last_first base len xs)

-- What the call leaves of the regions `seen` and `rest`, where the range is taken out of `rest` only.
abbrev Left : (ℕ → Bool) → ℕ → ℕ → List VmRegion → List VmRegion → Outcome → Type 0
Left memory base len seen rest (done t) =
    (p : Attributes → Bool) (a : ℕ)
    → count_at p a t.vm_regions
      ≡ count_at p a seen + (if inside base len a then 0 else count_at p a rest)
Left memory base len seen rest (denied t) =
    ((n : ℕ) × (memory n ≡ false))
    × ((p : Attributes → Bool) (a : ℕ)
        → (count_at p a t.vm_regions ≤ count_at p a seen + count_at p a rest)
          × (inside base len a ≡ false
              → count_at p a t.vm_regions ≡ count_at p a seen + count_at p a rest))
Left memory base len seen rest out_of_fuel = ◌≡◌ {A = Bool} true false

-- One step of the loop, from `seen` and `rest` to `seen'` and `rest'`.
record Stepped (base len : ℕ) (seen rest seen' rest' : List VmRegion) : Type 0 where
  taken :
      (p : Attributes → Bool) (a : ℕ)
      → count_at p a seen' + (if inside base len a then 0 else count_at p a rest')
        ≡ count_at p a seen + (if inside base len a then 0 else count_at p a rest)
  less :
      (p : Attributes → Bool) (a : ℕ)
      → count_at p a seen' + count_at p a rest' ≤ count_at p a seen + count_at p a rest

Left-step :
    (memory : ℕ → Bool) (base len : ℕ) (seen rest seen' rest' : List VmRegion) (o : Outcome)
    → Stepped base len seen rest seen' rest'
    → Left memory base len seen' rest' o
    → Left memory base len seen rest o
Left-step memory base len seen rest seen' rest' (done t) s l = λ p a. l p a ∙ s.taken p a
Left-step memory base len seen rest seen' rest' (denied t) s l = (
  l.0,
  λ p a. (omega (arith, (l.1 p a).0, s.less p a), λ o. ground (arith, o, (l.1 p a).1, s.taken p a)),
)
Left-step memory base len seen rest seen' rest' out_of_fuel s l = l

-- The arithmetic of the steps: `w` is what the entry counts, `x` and `y` what its parts do.
one_taken :
    (b : Bool) (w x s s' n : ℕ)
    → (if b then 0 else w) ≡ x
    → s' ≡ s + (x + 0)
    → s' + (if b then 0 else n) ≡ s + (if b then 0 else (w + n))
one_taken b w x s s' n k e = ground (arith, k, e)

one_less :
    (b : Bool) (w x s s' n : ℕ) → (if b then 0 else w) ≡ x → s' ≡ s + (x + 0) → s' + n ≤ s + (w + n)
one_less b w x s s' n k e = ground (arith, k, e)

two_taken :
    (b : Bool) (w x y s s' n n' : ℕ)
    → (if b then 0 else w) ≡ x + y
    → s' ≡ s + (x + 0)
    → n' ≡ n + (y + 0)
    → s' + (if b then 0 else n') ≡ s + (if b then 0 else (w + n))
two_taken b w x y s s' n n' k e f = ground (arith, k, e, f)

two_less :
    (b : Bool) (w x y s s' n n' : ℕ)
    → (if b then 0 else w) ≡ x + y
    → s' ≡ s + (x + 0)
    → n' ≡ n + (y + 0)
    → s' + n' ≤ s + (w + n)
two_less b w x y s s' n n' k e f = ground (arith, k, e, f)

module _ (base len : ℕ) (seen : List VmRegion) (r : VmRegion) (rest : List VmRegion) where
  replaced :
      (x : VmRegion)
      → ((p : Attributes → Bool) (a : ℕ) → kept p base len a r ≡ weight p a x)
      → Stepped base len seen (r ∷ rest) (seen ++ (x ∷ [])) rest
  replaced x k = record {
    taken = λ p a.
        one_taken (inside base len a) (weight p a r) (weight p a x) _ _ _ (k p a)
          (count_at-append p a seen (x ∷ []));
    less = λ p a.
        one_less (inside base len a) (weight p a r) (weight p a x) _ _ _ (k p a)
          (count_at-append p a seen (x ∷ []));
  }

  dropped :
      ((p : Attributes → Bool) (a : ℕ) → kept p base len a r ≡ 0)
      → Stepped base len seen (r ∷ rest) seen (last_first rest)
  dropped k = record {
    taken = λ p a. ground (arith, k p a, count_at-last_first p a rest);
    less = λ p a. omega (arith, count_at-last_first p a rest);
  }

  split :
      (x y : VmRegion)
      → ((p : Attributes → Bool) (a : ℕ) → kept p base len a r ≡ weight p a x + weight p a y)
      → Stepped base len seen (r ∷ rest) (seen ++ (x ∷ [])) (rest ++ (y ∷ []))
  split x y k = record {
    taken = λ p a.
        two_taken (inside base len a) (weight p a r) (weight p a x) (weight p a y) _ _ _ _ (k p a)
          (count_at-append p a seen (x ∷ [])) (count_at-append p a rest (y ∷ []));
    less = λ p a.
        two_less (inside base len a) (weight p a r) (weight p a x) (weight p a y) _ _ _ _ (k p a)
          (count_at-append p a seen (x ∷ [])) (count_at-append p a rest (y ∷ []));
  }

met-le : (x : Part) → met x ≤ 1
met-le apart = omega arith
met-le whole = omega arith
met-le front = omega arith
met-le back = omega arith
met-le middle = omega arith

abbrev pub OutcomeBounded : Outcome → Type 0
OutcomeBounded (done t) = AllBounded t.vm_regions
OutcomeBounded (denied t) = AllBounded t.vm_regions
OutcomeBounded out_of_fuel = Unit {0}

-- The table does not grow only where there is no memory.
pub grow_none :
    (memory : ℕ → Bool) (capacity n : ℕ)
    → task_grow_vm_regions memory capacity n ≡ none
    → memory n ≡ false
unfolding task_grow_vm_regions
grow_none memory capacity n e = ground (arith, e)

module _ (memory : ℕ → Bool) (base len : ℕ) (fits : base + len < u64_mod) where
  loop-Left :
      (fuel capacity : ℕ) (seen rest : List VmRegion)
      → length rest + met_in base len rest < fuel
      → AllBounded rest
      → Left memory base len seen rest (remove_loop fuel memory base len capacity seen rest)
  unfolding remove_loop
  loop-Left zero capacity seen rest h v = absurd (omega (arith, h))
  loop-Left (suc fuel) capacity seen [] h v = λ p a. ground arith
  loop-Left (suc fuel) capacity seen (r ∷ rest) h v = elim (Part-cases (part_of base len r)) [
    | inl e ↦
        let m = ap met e in
        rw (e, Left)
          (Left-step memory base len seen (r ∷ rest) (seen ++ (r ∷ [])) rest _
            (replaced base len seen r rest r (λ p a. apart-kept base len r fits v.0 p e a))
            (loop-Left fuel capacity (seen ++ (r ∷ [])) rest (omega (arith, h, m)) v.1))
    | inr (inl e) ↦
        let m = ap met e in
        rw (e, Left)
          (Left-step memory base len seen (r ∷ rest) seen (last_first rest) _
            (dropped base len seen r rest (λ p a. whole-kept base len r fits v.0 p e a))
            (loop-Left fuel capacity seen (last_first rest)
              (omega (arith, h, m, length-last_first rest, met_in-last_first base len rest))
              (last_first-AllBounded rest v.1)))
    | inr (inr (inl e)) ↦
        let m = ap met e in
        let x = right_of (add64 base len) r in
        rw (e, Left)
          (Left-step memory base len seen (r ∷ rest) (seen ++ (x ∷ [])) rest _
            (replaced base len seen r rest x (λ p a. front-kept base len r fits v.0 p e a))
            (loop-Left fuel capacity (seen ++ (x ∷ [])) rest (omega (arith, h, m)) v.1))
    | inr (inr (inr (inl e))) ↦
        let m = ap met e in
        rw (e, Left)
          (Left-step memory base len seen (r ∷ rest) (seen ++ (left_of base r ∷ [])) rest _
            (replaced base len seen r rest (left_of base r)
              (λ p a. back-kept base len r fits v.0 p e a))
            (loop-Left fuel capacity (seen ++ (left_of base r ∷ [])) rest (omega (arith, h, m))
              v.1))
    | inr (inr (inr (inr e))) ↦
        let m = ap met e in
        let y = right_of (add64 base len) r in
        let (yb, ya) = middle-right_of base len r fits v.0 e in
        rw (e, Left)
          (elim (Option-cases
            (task_grow_vm_regions memory capacity (length (seen ++ (r ∷ rest)) + 1))) [
              | inl g ↦
                  rw (g, Left)
                    (
                      (
                        length (seen ++ (r ∷ rest)) + 1,
                        grow_none memory capacity (length (seen ++ (r ∷ rest)) + 1) g,
                      ),
                      λ p a.
                          let c = count_at-append p a seen (r ∷ rest) in (omega (arith, c), λ o. c),
                    )
              | inr (grown, g) ↦
                  rw (g, Left)
                    (Left-step memory base len seen (r ∷ rest) (seen ++ (left_of base r ∷ []))
                      (rest ++ (y ∷ [])) _
                      (split base len seen r rest (left_of base r) y
                        (λ p a. middle-kept base len r fits v.0 p e a))
                      (loop-Left fuel grown (seen ++ (left_of base r ∷ [])) (rest ++ (y ∷ []))
                        (omega (
                          arith,
                          h,
                          m,
                          ap met ya,
                          length-append rest (y ∷ []),
                          met_in-append base len rest (y ∷ []),
                        ))
                        (append-AllBounded rest (y ∷ []) v.1 (yb, tt))))
            ])
  ]

  loop-AllBounded :
      (fuel capacity : ℕ) (seen rest : List VmRegion)
      → AllBounded seen
      → AllBounded rest
      → OutcomeBounded (remove_loop fuel memory base len capacity seen rest)
  unfolding remove_loop
  loop-AllBounded zero capacity seen rest w v = tt
  loop-AllBounded (suc fuel) capacity seen [] w v = w
  loop-AllBounded (suc fuel) capacity seen (r ∷ rest) w v = elim (Part-cases (part_of base len r)) [
    | inl e ↦
        rw (e, OutcomeBounded)
          (loop-AllBounded fuel capacity (seen ++ (r ∷ [])) rest
            (append-AllBounded seen (r ∷ []) w (v.0, tt)) v.1)
    | inr (inl e) ↦
        rw (e, OutcomeBounded)
          (loop-AllBounded fuel capacity seen (last_first rest) w (last_first-AllBounded rest v.1))
    | inr (inr (inl e)) ↦
        let x = right_of (add64 base len) r in
        rw (e, OutcomeBounded)
          (loop-AllBounded fuel capacity (seen ++ (x ∷ [])) rest
            (append-AllBounded seen (x ∷ []) w (front-right_of base len r fits v.0 e, tt)) v.1)
    | inr (inr (inr (inl e))) ↦
        let x = left_of base r in
        rw (e, OutcomeBounded)
          (loop-AllBounded fuel capacity (seen ++ (x ∷ [])) rest
            (append-AllBounded seen (x ∷ []) w (back-left_of base len r fits v.0 e, tt)) v.1)
    | inr (inr (inr (inr e))) ↦
        let x = left_of base r in
        let y = right_of (add64 base len) r in
        rw (e, OutcomeBounded)
          (elim (Option-cases
            (task_grow_vm_regions memory capacity (length (seen ++ (r ∷ rest)) + 1))) [
              | inl g ↦ rw (g, OutcomeBounded) (append-AllBounded seen (r ∷ rest) w v)
              | inr (grown, g) ↦
                  rw (g, OutcomeBounded)
                    (loop-AllBounded fuel grown (seen ++ (x ∷ [])) (rest ++ (y ∷ []))
                      (append-AllBounded seen (x ∷ []) w (middle-left_of base len r fits v.0 e, tt))
                      (append-AllBounded rest (y ∷ []) v.1
                        ((middle-right_of base len r fits v.0 e).0, tt)))
            ])
  ]

met_in-le : (base len : ℕ) (rs : List VmRegion) → met_in base len rs ≤ length rs
met_in-le base len [] = omega arith
met_in-le base len (r ∷ rs) = omega (arith, met-le (part_of base len r), met_in-le base len rs)

-- What a call of `task_remove_vm_region` did. It was denied for an empty range or one that wraps
-- around, and changed nothing; or for want of memory for the second part of a region, and addresses
-- outside the range are held as before. Otherwise no region holds an address of the range, and all
-- others are held as before.
abbrev pub Removed : (ℕ → Bool) → VmTable → ℕ → ℕ → Outcome → Type 0
Removed memory t base len (done t') =
    (bad_range base len ≡ false)
    × AllBounded t'.vm_regions
    × ((p : Attributes → Bool) (a : ℕ)
        → count_at p a t'.vm_regions ≡ (if inside base len a then 0 else count_at p a t.vm_regions))
Removed memory t base len (denied t') =
    ((bad_range base len ≡ true) × (t' ≡ t))
    ⊎ (((n : ℕ) × (memory n ≡ false))
        × AllBounded t'.vm_regions
        × ((p : Attributes → Bool) (a : ℕ)
            → (count_at p a t'.vm_regions ≤ count_at p a t.vm_regions)
              × (inside base len a ≡ false
                  → count_at p a t'.vm_regions ≡ count_at p a t.vm_regions)))
Removed memory t base len out_of_fuel = ◌≡◌ {A = Bool} true false

Left→Removed :
    (memory : ℕ → Bool) (t : VmTable) (base len : ℕ) (o : Outcome)
    → bad_range base len ≡ false
    → Left memory base len [] t.vm_regions o
    → OutcomeBounded o
    → Removed memory t base len o
Left→Removed memory t base len (done t') g l b = (g, b, λ p a. omega (arith, l p a))
Left→Removed memory t base len (denied t') g l b =
    inr (l.0, b, λ p a. (omega (arith, (l.1 p a).0), λ o. omega (arith, (l.1 p a).1 o)))
Left→Removed memory t base len out_of_fuel g l b = l

pub no_wrap :
    (base len : ℕ)
    → base < u64_mod
    → len < u64_mod
    → bad_range base len ≡ false
    → base + len < u64_mod
no_wrap base len h k g = ground (arith, h, k, g)

-- On a table of bounded regions task_remove_vm_region is denied, changing nothing, for an empty
-- range or one that wraps around; it may be denied for want of memory, and then every address
-- outside the range is held as before. Otherwise no region holds an address of the range, and every
-- other address is held as before, with the same attributes, among them the offset that is recorded
-- for its region, which the source does not move with the base.
pub task_remove_vm_region-Removed :
    (memory : ℕ → Bool) (t : VmTable) (base len : ℕ)
    → base < u64_mod
    → len < u64_mod
    → AllBounded t.vm_regions
    → Removed memory t base len (task_remove_vm_region memory t base len)
unfolding task_remove_vm_region
task_remove_vm_region-Removed memory t base len h k v = elim (Bool-cases (bad_range base len)) [
  | inl g ↦ rw (g, Removed) (inl (g, refl))
  | inr g ↦
      let fits = no_wrap base len h k g in
      let enough = met_in-le base len t.vm_regions in
      rw (g, Removed)
        (Left→Removed memory t base len _ g
          (loop-Left memory base len fits (2 * length t.vm_regions + 1) t.vm_region_capacity []
            t.vm_regions (omega (arith, enough)) v)
          (loop-AllBounded memory base len fits (2 * length t.vm_regions + 1) t.vm_region_capacity
            [] t.vm_regions tt v))
]
