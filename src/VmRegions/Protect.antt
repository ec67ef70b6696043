-- ===== src/VmRegions/Protect.antt =====
-- kernel/sched.c: the loop of `task_protect_vm_region`, branch by branch.
use bunix.Common.{
  ℕ, zero, suc, ◌+◌, ◌<◌, ◌≡◌, ◌≢◌, ◌∙◌, refl, ap, Bool, false, Option, none, some, List, [], ◌∷◌,
  ◌++◌, inl, inr, length, add64, u64_mod, arith, Option-cases,
}
use bunix.VmRegions.{
  VmRegion, apart, part_of, right_of, left_of, inner_of, region_set_prot, Outcome, denied,
  task_grow_vm_regions, protect_loop,
}
use bunix.VmRegions.Count.{Attributes, weight, anything, Bounded, AllBounded, append-AllBounded}
use bunix.VmRegions.Cut.{
  Part-cases, apart-changed, whole-changed, front-changed, back-changed, middle-changed,
  middle-right_of, middle-left_of, front-right_of, back-left_of, inner_of-Bounded, inner_of-whole,
  part_of-region_set_prot,
}
use bunix.VmRegions.Remove.{grow_none}
use bunix.VmRegions.Steps.{
  visits, visits_of, visits_of-append, Left, Left-step, changed_weight, changed-cons, changed-nil,
  replaced, alone, kept_one, kept_alone,
}

module _ (memory : ℕ → Bool) (prot base len : ℕ) (some_len : 0 < len)
    (fits : base + len < u64_mod) where
  inner_lem :
      (r : VmRegion)
      → Bounded r
      → part_of base len r ≢ apart
      → let y = region_set_prot prot (inner_of base (add64 base len) r) in
        Bounded y × (visits (part_of base len y) ≡ 1)
  inner_lem r b ne =
      let i = inner_of-Bounded base len r fits b some_len ne in
      let x = inner_of base (add64 base len) r in
      (
        record { not_empty = i.not_empty; in_space = i.in_space; follows_prot = refl },
        ap visits (
            part_of-region_set_prot base len prot x ∙ inner_of-whole base len r fits b some_len ne),
      )

  -- The branches that put the inner part `y` at the end of the table, and keep `x` in place.
  one_part :
      (n capacity : ℕ) (seen : List VmRegion) (r : VmRegion) (rest : List VmRegion) (x y : VmRegion)
      (loop : ℕ → Outcome)
      → AllBounded seen
      → AllBounded rest
      → Bounded x
      → ((p : Attributes → Bool) (a : ℕ)
          → changed_weight prot p base len a r ≡ weight p a x + changed_weight prot p base len a y)
      → ((grown : ℕ) → Left memory prot base len (seen ++ (x ∷ [])) (rest ++ (y ∷ [])) (loop grown))
      → (o : Option ℕ) → (o ≡ none → memory n ≡ false)
      → Left memory prot base len seen (r ∷ rest) (elim o [
        | none ↦ denied (record { vm_regions = seen ++ (x ∷ rest); vm_region_capacity = capacity })
        | some grown ↦ loop grown
      ])
  one_part n capacity seen r rest x y loop w v xb k rec none g = (
    (n, g refl),
    append-AllBounded seen (x ∷ rest) w (xb, v),
    kept_alone prot base len seen r rest x (λ a. omega (arith, k anything a)),
  )
  one_part n capacity seen r rest x y loop w v xb k rec (some grown) g =
      Left-step memory prot base len seen (r ∷ rest) (seen ++ (x ∷ [])) (rest ++ (y ∷ []))
        (loop grown)
        (replaced prot base len seen r rest x (y ∷ []) (λ p a.
          omega (arith, k p a, changed-cons prot p base len a y [], changed-nil prot p base len a)))
        (rec grown)

  -- The branch that puts two parts, `y` and then `z`, at the end of the table.
  two_parts :
      (n n' capacity : ℕ) (seen : List VmRegion) (r : VmRegion) (rest : List VmRegion)
      (x y z : VmRegion) (more : ℕ → Option ℕ) (loop : ℕ → Outcome)
      → AllBounded seen
      → AllBounded rest
      → Bounded x
      → Bounded y
      → ((p : Attributes → Bool) (a : ℕ)
          → changed_weight prot p base len a r
            ≡ weight p a x
              + changed_weight prot p base len a y
              + changed_weight prot p base len a z)
      → ((grown : ℕ)
          → Left memory prot base len (seen ++ (x ∷ [])) (rest ++ (y ∷ z ∷ [])) (loop grown))
      → ((grown : ℕ) → more grown ≡ none → memory n' ≡ false)
      → (o : Option ℕ) → (o ≡ none → memory n ≡ false)
      → Left memory prot base len seen (r ∷ rest) (elim o [
        | none ↦ denied (record { vm_regions = seen ++ (x ∷ rest); vm_region_capacity = capacity })
        | some grown ↦ elim (more grown) [
          | none ↦
              denied (record {
                vm_regions = seen ++ (x ∷ (rest ++ (y ∷ [])));
                vm_region_capacity = grown;
              })
          | some grown' ↦ loop grown'
        ]
      ])
  two_parts n n' capacity seen r rest x y z more loop w v xb yb k rec g' none g = (
    (n, g refl),
    append-AllBounded seen (x ∷ rest) w (xb, v),
    kept_alone prot base len seen r rest x (λ a. omega (arith, k anything a)),
  )
  two_parts n n' capacity seen r rest x y z more loop w v xb yb k rec g' (some grown) g =
      elim (Option-cases (more grown)) [
        | inl e ↦
            rw (e, Left)
              (
                (n', g' grown e),
                append-AllBounded seen (x ∷ (rest ++ (y ∷ []))) w
                    (xb, append-AllBounded rest (y ∷ []) v (yb, tt)),
                kept_one prot base len seen r rest x (y ∷ []) (λ a. omega (
                  arith,
                  k anything a,
                  changed-cons prot anything base len a y [],
                  changed-nil prot anything base len a,
                )),
              )
        | inr (grown', e) ↦
            rw (e, Left)
              (Left-step memory prot base len seen (r ∷ rest) (seen ++ (x ∷ []))
                (rest ++ (y ∷ z ∷ [])) (loop grown')
                (replaced prot base len seen r rest x (y ∷ z ∷ []) (λ p a. omega (
                  arith,
                  k p a,
                  changed-cons prot p base len a y (z ∷ []),
                  changed-cons prot p base len a z [],
                  changed-nil prot p base len a,
                )))
                (rec grown'))
      ]

  pub loop-Left :
      (fuel capacity : ℕ) (seen rest : List VmRegion)
      → visits_of base len rest < fuel
      → AllBounded seen
      → AllBounded rest
      → Left memory prot base len seen rest
          (protect_loop fuel memory base len prot capacity seen rest)
  unfolding protect_loop
  loop-Left zero capacity seen rest h w v = absurd (omega (arith, h))
  loop-Left (suc fuel) capacity seen [] h w v = (w, λ p a. ground arith)
  loop-Left (suc fuel) capacity seen (r ∷ rest) h w v = elim (Part-cases (part_of base len r)) [
    | inl e ↦
        let m = ap visits e in
        rw (e, Left)
          (Left-step memory prot base len seen (r ∷ rest) (seen ++ (r ∷ [])) rest _
            (alone prot base len seen r rest r
              (λ p a. apart-changed base len r fits v.0 prot p a e))
            (loop-Left fuel capacity (seen ++ (r ∷ [])) rest (omega (arith, h, m))
              (append-AllBounded seen (r ∷ []) w (v.0, tt)) v.1))
    | inr (inl e) ↦
        let m = ap visits e in
        let x = region_set_prot prot r in
        rw (e, Left)
          (Left-step memory prot base len seen (r ∷ rest) (seen ++ (x ∷ [])) rest _
            (alone prot base len seen r rest x
              (λ p a. whole-changed base len r fits v.0 prot p a e))
            (loop-Left fuel capacity (seen ++ (x ∷ [])) rest (omega (arith, h, m))
              (append-AllBounded seen (x ∷ []) w (
                record { not_empty = v.0.not_empty; in_space = v.0.in_space; follows_prot = refl },
                tt,
              ))
              v.1))
    | inr (inr (inl e)) ↦
        let (yb, yv) = inner_lem r v.0 (λ q. ground (arith, e, q)) in
        let m = ap visits e in
        let x = right_of (add64 base len) r in
        let y = region_set_prot prot (inner_of base (add64 base len) r) in
        rw (e, Left)
          (one_part (length seen + 1 + length rest + 1) capacity seen r rest x y _ w v.1
            (front-right_of base len r fits v.0 e)
            (λ p a. front-changed base len r fits v.0 prot p a e)
            (λ grown.
              loop-Left fuel grown (seen ++ (x ∷ [])) (rest ++ (y ∷ []))
                (omega (arith, h, m, yv, visits_of-append base len rest (y ∷ [])))
                (append-AllBounded seen (x ∷ []) w (front-right_of base len r fits v.0 e, tt))
                (append-AllBounded rest (y ∷ []) v.1 (yb, tt)))
            (task_grow_vm_regions memory capacity (length seen + 1 + length rest + 1))
            (grow_none memory capacity (length seen + 1 + length rest + 1)))
    | inr (inr (inr (inl e))) ↦
        let (yb, yv) = inner_lem r v.0 (λ q. ground (arith, e, q)) in
        let m = ap visits e in
        let x = left_of base r in
        let y = region_set_prot prot (inner_of base (add64 base len) r) in
        rw (e, Left)
          (one_part (length seen + 1 + length rest + 1) capacity seen r rest x y _ w v.1
            (back-left_of base len r fits v.0 e)
            (λ p a. back-changed base len r fits v.0 prot p a e)
            (λ grown.
              loop-Left fuel grown (seen ++ (x ∷ [])) (rest ++ (y ∷ []))
                (omega (arith, h, m, yv, visits_of-append base len rest (y ∷ [])))
                (append-AllBounded seen (x ∷ []) w (back-left_of base len r fits v.0 e, tt))
                (append-AllBounded rest (y ∷ []) v.1 (yb, tt)))
            (task_grow_vm_regions memory capacity (length seen + 1 + length rest + 1))
            (grow_none memory capacity (length seen + 1 + length rest + 1)))
    | inr (inr (inr (inr e))) ↦
        let (yb, yv) = inner_lem r v.0 (λ q. ground (arith, e, q)) in
        let (zb, za) = middle-right_of base len r fits v.0 e in
        let m = ap visits e in
        let zv = ap visits za in
        let x = left_of base r in
        let y = region_set_prot prot (inner_of base (add64 base len) r) in
        let z = right_of (add64 base len) r in
        rw (e, Left)
          (two_parts (length seen + 1 + length rest + 1) (length seen + 1 + length rest + 2)
            capacity seen r rest x y z
            (λ grown. task_grow_vm_regions memory grown (length seen + 1 + length rest + 2)) _ w v.1
            (middle-left_of base len r fits v.0 e) yb
            (λ p a. middle-changed base len r fits v.0 prot p a e)
            (λ grown.
              loop-Left fuel grown (seen ++ (x ∷ [])) (rest ++ (y ∷ z ∷ []))
                (omega (arith, h, m, yv, zv, visits_of-append base len rest (y ∷ z ∷ [])))
                (append-AllBounded seen (x ∷ []) w (middle-left_of base len r fits v.0 e, tt))
                (append-AllBounded rest (y ∷ z ∷ []) v.1 (yb, (zb, tt))))
            (λ grown. grow_none memory grown (length seen + 1 + length rest + 2))
            (task_grow_vm_regions memory capacity (length seen + 1 + length rest + 1))
            (grow_none memory capacity (length seen + 1 + length rest + 1)))
  ]
