-- ===== src/VmRegions/Cover.antt =====
-- kernel/sched.c: `task_vm_range_is_covered_locked` and `task_vm_range_is_free`.
use bunix.Common.{
  ℕ, zero, suc, ◌+◌, ◌≤◌, ◌<◌, ◌≡◌, refl, Bool, true, false, Option, none, some, List, [], ◌∷◌, ◌⊎◌,
  inl, inr, ◌&&◌, ltb, leb, length, u64_mod, arith, Bool-cases, Option-cases,
}
use mathlib.Core.Path.{subst}
use bunix.VmRegions.{VmRegion, region_end, end_of_cover, covered_loop, task_vm_range_is_covered}
use bunix.VmRegions.Count.{one_if, count_at, anything, AllBounded}
use bunix.VmRegions.Cut.{add64_small}

-- The regions that end behind an address.
abbrev later : ℕ → List VmRegion → ℕ
later a [] = 0
later a (r ∷ rs) = one_if (ltb a (r.base + r.len)) + later a rs

later-le : (a : ℕ) (rs : List VmRegion) → later a rs ≤ length rs
later-le a [] = omega arith
later-le a (r ∷ rs) = ground (arith, later-le a rs)

later_mono : (a b : ℕ) (rs : List VmRegion) → a ≤ b → later b rs ≤ later a rs
later_mono a b [] h = omega arith
later_mono a b (r ∷ rs) h = ground (arith, h, later_mono a b rs h)

-- What `end_of_cover` finds.
abbrev Found : ℕ → List VmRegion → Option ℕ → Type 0
Found a rs none = count_at anything a rs ≡ 0
Found a rs (some e) =
    (a < e) × (later e rs + 1 ≤ later a rs) × ((b : ℕ) → a ≤ b → b < e → 0 < count_at anything b rs)

end_of_cover-Found : (a : ℕ) (rs : List VmRegion) → AllBounded rs → Found a rs (end_of_cover a rs)
unfolding end_of_cover
end_of_cover-Found a [] v = refl
end_of_cover-Found a (r ∷ rs) v =
    let e = add64_small r.base r.len v.0.in_space in
    elim (Bool-cases (leb r.base a && ltb a (region_end r))) [
      | inl h ↦
          rw (h, Found)
            (
              ground (arith, h, e),
              ground (arith, h, e, later_mono a (r.base + r.len) rs),
              λ b lo hi. ground (arith, h, e, lo, hi),
            )
      | inr h ↦ rw (h, Found) (skip_Found (end_of_cover a rs) h (end_of_cover-Found a rs v.1))
    ]
  where
    skip_Found :
        (o : Option ℕ)
        → (leb r.base a && ltb a (region_end r)) ≡ false
        → Found a rs o
        → Found a (r ∷ rs) o
    skip_Found none h f = ground (arith, h, f, add64_small r.base r.len v.0.in_space)
    skip_Found (some e) h (lt, l, c) =
        (lt, ground (arith, l, lt), λ b lo hi. ground (arith, c b lo hi))

-- The answer is right, and there is one.
abbrev pub Covered : List VmRegion → ℕ → ℕ → Option Bool → Type 0
Covered rs cursor end none = ◌≡◌ {A = Bool} true false
Covered rs cursor end (some true) = (a : ℕ) → cursor ≤ a → a < end → 0 < count_at anything a rs
Covered rs cursor end (some false) =
    (a : ℕ) × (cursor ≤ a) × (a < end) × (count_at anything a rs ≡ 0)

-- Up to `mid`, all is held.
still_held :
    (rs : List VmRegion) (cursor mid end : ℕ) (o : Option Bool)
    → cursor ≤ mid
    → ((b : ℕ) → cursor ≤ b → b < mid → 0 < count_at anything b rs)
    → Covered rs mid end o
    → Covered rs cursor end o
still_held rs cursor mid end none h held c = c
still_held rs cursor mid end (some true) h held c = λ a lo hi. elim (Bool-cases (ltb a mid)) [
  | inl e ↦ held a lo (ground (arith, e))
  | inr e ↦ c a (ground (arith, e)) hi
]
still_held rs cursor mid end (some false) h held (a, lo, hi, z) = (a, omega (arith, h, lo), hi, z)

next_fuel :
    (rs : List VmRegion) (cursor next end fuel : ℕ)
    → cursor < end
    → later next rs + 1 ≤ later cursor rs
    → (end ≤ cursor) × (0 < suc fuel) ⊎ (later cursor rs + 1 < suc fuel)
    → (end ≤ next) × (0 < fuel) ⊎ (later next rs + 1 < fuel)
next_fuel rs cursor next end fuel lt l (inl (h, k)) = absurd (omega (arith, lt, h))
next_fuel rs cursor next end fuel lt l (inr h) = inr (omega (arith, h, l))

end_fuel :
    (rs : List VmRegion) (cursor end fuel n : ℕ)
    → cursor < end
    → n + 1 ≤ later cursor rs
    → (end ≤ cursor) × (0 < suc fuel) ⊎ (later cursor rs + 1 < suc fuel)
    → 0 < fuel
end_fuel rs cursor end fuel n lt l (inl (h, k)) = absurd (omega (arith, lt, h))
end_fuel rs cursor end fuel n lt l (inr h) = omega (arith, h, l)

covered_loop-Covered :
    (fuel : ℕ) (rs : List VmRegion) (cursor end : ℕ)
    → AllBounded rs
    → (end ≤ cursor) × (0 < fuel) ⊎ (later cursor rs + 1 < fuel)
    → Covered rs cursor end (covered_loop fuel rs cursor end)
unfolding covered_loop
covered_loop-Covered zero rs cursor end v (inl (h, k)) = absurd (omega (arith, k))
covered_loop-Covered zero rs cursor end v (inr h) = absurd (omega (arith, h))
covered_loop-Covered (suc fuel) rs cursor end v h = elim (Bool-cases (ltb cursor end)) [
  | inr e ↦ rw (e, Covered) (λ a lo hi. absurd (ground (arith, e, lo, hi)))
  | inl e ↦
      rw (e, Covered)
        (elim (Option-cases (end_of_cover cursor rs)) [
          | inl f ↦
              let found = subst (Found cursor rs) f (end_of_cover-Found cursor rs v) in
              rw (f, Covered) (cursor, omega arith, ground (arith, e), found)
          | inr (next, f) ↦
              let found = subst (Found cursor rs) f (end_of_cover-Found cursor rs v) in
              elim (Bool-cases (ltb next end)) [
                | inl g ↦
                    rw (f, g, Covered)
                      (still_held rs cursor next end _ (omega (arith, found.0)) found.2 (
                        covered_loop-Covered fuel rs next end v
                          (next_fuel rs cursor next end fuel (ground (arith, e)) found.1 h)))
                | inr g ↦
                    rw (f, g, Covered)
                      (still_held rs cursor end end _ (ground (arith, e))
                        (λ b lo hi. found.2 b lo (ground (arith, g, hi)))
                        (covered_loop-Covered fuel rs end end v (
                          inl (
                            omega arith,
                            end_fuel rs cursor end fuel (later next rs) (ground (arith, e)) found.1
                                h,
                          ))))
              ]
        ])
]

-- For a range that does not wrap around and a table of bounded regions the search ends; it says
-- that the range is covered where a region holds each address of the range, and otherwise there is
-- an address of the range that none holds.
pub task_vm_range_is_covered-Covered :
    (rs : List VmRegion) (base len : ℕ)
    → base + len < u64_mod
    → AllBounded rs
    → Covered rs base (base + len) (task_vm_range_is_covered rs base len)
unfolding task_vm_range_is_covered
task_vm_range_is_covered-Covered rs base len fits v = rw (add64_small base len fits) (
    covered_loop-Covered (length rs + 2) rs base (base + len) v
      (inr (omega (arith, later-le base rs))))
