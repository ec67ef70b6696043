-- ===== src/VmRegions/Protected.antt =====
-- kernel/sched.c: `task_protect_vm_region` changes the protection of exactly the range.
use bunix.Common.{
  ℕ, ◌+◌, ◌*◌, ◌≤◌, ◌<◌, ◌≡◌, refl, Bool, true, false, Option, none, some, [], ◌⊎◌, inl, inr,
  length, u64_mod, arith, Bool-cases,
}
use bunix.VmRegions.{
  VmTable, Outcome, done, denied, out_of_fuel, bad_range, protect_covered, task_protect_vm_region,
}
use bunix.VmRegions.Count.{Attributes, count_at, anything, changed, AllBounded}
use bunix.VmRegions.Remove.{no_wrap}
use bunix.VmRegions.Cover.{Covered, task_vm_range_is_covered-Covered}
use bunix.VmRegions.Steps.{visits_of-le, Left}
use bunix.VmRegions.Protect.{loop-Left}

-- What a call of `task_protect_vm_region` did. It was denied for an empty range, one that wraps
-- around or one with an address that no region holds, and changed nothing; or for want of memory for a
-- part of a region, and no address is held by more regions than before. Otherwise all of the
-- range was held, and an address of it is held as before but with the new protection, and any other
-- as before.
abbrev pub Protected : (ℕ → Bool) → ℕ → VmTable → ℕ → ℕ → Outcome → Type 0
Protected memory prot t base len (done t') =
    (bad_range base len ≡ false)
    × ((a : ℕ) → base ≤ a → a < base + len → 0 < count_at anything a t.vm_regions)
    × AllBounded t'.vm_regions
    × ((p : Attributes → Bool) (a : ℕ)
        → count_at p a t'.vm_regions ≡ changed prot p base len a t.vm_regions)
Protected memory prot t base len (denied t') =
    ((t' ≡ t)
      × ((bad_range base len ≡ true)
          ⊎ ((a : ℕ) × (base ≤ a) × (a < base + len) × (count_at anything a t.vm_regions ≡ 0))))
    ⊎ (((n : ℕ) × (memory n ≡ false))
        × AllBounded t'.vm_regions
        × ((a : ℕ) → count_at anything a t'.vm_regions ≤ count_at anything a t.vm_regions))
Protected memory prot t base len out_of_fuel = ◌≡◌ {A = Bool} true false

Left→Protected :
    (memory : ℕ → Bool) (prot : ℕ) (t : VmTable) (base len : ℕ) (o : Outcome)
    → bad_range base len ≡ false
    → ((a : ℕ) → base ≤ a → a < base + len → 0 < count_at anything a t.vm_regions)
    → Left memory prot base len [] t.vm_regions o
    → Protected memory prot t base len o
Left→Protected memory prot t base len (done t') g c l = (g, c, l.0, λ p a. omega (arith, l.1 p a))
Left→Protected memory prot t base len (denied t') g c l = inr (l.0, l.1, λ a. ground (arith, l.2 a))
Left→Protected memory prot t base len out_of_fuel g c l = l

Covered→Protected :
    (memory : ℕ → Bool) (prot : ℕ) (t : VmTable) (base len : ℕ) (o : Option Bool)
    → base + len < u64_mod
    → bad_range base len ≡ false
    → AllBounded t.vm_regions
    → Covered t.vm_regions base (base + len) o
    → Protected memory prot t base len (protect_covered memory t base len prot o)
unfolding protect_covered
Covered→Protected memory prot t base len none fits g v c = c
Covered→Protected memory prot t base len (some false) fits g v c = inl (refl, inr c)
Covered→Protected memory prot t base len (some true) fits g v c =
    let enough = visits_of-le base len t.vm_regions in
    Left→Protected memory prot t base len _ g c (
      loop-Left memory prot base len (ground (arith, g)) fits (3 * length t.vm_regions + 1)
        t.vm_region_capacity [] t.vm_regions (omega (arith, enough)) tt v)

-- On a table of bounded regions task_protect_vm_region is denied, changing nothing, exactly for an
-- empty range, one that wraps around or one with an address that no region holds; it may be denied
-- for want of memory, and then no address is held by more regions than before. Otherwise each
-- address of the range is held as before but with the new protection, and any other as before. The
-- attributes by which an address is held include the offset that is recorded for its region, which
-- the source does not move with the base.
pub task_protect_vm_region-Protected :
    (memory : ℕ → Bool) (prot : ℕ) (t : VmTable) (base len : ℕ)
    → base < u64_mod
    → len < u64_mod
    → AllBounded t.vm_regions
    → Protected memory prot t base len (task_protect_vm_region memory t base len prot)
unfolding task_protect_vm_region
task_protect_vm_region-Protected memory prot t base len h k v =
    elim (Bool-cases (bad_range base len)) [
      | inl g ↦ rw (g, Protected) (inl (refl, inl g))
      | inr g ↦
          let fits = no_wrap base len h k g in
          rw (g, Protected)
            (Covered→Protected memory prot t base len _ fits g v
              (task_vm_range_is_covered-Covered t.vm_regions base len fits v))
    ]
