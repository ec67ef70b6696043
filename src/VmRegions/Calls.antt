-- ===== src/VmRegions/Calls.antt =====
-- kernel/sched.c: sequences of calls that change the memory regions of a task.
use bunix.Common.{ℕ, ◌≤◌, ◌<◌, ◌≡◌, ◌∙◌, refl, ap, Bool, true, false, inl, inr, u64_mod, arith}
use bunix.VmRegions.{VmTable, Outcome, done, denied, task_remove_vm_region, task_protect_vm_region}
use bunix.VmRegions.Place.{forget, placed-plain, placed-anything}
use bunix.VmRegions.Count.{Attributes, inside, count_at, anything, AllBounded}
use bunix.VmRegions.Remove.{Removed, task_remove_vm_region-Removed}
use bunix.VmRegions.Protected.{Protected, task_protect_vm_region-Protected}
use bunix.VmRegions.Add.{VmMapping, task_add_vm_mapping, task_extend_vm_mapping}
use bunix.VmRegions.Added.{Added, task_add_vm_mapping-Added}
use bunix.VmRegions.Extended.{Grown, task_extend_vm_mapping-Grown}

-- `extend` is the first section of `task_add_or_extend_vm_mapping` that holds the lock, `add` the second one
-- or `task_add_vm_mapping` itself, so that other calls may come between the two.
pub data VmCall : Type 0 where
  add extend : VmMapping → VmCall
  remove : VmCall
  set_prot : ℕ → VmCall

abbrev pub call : (ℕ → Bool) → VmTable → VmCall → ℕ → ℕ → Outcome
call memory t (add m) base len = task_add_vm_mapping memory t m base len
call memory t (extend m) base len = task_extend_vm_mapping t m base len
call memory t remove base len = task_remove_vm_region memory t base len
call memory t (set_prot prot) base len = task_protect_vm_region memory t base len prot

-- The table that an answer leaves.
pub data Leaves : Outcome → VmTable → Type 0 where
  leaves_done : {t : VmTable} → Leaves (done t) t
  leaves_denied : {t : VmTable} → Leaves (denied t) t

-- Calls with ranges in words, for which `allowed` holds.
pub data Calls (memory : ℕ → Bool) (allowed : VmCall → ℕ → ℕ → Type 0)
    : VmTable → VmTable → Type 0 where
  no_call : {t : VmTable} → Calls memory allowed t t
  one_more :
      {t u v : VmTable} (c : VmCall) (base len : ℕ)
      → Calls memory allowed t u
      → base < u64_mod
      → len < u64_mod
      → allowed c base len
      → Leaves (call memory u c base len) v
      → Calls memory allowed t v

abbrev pub Disjoint : VmTable → Type 0
Disjoint t = (a : ℕ) → count_at anything a t.vm_regions ≤ 1

-- Regions that are bounded and do not meet each other.
abbrev pub WellFormed : VmTable → Type 0
WellFormed t = AllBounded t.vm_regions × Disjoint t

Added-WellFormed :
    (memory : ℕ → Bool) (t : VmTable) (m : VmMapping) (base len : ℕ) {t' : VmTable} (o : Outcome)
    → WellFormed t
    → Leaves o t'
    → Added memory t m base len o
    → WellFormed t'
Added-WellFormed memory t m base len {t' = t'} _ w leaves_done (g, b, free, c) = (
  b,
  λ a. ground (
    arith,
    w.1 a,
    c anything a,
    free a,
    placed-anything a t.vm_regions,
    placed-anything a t'.vm_regions,
  ),
)
Added-WellFormed memory t m base len _ w leaves_denied (e, d) = rw e w

Grown-WellFormed :
    (t : VmTable) (m : VmMapping) (base len : ℕ) {t' : VmTable} (o : Outcome)
    → WellFormed t
    → Leaves o t'
    → Grown t m base len o
    → WellFormed t'
Grown-WellFormed t m base len {t' = t'} _ w leaves_done (b, place, by, c, d) = (
  b,
  λ a.
      ground (
        arith,
        w.1 a,
        c anything a,
        placed-anything a t.vm_regions,
        placed-anything a t'.vm_regions,
      ),
)
Grown-WellFormed t m base len _ w leaves_denied e = rw e w

Removed-WellFormed :
    (memory : ℕ → Bool) (t : VmTable) (base len : ℕ) {t' : VmTable} (o : Outcome)
    → WellFormed t
    → Leaves o t'
    → Removed memory t base len o
    → WellFormed t'
Removed-WellFormed memory t base len _ w leaves_done (g, b, c) =
    (b, λ a. ground (arith, w.1 a, c anything a))
Removed-WellFormed memory t base len _ w leaves_denied (inl (g, e)) = rw e w
Removed-WellFormed memory t base len _ w leaves_denied (inr (n, b, c)) =
    (b, λ a. omega (arith, w.1 a, (c anything a).0))

Protected-WellFormed :
    (memory : ℕ → Bool) (prot : ℕ) (t : VmTable) (base len : ℕ) {t' : VmTable} (o : Outcome)
    → WellFormed t
    → Leaves o t'
    → Protected memory prot t base len o
    → WellFormed t'
Protected-WellFormed memory prot t base len _ w leaves_done (g, h, b, c) =
    (b, λ a. ground (arith, w.1 a, c anything a))
Protected-WellFormed memory prot t base len _ w leaves_denied (inl (e, d)) = rw e w
Protected-WellFormed memory prot t base len _ w leaves_denied (inr (n, b, c)) =
    (b, λ a. omega (arith, w.1 a, c a))

call-WellFormed :
    (memory : ℕ → Bool) (t : VmTable) (c : VmCall) (base len : ℕ) {t' : VmTable}
    → WellFormed t
    → base < u64_mod
    → len < u64_mod
    → Leaves (call memory t c base len) t'
    → WellFormed t'
call-WellFormed memory t (add m) base len w h k l =
    Added-WellFormed memory t m base len _ w l
      (task_add_vm_mapping-Added memory t m base len h k w.0)
call-WellFormed memory t (extend m) base len w h k l =
    Grown-WellFormed t m base len _ w l (task_extend_vm_mapping-Grown t m base len h k w.0)
call-WellFormed memory t remove base len w h k l =
    Removed-WellFormed memory t base len _ w l
      (task_remove_vm_region-Removed memory t base len h k w.0)
call-WellFormed memory t (set_prot prot) base len w h k l =
    Protected-WellFormed memory prot t base len _ w l
      (task_protect_vm_region-Protected memory prot t base len h k w.0)

-- Whatever regions are added, extended, removed and protected, with the two sections of
-- task_add_or_extend_vm_mapping as calls of their own, the regions of a task are not empty, end
-- below 2^64, are writable as their protection says, and no two of them hold the same address, if
-- that holds at the start. The calls may be denied.
pub Calls-WellFormed :
    (memory : ℕ → Bool) (allowed : VmCall → ℕ → ℕ → Type 0) (t t' : VmTable)
    → WellFormed t
    → Calls memory allowed t t'
    → WellFormed t'
Calls-WellFormed memory allowed t _ w no_call = w
Calls-WellFormed memory allowed t _ w (one_more c base len s h k i l) =
    call-WellFormed memory _ c base len (Calls-WellFormed memory allowed t _ w s) h k l

-- What may be asked of an address: after calls that add or extend, nothing that depends on the offset that
-- its region records, since an extension to the front moves the base and the offset together.
abbrev pub Plain : (Attributes → Bool) → Type 0
Plain p = (x : Attributes) → p x ≡ p (forget x)

abbrev pub Sees : (Attributes → Bool) → VmCall → Type 0
Sees p (add m) = Plain p
Sees p (extend m) = Plain p
Sees p remove = Unit {0}
Sees p (set_prot prot) = Unit {0}

-- An address outside of the range, where there is always memory.
module _ (memory : ℕ → Bool) (enough : (n : ℕ) → memory n ≡ true) (p : Attributes → Bool)
    (a base len : ℕ) (out : inside base len a ≡ false) where
  Added-outside :
      (t : VmTable) (m : VmMapping) {t' : VmTable} (o : Outcome)
      → Plain p
      → Leaves o t'
      → Added memory t m base len o
      → count_at p a t'.vm_regions ≡ count_at p a t.vm_regions
  Added-outside t m {t' = t'} _ k leaves_done (g, b, free, c) =
      ground (arith, c p a, out, placed-plain p k a t.vm_regions, placed-plain p k a t'.vm_regions)
  Added-outside t m _ k leaves_denied (e, d) = ap (λ x. count_at p a x.vm_regions) e

  Grown-outside :
      (t : VmTable) (m : VmMapping) {t' : VmTable} (o : Outcome)
      → Plain p
      → Leaves o t'
      → Grown t m base len o
      → count_at p a t'.vm_regions ≡ count_at p a t.vm_regions
  Grown-outside t m {t' = t'} _ k leaves_done (b, place, by, c, d) =
      ground (arith, c p a, out, placed-plain p k a t.vm_regions, placed-plain p k a t'.vm_regions)
  Grown-outside t m _ k leaves_denied e = ap (λ x. count_at p a x.vm_regions) e

  Removed-outside :
      (t : VmTable) {t' : VmTable} (o : Outcome)
      → Leaves o t'
      → Removed memory t base len o
      → count_at p a t'.vm_regions ≡ count_at p a t.vm_regions
  Removed-outside t _ leaves_done (g, b, c) = ground (arith, c p a, out)
  Removed-outside t _ leaves_denied (inl (g, e)) = ap (λ x. count_at p a x.vm_regions) e
  Removed-outside t _ leaves_denied (inr (n, b, c)) = (c p a).1 out

  Protected-outside :
      (prot : ℕ) (t : VmTable) {t' : VmTable} (o : Outcome)
      → Leaves o t'
      → Protected memory prot t base len o
      → count_at p a t'.vm_regions ≡ count_at p a t.vm_regions
  Protected-outside prot t _ leaves_done (g, h, b, c) = ground (arith, c p a, out)
  Protected-outside prot t _ leaves_denied (inl (e, d)) = ap (λ x. count_at p a x.vm_regions) e
  Protected-outside prot t _ leaves_denied (inr (n, b, c)) =
      absurd (ground (arith, enough n.0, n.1))

  call-outside :
      (t : VmTable) (c : VmCall) {t' : VmTable}
      → AllBounded t.vm_regions
      → base < u64_mod
      → len < u64_mod
      → Sees p c
      → Leaves (call memory t c base len) t'
      → count_at p a t'.vm_regions ≡ count_at p a t.vm_regions
  call-outside t (add m) w h k q l =
      Added-outside t m _ q l (task_add_vm_mapping-Added memory t m base len h k w)
  call-outside t (extend m) w h k q l =
      Grown-outside t m _ q l (task_extend_vm_mapping-Grown t m base len h k w)
  call-outside t remove w h k q l =
      Removed-outside t _ l (task_remove_vm_region-Removed memory t base len h k w)
  call-outside t (set_prot prot) w h k q l =
      Protected-outside prot t _ l (task_protect_vm_region-Protected memory prot t base len h k w)

-- Where the allocator always has memory, no sequence of calls whose ranges leave an address out
-- changes by how many regions with given attributes it is held. Where the calls only remove and
-- protect, the attributes include the offset that is recorded for the region; where calls add or
-- extend, the claim is about all attributes but that one, which an extension to the front moves
-- together with the base. The table is well formed at the start.
pub Calls-outside :
    (memory : ℕ → Bool) (p : Attributes → Bool) (a : ℕ) (t t' : VmTable)
    → ((n : ℕ) → memory n ≡ true)
    → WellFormed t
    → Calls memory (λ c base len. (inside base len a ≡ false) × Sees p c) t t'
    → count_at p a t'.vm_regions ≡ count_at p a t.vm_regions
Calls-outside memory p a t _ enough w no_call = refl
Calls-outside memory p a t _ enough w (one_more {u = u} c base len s h k i l) =
    call-outside memory enough p a base len i.0 u c (Calls-WellFormed memory _ t u w s).0 h k i.1 l
    ∙ Calls-outside memory p a t u enough w s
