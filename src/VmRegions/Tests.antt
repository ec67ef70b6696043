-- ===== src/VmRegions/Tests.antt =====
-- kernel/sched.c: the theorems at concrete tables of memory regions.
use bunix.Common.{
  ℕ, zero, suc, ◌+◌, ◌<◌, ◌≡◌, ◌↔◌, refl, Bool, true, false, List, [], ◌∷◌, if◌then◌else◌, arith,
}
use bunix.VmRegions.{
  VmRegion, VmTable, Outcome, done, task_remove_vm_region, task_protect_vm_region,
  task_vm_range_is_covered,
}
use bunix.VmRegions.Count.{inside, count_at, anything, Bounded, AllBounded}
use bunix.VmRegions.Remove.{Removed, task_remove_vm_region-Removed}
use bunix.VmRegions.Cover.{Covered, task_vm_range_is_covered-Covered}
use bunix.VmRegions.Protected.{Protected, task_protect_vm_region-Protected}
use bunix.VmRegions.Add.{
  region_mapping, task_extend_vm_mapping, task_add_vm_mapping, task_add_or_extend_vm_mapping,
  task_vm_range_is_free, task_vm_fault_is_file_backed,
}
use bunix.VmRegions.Added.{Added, Free, task_add_vm_mapping-Added, task_vm_range_is_free-Free}
use bunix.VmRegions.Extended.{
  Extended, is_file, task_add_or_extend_vm_mapping-Extended, task_vm_fault_is_file_backed_lem,
}
use bunix.VmRegions.Calls.{
  add, extend, remove, set_prot, leaves_done, Sees, Calls, no_call, one_more, WellFormed,
  Calls-WellFormed, Calls-outside,
}

-- An image of four pages, and a stack of two.
abbrev image : VmRegion
image = record {
  base = 4096;
  len = 16384;
  offset = 0;
  writable = false;
  kind = 1;
  prot = 5;
  flags = 1;
  object_type = 2;
  object_id = 7;
}

abbrev stack : VmRegion
stack = record {
  base = 32768;
  len = 8192;
  offset = 0;
  writable = true;
  kind = 2;
  prot = 3;
  flags = 3;
  object_type = 1;
  object_id = 0;
}

abbrev two_regions : VmTable
two_regions = record { vm_regions = image ∷ stack ∷ []; vm_region_capacity = 2 }

abbrev no_regions : VmTable
no_regions = record { vm_regions = []; vm_region_capacity = 0 }

abbrev always : ℕ → Bool
always n = true

abbrev never : ℕ → Bool
never n = false

image-Bounded : Bounded image
image-Bounded = record { not_empty = omega arith; in_space = omega arith; follows_prot = refl }

two_regions-AllBounded : AllBounded two_regions.vm_regions
two_regions-AllBounded = (
  image-Bounded,
  (record { not_empty = omega arith; in_space = omega arith; follows_prot = refl }, tt),
)

-- The second page of the image goes.
task_remove_vm_region-Removed_example :
    Removed always two_regions 8192 4096 (task_remove_vm_region always two_regions 8192 4096)
task_remove_vm_region-Removed_example =
    task_remove_vm_region-Removed always two_regions 8192 4096 (omega arith) (omega arith)
      two_regions-AllBounded

task_vm_range_is_covered-Covered_example :
    Covered two_regions.vm_regions 8192 12288
      (task_vm_range_is_covered two_regions.vm_regions 8192 4096)
task_vm_range_is_covered-Covered_example =
    task_vm_range_is_covered-Covered two_regions.vm_regions 8192 4096 (omega arith)
      two_regions-AllBounded

task_protect_vm_region-Protected_example :
    Protected always 3 two_regions 8192 4096 (task_protect_vm_region always two_regions 8192 4096 3)
task_protect_vm_region-Protected_example =
    task_protect_vm_region-Protected always 3 two_regions 8192 4096 (omega arith) (omega arith)
      two_regions-AllBounded

-- The stack grows at its end.
task_add_vm_mapping-Added_example :
    Added never two_regions
      (region_mapping true 2)
      40960
      4096
      (task_add_vm_mapping never two_regions (region_mapping true 2) 40960 4096)
task_add_vm_mapping-Added_example =
    task_add_vm_mapping-Added never two_regions (region_mapping true 2) 40960 4096 (omega arith)
      (omega arith) two_regions-AllBounded

-- The stack grows at both ends.
task_add_or_extend_vm_mapping-Extended_example :
    Extended never two_regions
      (region_mapping true 2)
      28672
      16384
      (task_add_or_extend_vm_mapping never two_regions (region_mapping true 2) 28672 16384)
task_add_or_extend_vm_mapping-Extended_example =
    task_add_or_extend_vm_mapping-Extended never two_regions (region_mapping true 2) 28672 16384
      (omega arith) (omega arith) two_regions-AllBounded

task_vm_range_is_free-Free_example :
    Free two_regions.vm_regions 20480 4096 (task_vm_range_is_free two_regions.vm_regions 20480 4096)
task_vm_range_is_free-Free_example =
    task_vm_range_is_free-Free two_regions.vm_regions 20480 4096 (omega arith) (omega arith)
      two_regions-AllBounded

task_vm_fault_is_file_backed_lem_example :
    (task_vm_fault_is_file_backed two_regions.vm_regions 5000 ≡ true)
    ↔ (0 < count_at is_file 4096 two_regions.vm_regions)
task_vm_fault_is_file_backed_lem_example =
    task_vm_fault_is_file_backed_lem two_regions.vm_regions 5000 two_regions-AllBounded

abbrev stack_at : ℕ → ℕ → Bool → VmRegion
stack_at base len writable = record {
  base = base;
  len = len;
  offset = 0;
  writable = writable;
  kind = 2;
  prot = if writable then 3 else 1;
  flags = 3;
  object_type = 1;
  object_id = 0;
}

-- The first 32 entries are an image and 31 pages that do not touch.
abbrev pages_from : ℕ → ℕ → List VmRegion
pages_from zero at = []
pages_from (suc n) at = stack_at at 4096 true ∷ pages_from n (at + 8192)

abbrev table_of : List VmRegion → VmTable
table_of rs = record { vm_regions = rs; vm_region_capacity = 32 }

-- A stack, more of it, a change of its last page, and the first page taken out.
sample_run :
    Calls always
      (λ c base len. (inside base len 32768 ≡ false) × Sees anything c)
      no_regions
      (table_of (stack_at 8192 4096 true ∷ stack_at 12288 4096 false ∷ []))
unfolding task_add_vm_mapping task_extend_vm_mapping task_remove_vm_region task_protect_vm_region
    bunix.VmRegions.part_of
sample_run =
    one_more {u = table_of (stack_at 4096 8192 true ∷ stack_at 12288 4096 false ∷ [])} remove 4096
      4096
      (one_more {u = table_of (stack_at 4096 12288 true ∷ [])} (set_prot 1) 12288 4096
        (one_more {u = table_of (stack_at 4096 8192 true ∷ [])} (extend (region_mapping true 2))
          8192 8192
          (one_more {u = no_regions} (add (region_mapping true 2)) 4096 8192 no_call (omega arith)
            (omega arith) (refl, λ x. refl) leaves_done)
          (omega arith) (omega arith) (refl, λ x. refl) leaves_done)
        (omega arith) (omega arith) (refl, tt) leaves_done)
      (omega arith) (omega arith) (refl, tt) leaves_done

Calls-WellFormed_example :
    WellFormed (table_of (stack_at 8192 4096 true ∷ stack_at 12288 4096 false ∷ []))
Calls-WellFormed_example =
    Calls-WellFormed always (λ c base len. (inside base len 32768 ≡ false) × Sees anything c)
      no_regions (table_of (stack_at 8192 4096 true ∷ stack_at 12288 4096 false ∷ []))
      (tt, λ a. omega arith) sample_run

Calls-outside_example :
    count_at anything 32768 (stack_at 8192 4096 true ∷ stack_at 12288 4096 false ∷ [])
    ≡ count_at anything 32768 []
Calls-outside_example =
    Calls-outside always anything 32768 no_regions
      (table_of (stack_at 8192 4096 true ∷ stack_at 12288 4096 false ∷ [])) (λ n. refl)
      (tt, λ a. omega arith) sample_run
