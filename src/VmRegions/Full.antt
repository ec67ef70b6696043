-- ===== src/VmRegions/Full.antt =====
-- kernel/sched.c: `task_protect_vm_region` with a table that is full and cannot grow.
use bunix.Common.{ℕ, ◌+◌, ◌-◌, List, length}
use bunix.VmRegions.{VmRegion, VmTable}

abbrev pub front_lost : ℕ → VmRegion → VmRegion
front_lost len r = record r { base = r.base + len; len = r.len - len }

-- A table without a free entry.
abbrev pub full_table : List VmRegion → VmTable
full_table rs = record { vm_regions = rs; vm_region_capacity = length rs }
