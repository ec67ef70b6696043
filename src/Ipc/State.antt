-- ===== src/Ipc/State.antt =====
-- kernel/ipc.h and the data of kernel/ipc.c.
use bunix.Common.{
  ℕ, Bool, false, Option, none, some, List, ◌==◌, if◌then◌else◌, modify, replicate, add64,
}
use bunix.Tree.Names.{CString, NameTree}
use bunix.Tree.Wide.{U64Tree}

pub data CapType : Type 0 where
  no_cap port_cap buffer_cap task_cap hw_resource_cap sched_policy_cap : CapType

-- Pointers are numbers, 0 the null pointer.
pub record Message : Type 0 where
  pub protocol : ℕ
  pub type : ℕ
  pub sender : ℕ
  pub cap_rights : ℕ
  pub reply_port : ℕ
  pub cap_type : CapType
  pub cap_object : ℕ
  pub words : List ℕ

-- `message` is what the sender stored through the pointer in `struct ipc_wait`.
pub record Wait : Type 0 where
  pub message : Option Message
  pub index : ℕ
  pub delivered : Bool

-- `queue` is the chain from `head` to `tail`. `id_linked` and `name_linked` say whether the port's
-- nodes are in the two trees, which the source reads off `value != 0`.
pub record Port : Type 0 where
  pub name : CString
  pub id : ℕ
  pub id_linked : Bool
  pub name_linked : Bool
  pub ref_count : ℕ
  pub immortal : Bool
  pub queue : List Message
  pub receiver : Option ℕ
  pub receiver_wait : Option ℕ
  pub receiver_index : ℕ
  pub affinity_cpu : ℕ
  pub affinity_valid : Bool
  pub queued : ℕ

-- A counter of `struct ipc_stats` with its `IPC_STATS_CPUS` counters for single processors.
pub record Counter : Type 0 where
  pub total : ℕ
  pub per_cpu : List ℕ

pub record Stats : Type 0 where
  pub sends : Counter
  pub queued : Counter
  pub direct_delivered : Counter
  pub direct_handoff : Counter
  pub fallback_cross_cpu : Counter
  pub fallback_nested : Counter
  pub fallback_scheduler : Counter
  pub fallback_invalid : Counter

abbrev pub bump : ℕ → Counter → Counter
bump cpu c = record { total = add64 c.total 1; per_cpu = modify c.per_cpu cpu (λ n. add64 n 1) }

abbrev pub zero_counter : Counter
zero_counter = record { total = 0; per_cpu = replicate 8 0 }

abbrev pub zero_stats : Stats
zero_stats = record {
  sends = zero_counter;
  queued = zero_counter;
  direct_delivered = zero_counter;
  direct_handoff = zero_counter;
  fallback_cross_cpu = zero_counter;
  fallback_nested = zero_counter;
  fallback_scheduler = zero_counter;
  fallback_invalid = zero_counter;
}

-- `object_refs` counts the references held on objects that are no ports: buffers, tasks, hardware
-- resources and scheduling policies, by their kind and address.
pub record Ipc : Type 0 where
  pub ports : ℕ → Option Port
  pub waits : ℕ → Wait
  pub object_refs : CapType → ℕ → ℕ
  pub ports_by_name : NameTree
  pub ports_by_id : U64Tree
  pub next_port_id : ℕ
  pub stats : Stats

-- A write through a port pointer.
abbrev pub on_port : (Port → Port) → Option Port → Option Port
on_port f none = none
on_port f (some port) = some (f port)

abbrev pub write_port : (ℕ → Option Port) → ℕ → (Port → Port) → ℕ → Option Port
write_port ports p f q = if p == q then on_port f (ports q) else ports q

abbrev pub modify_port : Ipc → ℕ → (Port → Port) → Ipc
modify_port s p f = record s { ports = write_port s.ports p f }

abbrev pub idle_wait : Wait
idle_wait = record { message = none; index = 0; delivered = false }

abbrev pub write_wait : (ℕ → Wait) → ℕ → Wait → ℕ → Wait
write_wait waits t w u = if t == u then w else waits u
