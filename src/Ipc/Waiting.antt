-- ===== src/Ipc/Waiting.antt =====
-- kernel/ipc.c: a thread that is asleep in `ipc_recv` is woken by the next send to its port.
use bunix.Common.{ℕ, ◌≡◌, Option, none, some, ◌==◌, if◌then◌else◌}
use bunix.Ipc.State.{Message, Port, Ipc}
use bunix.Ipc.Send.{send_direct, send_queue, receiver_of}
use bunix.Ipc.Receive.{blocked, ipc_recv, recv_resume}
use bunix.Ipc.Interleave.{Step, Reach}

-- Who is still asleep after a section that woke `w`.
abbrev pub still_asleep : Option ℕ → Option ℕ → Option ℕ
still_asleep none w = none
still_asleep (some t) none = some t
still_asleep (some t) (some w) = if t == w then none else some t

-- Runs of sections from `s`, with the thread that is asleep in `ipc_recv` on the port `p`. A thread
-- falls asleep only where no other one is; the sections other than sends to the port leave the
-- receiver registered there.
pub data Waiting (p : ℕ) (s : Ipc) : Option ℕ → Ipc → Type 0 where
  nobody : {u : Ipc} → Reach s u → Waiting p s none u
  falls_asleep :
      {u : Ipc} (cpu thread : ℕ) (port : Port)
      → u.ports p ≡ some port
      → (ipc_recv u cpu thread p).0 ≡ blocked
      → Waiting p s none u
      → Waiting p s (some thread) (ipc_recv u cpu thread p).1
  sleeps_again :
      {u : Ipc} (thread : ℕ) (port : Port)
      → u.ports p ≡ some port
      → (recv_resume u thread p).0 ≡ blocked
      → Waiting p s none u
      → Waiting p s (some thread) (recv_resume u thread p).1
  direct_send :
      {a : Option ℕ} {u : Ipc} (cpu : ℕ) (m : Message)
      → Waiting p s a u
      → Waiting p s (still_asleep a (send_direct u cpu p m).0) (send_direct u cpu p m).1
  queued_send :
      {a : Option ℕ} {u : Ipc} (cpu : ℕ) (m : Message)
      → Waiting p s a u
      → Waiting p s (still_asleep a (send_queue u cpu p m).0) (send_queue u cpu p m).1
  another :
      {a : Option ℕ} {u v : Ipc}
      → Step u v
      → receiver_of (v.ports p) ≡ receiver_of (u.ports p)
      → Waiting p s a u
      → Waiting p s a v

-- The thread that is asleep, if any, is the registered receiver.
abbrev Registered : Option ℕ → Option ℕ → Type 0
Registered none r = Unit {0}
Registered (some t) r = r ≡ some t
