-- ===== src/Ipc/Receive.antt =====
-- kernel/ipc.c: receiving. A call that finds no message registers the thread and blocks; it goes on
-- from there once the thread runs again, with its wait as senders left it.
use bunix.Common.{
  ℕ, suc, Bool, true, false, ◌||◌, Option, none, some, List, [], ◌∷◌, ◌==◌, ltb, if◌then◌else◌,
  sub32, length, mem,
}
use bunix.Tree.Wide.{u64_tree_first_node}
use bunix.Tree.Walk.{visit}
use bunix.Tree.{Node}
use bunix.Ipc.State.{Message, Port, Ipc, modify_port, write_wait, idle_wait}
use bunix.Ipc.Send.{no_receiver}

-- `got i m`: message `m`, from the port at index `i`; `empty` is the 1 of `ipc_try_recv`.
pub data Received : Type 0 where
  got : ℕ → Message → Received
  blocked : Received
  empty : Received
  bad_call : Received

abbrev pub set_affinity : ℕ → Port → Port
set_affinity cpu port = record port { affinity_cpu = cpu; affinity_valid = true }

abbrev pub dequeue : List Message → Port → Port
dequeue rest port = record port { queue = rest; queued = sub32 port.queued 1 }

abbrev pub register : ℕ → ℕ → Port → Port
register thread index port = record port {
  receiver = some thread;
  receiver_wait = some thread;
  receiver_index = index;
}

abbrev pub queue_of : Option Port → List Message
queue_of none = []
queue_of (some port) = port.queue

-- `while (port->head == 0)` registers and blocks; a message that is there is taken.
unfoldable pub recv_queue : Ipc → ℕ → ℕ → List Message → Received × Ipc
recv_queue s thread p [] = (
  blocked,
  record (modify_port s p (register thread 0)) {
    waits = write_wait s.waits thread (record (s.waits thread) { delivered = false });
  },
)
recv_queue s thread p (m ∷ rest) = (got 0 m, modify_port s p (dequeue rest))

unfoldable pub recv_loop : Ipc → ℕ → ℕ → Received × Ipc
unfolding recv_queue
recv_loop s thread p = recv_queue s thread p (queue_of (s.ports p))

unfoldable pub ipc_recv : Ipc → ℕ → ℕ → ℕ → Received × Ipc
unfolding recv_loop
ipc_recv s cpu thread p =
    if p == 0
    then (bad_call, s)
    else recv_loop
        (modify_port (record s { waits = write_wait s.waits thread idle_wait }) p
          (set_affinity cpu))
        thread p

-- The thread runs again: it returns if a message was stored for it, and else looks once more.
unfoldable pub resume_with : Ipc → ℕ → ℕ → Bool → Option Message → Received × Ipc
unfolding recv_loop
resume_with s thread p true (some m) = (got 0 m, s)
resume_with s thread p _ _ = recv_loop s thread p

-- The rest of a blocked `ipc_recv`.
unfoldable pub recv_resume : Ipc → ℕ → ℕ → Received × Ipc
unfolding resume_with
recv_resume s thread p = resume_with s thread p (s.waits thread).delivered (s.waits thread).message

unfoldable pub try_queue : Ipc → ℕ → List Message → Received × Ipc
try_queue s p [] = (empty, s)
try_queue s p (m ∷ rest) = (got 0 m, modify_port s p (dequeue rest))

unfoldable pub ipc_try_recv : Ipc → ℕ → ℕ → Received × Ipc
unfolding try_queue
ipc_try_recv s cpu p =
    if p == 0
    then (bad_call, s)
    else let s' = modify_port s p (set_affinity cpu) in try_queue s' p (queue_of (s'.ports p))

-- The loops of `ipc_recv_any` over its ports.
unfoldable pub set_affinities : ℕ → List ℕ → Ipc → Ipc
set_affinities cpu [] s = s
set_affinities cpu (p ∷ ps) s = set_affinities cpu ps (modify_port s p (set_affinity cpu))

unfoldable pub register_all : ℕ → ℕ → List ℕ → Ipc → Ipc
register_all thread i [] s = s
register_all thread i (p ∷ ps) s =
    register_all thread (suc i) ps (modify_port s p (register thread i))

abbrev pub cancel : ℕ → Port → Port
cancel thread port = elim port.receiver [
  | none ↦ port
  | some t ↦ if t == thread then no_receiver port else port
]

unfoldable pub cancel_all : ℕ → List ℕ → Ipc → Ipc
cancel_all thread [] s = s
cancel_all thread (p ∷ ps) s = cancel_all thread ps (modify_port s p (cancel thread))

-- The first port of the list with a message; `i` is the index of the list's head.
unfoldable pub scan : Ipc → ℕ → List ℕ → Option (ℕ × ℕ × Message × List Message)
scan s i [] = none
scan s i (p ∷ ps) = elim (queue_of (s.ports p)) [
  | [] ↦ scan s (suc i) ps
  | m ∷ rest ↦ some (i, p, m, rest)
]

unfoldable pub any_found :
    Ipc → ℕ → List ℕ → Option (ℕ × ℕ × Message × List Message) → Received × Ipc
unfolding register_all
any_found s thread ps none = (blocked, register_all thread 0 ps s)
any_found s thread ps (some (i, p, m, rest)) = (got i m, modify_port s p (dequeue rest))

-- One round of `for (;;)`.
unfoldable pub recv_any_round : Ipc → ℕ → ℕ → List ℕ → Received × Ipc
unfolding set_affinities scan any_found
recv_any_round s cpu thread ps =
    let s' = set_affinities cpu ps s in any_found s' thread ps (scan s' 0 ps)

-- `IPC_RECV_ANY_MAX` ports at most, none of them null or named twice.
unfoldable pub bad_ports : List ℕ → Bool
bad_ports [] = false
bad_ports (p ∷ ps) = p == 0 || mem p ps || bad_ports ps

unfoldable pub ipc_recv_any : Ipc → ℕ → ℕ → List ℕ → Received × Ipc
unfolding bad_ports recv_any_round
ipc_recv_any s cpu thread ps =
    if length ps == 0 || ltb 4 (length ps) || bad_ports ps
    then (bad_call, s)
    else recv_any_round (record s { waits = write_wait s.waits thread idle_wait }) cpu thread ps

unfoldable pub any_resume_with : Ipc → ℕ → ℕ → List ℕ → ℕ → Bool → Option Message → Received × Ipc
unfolding recv_any_round
any_resume_with s cpu thread ps index true (some m) = (got index m, s)
any_resume_with s cpu thread ps index _ _ = recv_any_round s cpu thread ps

-- The rest of a blocked `ipc_recv_any`.
unfoldable pub recv_any_resume : Ipc → ℕ → ℕ → List ℕ → Received × Ipc
unfolding cancel_all any_resume_with
recv_any_resume s cpu thread ps =
    let s' = cancel_all thread ps s in
    let w = s'.waits thread in any_resume_with s' cpu thread ps w.index w.delivered w.message

-- The addresses of the ports, in the order of their identifiers.
unfoldable pub addresses : List (Node ℕ ℕ) → List ℕ
addresses [] = []
addresses (n ∷ ns) = n.value ∷ addresses ns

unfoldable pub ipc_cancel_thread : Ipc → ℕ → Ipc
unfolding cancel_all visit addresses
ipc_cancel_thread s thread =
    if thread == 0
    then s
    else cancel_all thread
        (addresses (visit (suc s.ports_by_id.count) (u64_tree_first_node s.ports_by_id))) s
