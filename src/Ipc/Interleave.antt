-- ===== src/Ipc/Interleave.antt =====
-- kernel/ipc.c: any interleaving of the sections that processors run under `ipc_lock`.
use bunix.Common.{
  ℕ, suc, Bool, true, ◌||◌, Option, none, some, List, [], ◌∷◌, ◌==◌, inl, inr, length, arith,
  Bool-cases, Option-cases, ltb,
}
use bunix.Tree.Names.{CString}
use bunix.Tree.Walk.{visit}
use bunix.Tree.Wide.{u64_tree_first_node}
use bunix.Ipc.State.{Message, Port, Ipc, modify_port, idle_wait, write_wait}
use bunix.Ipc.Lifecycle.{
  ipc_port_retain, ipc_port_release, ipc_message_retain, ipc_message_release, ipc_port_alloc,
}
use bunix.Ipc.Send.{Handoff, send_direct, send_queue, count_handoff}
use bunix.Ipc.Receive.{
  dequeue, ipc_recv, recv_resume, ipc_try_recv, set_affinities, cancel, cancel_all, scan, any_found,
  recv_any_round, bad_ports, ipc_recv_any, any_resume_with, recv_any_resume, ipc_cancel_thread,
  addresses,
}
use bunix.Ipc.Quiet.{
  Quiet, AllQuiet, write_port-Quiet, ipc_port_retain-Quiet, ipc_port_release-Quiet,
  no_receiver-Quiet, send_direct-Quiet, send_queue-Quiet, count_handoff-Quiet,
  ipc_message_retain-Quiet, ipc_message_release-Quiet, ipc_port_alloc-Quiet,
}
use bunix.Ipc.Sleep.{
  queue_at, dequeue-Quiet, ipc_recv-Quiet, resume_with-Quiet, ipc_try_recv-Quiet,
  set_affinities-Quiet, register_all-Quiet, Scanned, scan-Scanned,
}

any_found-Quiet :
    (s : Ipc) (thread : ℕ) (ps : List ℕ) (r : Option (ℕ × ℕ × Message × List Message))
    → Scanned s ps r
    → AllQuiet s.ports
    → AllQuiet (any_found s thread ps r).1.ports
unfolding any_found
any_found-Quiet s thread ps none a v = register_all-Quiet thread 0 ps s a v
any_found-Quiet s thread ps (some (i, p, m, rest)) e v =
    write_port-Quiet s.ports p (dequeue rest)
      (λ port at w. dequeue-Quiet m rest port (queue_at s.ports p port (m ∷ rest) at e) w) v

recv_any_round-Quiet :
    (s : Ipc) (cpu thread : ℕ) (ps : List ℕ)
    → AllQuiet s.ports
    → AllQuiet (recv_any_round s cpu thread ps).1.ports
unfolding recv_any_round
recv_any_round-Quiet s cpu thread ps v =
    let s' = set_affinities cpu ps s in
    any_found-Quiet s' thread ps (scan s' 0 ps) (scan-Scanned s' 0 ps)
      (set_affinities-Quiet cpu ps s v)

ipc_recv_any-Quiet :
    (s : Ipc) (cpu thread : ℕ) (ps : List ℕ)
    → AllQuiet s.ports
    → AllQuiet (ipc_recv_any s cpu thread ps).1.ports
unfolding ipc_recv_any
ipc_recv_any-Quiet s cpu thread ps v =
    elim (Bool-cases (length ps == 0 || ltb 4 (length ps) || bad_ports ps)) [
      | inl e ↦ rw e v
      | inr e ↦ rw e (
          recv_any_round-Quiet (record s { waits = write_wait s.waits thread idle_wait }) cpu thread
            ps v)
    ]

cancel-Quiet : (thread : ℕ) (port : Port) → Quiet port → Quiet (cancel thread port)
cancel-Quiet thread port w = elim (Option-cases port.receiver) [
  | inl e ↦ ground (arith, w, e)
  | inr (t, e) ↦ ground (arith, w, e, no_receiver-Quiet port w)
]

cancel_all-Quiet :
    (thread : ℕ) (ps : List ℕ) (s : Ipc)
    → AllQuiet s.ports
    → AllQuiet (cancel_all thread ps s).ports
unfolding cancel_all
cancel_all-Quiet thread [] s v = v
cancel_all-Quiet thread (p ∷ ps) s v =
    cancel_all-Quiet thread ps (modify_port s p (cancel thread))
      (write_port-Quiet s.ports p (cancel thread) (λ port _ w. cancel-Quiet thread port w) v)

any_resume_with-Quiet :
    (s : Ipc) (cpu thread : ℕ) (ps : List ℕ) (i : ℕ) (d : Bool) (m : Option Message)
    → AllQuiet s.ports
    → AllQuiet (any_resume_with s cpu thread ps i d m).1.ports
unfolding any_resume_with
any_resume_with-Quiet s cpu thread ps i true (some m) v = v
any_resume_with-Quiet s cpu thread ps i _ _ v = recv_any_round-Quiet s cpu thread ps v

recv_any_resume-Quiet :
    (s : Ipc) (cpu thread : ℕ) (ps : List ℕ)
    → AllQuiet s.ports
    → AllQuiet (recv_any_resume s cpu thread ps).1.ports
unfolding recv_any_resume
recv_any_resume-Quiet s cpu thread ps v =
    let s' = cancel_all thread ps s in
    let w = s'.waits thread in
    any_resume_with-Quiet s' cpu thread ps w.index w.delivered w.message
      (cancel_all-Quiet thread ps s v)

ipc_cancel_thread-Quiet :
    (s : Ipc) (thread : ℕ) → AllQuiet s.ports → AllQuiet (ipc_cancel_thread s thread).ports
unfolding ipc_cancel_thread
ipc_cancel_thread-Quiet s thread v = elim (Bool-cases (thread == 0)) [
  | inl e ↦ rw e v
  | inr e ↦ rw e (
      cancel_all-Quiet thread
        (addresses (visit (suc s.ports_by_id.count) (u64_tree_first_node s.ports_by_id))) s v)
]

-- One section, run by any processor.
pub data Step (s : Ipc) : Ipc → Type 0 where
  creates :
      (name : CString) (reuse_named : Bool) (memory : Option ℕ)
      → Step s (ipc_port_alloc s name reuse_named memory).1
  retains : (p : ℕ) → Step s (ipc_port_retain s p)
  releases : (p : ℕ) → Step s (ipc_port_release s p)
  message_retains : (m : Message) → Step s (ipc_message_retain s m)
  message_releases : (m : Message) → Step s (ipc_message_release s m)
  sends_direct : (cpu p : ℕ) (m : Message) → Step s (send_direct s cpu p m).1
  counts : (cpu : ℕ) (handoff : Handoff) → Step s (count_handoff s cpu handoff)
  queues : (cpu p : ℕ) (m : Message) → Step s (send_queue s cpu p m).1
  receives : (cpu thread p : ℕ) → Step s (ipc_recv s cpu thread p).1
  resumes : (thread p : ℕ) → Step s (recv_resume s thread p).1
  tries : (cpu p : ℕ) → Step s (ipc_try_recv s cpu p).1
  receives_any : (cpu thread : ℕ) (ps : List ℕ) → Step s (ipc_recv_any s cpu thread ps).1
  resumes_any : (cpu thread : ℕ) (ps : List ℕ) → Step s (recv_any_resume s cpu thread ps).1
  cancels : (thread : ℕ) → Step s (ipc_cancel_thread s thread)

pub data Reach (s : Ipc) : Ipc → Type 0 where
  here : Reach s s
  next : {t u : Ipc} → Reach s t → Step t u → Reach s u

Step-Quiet : (s t : Ipc) → Step s t → AllQuiet s.ports → AllQuiet t.ports
unfolding recv_resume
Step-Quiet s t (creates name b memory) v = ipc_port_alloc-Quiet s name b memory v
Step-Quiet s t (retains p) v = ipc_port_retain-Quiet s p v
Step-Quiet s t (releases p) v = ipc_port_release-Quiet s p v
Step-Quiet s t (message_retains m) v = ipc_message_retain-Quiet s m v
Step-Quiet s t (message_releases m) v = ipc_message_release-Quiet s m v
Step-Quiet s t (sends_direct cpu p m) v = send_direct-Quiet s cpu p m v
Step-Quiet s t (counts cpu handoff) v = count_handoff-Quiet s cpu handoff v
Step-Quiet s t (queues cpu p m) v = send_queue-Quiet s cpu p m v
Step-Quiet s t (receives cpu thread p) v = ipc_recv-Quiet s cpu thread p v
Step-Quiet s t (resumes thread p) v =
    resume_with-Quiet s thread p (s.waits thread).delivered (s.waits thread).message v
Step-Quiet s t (tries cpu p) v = ipc_try_recv-Quiet s cpu p v
Step-Quiet s t (receives_any cpu thread ps) v = ipc_recv_any-Quiet s cpu thread ps v
Step-Quiet s t (resumes_any cpu thread ps) v = recv_any_resume-Quiet s cpu thread ps v
Step-Quiet s t (cancels thread) v = ipc_cancel_thread-Quiet s thread v

-- However the sections that run under ipc_lock interleave, no thread is left asleep on a port that
-- has a message queued, and every port's counter is the length of its queue modulo 2^32, if that
-- holds at the start.
pub Reach-Quiet : (s t : Ipc) → Reach s t → AllQuiet s.ports → AllQuiet t.ports
Reach-Quiet s t here v = v
Reach-Quiet s t (next {t = u} r st) v = Step-Quiet u t st (Reach-Quiet s u r v)
