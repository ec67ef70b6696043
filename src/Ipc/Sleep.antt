-- ===== src/Ipc/Sleep.antt =====
-- kernel/ipc.c: receivers keep every port quiet, and so does any interleaving of the sections.
use bunix.Common.{
  ℕ, suc, ◌≡◌, ◌∙◌, refl, ap, Bool, true, Option, none, some, List, [], ◌∷◌, ◌==◌, ◌⊎◌, inl, inr,
  length, arith, Bool-cases,
}
use bunix.Ipc.State.{Message, Port, Ipc, on_port, write_port, modify_port, idle_wait, write_wait}
use bunix.Ipc.Receive.{
  set_affinity, dequeue, register, queue_of, recv_queue, recv_loop, ipc_recv, resume_with,
  try_queue, ipc_try_recv, set_affinities, register_all, scan,
}
use bunix.Ipc.Quiet.{Quiet, AllQuiet, write_port-Quiet}

pub queue_at :
    (ports : ℕ → Option Port) (p : ℕ) (port : Port) (q : List Message)
    → ports p ≡ some port
    → queue_of (ports p) ≡ q
    → port.queue ≡ q
queue_at ports p port q e h = ground (arith, ap queue_of e, h)

pub dequeue-Quiet :
    (m : Message) (rest : List Message) (port : Port)
    → port.queue ≡ m ∷ rest
    → Quiet port
    → Quiet (dequeue rest port)
dequeue-Quiet m rest port e w = record {
  asleep = ground (arith, w.asleep, e);
  counted = omega (arith, w.counted, ap length e);
}

register-Quiet :
    (thread i : ℕ) (port : Port) → port.queue ≡ [] → Quiet port → Quiet (register thread i port)
register-Quiet thread i port e w = record { asleep = inr e; counted = w.counted }

set_affinity-Quiet : (cpu : ℕ) (port : Port) → Quiet port → Quiet (set_affinity cpu port)
set_affinity-Quiet cpu port w = record { asleep = w.asleep; counted = w.counted }

recv_queue-Quiet :
    (s : Ipc) (thread p : ℕ) (q : List Message)
    → queue_of (s.ports p) ≡ q
    → AllQuiet s.ports
    → AllQuiet (recv_queue s thread p q).1.ports
unfolding recv_queue
recv_queue-Quiet s thread p [] e v =
    write_port-Quiet s.ports p (register thread 0)
      (λ port a w. register-Quiet thread 0 port (queue_at s.ports p port [] a e) w) v
recv_queue-Quiet s thread p (m ∷ rest) e v =
    write_port-Quiet s.ports p (dequeue rest)
      (λ port a w. dequeue-Quiet m rest port (queue_at s.ports p port (m ∷ rest) a e) w) v

try_queue-Quiet :
    (s : Ipc) (p : ℕ) (q : List Message)
    → queue_of (s.ports p) ≡ q
    → AllQuiet s.ports
    → AllQuiet (try_queue s p q).1.ports
unfolding try_queue
try_queue-Quiet s p [] e v = v
try_queue-Quiet s p (m ∷ rest) e v =
    write_port-Quiet s.ports p (dequeue rest)
      (λ port a w. dequeue-Quiet m rest port (queue_at s.ports p port (m ∷ rest) a e) w) v

set_affinity_all :
    (s : Ipc) (cpu p : ℕ) → AllQuiet s.ports → AllQuiet (modify_port s p (set_affinity cpu)).ports
set_affinity_all s cpu p v =
    write_port-Quiet s.ports p (set_affinity cpu) (λ port _ w. set_affinity-Quiet cpu port w) v

-- Writes that keep a port's queue keep all queues.
pub same_queues :
    (ports : ℕ → Option Port) (p : ℕ) (f : Port → Port)
    → ((port : Port) → (f port).queue ≡ port.queue)
    → (q : ℕ) → queue_of (write_port ports p f q) ≡ queue_of (ports q)
same_queues ports p f keep q = elim (Bool-cases (p == q)) [
  | inl e ↦ rw e (inside (ports q))
  | inr e ↦ rw e refl
]
  where
    inside : (o : Option Port) → queue_of (on_port f o) ≡ queue_of o
    inside none = refl
    inside (some port) = keep port

recv_loop-Quiet :
    (s : Ipc) (thread p : ℕ) → AllQuiet s.ports → AllQuiet (recv_loop s thread p).1.ports
unfolding recv_loop
recv_loop-Quiet s thread p v = recv_queue-Quiet s thread p (queue_of (s.ports p)) refl v

pub ipc_recv-Quiet :
    (s : Ipc) (cpu thread p : ℕ) → AllQuiet s.ports → AllQuiet (ipc_recv s cpu thread p).1.ports
unfolding ipc_recv
ipc_recv-Quiet s cpu thread p v = elim (Bool-cases (p == 0)) [
  | inl e ↦ rw e v
  | inr e ↦ rw e (
      recv_loop-Quiet
        (modify_port (record s { waits = write_wait s.waits thread idle_wait }) p
          (set_affinity cpu))
        thread p (set_affinity_all s cpu p v))
]

pub resume_with-Quiet :
    (s : Ipc) (thread p : ℕ) (d : Bool) (m : Option Message)
    → AllQuiet s.ports
    → AllQuiet (resume_with s thread p d m).1.ports
unfolding resume_with
resume_with-Quiet s thread p true (some m) v = v
resume_with-Quiet s thread p _ _ v = recv_loop-Quiet s thread p v

pub ipc_try_recv-Quiet :
    (s : Ipc) (cpu p : ℕ) → AllQuiet s.ports → AllQuiet (ipc_try_recv s cpu p).1.ports
unfolding ipc_try_recv
ipc_try_recv-Quiet s cpu p v = elim (Bool-cases (p == 0)) [
  | inl e ↦ rw e v
  | inr e ↦ rw e (
      let s' = modify_port s p (set_affinity cpu) in
      try_queue-Quiet s' p (queue_of (s'.ports p)) refl (set_affinity_all s cpu p v))
]

pub set_affinities-Quiet :
    (cpu : ℕ) (ps : List ℕ) (s : Ipc) → AllQuiet s.ports → AllQuiet (set_affinities cpu ps s).ports
unfolding set_affinities
set_affinities-Quiet cpu [] s v = v
set_affinities-Quiet cpu (p ∷ ps) s v =
    set_affinities-Quiet cpu ps (modify_port s p (set_affinity cpu)) (set_affinity_all s cpu p v)

-- All ports of a list have empty queues.
abbrev pub AllEmpty : (ℕ → Option Port) → List ℕ → Type 0
AllEmpty ports [] = Unit {0}
AllEmpty ports (p ∷ ps) = (queue_of (ports p) ≡ []) × AllEmpty ports ps

AllEmpty-write :
    (ports : ℕ → Option Port) (p : ℕ) (f : Port → Port) (ps : List ℕ)
    → ((port : Port) → (f port).queue ≡ port.queue)
    → AllEmpty ports ps
    → AllEmpty (write_port ports p f) ps
AllEmpty-write ports p f [] keep a = tt
AllEmpty-write ports p f (q ∷ ps) keep a =
    (same_queues ports p f keep q ∙ a.0, AllEmpty-write ports p f ps keep a.1)

pub register_all-Quiet :
    (thread i : ℕ) (ps : List ℕ) (s : Ipc)
    → AllEmpty s.ports ps
    → AllQuiet s.ports
    → AllQuiet (register_all thread i ps s).ports
unfolding register_all
register_all-Quiet thread i [] s a v = v
register_all-Quiet thread i (p ∷ ps) s a v =
    register_all-Quiet thread (suc i) ps (modify_port s p (register thread i))
      (AllEmpty-write s.ports p (register thread i) ps (λ _. refl) a.1)
      (write_port-Quiet s.ports p (register thread i)
        (λ port e w. register-Quiet thread i port (queue_at s.ports p port [] e a.0) w) v)

List-cases :
    (q : List Message) → (q ≡ []) ⊎ ((m : Message) × (rest : List Message) × (q ≡ m ∷ rest))
List-cases [] = inl refl
List-cases (m ∷ rest) = inr (m, rest, refl)

-- What the scan of the ports says.
abbrev pub Scanned : Ipc → List ℕ → Option (ℕ × ℕ × Message × List Message) → Type 0
Scanned s ps none = AllEmpty s.ports ps
Scanned s ps (some (i, p, m, rest)) = queue_of (s.ports p) ≡ m ∷ rest

pub scan-Scanned : (s : Ipc) (i : ℕ) (ps : List ℕ) → Scanned s ps (scan s i ps)
unfolding scan
scan-Scanned s i [] = tt
scan-Scanned s i (p ∷ ps) = elim (List-cases (queue_of (s.ports p))) [
  | inl e ↦ rw (e, scan) (weaken p (scan s (suc i) ps) e (scan-Scanned s (suc i) ps))
  | inr (m, rest, e) ↦ rw (e, scan) e
]
  where
    weaken :
        (p : ℕ) (r : Option (ℕ × ℕ × Message × List Message))
        → queue_of (s.ports p) ≡ []
        → Scanned s ps r
        → Scanned s (p ∷ ps) r
    weaken p none e a = (e, a)
    weaken p (some (i, q, m, rest)) e a = a
