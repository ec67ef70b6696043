-- ===== src/Ipc/Order.antt =====
-- kernel/ipc.c: the messages of a port are taken in the order in which they were accepted, whether
-- they were queued or stored for a waiting thread at once.
use mathlib.Core.List.{append_assoc, append-nil}
use bunix.Common.{
  ℕ, Bool, true, false, ◌≡◌, ◌∙◌, sym, refl, ap, Option, none, some, List, [], ◌∷◌, ◌++◌, ◌==◌, inl,
  inr, arith, Bool-cases, ==_self,
}
use bunix.Ipc.State.{
  Message, Wait, Port, Ipc, on_port, write_port, modify_port, idle_wait, write_wait,
}
use bunix.Ipc.Send.{ready, deliver, send_to, send_direct, send_queue, enqueue, no_receiver}
use bunix.Ipc.Receive.{
  Received, got, blocked, empty, bad_call, queue_of, dequeue, register, set_affinity, recv_queue,
  recv_loop, ipc_recv, resume_with, recv_resume, try_queue, ipc_try_recv,
}
use bunix.Ipc.Sleep.{same_queues}

pub at_self :
    (ports : ℕ → Option Port) (p : ℕ) (f : Port → Port)
    → write_port ports p f p ≡ on_port f (ports p)
at_self ports p f = rw (==_self p) refl

queue-on_port :
    (o : Option Port) (m : Message) (rest : List Message)
    → queue_of o ≡ m ∷ rest
    → queue_of (on_port (dequeue rest) o) ≡ rest
queue-on_port none m rest e = ground arith
queue-on_port (some port) m rest e = refl

-- The first section passes a message on only to a thread and wait that are registered, and only where
-- no message is queued.
pub ready-registered :
    (waits : ℕ → Wait) (r w : Option ℕ) (q : List Message) (x : ℕ × ℕ)
    → ready waits r w q ≡ some x
    → (r ≡ some x.0) × (w ≡ some x.1) × (q ≡ [])
unfolding ready
ready-registered waits (some t) (some w) [] x e = elim (Bool-cases (waits w).delivered) [
  | inl d ↦ ground (arith, d, e)
  | inr d ↦
      let f : some (t, w) ≡ some x = rw d at e in
      (
        ap (λ o. elim o [ none ↦ none | some y ↦ some y.0 ]) f,
        ap (λ o. elim o [ none ↦ none | some y ↦ some y.1 ]) f,
        refl,
      )
]
ready-registered waits (some t) (some w) (m ∷ q) x e = ground arith
ready-registered waits (some t) none q x e = ground arith
ready-registered waits none w q x e = ground arith

abbrev pub wait_of : Option Port → Option ℕ
wait_of none = none
wait_of (some port) = port.receiver_wait

-- What a wait holds.
abbrev pub stored : Option ℕ → Ipc → List Message
stored none s = []
stored (some w) s = elim (s.waits w).message [ none ↦ [] | some m ↦ m ∷ [] ]

-- A message is stored for the registered wait, where the queue is empty, and stays off the queue.
abbrev Stored : ℕ → Message → Option Port → Ipc → Ipc → Type 0
Stored p m o s t =
    (queue_of o ≡ [])
    × (queue_of (t.ports p) ≡ queue_of (s.ports p))
    × (stored (wait_of o) t ≡ m ∷ [])

deliver_lem :
    (s : Ipc) (cpu p : ℕ) (m : Message) (port : Port) (x : Option (ℕ × ℕ)) (thread : ℕ)
    → ready s.waits port.receiver port.receiver_wait port.queue ≡ x
    → (deliver s cpu p m port x).0 ≡ some thread
    → Stored p m (some port) s (deliver s cpu p m port x).1
unfolding deliver
deliver_lem s cpu p m port none thread r e = ground arith
deliver_lem s cpu p m port (some x) thread r e =
    let (_, w, q) = ready-registered s.waits port.receiver port.receiver_wait port.queue x r in
    (
      q,
      same_queues s.ports p no_receiver (λ _. refl) p,
      ap (λ o. stored o (deliver s cpu p m port (some x)).1) w ∙ rw (==_self x.1, stored) refl,
    )

send_to_lem :
    (s : Ipc) (cpu p : ℕ) (m : Message) (o : Option Port) (thread : ℕ)
    → (send_to s cpu p m o).0 ≡ some thread
    → Stored p m o s (send_to s cpu p m o).1
unfolding send_to
send_to_lem s cpu p m none thread e = ground arith
send_to_lem s cpu p m (some port) thread e = deliver_lem s cpu p m port _ thread refl e

send_direct_lem :
    (s : Ipc) (cpu p : ℕ) (m : Message) (thread : ℕ)
    → (send_direct s cpu p m).0 ≡ some thread
    → Stored p m (s.ports p) s (send_direct s cpu p m).1
unfolding send_direct
send_direct_lem s cpu p m thread e = send_to_lem _ cpu p m (s.ports p) thread e

send_queue_lem :
    (s : Ipc) (cpu p : ℕ) (m : Message) (port : Port)
    → s.ports p ≡ some port
    → queue_of ((send_queue s cpu p m).1.ports p) ≡ queue_of (s.ports p) ++ (m ∷ [])
unfolding send_queue
send_queue_lem s cpu p m port at = ap queue_of (at_self s.ports p (enqueue m)) ∙ rw at refl

-- What a receiving section did to the queue.
abbrev pub Took : List Message → Received × Ipc → ℕ → Type 0
Took before (got i m, s) p = (before ≡ m ∷ queue_of (s.ports p))
Took before (blocked, s) p = (before ≡ []) × (queue_of (s.ports p) ≡ before)
Took before (empty, s) p = (before ≡ []) × (queue_of (s.ports p) ≡ before)
Took before (bad_call, s) p = queue_of (s.ports p) ≡ before

recv_queue-Took :
    (s : Ipc) (thread p : ℕ) (q : List Message)
    → queue_of (s.ports p) ≡ q
    → Took q (recv_queue s thread p q) p
unfolding recv_queue
recv_queue-Took s thread p [] e =
    (refl, same_queues s.ports p (register thread 0) (λ _. refl) p ∙ e)
recv_queue-Took s thread p (m ∷ rest) e =
    ap (◌∷◌ m)
      (sym (ap queue_of (at_self s.ports p (dequeue rest)) ∙ queue-on_port (s.ports p) m rest e))

try_queue-Took :
    (s : Ipc) (p : ℕ) (q : List Message) → queue_of (s.ports p) ≡ q → Took q (try_queue s p q) p
unfolding try_queue
try_queue-Took s p [] e = (refl, e)
try_queue-Took s p (m ∷ rest) e =
    ap (◌∷◌ m)
      (sym (ap queue_of (at_self s.ports p (dequeue rest)) ∙ queue-on_port (s.ports p) m rest e))

-- `ipc_recv` takes the oldest message, and blocks only where there is none.
pub ipc_recv-Took :
    (s : Ipc) (cpu thread p : ℕ) → Took (queue_of (s.ports p)) (ipc_recv s cpu thread p) p
unfolding ipc_recv recv_loop
ipc_recv-Took s cpu thread p = elim (Bool-cases (p == 0)) [
  | inl e ↦ rw e refl
  | inr e ↦ rw e (
      let s' =
        modify_port (record s { waits = write_wait s.waits thread idle_wait }) p
          (set_affinity cpu) in
      rw (← same_queues s.ports p (set_affinity cpu) (λ _. refl) p)
        (recv_queue-Took s' thread p (queue_of (s'.ports p)) refl))
]

pub ipc_try_recv-Took : (s : Ipc) (cpu p : ℕ) → Took (queue_of (s.ports p)) (ipc_try_recv s cpu p) p
unfolding ipc_try_recv
ipc_try_recv-Took s cpu p = elim (Bool-cases (p == 0)) [
  | inl e ↦ rw e refl
  | inr e ↦ rw e (
      let s' = modify_port s p (set_affinity cpu) in
      rw (← same_queues s.ports p (set_affinity cpu) (λ _. refl) p)
        (try_queue-Took s' p (queue_of (s'.ports p)) refl))
]

abbrev pub taken : Received → List Message
taken (got i m) = m ∷ []
taken _ = []

-- What a thread that runs again takes off the queue: nothing where its wait has a message, which it
-- returns and which was counted when it was stored.
abbrev pub taken_again : Bool → Option Message → Received → List Message
taken_again true (some m) r = []
taken_again _ _ r = taken r

-- Sends to a port and receipts from it, by any threads: the messages that were accepted and those
-- that were taken, each in the order of the sections. A message that is found in the registered wait
-- after the first section of a send counts as taken.
pub data Traffic (p : ℕ) (s : Ipc) : List Message → List Message → Ipc → Type 0 where
  start : Traffic p s [] [] s
  stores :
      {a t : List Message} {u : Ipc} (cpu : ℕ) (m : Message) (thread : ℕ)
      → (send_direct u cpu p m).0 ≡ some thread
      → Traffic p s a t u
      → Traffic p s
          (a ++ (m ∷ []))
          (t ++ stored (wait_of (u.ports p)) (send_direct u cpu p m).1)
          (send_direct u cpu p m).1
  appends :
      {a t : List Message} {u : Ipc} (cpu : ℕ) (m : Message) (port : Port)
      → u.ports p ≡ some port
      → Traffic p s a t u
      → Traffic p s (a ++ (m ∷ [])) t (send_queue u cpu p m).1
  takes :
      {a t : List Message} {u : Ipc} (cpu thread : ℕ)
      → Traffic p s a t u
      → Traffic p s a (t ++ taken (ipc_recv u cpu thread p).0) (ipc_recv u cpu thread p).1
  polls :
      {a t : List Message} {u : Ipc} (cpu : ℕ)
      → Traffic p s a t u
      → Traffic p s a (t ++ taken (ipc_try_recv u cpu p).0) (ipc_try_recv u cpu p).1
  resumes :
      {a t : List Message} {u : Ipc} (thread : ℕ)
      → Traffic p s a t u
      → Traffic p s a
          (t
            ++ taken_again
                (u.waits thread).delivered
                (u.waits thread).message
                (recv_resume u thread p).0)
          (recv_resume u thread p).1

Took-taken :
    (q : List Message) (r : Received × Ipc) (p : ℕ)
    → Took q r p
    → q ≡ taken r.0 ++ queue_of (r.1.ports p)
Took-taken q (got i m, s) p h = h
Took-taken q (blocked, s) p h = sym h.1
Took-taken q (empty, s) p h = sym h.1
Took-taken q (bad_call, s) p h = sym h

resume_with-taken :
    (s : Ipc) (thread p : ℕ) (d : Bool) (m : Option Message)
    → queue_of (s.ports p)
      ≡ taken_again d m (resume_with s thread p d m).0
        ++ queue_of ((resume_with s thread p d m).1.ports p)
unfolding resume_with recv_loop
resume_with-taken s thread p true (some m) = refl
resume_with-taken s thread p true none =
    Took-taken _ _ p (recv_queue-Took s thread p (queue_of (s.ports p)) refl)
resume_with-taken s thread p false m =
    Took-taken _ _ p (recv_queue-Took s thread p (queue_of (s.ports p)) refl)

-- Over any sequence of sends to a port and receipts from it by ipc_recv, by a thread that goes on
-- with ipc_recv and by ipc_try_recv, what was queued at the start followed by what was accepted is
-- what was taken followed by what is queued at the end: messages are taken in the order in which
-- they were accepted. A message that the first section of ipc_send hands over counts as taken where
-- it is found in the registered wait, and is not taken again when the thread goes on. Receipts by
-- ipc_recv_any are not in the sequences.
pub Traffic-order :
    (p : ℕ) (s u : Ipc) (a t : List Message)
    → Traffic p s a t u
    → queue_of (s.ports p) ++ a ≡ t ++ queue_of (u.ports p)
unfolding recv_resume
Traffic-order p s u a t start = append-nil _
Traffic-order p s u a t (stores {a = b} {t = r} {u = w} cpu m thread e tr) =
    let (none_left, same, kept) = send_direct_lem w cpu p m thread e in
    let before : queue_of (s.ports p) ++ b ≡ r =
      Traffic-order p s w b r tr ∙ (ap (λ l. r ++ l) none_left ∙ append-nil r) in
    let x = stored (wait_of (w.ports p)) (send_direct w cpu p m).1 in
    let after : queue_of ((send_direct w cpu p m).1.ports p) ≡ [] = same ∙ none_left in
    sym (append_assoc (queue_of (s.ports p)) b (m ∷ []))
    ∙ (ap (λ l. l ++ (m ∷ [])) before
        ∙ (ap (λ l. r ++ l) (sym kept)
            ∙ (sym (append-nil (r ++ x)) ∙ ap (λ l. (r ++ x) ++ l) (sym after))))
Traffic-order p s u a t (appends {a = b} {t = r} {u = w} cpu m port at tr) =
    let ih = Traffic-order p s w b r tr in
    let added : queue_of ((send_queue w cpu p m).1.ports p) ≡ queue_of (w.ports p) ++ (m ∷ []) =
      send_queue_lem w cpu p m port at in
    sym (append_assoc (queue_of (s.ports p)) b (m ∷ []))
    ∙ (ap (λ l. l ++ (m ∷ [])) ih
        ∙ (append_assoc r (queue_of (w.ports p)) (m ∷ []) ∙ ap (λ l. r ++ l) (sym added)))
Traffic-order p s u a t (takes {a = b} {t = r} {u = w} cpu thread tr) =
    Traffic-order p s w b r tr
    ∙ (ap (λ l. r ++ l) (Took-taken _ _ p (ipc_recv-Took w cpu thread p))
        ∙ sym (append_assoc r _ _))
Traffic-order p s u a t (polls {a = b} {t = r} {u = w} cpu tr) =
    Traffic-order p s w b r tr
    ∙ (ap (λ l. r ++ l) (Took-taken _ _ p (ipc_try_recv-Took w cpu p)) ∙ sym (append_assoc r _ _))
Traffic-order p s u a t (resumes {a = b} {t = r} {u = w} thread tr) =
    Traffic-order p s w b r tr
    ∙ (ap (λ l. r ++ l)
          (resume_with-taken w thread p (w.waits thread).delivered (w.waits thread).message)
        ∙ sym (append_assoc r _ _))
