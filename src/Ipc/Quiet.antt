-- ===== src/Ipc/Quiet.antt =====
-- kernel/ipc.c: no thread sleeps on a port that has a message, and `queued` counts the queue.
use bunix.Common.{
  ℕ, ◌%◌, ◌≡◌, refl, Bool, true, false, not, ◌&&◌, Option, none, some, [], ◌∷◌, ◌==◌, ◌⊎◌, inl, inr,
  if◌then◌else◌, length, length-append, u32_mod, arith, Bool-cases, ℕ_discrete, add64,
}
use bunix.Tree.Names.{CString, NameTree, tree_insert_node}
use bunix.Tree.Wide.{U64Tree, u64_tree_insert_node}
use bunix.Ipc.State.{Message, CapType, no_cap, port_cap, Port, Ipc, on_port, write_port}
use bunix.Ipc.Lifecycle.{
  ipc_port_retain, drop_ref, unreachable, release_at, ipc_port_release, retain_cap, release_cap,
  ipc_message_retain, ipc_message_release, ipc_port_remove_locked, place, new_port, link_port,
  alloc_port, ipc_port_alloc, ipc_port_find,
}
use bunix.Ipc.Send.{
  no_receiver, deliver, send_to, send_direct, count_handoff, Handoff, direct, cross_cpu, nested,
  scheduler, invalid, enqueue, send_queue, after_direct, after_busy, send_rest, ipc_send,
}

-- A port whose receiver sleeps has an empty queue.
pub record Quiet (port : Port) : Type 0 where
  pub asleep : (port.receiver ≡ none) ⊎ (port.queue ≡ [])
  pub counted : port.queued ≡ length port.queue % u32_mod

abbrev pub QuietPort : Option Port → Type 0
QuietPort none = Unit {0}
QuietPort (some port) = Quiet port

abbrev pub AllQuiet : (ℕ → Option Port) → Type 0
AllQuiet ports = (q : ℕ) → QuietPort (ports q)

on_port-Quiet :
    (f : Port → Port) (o : Option Port)
    → ((port : Port) → o ≡ some port → Quiet port → Quiet (f port))
    → QuietPort o
    → QuietPort (on_port f o)
on_port-Quiet f none keep v = tt
on_port-Quiet f (some port) keep v = keep port refl v

-- A write to one port.
pub write_port-Quiet :
    (ports : ℕ → Option Port) (p : ℕ) (f : Port → Port)
    → ((port : Port) → ports p ≡ some port → Quiet port → Quiet (f port))
    → AllQuiet ports
    → AllQuiet (write_port ports p f)
write_port-Quiet ports p f keep v q = elim (ℕ_discrete p q) [
  | yes e ↦
      let t : (p == q) ≡ true = ground (arith, e) in
      rw t (rw (← e) (on_port-Quiet f (ports p) keep (v p)))
  | no ne ↦ let t : (p == q) ≡ false = ground (arith, ne) in rw t (v q)
]

pub place-Quiet :
    (ports : ℕ → Option Port) (p : ℕ) (new : Option Port)
    → QuietPort new
    → AllQuiet ports
    → AllQuiet (place ports p new)
place-Quiet ports p new w v q = elim (Bool-cases (p == q)) [ inl e ↦ rw e w | inr e ↦ rw e (v q) ]

pub ipc_port_retain-Quiet :
    (s : Ipc) (p : ℕ) → AllQuiet s.ports → AllQuiet (ipc_port_retain s p).ports
unfolding ipc_port_retain
ipc_port_retain-Quiet s p v = elim (Bool-cases (p == 0)) [
  | inl e ↦ rw e v
  | inr e ↦ rw e (
      write_port-Quiet s.ports p _ (λ port _ w. record { asleep = w.asleep; counted = w.counted })
        v)
]

drop_ref-Quiet : (port : Port) → Quiet port → Quiet (drop_ref port)
drop_ref-Quiet port w = record { asleep = w.asleep; counted = w.counted }

release_at-Quiet :
    (s : Ipc) (p : ℕ) (o : Option Port)
    → QuietPort o
    → AllQuiet s.ports
    → AllQuiet (release_at s p o).ports
unfolding release_at ipc_port_remove_locked
release_at-Quiet s p none w v = v
release_at-Quiet s p (some port) w v = elim (Bool-cases (unreachable (drop_ref port))) [
  | inl e ↦ rw e (
      place-Quiet _ p none tt
        (place-Quiet s.ports p (some (drop_ref port)) (drop_ref-Quiet port w) v))
  | inr e ↦ rw e (place-Quiet s.ports p (some (drop_ref port)) (drop_ref-Quiet port w) v)
]

pub ipc_port_release-Quiet :
    (s : Ipc) (p : ℕ) → AllQuiet s.ports → AllQuiet (ipc_port_release s p).ports
unfolding ipc_port_release
ipc_port_release-Quiet s p v = elim (Bool-cases (p == 0)) [
  | inl e ↦ rw e v
  | inr e ↦ rw e (release_at-Quiet s p (s.ports p) (v p) v)
]

same_ports :
    (s t : Ipc) (b : Bool)
    → AllQuiet s.ports
    → AllQuiet t.ports
    → AllQuiet (if b then s else t).ports
same_ports s t true v w = v
same_ports s t false v w = w

retain_cap-Quiet :
    (s : Ipc) (k : CapType) (o : ℕ) → AllQuiet s.ports → AllQuiet (retain_cap s k o).ports
unfolding retain_cap
retain_cap-Quiet s no_cap o v = v
retain_cap-Quiet s port_cap o v = ipc_port_retain-Quiet s o v
retain_cap-Quiet s _ o v = same_ports s _ (o == 0) v v

release_cap-Quiet :
    (s : Ipc) (k : CapType) (o : ℕ) → AllQuiet s.ports → AllQuiet (release_cap s k o).ports
unfolding release_cap
release_cap-Quiet s no_cap o v = v
release_cap-Quiet s port_cap o v = ipc_port_release-Quiet s o v
release_cap-Quiet s _ o v = same_ports s _ (o == 0) v v

pub ipc_message_retain-Quiet :
    (s : Ipc) (m : Message) → AllQuiet s.ports → AllQuiet (ipc_message_retain s m).ports
unfolding ipc_message_retain
ipc_message_retain-Quiet s m v =
    retain_cap-Quiet _ m.cap_type m.cap_object (ipc_port_retain-Quiet s m.reply_port v)

pub ipc_message_release-Quiet :
    (s : Ipc) (m : Message) → AllQuiet s.ports → AllQuiet (ipc_message_release s m).ports
unfolding ipc_message_release
ipc_message_release-Quiet s m v =
    ipc_port_release-Quiet _ m.reply_port (release_cap-Quiet s m.cap_type m.cap_object v)

enqueue-Quiet : (m : Message) (port : Port) → Quiet port → Quiet (enqueue m port)
enqueue-Quiet m port w = record {
  asleep = inl refl;
  counted = omega (arith, w.counted, length-append port.queue (m ∷ []));
}

pub send_queue-Quiet :
    (s : Ipc) (cpu p : ℕ) (m : Message) → AllQuiet s.ports → AllQuiet (send_queue s cpu p m).1.ports
unfolding send_queue
send_queue-Quiet s cpu p m v =
    write_port-Quiet s.ports p (enqueue m) (λ port _ w. enqueue-Quiet m port w) v

pub no_receiver-Quiet : (port : Port) → Quiet port → Quiet (no_receiver port)
no_receiver-Quiet port w = record { asleep = inl refl; counted = w.counted }

deliver-Quiet :
    (s : Ipc) (cpu p : ℕ) (m : Message) (port : Port) (r : Option (ℕ × ℕ))
    → AllQuiet s.ports
    → AllQuiet (deliver s cpu p m port r).1.ports
unfolding deliver
deliver-Quiet s cpu p m port none v = v
deliver-Quiet s cpu p m port (some (thread, wait)) v =
    write_port-Quiet s.ports p no_receiver (λ q _ w. no_receiver-Quiet q w) v

send_to-Quiet :
    (s : Ipc) (cpu p : ℕ) (m : Message) (o : Option Port)
    → AllQuiet s.ports
    → AllQuiet (send_to s cpu p m o).1.ports
unfolding send_to
send_to-Quiet s cpu p m none v = v
send_to-Quiet s cpu p m (some port) v = deliver-Quiet s cpu p m port _ v

pub send_direct-Quiet :
    (s : Ipc) (cpu p : ℕ) (m : Message)
    → AllQuiet s.ports
    → AllQuiet (send_direct s cpu p m).1.ports
unfolding send_direct
send_direct-Quiet s cpu p m v = send_to-Quiet _ cpu p m (s.ports p) v

pub count_handoff-Quiet :
    (s : Ipc) (cpu : ℕ) (h : Handoff) → AllQuiet s.ports → AllQuiet (count_handoff s cpu h).ports
unfolding count_handoff
count_handoff-Quiet s cpu direct v = v
count_handoff-Quiet s cpu cross_cpu v = v
count_handoff-Quiet s cpu nested v = v
count_handoff-Quiet s cpu scheduler v = v
count_handoff-Quiet s cpu invalid v = v

after_direct-Quiet :
    (s : Ipc) (cpu : ℕ) (m : Message) (thread : ℕ) (h : Handoff)
    → AllQuiet s.ports
    → AllQuiet (after_direct s cpu m thread h).1.ports
unfolding after_direct
after_direct-Quiet s cpu m thread h v = elim (Bool-cases (not (m.reply_port == 0))) [
  | inl e ↦ rw e v
  | inr e ↦ rw e (count_handoff-Quiet s cpu h v)
]

after_busy-Quiet :
    (s : Ipc) (cpu p : ℕ) (m : Message) (memory : Bool)
    → AllQuiet s.ports
    → AllQuiet (after_busy s cpu p m memory).1.ports
unfolding after_busy
after_busy-Quiet s cpu p m true v =
    send_queue-Quiet (ipc_message_retain (ipc_message_release s m) m) cpu p m
      (ipc_message_retain-Quiet (ipc_message_release s m) m (ipc_message_release-Quiet s m v))
after_busy-Quiet s cpu p m false v = ipc_message_release-Quiet s m v

send_rest-Quiet :
    (cpu p : ℕ) (m : Message) (memory : Bool) (h : Handoff) (r : Option ℕ × Ipc)
    → AllQuiet r.1.ports
    → AllQuiet (send_rest cpu p m memory h r).1.ports
unfolding send_rest
send_rest-Quiet cpu p m memory h (none, s) v = after_busy-Quiet s cpu p m memory v
send_rest-Quiet cpu p m memory h (some thread, s) v = after_direct-Quiet s cpu m thread h v

pub ipc_send-Quiet :
    (s : Ipc) (cpu sender p : ℕ) (m : Message) (memory : Bool) (h : Handoff)
    → AllQuiet s.ports
    → AllQuiet (ipc_send s cpu sender p m memory h).1.ports
unfolding ipc_send
ipc_send-Quiet s cpu sender p m memory h v = elim (Bool-cases (p == 0)) [
  | inl e ↦ rw e v
  | inr e ↦ rw e (
      let m' = record m { sender = sender } in
      send_rest-Quiet cpu p m' memory h (send_direct (ipc_message_retain s m') cpu p m')
        (send_direct-Quiet (ipc_message_retain s m') cpu p m' (ipc_message_retain-Quiet s m' v)))
]

link_port-Quiet :
    (s : Ipc) (p : ℕ) (port : Port) (ids : Bool × U64Tree) (names : Bool × NameTree)
    → Quiet port
    → AllQuiet s.ports
    → AllQuiet (link_port s p port ids names).1.ports
unfolding link_port ipc_port_remove_locked
link_port-Quiet s p port (false, ids) names w v = v
link_port-Quiet s p port (true, ids) (false, names) w v = v
link_port-Quiet s p port (true, ids) (true, names) w v = place-Quiet s.ports p (some port) w v

new_port-Quiet : (name : CString) (id : ℕ) (b : Bool) → Quiet (new_port name id b)
new_port-Quiet name id b = record { asleep = inl refl; counted = refl }

alloc_port-Quiet :
    (s : Ipc) (name : CString) (b : Bool) (memory : Option ℕ)
    → AllQuiet s.ports
    → AllQuiet (alloc_port s name b memory).1.ports
unfolding alloc_port
alloc_port-Quiet s name b none v = v
alloc_port-Quiet s name b (some p) v =
    link_port-Quiet (record s { next_port_id = add64 s.next_port_id 1 }) p
      (new_port name s.next_port_id b) (u64_tree_insert_node s.ports_by_id s.next_port_id p)
      (if b then tree_insert_node s.ports_by_name name p else (true, s.ports_by_name))
      (new_port-Quiet name s.next_port_id b) v

pub ipc_port_alloc-Quiet :
    (s : Ipc) (name : CString) (b : Bool) (memory : Option ℕ)
    → AllQuiet s.ports
    → AllQuiet (ipc_port_alloc s name b memory).1.ports
unfolding ipc_port_alloc
ipc_port_alloc-Quiet s name b memory v =
    elim (Bool-cases (b && not ((if b then ipc_port_find s name else 0) == 0))) [
      | inl e ↦ rw e v
      | inr e ↦ rw e (alloc_port-Quiet s name b memory v)
    ]
