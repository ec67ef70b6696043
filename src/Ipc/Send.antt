-- ===== src/Ipc/Send.antt =====
-- kernel/ipc.c: `ipc_send`. It takes the lock up to three times, and other processors may run between
-- these sections, so each is a function of its own; `ipc_send` runs them in a row.
use bunix.Common.{
  ℕ, Bool, true, not, Option, none, some, List, [], ◌∷◌, ◌++◌, ◌==◌, if◌then◌else◌, add32,
}
use bunix.Ipc.State.{Message, Wait, Port, Ipc, bump, modify_port, write_wait}
use bunix.Ipc.Lifecycle.{ipc_message_retain, ipc_message_release}

-- What `thread_handoff` of the scheduler answers.
pub data Handoff : Type 0 where
  direct cross_cpu nested scheduler invalid : Handoff

-- The result of a call: the source's 0 and -1, and what was done about the receiver.
pub data Sent : Type 0 where
  unblocked : ℕ → Sent
  handed_off : ℕ → Sent
  queued : Option ℕ → Sent
  failed : Sent

-- The thread whose wait takes a message with no queueing: one is registered, nothing was stored for
-- it yet, and no message is ahead.
unfoldable pub ready : (ℕ → Wait) → Option ℕ → Option ℕ → List Message → Option (ℕ × ℕ)
ready waits (some thread) (some wait) [] =
    if (waits wait).delivered then none else some (thread, wait)
ready waits _ _ _ = none

abbrev pub no_receiver : Port → Port
no_receiver port = record port { receiver = none; receiver_wait = none }

unfoldable pub deliver : Ipc → ℕ → ℕ → Message → Port → Option (ℕ × ℕ) → Option ℕ × Ipc
deliver s cpu p m port none = (none, s)
deliver s cpu p m port (some (thread, wait)) = (
  some thread,
  record (modify_port s p no_receiver) {
    waits =
        write_wait s.waits wait
          (record { message = some m; index = port.receiver_index; delivered = true });
    stats = record s.stats { direct_delivered = bump cpu s.stats.direct_delivered };
  },
)

unfoldable pub send_to : Ipc → ℕ → ℕ → Message → Option Port → Option ℕ × Ipc
unfolding ready deliver
send_to s cpu p m none = (none, s)
send_to s cpu p m (some port) =
    deliver s cpu p m port (ready s.waits port.receiver port.receiver_wait port.queue)

-- The first section: the message is counted and, if a thread is ready for it, stored for that thread.
unfoldable pub send_direct : Ipc → ℕ → ℕ → Message → Option ℕ × Ipc
unfolding send_to
send_direct s cpu p m =
    send_to (record s { stats = record s.stats { sends = bump cpu s.stats.sends } }) cpu p m
      (s.ports p)

-- The section after a hand-over to the receiver.
unfoldable pub count_handoff : Ipc → ℕ → Handoff → Ipc
count_handoff s cpu direct = record s {
  stats = record s.stats { direct_handoff = bump cpu s.stats.direct_handoff };
}
count_handoff s cpu cross_cpu = record s {
  stats = record s.stats { fallback_cross_cpu = bump cpu s.stats.fallback_cross_cpu };
}
count_handoff s cpu nested = record s {
  stats = record s.stats { fallback_nested = bump cpu s.stats.fallback_nested };
}
count_handoff s cpu scheduler = record s {
  stats = record s.stats { fallback_scheduler = bump cpu s.stats.fallback_scheduler };
}
count_handoff s cpu invalid = record s {
  stats = record s.stats { fallback_invalid = bump cpu s.stats.fallback_invalid };
}

abbrev pub receiver_of : Option Port → Option ℕ
receiver_of none = none
receiver_of (some port) = port.receiver

abbrev pub enqueue : Message → Port → Port
enqueue m port = record port {
  queue = port.queue ++ (m ∷ []);
  queued = add32 port.queued 1;
  receiver = none;
  receiver_wait = elim port.receiver [ none ↦ port.receiver_wait | some t ↦ none ];
}

-- The last section: the message goes to the end of the queue, and whoever waits is woken.
unfoldable pub send_queue : Ipc → ℕ → ℕ → Message → Option ℕ × Ipc
send_queue s cpu p m = (
  receiver_of (s.ports p),
  record (modify_port s p (enqueue m)) {
    stats = record s.stats { queued = bump cpu s.stats.queued };
  },
)

abbrev pub handoff_result : ℕ → Handoff → Sent
handoff_result thread invalid = failed
handoff_result thread _ = handed_off thread

-- After the first section stored the message for a thread.
unfoldable pub after_direct : Ipc → ℕ → Message → ℕ → Handoff → Sent × Ipc
unfolding count_handoff
after_direct s cpu m thread handoff =
    if not (m.reply_port == 0)
    then (unblocked thread, s)
    else (handoff_result thread handoff, count_handoff s cpu handoff)

-- After it did not. `memory` says whether there is memory for a queue entry.
unfoldable pub after_busy : Ipc → ℕ → ℕ → Message → Bool → Sent × Ipc
unfolding ipc_message_release ipc_message_retain send_queue
after_busy s cpu p m memory =
    let s1 = ipc_message_release s m in
    if memory
    then (let (woken, s2) = send_queue (ipc_message_retain s1 m) cpu p m in (queued woken, s2))
    else (failed, s1)

unfoldable pub send_rest : ℕ → ℕ → Message → Bool → Handoff → Option ℕ × Ipc → Sent × Ipc
unfolding after_direct after_busy
send_rest cpu p m memory handoff (none, s) = after_busy s cpu p m memory
send_rest cpu p m memory handoff (some thread, s) = after_direct s cpu m thread handoff

-- `sender` is the number of the current task, `cpu` the processor that it runs on.
unfoldable pub ipc_send : Ipc → ℕ → ℕ → ℕ → Message → Bool → Handoff → Sent × Ipc
unfolding send_direct send_rest ipc_message_retain
ipc_send s cpu sender p message memory handoff =
    if p == 0
    then (failed, s)
    else let m = record message { sender = sender } in
      send_rest cpu p m memory handoff (send_direct (ipc_message_retain s m) cpu p m)
