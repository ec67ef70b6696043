-- ===== src/Ipc/Tests.antt =====
-- kernel/ipc.c: short runs on one port.
use bunix.Common.{ℕ, ◌≡◌, refl, true, none, some, [], ◌∷◌, ◌++◌}
use bunix.Tree.Names.{tree_init}
use bunix.Tree.Wide.{u64_tree_init}
use bunix.Ipc.State.{Message, no_cap, Ipc, zero_stats, idle_wait}
use bunix.Ipc.Lifecycle.{new_port, place}
use bunix.Ipc.Send.{send_to, ready, deliver, send_direct, send_queue}
use bunix.Ipc.Receive.{set_affinity, recv_loop, recv_queue, ipc_recv, recv_resume, queue_of}
use bunix.Ipc.Waiting.{Waiting}
use bunix.Ipc.Order.{Traffic, start, stores, appends, takes, Traffic-order}

-- A port at address 5, named `a`.
abbrev quiet_system : Ipc
quiet_system = record {
  ports = place (λ q. none) 5 (some (new_port (97 ∷ []) 1 true));
  waits = λ t. idle_wait;
  object_refs = λ k o. 0;
  ports_by_name = tree_init;
  ports_by_id = u64_tree_init;
  next_port_id = 2;
  stats = zero_stats;
}

abbrev hello : ℕ → Message
hello n = record {
  protocol = 1;
  type = n;
  sender = 3;
  cap_rights = 0;
  reply_port = 0;
  cap_type = no_cap;
  cap_object = 0;
  words = n ∷ [];
}

-- Thread 7 blocks; a message is stored for it and another is queued; thread 7 takes the first and
-- then the second.
abbrev waiting : Ipc
waiting = (ipc_recv quiet_system 0 7 5).1

abbrev served : Ipc
served = (send_direct waiting 1 5 (hello 1)).1

abbrev busy : Ipc
busy = (send_queue served 1 5 (hello 2)).1

abbrev resumed : Ipc
resumed = (recv_resume busy 7 5).1

-- Thread 7 blocks, a message is queued and wakes it, it takes the message, and thread 8 blocks.
abbrev woken : Ipc
woken = (send_queue waiting 1 5 (hello 2)).1

abbrev asleep_again : Ipc
asleep_again = (ipc_recv (recv_resume woken 7 5).1 0 8 5).1

-- A second receiver that comes too early finds the queue empty, and leaves it to the next call.
two_messages :
    Traffic 5 quiet_system (hello 1 ∷ hello 2 ∷ []) (hello 1 ∷ hello 2 ∷ []) (ipc_recv busy 0 7 5).1
unfolding ipc_recv recv_loop recv_queue send_direct send_to ready deliver send_queue
two_messages = takes 0 7 (
    appends 1 (hello 2) (set_affinity 0 (new_port (97 ∷ []) 1 true)) refl
      (stores 1 (hello 1) 7 refl (takes 0 7 start)))

Traffic-order_example :
    queue_of (quiet_system.ports 5) ++ (hello 1 ∷ hello 2 ∷ [])
    ≡ (hello 1 ∷ hello 2 ∷ []) ++ queue_of ((ipc_recv busy 0 7 5).1.ports 5)
Traffic-order_example =
    Traffic-order 5 quiet_system (ipc_recv busy 0 7 5).1 (hello 1 ∷ hello 2 ∷ [])
      (hello 1 ∷ hello 2 ∷ []) two_messages
