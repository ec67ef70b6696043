-- ===== src/Ipc/Lifecycle.antt =====
-- kernel/ipc.c: how ports come and go, and the references that messages hold.
use bunix.Common.{
  ℕ, ◌+◌, ◌-◌, Bool, true, false, not, ◌&&◌, ◌||◌, Option, none, some, [], ◌==◌, ltb, if◌then◌else◌,
  add64, add32,
}
use bunix.Tree.{Cursor}
use bunix.Tree.Names.{
  CString, NameTree, tree_init, tree_get, tree_find_node, tree_insert_node, tree_remove_node,
}
use bunix.Tree.Wide.{
  U64Tree, u64_tree_init, u64_tree_get, u64_tree_find_node, u64_tree_insert_node,
  u64_tree_remove_node,
}
use bunix.Ipc.State.{
  CapType, no_cap, port_cap, buffer_cap, task_cap, hw_resource_cap, sched_policy_cap, Message, Port,
  Ipc, modify_port, zero_stats,
}

-- `ipc_init` up to the kernel's own reply port, which `ipc_port_create` makes.
unfoldable pub ipc_init : Ipc → Ipc
ipc_init s = record s { ports_by_name = tree_init; ports_by_id = u64_tree_init; stats = zero_stats }

unfoldable pub ipc_port_find : Ipc → CString → ℕ
ipc_port_find s name = tree_get s.ports_by_name name

unfoldable pub unlink_id : U64Tree → Option (Cursor ℕ ℕ) → U64Tree
unlink_id t none = t
unlink_id t (some node) = u64_tree_remove_node t node

unfoldable pub unlink_name : NameTree → Option (Cursor CString ℕ) → NameTree
unlink_name t none = t
unlink_name t (some node) = tree_remove_node t node

-- A port's node is the one under the port's own key.
unfoldable pub ipc_port_remove_locked : Ipc → Port → Ipc
unfolding unlink_id unlink_name
ipc_port_remove_locked s port = record s {
  ports_by_id =
      if port.id_linked
      then unlink_id s.ports_by_id (u64_tree_find_node s.ports_by_id port.id)
      else s.ports_by_id;
  ports_by_name =
      if port.name_linked
      then unlink_name s.ports_by_name (tree_find_node s.ports_by_name port.name)
      else s.ports_by_name;
}

abbrev pub new_port : CString → ℕ → Bool → Port
new_port name id reuse_named = record {
  name = name;
  id = id;
  id_linked = true;
  name_linked = reuse_named;
  ref_count = 0;
  immortal = reuse_named;
  queue = [];
  receiver = none;
  receiver_wait = none;
  receiver_index = 0;
  affinity_cpu = 0;
  affinity_valid = false;
  queued = 0;
}

abbrev pub place : (ℕ → Option Port) → ℕ → Option Port → ℕ → Option Port
place ports p new q = if p == q then new else ports q

-- The two insertions, the second only for a named port. If one fails the port is unlinked again and
-- freed.
unfoldable pub link_port : Ipc → ℕ → Port → Bool × U64Tree → Bool × NameTree → ℕ × Ipc
unfolding ipc_port_remove_locked
link_port s p port (false, ids) names = (0, s)
link_port s p port (true, ids) (false, names) = (
  0,
  ipc_port_remove_locked (record s { ports_by_id = ids }) (record port { name_linked = false }),
)
link_port s p port (true, ids) (true, names) =
    (p, record s { ports = place s.ports p (some port); ports_by_id = ids; ports_by_name = names })

unfoldable pub alloc_port : Ipc → CString → Bool → Option ℕ → ℕ × Ipc
unfolding link_port
alloc_port s name reuse_named none = (0, s)
alloc_port s name reuse_named (some p) =
    let port = new_port name s.next_port_id reuse_named in
    link_port (record s { next_port_id = add64 s.next_port_id 1 }) p port
      (u64_tree_insert_node s.ports_by_id port.id p)
      (if reuse_named then tree_insert_node s.ports_by_name name p else (true, s.ports_by_name))

-- `memory` is what `slab_zalloc` returns.
unfoldable pub ipc_port_alloc : Ipc → CString → Bool → Option ℕ → ℕ × Ipc
unfolding alloc_port ipc_port_find
ipc_port_alloc s name reuse_named memory =
    let existing = if reuse_named then ipc_port_find s name else 0 in
    if reuse_named && not (existing == 0)
    then (existing, s)
    else alloc_port s name reuse_named memory

abbrev pub ipc_port_create : Ipc → CString → Option ℕ → ℕ × Ipc
ipc_port_create s name memory = ipc_port_alloc s name true memory

abbrev pub ipc_port_create_private : Ipc → CString → Option ℕ → ℕ × Ipc
ipc_port_create_private s name memory = ipc_port_alloc s name false memory

unfoldable pub ipc_port_from_id : Ipc → ℕ → ℕ
ipc_port_from_id s id = if id == 0 then 0 else u64_tree_get s.ports_by_id id

unfoldable pub ipc_port_retain : Ipc → ℕ → Ipc
ipc_port_retain s p =
    if p == 0
    then s
    else modify_port s p (λ port. record port { ref_count = add32 port.ref_count 1 })

abbrev pub is_none : Option ℕ → Bool
is_none none = true
is_none (some t) = false

-- The test for a port that nobody can reach any more.
abbrev pub unreachable : Port → Bool
unreachable port = not (
    port.immortal
    || not (port.ref_count == 0)
    || not (port.queued == 0)
    || not (is_none port.receiver))

abbrev pub drop_ref : Port → Port
drop_ref port = record port {
  ref_count = if ltb 0 port.ref_count then port.ref_count - 1 else port.ref_count;
}

unfoldable pub release_at : Ipc → ℕ → Option Port → Ipc
unfolding ipc_port_remove_locked
release_at s p none = s
release_at s p (some port) =
    let s' = record s { ports = place s.ports p (some (drop_ref port)) } in
    if unreachable (drop_ref port)
    then ipc_port_remove_locked (record s' { ports = place s'.ports p none }) (drop_ref port)
    else s'

unfoldable pub ipc_port_release : Ipc → ℕ → Ipc
unfolding release_at
ipc_port_release s p = if p == 0 then s else release_at s p (s.ports p)

abbrev pub same_kind : CapType → CapType → Bool
same_kind buffer_cap buffer_cap = true
same_kind task_cap task_cap = true
same_kind hw_resource_cap hw_resource_cap = true
same_kind sched_policy_cap sched_policy_cap = true
same_kind _ _ = false

-- One reference more, or fewer, on an object that is no port.
abbrev pub count_refs : (CapType → ℕ → ℕ) → CapType → ℕ → (ℕ → ℕ) → CapType → ℕ → ℕ
count_refs refs kind object f k o =
    if same_kind kind k && object == o then f (refs k o) else refs k o

unfoldable pub retain_cap : Ipc → CapType → ℕ → Ipc
unfolding ipc_port_retain
retain_cap s no_cap object = s
retain_cap s port_cap object = ipc_port_retain s object
retain_cap s kind object =
    if object == 0
    then s
    else record s { object_refs = count_refs s.object_refs kind object (λ n. n + 1) }

unfoldable pub release_cap : Ipc → CapType → ℕ → Ipc
unfolding ipc_port_release
release_cap s no_cap object = s
release_cap s port_cap object = ipc_port_release s object
release_cap s kind object =
    if object == 0
    then s
    else record s { object_refs = count_refs s.object_refs kind object (λ n. n - 1) }

unfoldable pub ipc_message_retain : Ipc → Message → Ipc
unfolding retain_cap ipc_port_retain
ipc_message_retain s m = retain_cap (ipc_port_retain s m.reply_port) m.cap_type m.cap_object

unfoldable pub ipc_message_release : Ipc → Message → Ipc
unfolding release_cap ipc_port_release
ipc_message_release s m = ipc_port_release (release_cap s m.cap_type m.cap_object) m.reply_port
