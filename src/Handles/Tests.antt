-- ===== src/Handles/Tests.antt =====
-- kernel/sched.c: two tasks with a handle to one port.
use bunix.Common.{ℕ, ◌≡◌, refl, Bool, true, some, List, [], ◌∷◌, get_elem?, ◌==◌, if◌then◌else◌}
use bunix.Handles.{
  TaskHandle, port, task_grant_inherited_handle, task_set_handle_tag, task_close_handle,
}
use bunix.Handles.Granted.{Inherited, task_grant_inherited_handle-Inherited}
use bunix.Handles.Share.{Shares, at_start, inherited, tagged, closed, Given, Shares-Given}

-- The rights to send, to receive and to pass on.
abbrev all_rights : TaskHandle
all_rights = record { type = port; rights = 7; tag = 0; object = 4096 }

abbrev send_right : TaskHandle
send_right = record { type = port; rights = 1; tag = 5; object = 4096 }

abbrev one_holder : ℕ → List TaskHandle
one_holder t = if t == 1 then all_rights ∷ [] else []

-- What tasks 1 and 2 hold once task 2 inherited the right to send, named it, and task 1 closed its handle.
abbrev always : ℕ → Bool
always n = true

abbrev inherited_table : ℕ → List TaskHandle
inherited_table t =
    if 2 == t
    then (task_grant_inherited_handle always true true true (one_holder 2) (one_holder 1) 1
        1).handles
    else one_holder t

abbrev tagged_table : ℕ → List TaskHandle
tagged_table t =
    if 2 == t then (task_set_handle_tag (inherited_table 2) 1 5).1 else inherited_table t

abbrev closed_table : ℕ → List TaskHandle
closed_table t = if 1 == t then (task_close_handle (tagged_table 1) 1).1 else tagged_table t

shared_port : Shares one_holder closed_table
shared_port = closed 1 1 (tagged 2 1 5 (inherited always true true true 2 1 1 1 at_start))

held_now : get_elem? (closed_table 2) 0 ≡ some send_right
unfolding task_grant_inherited_handle task_set_handle_tag task_close_handle
held_now = refl

Shares-Given_example : Given one_holder port 4096 1
Shares-Given_example = Shares-Given one_holder closed_table 2 0 send_right shared_port held_now

task_grant_inherited_handle-Inherited_example :
    Inherited
      (all_rights ∷ [])
      1
      1
      (task_grant_inherited_handle always true true true [] (all_rights ∷ []) 1 1)
task_grant_inherited_handle-Inherited_example =
    task_grant_inherited_handle-Inherited always true true true [] (all_rights ∷ []) 1 1
