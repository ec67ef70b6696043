-- ===== src/NameService/Tests.antt =====
-- kernel/name.c: a service that registers itself, and does so again.
use bunix.Common.{◌≡◌, refl, true, some, inl, [], ◌∷◌, arith}
use Prim.Native.Nat.{compare}
use bunix.Tree.{find_from, insert_from, plug}
use bunix.Tree.Ops.{get, find_node, insert_node}
use bunix.Tree.Laws.{get-empty}
use bunix.Tree.Wide.{is_zero, compare-KeyOrder}
use bunix.Tree.Names.{CString, tree_key_cmp, tree_key_cmp-KeyOrder, never_null}
use bunix.NameService.{
  ipc_port, task, Names, name_service_init, name_service_register, name_service_lookup, add_entry,
  insert_name, insert_id, name_copy,
}
use bunix.NameService.Laws.{IsValid, Registered}
use bunix.NameService.Update.{name_service_register-Registered}

-- `vfs` and `pci`.
abbrev vfs : CString
vfs = 118 ∷ 102 ∷ 115 ∷ []

abbrev pci : CString
pci = 112 ∷ 99 ∷ 105 ∷ []

name_service_init-IsValid : IsValid name_service_init
name_service_init-IsValid = record {
  names = record { sorted = tt; valued = tt; counted = refl };
  ids = record { sorted = tt; valued = tt; counted = refl };
  started = omega arith;
  named = λ name. inl (get-empty tree_key_cmp tree_key_cmp-KeyOrder never_null name);
  known = λ id. inl (get-empty compare compare-KeyOrder is_zero id);
}

name_service_register-Registered_example :
    let (id, s') = name_service_register name_service_init vfs ipc_port 9 (some 4096) true in
    Registered name_service_init vfs ipc_port 9 id s'
name_service_register-Registered_example =
    name_service_register-Registered name_service_init vfs ipc_port 9 4096 name_service_init-IsValid
      refl (omega arith) (omega arith) (omega arith) refl (omega arith) (omega arith) (omega arith)

abbrev one : Names
one = (name_service_register name_service_init vfs ipc_port 9 (some 4096) true).1

abbrev two : Names
two = (name_service_register one pci task 5 (some 8192) true).1

looks_up : name_service_lookup two pci ≡ 2
unfolding name_service_lookup name_service_register add_entry insert_name insert_id name_copy get
    find_node find_from insert_node insert_from plug tree_key_cmp
looks_up = refl
