-- ===== src/IdTable/Tests.antt =====
-- Runs of user/include/bunix/id_table.h.
use bunix.Common.{◌≡◌, refl, ◌∷◌, [], true, false, arith}
use bunix.IdTable.{
  IdTable, bunix_id_table_init, bunix_id_alloc, bunix_id_set, bunix_id_remove,
  bunix_id_table_ensure_space, fill, empty_slot,
}
use bunix.IdTable.Laws.{WellFormed, AllocResult, bunix_id_alloc-AllocResult}
use bunix.IdTable.Update.{Changed, Taken, bunix_id_remove-Taken, bunix_id_set-Changed}
use Prim.Native.Nat.{compare}
use bunix.Common.{inl, some}
use bunix.Tree.Laws.{get-empty}
use bunix.Tree.Wide.{compare-KeyOrder, is_zero}
use bunix.IdTable.Map
use bunix.IdTable.Map.{bunix_map_init, bunix_map_set}
use bunix.IdTable.Map.Set.{bunix_map_set-Changed}

-- Identifiers 1 and 3 are in use, 2 was removed.
abbrev table : IdTable
table = record {
  slots = record { id = 1; value = 70 } ∷ empty_slot ∷ record { id = 3; value = 90 } ∷ [];
  next_id = 4;
  count = 2;
}

table-WellFormed : WellFormed table
table-WellFormed = record {
  apart = ground arith;
  counted = refl;
  started = omega arith;
  small = omega arith;
  below = omega arith;
}

reuses_the_slot :
    (bunix_id_alloc false table 80).1.slots
    ≡ record { id = 1; value = 70 }
      ∷ record { id = 4; value = 80 }
      ∷ record { id = 3; value = 90 }
      ∷ []
unfolding bunix_id_alloc bunix_id_table_ensure_space fill
reuses_the_slot = refl

grows_from_nothing : (bunix_id_alloc true bunix_id_table_init 5).0 ≡ 1
unfolding bunix_id_alloc bunix_id_table_ensure_space fill
grows_from_nothing = refl

bunix_id_alloc-AllocResult_example : AllocResult true table 80 (bunix_id_alloc true table 80)
bunix_id_alloc-AllocResult_example =
    bunix_id_alloc-AllocResult true table 80 table-WellFormed (omega arith) (omega arith)
      (omega arith)

bunix_id_remove-Taken_example : Taken table 3 (bunix_id_remove table 3)
bunix_id_remove-Taken_example = bunix_id_remove-Taken table 3 table-WellFormed

bunix_id_set-Changed_example : Changed table 3 91 (bunix_id_set table 3 91)
bunix_id_set-Changed_example = bunix_id_set-Changed table 3 table-WellFormed 91 (omega arith)

no_values-IsValid : Map.Set.IsValid bunix_map_init
no_values-IsValid = record {
  tree = record { sorted = tt; valued = tt; counted = refl };
  kept = λ key. inl (get-empty compare compare-KeyOrder is_zero key);
}

bunix_map_set-Changed_example :
    Map.Set.Changed bunix_map_init 5 9 (some 64) (bunix_map_set bunix_map_init 5 9 (some 64))
bunix_map_set-Changed_example =
    bunix_map_set-Changed bunix_map_init 5 9 (some 64) no_values-IsValid
      ((λ e. ground (arith, e)), refl) (omega arith)
