-- ===== src/Tree/Names.antt =====
-- kernel/tree.h: the tree keyed by C strings. A string is the list of its bytes before the NUL, left
-- numbers below 128, where the signed and the unsigned `char` agree on the order.
use Prim.Native.Nat.{Ordering, compare}
use bunix.Common.{ℕ, ◌≡◌, refl, Bool, false, Option, arith, List, [], ◌∷◌}
use bunix.Tree.{Rooted, Cursor}
use bunix.Tree.Order.{KeyOrder}
use bunix.Tree.Ops.{empty, find_node, get, insert_node, remove_node}
use bunix.Tree.Laws.{WellFormed}

abbrev pub CString : Type 0
CString = List ℕ

unfoldable pub tree_key_cmp : CString → CString → Ordering
tree_key_cmp [] [] = Ordering.eq
tree_key_cmp [] (b ∷ right) = Ordering.lt
tree_key_cmp (a ∷ left) [] = Ordering.gt
tree_key_cmp (a ∷ left) (b ∷ right) = elim (compare a b) [
  | Ordering.lt ↦ Ordering.lt
  | Ordering.gt ↦ Ordering.gt
  | Ordering.eq ↦ tree_key_cmp left right
]

-- The callers of the string tree that are modelled pass no null key.
abbrev pub never_null : CString → Bool
never_null key = false

abbrev pub NameTree : Type 0
NameTree = Rooted CString ℕ

abbrev pub tree_init : NameTree
tree_init = empty

abbrev pub tree_find_node : NameTree → CString → Option (Cursor CString ℕ)
tree_find_node = find_node tree_key_cmp never_null

abbrev pub tree_get : NameTree → CString → ℕ
tree_get = get tree_key_cmp never_null

abbrev pub tree_insert_node : NameTree → CString → ℕ → Bool × NameTree
tree_insert_node = insert_node tree_key_cmp never_null

abbrev pub tree_remove_node : NameTree → Cursor CString ℕ → NameTree
tree_remove_node = remove_node

cmp-eq_of : (a b : CString) → tree_key_cmp a b ≡ Ordering.eq → a ≡ b
unfolding tree_key_cmp
cmp-eq_of [] [] h = refl
cmp-eq_of [] (b ∷ bs) h = ground arith
cmp-eq_of (a ∷ s) [] h = ground arith
cmp-eq_of (a ∷ s) (b ∷ bs) h = ground (arith, cmp-eq_of s bs)

cmp_self : (a : CString) → tree_key_cmp a a ≡ Ordering.eq
unfolding tree_key_cmp
cmp_self [] = refl
cmp_self (a ∷ s) = ground (arith, cmp_self s)

cmp-gt_flip : (a b : CString) → tree_key_cmp a b ≡ Ordering.gt → tree_key_cmp b a ≡ Ordering.lt
unfolding tree_key_cmp
cmp-gt_flip [] [] h = ground arith
cmp-gt_flip [] (b ∷ bs) h = ground arith
cmp-gt_flip (a ∷ s) [] h = refl
cmp-gt_flip (a ∷ s) (b ∷ bs) h = ground (arith, cmp-gt_flip s bs)

cmp_trans :
    (a b c : CString)
    → tree_key_cmp a b ≡ Ordering.lt
    → tree_key_cmp b c ≡ Ordering.lt
    → tree_key_cmp a c ≡ Ordering.lt
unfolding tree_key_cmp
cmp_trans [] [] c h k = ground arith
cmp_trans [] (b ∷ bs) [] h k = ground arith
cmp_trans [] (b ∷ bs) (c ∷ cs) h k = refl
cmp_trans (a ∷ s) [] c h k = ground arith
cmp_trans (a ∷ s) (b ∷ bs) [] h k = ground arith
cmp_trans (a ∷ s) (b ∷ bs) (c ∷ cs) h k = ground (arith, cmp_trans s bs cs)

-- tree_key_cmp is a total order on strings: it says equal for equal strings only, turns round with
-- its arguments, and is transitive.
pub tree_key_cmp-KeyOrder : KeyOrder tree_key_cmp
tree_key_cmp-KeyOrder = record {
  eq_of = cmp-eq_of;
  self = cmp_self;
  gt_flip = cmp-gt_flip;
  trans = cmp_trans;
}

abbrev pub NamesWellFormed : NameTree → Type 0
NamesWellFormed = WellFormed tree_key_cmp tree_key_cmp-KeyOrder never_null
