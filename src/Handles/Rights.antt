-- ===== src/Handles/Rights.antt =====
-- kernel/sched.c: what a grant writes into a table of handles.
use bunix.Common.{
  ℕ, zero, suc, ◌+◌, ◌/◌, ◌≡◌, refl, Bool, true, false, not, ◌||◌, Option, none, some, List, [],
  ◌∷◌, ◌++◌, ◌==◌, if◌then◌else◌, length, replicate, get_elem?, modify, arith,
}
use mathlib.Core.Path.{subst}
use bunix.Handles.{
  grant_behind, HandleType, empty, port, task, buffer, hw_resource, sched_policy, TaskHandle,
  empty_handle, bits_within, find_same, find_empty, Grant, granted_entry, grant_empty, grant,
  grant_type, task_grant_port, task_grant_buffer, task_grant_task, task_grant_hw_resource,
  task_grant_sched_policy,
}

pub bits_within_self : (bits a : ℕ) → bits_within bits a a ≡ true
unfolding bits_within
bits_within_self zero a = refl
bits_within_self (suc n) a = ground (arith, bits_within_self n (a / 2))

pub bits_within_trans :
    (bits a b c : ℕ)
    → bits_within bits a b ≡ true
    → bits_within bits b c ≡ true
    → bits_within bits a c ≡ true
unfolding bits_within
bits_within_trans zero a b c h k = refl
bits_within_trans (suc n) a b c h k = ground (
  arith,
  h,
  k,
  bits_within_trans n (a / 2) (b / 2) (c / 2) (ground (arith, h)) (ground (arith, k)),
)

-- All entries satisfy a condition that says nothing of the tag.
module _ (Q : HandleType → ℕ → ℕ → Type 0) (none_held : Q empty 0 0) where
  abbrev pub All : List TaskHandle → Type 0
  All [] = Unit {0}
  All (h ∷ hs) = Q h.type h.object h.rights × All hs

  pub All-get_elem? :
      (hs : List TaskHandle) (i : ℕ) (h : TaskHandle)
      → All hs
      → get_elem? hs i ≡ some h
      → Q h.type h.object h.rights
  All-get_elem? [] i h a e = absurd (ground (arith, e))
  All-get_elem? (x ∷ xs) zero h a e = subst (λ o. held o) e a.0
    where
      held : Option TaskHandle → Type 0
      held none = Unit {0}
      held (some y) = Q y.type y.object y.rights
  All-get_elem? (x ∷ xs) (suc i) h a e = All-get_elem? xs i h a.1 e

  pub All-of :
      (hs : List TaskHandle)
      → ((i : ℕ) (h : TaskHandle) → get_elem? hs i ≡ some h → Q h.type h.object h.rights)
      → All hs
  All-of [] k = tt
  All-of (x ∷ xs) k = (k zero x refl, All-of xs (λ i. k (suc i)))

  pub All-modify :
      (hs : List TaskHandle) (i : ℕ) (f : TaskHandle → TaskHandle)
      → ((h : TaskHandle) → Q h.type h.object h.rights → Q (f h).type (f h).object (f h).rights)
      → All hs
      → All (modify hs i f)
  All-modify [] i f k a = a
  All-modify (x ∷ xs) zero f k a = (k x a.0, a.1)
  All-modify (x ∷ xs) (suc i) f k a = (a.0, All-modify xs i f k a.1)

  All-append : (xs ys : List TaskHandle) → All xs → All ys → All (xs ++ ys)
  All-append [] ys a b = b
  All-append (x ∷ xs) ys a b = (a.0, All-append xs ys a.1 b)

  All-replicate : (n : ℕ) → All (replicate n empty_handle)
  All-replicate zero = tt
  All-replicate (suc n) = (none_held, All-replicate n)

  either_of :
      (b : Bool) (g g' : Grant) → All g.handles → All g'.handles → All (if b then g else g').handles
  either_of true g g' k k' = k
  either_of false g g' k k' = k'

  grant_behind-All :
      (lives : Bool) (hs : List TaskHandle) (type : HandleType) (object rights : ℕ)
      → Q type object rights
      → All hs
      → All (grant_behind lives hs type object rights).handles
  unfolding grant_behind
  grant_behind-All true hs type object rights q a = All-append hs _ a (q, All-replicate _)
  grant_behind-All false hs type object rights q a = All-append hs _ a (none_held, All-replicate _)

  grant_empty-All :
      (memory : ℕ → Bool) (lives : Bool) (hs : List TaskHandle) (type : HandleType)
      (object rights : ℕ) (o : Option ℕ)
      → Q type object rights
      → All hs
      → All (grant_empty memory lives hs type object rights o).handles
  unfolding grant_empty
  grant_empty-All memory true hs type object rights (some i) q a =
      All-modify hs i (granted_entry type object rights) (λ h r. q) a
  grant_empty-All memory false hs type object rights (some i) q a = a
  grant_empty-All memory lives hs type object rights none q a =
      either_of (memory (length hs + 1)) _ _ (grant_behind-All lives hs type object rights q a) a

  grant-All :
      (memory : ℕ → Bool) (lives : Bool) (hs : List TaskHandle) (type : HandleType)
      (object rights : ℕ)
      → Q type object rights
      → All hs
      → All (grant memory lives hs type object rights).handles
  unfolding grant
  grant-All memory lives hs type object rights q a =
      either_of (find_same hs 0 type object rights == 0) _ _
        (grant_empty-All memory lives hs type object rights (find_empty hs 0) q a) a

  pub grant_type-All :
      (memory : ℕ → Bool) (before lives : Bool) (hs : List TaskHandle) (type : HandleType)
      (object rights : ℕ)
      → Q type object rights
      → All hs
      → All (grant_type memory before lives hs type object rights).handles
  unfolding grant_type task_grant_port task_grant_buffer task_grant_task task_grant_hw_resource
      task_grant_sched_policy
  grant_type-All memory before lives hs empty object rights q a = a
  grant_type-All memory before lives hs port object rights q a =
      either_of (object == 0) _ _ a (grant-All memory true hs port object rights q a)
  grant_type-All memory before lives hs buffer object rights q a =
      either_of (object == 0) _ _ a (grant-All memory true hs buffer object rights q a)
  grant_type-All memory before lives hs task object rights q a =
      either_of (object == 0 || rights == 0 || not before) _ _ a
        (grant-All memory lives hs task object rights q a)
  grant_type-All memory before lives hs hw_resource object rights q a =
      either_of (object == 0 || rights == 0) _ _ a
        (grant-All memory lives hs hw_resource object rights q a)
  grant_type-All memory before lives hs sched_policy object rights q a =
      either_of (object == 0 || rights == 0) _ _ a
        (grant-All memory lives hs sched_policy object rights q a)
