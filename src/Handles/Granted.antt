-- ===== src/Handles/Granted.antt =====
-- kernel/sched.c: what a handle that was granted leads to.
use bunix.Common.{
  ℕ, suc, ◌+◌, ◌≡◌, ◌∙◌, sym, refl, ap, Bool, true, false, not, ◌&&◌, ◌||◌, Option, none, some,
  List, [], ◌∷◌, ◌++◌, ◌⊎◌, inl, inr, ◌==◌, if◌then◌else◌, length, get_elem?, modify,
  get_elem?-modify_self, arith, Bool-cases,
}
use mathlib.Core.Path.{subst}
use bunix.Handles.{
  HandleType, empty, port, task, buffer, hw_resource, sched_policy, same_type, type_number,
  TaskHandle, empty_handle, within, can_dup, entry_of, find_same, find_empty, Grant, granted_entry,
  no_grant, grant_behind, grant_empty, grant, grant_type, task_grant_port, task_grant_buffer,
  task_grant_task, task_grant_hw_resource, task_grant_sched_policy, inherit_entry,
  task_grant_inherited_handle,
}

type_of : ℕ → HandleType
type_of n =
    if n == 0
    then empty
    else if n == 1
    then port
    else if n == 2
    then task
    else if n == 3
    then buffer
    else if n == 4
    then hw_resource
    else sched_policy

type_of-type_number : (a : HandleType) → type_of (type_number a) ≡ a
unfolding type_of
type_of-type_number empty = refl
type_of-type_number port = refl
type_of-type_number task = refl
type_of-type_number buffer = refl
type_of-type_number hw_resource = refl
type_of-type_number sched_policy = refl

pub same_type-eq : (a b : HandleType) → same_type a b ≡ true → a ≡ b
same_type-eq a b e =
    let n : type_number a ≡ type_number b = ground (arith, e) in
    sym (type_of-type_number a) ∙ ap type_of n ∙ type_of-type_number b

-- The handle is 0, or its entry has the type, the object and the rights.
abbrev pub LeadsTo : HandleType → ℕ → ℕ → Grant → Type 0
LeadsTo type object rights g =
    (g.handle ≡ 0)
    ⊎ ((h : TaskHandle) × (entry_of g.handles g.handle ≡ some h)
        × (h.type ≡ type)
        × (h.object ≡ object)
        × (h.rights ≡ rights))

entry_of_next : (hs : List TaskHandle) (n : ℕ) → entry_of hs (n + 1) ≡ get_elem? hs n
unfolding entry_of
entry_of_next hs n = let e : n + 1 ≡ suc n = omega arith in ap (entry_of hs) e

module _ (type : HandleType) (object rights : ℕ) where
  -- An entry that `find_same` finds, `i` entries behind the first.
  find_same_lem :
      (hs : List TaskHandle) (i : ℕ)
      → (find_same hs i type object rights ≡ 0)
        ⊎ ((k : ℕ) × (h : TaskHandle) × (find_same hs i type object rights ≡ i + k + 1)
            × (get_elem? hs k ≡ some h)
            × (h.type ≡ type)
            × (h.object ≡ object)
            × (h.rights ≡ rights))
  unfolding find_same
  find_same_lem [] i = inl refl
  find_same_lem (h ∷ hs) i =
      elim (Bool-cases (same_type h.type type && h.object == object && h.rights == rights)) [
        | inl e ↦ rw e (
            inr (
              0,
              h,
              omega arith,
              refl,
              same_type-eq h.type type (ground (arith, e)),
              ground (arith, e),
              ground (arith, e),
            ))
        | inr e ↦ rw e (elim (find_same_lem hs (i + 1)) [
          | inl z ↦ inl z
          | inr (k, x, n, g, t, o, q) ↦ inr (suc k, x, omega (arith, n), g, t, o, q)
        ])
      ]

  find_empty_lem :
      (hs : List TaskHandle) (i j : ℕ)
      → find_empty hs i ≡ some j
      → (k : ℕ) × (h : TaskHandle) × (j ≡ i + k) × (get_elem? hs k ≡ some h)
  unfolding find_empty
  find_empty_lem [] i j e = absurd (ground (arith, e))
  find_empty_lem (h ∷ hs) i j e = elim (Bool-cases (same_type h.type empty)) [
    | inl f ↦ (0, h, ground (arith, f, e), refl)
    | inr f ↦
        let (k, x, n, g) = find_empty_lem hs (i + 1) j (rw f at e) in
        (suc k, x, omega (arith, n), g)
  ]

  -- What a grant wrote into an entry.
  there_now :
      (hs : List TaskHandle) (k : ℕ) (h : TaskHandle)
      → get_elem? hs k ≡ some h
      → get_elem? (modify hs k (granted_entry type object rights)) k
        ≡ some (granted_entry type object rights h)
  there_now hs k h e = get_elem?-modify_self hs k (granted_entry type object rights) e

  behind :
      (hs : List TaskHandle) (x : TaskHandle) (ys : List TaskHandle)
      → get_elem? (hs ++ (x ∷ ys)) (length hs) ≡ some x
  behind [] x ys = refl
  behind (h ∷ hs) x ys = behind hs x ys

  grant_behind-LeadsTo :
      (lives : Bool) (hs : List TaskHandle)
      → LeadsTo type object rights (grant_behind lives hs type object rights)
  unfolding grant_behind
  grant_behind-LeadsTo true hs = inr (
    granted_entry type object rights empty_handle,
    entry_of_next _ (length hs) ∙ behind hs _ _,
    refl,
    refl,
    refl,
  )
  grant_behind-LeadsTo false hs = inl refl

  either_of :
      (b : Bool) (g g' : Grant)
      → LeadsTo type object rights g
      → LeadsTo type object rights g'
      → LeadsTo type object rights (if b then g else g')
  either_of true g g' k k' = k
  either_of false g g' k k' = k'

  grant_empty-LeadsTo :
      (memory : ℕ → Bool) (lives : Bool) (hs : List TaskHandle) (o : Option ℕ)
      → ((j : ℕ) → o ≡ some j → (h : TaskHandle) × (get_elem? hs j ≡ some h))
      → LeadsTo type object rights (grant_empty memory lives hs type object rights o)
  unfolding grant_empty
  grant_empty-LeadsTo memory true hs (some j) k =
      let (h, e) = k j refl in
      inr (
        granted_entry type object rights h,
        entry_of_next _ j ∙ there_now hs j h e,
        refl,
        refl,
        refl,
      )
  grant_empty-LeadsTo memory false hs (some j) k = inl refl
  grant_empty-LeadsTo memory lives hs none k =
      either_of (memory (length hs + 1)) _ _ (grant_behind-LeadsTo lives hs) (inl refl)

  empty_found :
      (hs : List TaskHandle) (j : ℕ)
      → find_empty hs 0 ≡ some j
      → (h : TaskHandle) × (get_elem? hs j ≡ some h)
  empty_found hs j e =
      let (k, h, n, g) = find_empty_lem hs 0 j e in
      let same : k ≡ j = omega (arith, n) in (h, subst (λ i. get_elem? hs i ≡ some h) same g)

  pub grant-LeadsTo :
      (memory : ℕ → Bool) (lives : Bool) (hs : List TaskHandle)
      → LeadsTo type object rights (grant memory lives hs type object rights)
  unfolding grant
  grant-LeadsTo memory lives hs = elim (find_same_lem hs 0) [
    | inl z ↦ rw z (grant_empty-LeadsTo memory lives hs (find_empty hs 0) (empty_found hs))
    | inr (k, h, n, g, t, o, q) ↦
        let n' : find_same hs 0 type object rights ≡ k + 1 = omega (arith, n) in
        let z : (k + 1 == 0) ≡ false = ground arith in
        rw (n', z) (inr (h, entry_of_next hs k ∙ g, t, o, q))
  ]

refused :
    {type : HandleType} {object rights : ℕ} (b : Bool) (hs : List TaskHandle) (g : Grant)
    → LeadsTo type object rights g
    → LeadsTo type object rights (if b then no_grant hs else g)
refused true hs g k = inl refl
refused false hs g k = k

grant_type-LeadsTo :
    (memory : ℕ → Bool) (before lives : Bool) (hs : List TaskHandle) (type : HandleType)
    (object rights : ℕ)
    → LeadsTo type object rights (grant_type memory before lives hs type object rights)
unfolding grant_type task_grant_port task_grant_buffer task_grant_task task_grant_hw_resource
    task_grant_sched_policy
grant_type-LeadsTo memory before lives hs empty object rights = inl refl
grant_type-LeadsTo memory before lives hs port object rights =
    refused (object == 0) hs _ (grant-LeadsTo port object rights memory true hs)
grant_type-LeadsTo memory before lives hs buffer object rights =
    refused (object == 0) hs _ (grant-LeadsTo buffer object rights memory true hs)
grant_type-LeadsTo memory before lives hs task object rights =
    refused (object == 0 || rights == 0 || not before) hs _
      (grant-LeadsTo task object rights memory lives hs)
grant_type-LeadsTo memory before lives hs hw_resource object rights =
    refused (object == 0 || rights == 0) hs _
      (grant-LeadsTo hw_resource object rights memory lives hs)
grant_type-LeadsTo memory before lives hs sched_policy object rights =
    refused (object == 0 || rights == 0) hs _
      (grant-LeadsTo sched_policy object rights memory lives hs)

-- What a task inherited: nothing, or a handle to the object of a handle of the other task that may be
-- passed on, with the rights that were asked for, all of which that handle has.
abbrev pub Inherited : List TaskHandle → ℕ → ℕ → Grant → Type 0
Inherited src handle rights g =
    (g.handle ≡ 0)
    ⊎ ((h : TaskHandle) × (entry_of src handle ≡ some h)
        × (can_dup h.rights ≡ true)
        × (within rights h.rights ≡ true)
        × LeadsTo h.type h.object rights g)

all_four : (a b c d : Bool) → (a && b && c && d) ≡ true → (b ≡ true) × (c ≡ true)
all_four a b c d e = (ground (arith, e), ground (arith, e))

inherit_entry-Inherited :
    (memory : ℕ → Bool) (alive before lives : Bool) (dst src : List TaskHandle) (handle rights : ℕ)
    (o : Option TaskHandle)
    → entry_of src handle ≡ o
    → Inherited src handle rights (inherit_entry memory alive before lives dst rights o)
unfolding inherit_entry
inherit_entry-Inherited memory alive before lives dst src handle rights none k = inl refl
inherit_entry-Inherited memory alive before lives dst src handle rights (some h) k =
    elim (Bool-cases
      (not (same_type h.type empty) && can_dup h.rights && within rights h.rights && alive)) [
        | inr e ↦ rw e (inl refl)
        | inl e ↦
            let (d, w) =
              all_four (not (same_type h.type empty)) (can_dup h.rights) (within rights h.rights)
                alive e in
            rw e
              (inr (h, k, d, w, grant_type-LeadsTo memory before lives dst h.type h.object rights))
      ]

-- task_grant_inherited_handle answers 0, or a handle to the object of a handle of the other task
-- that may be passed on, of the same type, with just the rights that were asked for, all of which
-- that handle has.
pub task_grant_inherited_handle-Inherited :
    (memory : ℕ → Bool) (alive before lives : Bool) (dst src : List TaskHandle) (handle rights : ℕ)
    → Inherited src handle rights
        (task_grant_inherited_handle memory alive before lives dst src handle rights)
unfolding task_grant_inherited_handle
task_grant_inherited_handle-Inherited memory alive before lives dst src handle rights =
    elim (Bool-cases (rights == 0)) [
      | inl e ↦ rw e (inl refl)
      | inr e ↦ rw e (
          inherit_entry-Inherited memory alive before lives dst src handle rights
            (entry_of src handle) refl)
    ]
