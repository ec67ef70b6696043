-- ===== src/Handles/Share.antt =====
-- kernel/sched.c: handles that tasks get from each other.
use bunix.Common.{
  ℕ, zero, suc, ◌≡◌, refl, Bool, true, not, ◌&&◌, Option, none, some, List, ◌⊎◌, inl, inr, ◌==◌,
  if◌then◌else◌, get_elem?, arith, Bool-cases,
}
use bunix.Handles.{
  HandleType, empty, same_type, TaskHandle, empty_handle, within, can_dup, entry_of, inherit_entry,
  task_grant_inherited_handle, set_tag, task_set_handle_tag, close_entry, task_close_handle,
}
use bunix.Handles.Rights.{
  All, All-get_elem?, All-modify, All-of, bits_within_self, bits_within_trans, grant_type-All,
}

-- The tables of all tasks.
abbrev pub write_table : (ℕ → List TaskHandle) → ℕ → List TaskHandle → ℕ → List TaskHandle
write_table tables t hs u = if t == u then hs else tables u

-- Tasks inherit handles from each other, set tags and close handles, in any order.
pub data Shares (start : ℕ → List TaskHandle) : (ℕ → List TaskHandle) → Type 0 where
  at_start : Shares start start
  inherited :
      {now : ℕ → List TaskHandle} (memory : ℕ → Bool) (alive before lives : Bool)
      (dst src handle rights : ℕ)
      → Shares start now
      → Shares start (
          write_table now dst
            (task_grant_inherited_handle memory alive before lives
              (now dst)
              (now src)
              handle
              rights).handles)
  tagged :
      {now : ℕ → List TaskHandle} (t handle tag : ℕ)
      → Shares start now
      → Shares start (write_table now t (task_set_handle_tag (now t) handle tag).1)
  closed :
      {now : ℕ → List TaskHandle} (t handle : ℕ)
      → Shares start now
      → Shares start (write_table now t (task_close_handle (now t) handle).1)

-- At the start a task had a handle to the object with at least these rights, or there is no handle.
abbrev pub Given : (ℕ → List TaskHandle) → HandleType → ℕ → ℕ → Type 0
Given start type object rights =
    (type ≡ empty)
    ⊎ ((t : ℕ) × (i : ℕ) × (h : TaskHandle) × (get_elem? (start t) i ≡ some h)
        × (h.type ≡ type)
        × (h.object ≡ object)
        × (within rights h.rights ≡ true))

Given-less :
    (start : ℕ → List TaskHandle) (type : HandleType) (object rights held : ℕ)
    → within rights held ≡ true
    → Given start type object held
    → Given start type object rights
Given-less start type object rights held w (inl e) = inl e
Given-less start type object rights held w (inr (t, i, h, e, f, g, k)) =
    inr (t, i, h, e, f, g, bits_within_trans 32 rights held h.rights w k)

third : (a b c d : Bool) → (a && b && c && d) ≡ true → c ≡ true
third a b c d e = ground (arith, e)

module _ (start : ℕ → List TaskHandle) where
  at_start-Given : (t : ℕ) → All (Given start) (inl refl) (start t)
  at_start-Given t =
      All-of (Given start) (inl refl) (start t)
        (λ i h e. inr (t, i, h, e, refl, refl, bits_within_self 32 h.rights))

  entry-Given :
      (hs : List TaskHandle) (handle : ℕ) (h : TaskHandle)
      → All (Given start) (inl refl) hs
      → entry_of hs handle ≡ some h
      → Given start h.type h.object h.rights
  unfolding entry_of
  entry-Given hs zero h a e = absurd (ground (arith, e))
  entry-Given hs (suc i) h a e = All-get_elem? (Given start) (inl refl) hs i h a e

  inherit_entry-Given :
      (memory : ℕ → Bool) (alive before lives : Bool) (dst : List TaskHandle) (rights : ℕ)
      (o : Option TaskHandle)
      → ((h : TaskHandle) → o ≡ some h → Given start h.type h.object h.rights)
      → All (Given start) (inl refl) dst
      → All (Given start) (inl refl) (inherit_entry memory alive before lives dst rights o).handles
  unfolding inherit_entry
  inherit_entry-Given memory alive before lives dst rights none k a = a
  inherit_entry-Given memory alive before lives dst rights (some h) k a =
      elim (Bool-cases
        (not (same_type h.type empty) && can_dup h.rights && within rights h.rights && alive)) [
          | inr e ↦ rw e a
          | inl e ↦ rw e (
              grant_type-All (Given start) (inl refl) memory before lives dst h.type h.object rights
                (Given-less start h.type h.object rights h.rights
                  (third (not (same_type h.type empty)) (can_dup h.rights) (within rights h.rights)
                    alive e)
                  (k h refl))
                a)
        ]

  inherited-Given :
      (memory : ℕ → Bool) (alive before lives : Bool) (dst src : List TaskHandle)
      (handle rights : ℕ)
      → All (Given start) (inl refl) dst
      → All (Given start) (inl refl) src
      → All
          (Given start)
          (inl refl)
          (task_grant_inherited_handle memory alive before lives dst src handle rights).handles
  unfolding task_grant_inherited_handle
  inherited-Given memory alive before lives dst src handle rights a b =
      elim (Bool-cases (rights == 0)) [
        | inl e ↦ rw e a
        | inr e ↦ rw e (
            inherit_entry-Given memory alive before lives dst rights (entry_of src handle)
              (λ h. entry-Given src handle h b) a)
      ]

  set_tag-Given :
      (hs : List TaskHandle) (i tag : ℕ) (o : Option TaskHandle)
      → All (Given start) (inl refl) hs
      → All (Given start) (inl refl) (set_tag hs i tag o).1
  unfolding set_tag
  set_tag-Given hs i tag none a = a
  set_tag-Given hs i tag (some h) a = elim (Bool-cases (same_type h.type empty)) [
    | inl e ↦ rw e a
    | inr e ↦
        rw e (All-modify (Given start) (inl refl) hs i (λ x. record x { tag = tag }) (λ x q. q) a)
  ]

  close_entry-Given :
      (hs : List TaskHandle) (i : ℕ) (o : Option TaskHandle)
      → All (Given start) (inl refl) hs
      → All (Given start) (inl refl) (close_entry hs i o).1
  unfolding close_entry
  close_entry-Given hs i none a = a
  close_entry-Given hs i (some h) a = elim (Bool-cases (same_type h.type empty)) [
    | inl e ↦ rw e a
    | inr e ↦
        rw e (All-modify (Given start) (inl refl) hs i (λ x. empty_handle) (λ x q. inl refl) a)
  ]

  write-Given :
      (now : ℕ → List TaskHandle) (t : ℕ) (hs : List TaskHandle)
      → ((u : ℕ) → All (Given start) (inl refl) (now u))
      → All (Given start) (inl refl) hs
      → (u : ℕ) → All (Given start) (inl refl) (write_table now t hs u)
  write-Given now t hs a b u = elim (Bool-cases (t == u)) [ inl e ↦ rw e b | inr e ↦ rw e (a u) ]

  Shares-lem :
      {now : ℕ → List TaskHandle}
      → Shares start now
      → (u : ℕ) → All (Given start) (inl refl) (now u)
  unfolding task_set_handle_tag task_close_handle
  Shares-lem at_start u = at_start-Given u
  Shares-lem (inherited {now} memory alive before lives dst src handle rights s) u =
      write-Given now dst _ (Shares-lem s)
        (inherited-Given memory alive before lives (now dst) (now src) handle rights
          (Shares-lem s dst) (Shares-lem s src))
        u
  Shares-lem (tagged {now} t handle tag s) u =
      write-Given now t _ (Shares-lem s)
        (set_tag-Given (now t) _ tag (entry_of (now t) handle) (Shares-lem s t)) u
  Shares-lem (closed {now} t handle s) u =
      write-Given now t _ (Shares-lem s)
        (close_entry-Given (now t) _ (entry_of (now t) handle) (Shares-lem s t)) u

-- However tasks inherit handles from each other, set their tags and close them, a handle in use
-- leads to an object to which some task had a handle at the start, of the same type and with at
-- least the same rights: rights are never gained.
pub Shares-Given :
    (start now : ℕ → List TaskHandle) (t i : ℕ) (h : TaskHandle)
    → Shares start now
    → get_elem? (now t) i ≡ some h
    → Given start h.type h.object h.rights
Shares-Given start now t i h s e =
    All-get_elem? (Given start) (inl refl) (now t) i h (Shares-lem start s t) e
