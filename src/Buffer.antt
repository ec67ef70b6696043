-- ===== src/Buffer.antt =====
-- kernel/buffer.c: shared buffers, which tasks pass on in messages. A pointer to a buffer is a number
-- that is not 0, and `buffers` gives the buffer behind it. An access to a byte that is not in the
-- block of a buffer is `none`. What the slab allocator answers is an argument; its blocks are cleared.
-- Log lines are left out. What a task reads into or writes from is a list, so that pointer is not null;
-- a buffer that is there has a block, since `buffer_create` makes none without and `buffer_destroy` takes
-- both away.
pub mod Access
pub mod Count
mod Tests
use bunix.Common.{
  ℕ, zero, suc, ◌-◌, ◌*◌, Bool, true, false, not, ◌||◌, Option, none, some, List, [], ◌∷◌,
  if◌then◌else◌, ◌==◌, ltb, length, get_elem?, modify, replicate, add64, add32,
}

abbrev pub buffer_max_size : ℕ
buffer_max_size = 2 * 1024 * 1024

pub record SharedBuffer : Type 0 where
  pub id : ℕ
  pub size : ℕ
  pub ref_count : ℕ
  pub data_addr : ℕ
  pub bytes : List ℕ

pub record Buffers : Type 0 where
  pub buffers : ℕ → Option SharedBuffer
  pub next_buffer_id : ℕ

abbrev pub write_buffer :
    (ℕ → Option SharedBuffer) → ℕ → Option SharedBuffer → ℕ → Option SharedBuffer
write_buffer buffers p b q = if p == q then b else buffers q

unfoldable pub create_with : Buffers → ℕ → Option ℕ → Option ℕ → ℕ × Buffers
create_with s size none data_memory = (0, s)
create_with s size (some p) none = (0, s)
create_with s size (some p) (some addr) =
    let b : SharedBuffer = record {
      id = s.next_buffer_id;
      size = size;
      ref_count = 1;
      data_addr = addr;
      bytes = replicate size 0;
    } in
    (
      p,
      record {
        buffers = write_buffer s.buffers p (some b);
        next_buffer_id = add64 s.next_buffer_id 1;
      },
    )

unfoldable pub buffer_create : Buffers → ℕ → Option ℕ → Option ℕ → ℕ × Buffers
unfolding create_with
buffer_create s size memory data_memory =
    if size == 0 || ltb buffer_max_size size then (0, s) else create_with s size memory data_memory

-- Writes through a pointer that is not null.
abbrev pub on_buffer : (SharedBuffer → SharedBuffer) → Option SharedBuffer → Option SharedBuffer
on_buffer f none = none
on_buffer f (some b) = some (f b)

abbrev pub destroyed : Option SharedBuffer → Option SharedBuffer
destroyed none = none
destroyed (some b) = if not (b.ref_count == 0) then some b else none

unfoldable pub buffer_destroy : Buffers → ℕ → Buffers
buffer_destroy s p =
    if p == 0 then s else record s { buffers = write_buffer s.buffers p (destroyed (s.buffers p)) }

unfoldable pub buffer_retain : Buffers → ℕ → Buffers
buffer_retain s p = if p == 0 then s else record s {
  buffers =
      write_buffer s.buffers p
        (on_buffer (λ b. record b { ref_count = add32 b.ref_count 1 }) (s.buffers p));
}

abbrev pub drop_ref : SharedBuffer → SharedBuffer
drop_ref b = record b { ref_count = if ltb 0 b.ref_count then b.ref_count - 1 else b.ref_count }

-- The section of `buffer_release` that holds the lock of the table.
abbrev drop_at : Buffers → ℕ → Option SharedBuffer → Buffers
drop_at s p none = s
drop_at s p (some b) = record s { buffers = write_buffer s.buffers p (some (drop_ref b)) }

unfoldable pub buffer_drop : Buffers → ℕ → Buffers
buffer_drop s p = if p == 0 then s else drop_at s p (s.buffers p)

-- `buffer_destroy` comes after the lock is given up, and looks at the count again. This is the call
-- where no other one runs between the two; where others do, it is `buffer_drop`, then those, then
-- `buffer_destroy`.
unfoldable pub release_at : Buffers → ℕ → Option SharedBuffer → Buffers
unfolding buffer_destroy
release_at s p none = s
release_at s p (some b) =
    let s' = record s { buffers = write_buffer s.buffers p (some (drop_ref b)) } in
    if (drop_ref b).ref_count == 0 then buffer_destroy s' p else s'

unfoldable pub buffer_release : Buffers → ℕ → Buffers
unfolding release_at
buffer_release s p = if p == 0 then s else release_at s p (s.buffers p)

abbrev pub field : (SharedBuffer → ℕ) → Option SharedBuffer → ℕ
field f none = 0
field f (some b) = f b

unfoldable pub buffer_id : Buffers → ℕ → ℕ
buffer_id s p = if p == 0 then 0 else field (λ b. b.id) (s.buffers p)

unfoldable pub buffer_size : Buffers → ℕ → ℕ
buffer_size s p = if p == 0 then 0 else field (λ b. b.size) (s.buffers p)

unfoldable pub buffer_phys : Buffers → ℕ → ℕ
buffer_phys s p = if p == 0 then 0 else field (λ b. b.data_addr) (s.buffers p)

-- `mem_copy` out of a block: the bytes from an index on.
unfoldable pub copy_out : List ℕ → ℕ → ℕ → Option (List ℕ)
copy_out bytes i zero = some []
copy_out bytes i (suc n) = elim (get_elem? bytes i) [
  | none ↦ none
  | some b ↦ elim (copy_out bytes (suc i) n) [ none ↦ none | some bs ↦ some (b ∷ bs) ]
]

-- `mem_copy` into a block, of bytes `src`.
unfoldable pub copy_in : List ℕ → ℕ → List ℕ → Option (List ℕ)
copy_in bytes i [] = some bytes
copy_in bytes i (b ∷ src) =
    let rest = copy_in (modify bytes i (λ _. b)) (suc i) src in
    if ltb i (length bytes) then rest else none

abbrev pub out_of_bounds : SharedBuffer → ℕ → ℕ → Bool
out_of_bounds b offset len = ltb b.size offset || ltb (b.size - offset) len

-- The answer to a call: `refused` is the source's -1.
pub data Answer {ℓ} (A : Type ℓ) : Type ℓ where
  refused : Answer A
  done : A → Answer A
  fault : Answer A

abbrev pub from_copy {ℓ} : {A : Type ℓ} → Option A → Answer A
from_copy none = fault
from_copy (some a) = done a

unfoldable pub read_at : Option SharedBuffer → ℕ → ℕ → Answer (List ℕ)
unfolding copy_out
read_at none offset len = refused
read_at (some b) offset len =
    if out_of_bounds b offset len then refused else from_copy (copy_out b.bytes offset len)

unfoldable pub buffer_read : Buffers → ℕ → ℕ → ℕ → Answer (List ℕ)
unfolding read_at
buffer_read s p offset len = if p == 0 then refused else read_at (s.buffers p) offset len

unfoldable pub written : Buffers → ℕ → SharedBuffer → Option (List ℕ) → Answer Buffers
written s p b none = fault
written s p b (some bytes) =
    done (record s { buffers = write_buffer s.buffers p (some (record b { bytes = bytes })) })

unfoldable pub write_at : Buffers → ℕ → Option SharedBuffer → ℕ → List ℕ → Answer Buffers
unfolding copy_in written
write_at s p none offset src = refused
write_at s p (some b) offset src =
    if out_of_bounds b offset (length src)
    then refused
    else written s p b (copy_in b.bytes offset src)

unfoldable pub buffer_write : Buffers → ℕ → ℕ → List ℕ → Answer Buffers
unfolding write_at
buffer_write s p offset src = if p == 0 then refused else write_at s p (s.buffers p) offset src
