-- ===== src/Buffer/Count.antt =====
-- kernel/buffer.c: any sequence of its calls, and references that are taken and given back.
use bunix.Common.{
  ℕ, zero, suc, ◌+◌, ◌≤◌, ◌<◌, ◌≡◌, ◌≢◌, ◌∙◌, sym, refl, ap, false, ◌||◌, Option, none, some, List,
  [], ◌∷◌, ◌==◌, inl, inr, ltb, length, replicate, arith, Bool-cases, ==_self, u32_mod, add32,
}
use bunix.Buffer.{
  SharedBuffer, Buffers, buffer_max_size, write_buffer, on_buffer, create_with, buffer_create,
  destroyed, buffer_destroy, buffer_retain, drop_ref, drop_at, buffer_drop, release_at,
  buffer_release, Answer, done, out_of_bounds, written, write_at, buffer_write,
}
use bunix.Buffer.Access.{copy_in_total}

-- A buffer's block has the buffer's size, which is in the bounds of `buffer_create`.
pub record Block (b : SharedBuffer) : Type 0 where
  pub whole : length b.bytes ≡ b.size
  pub some_bytes : 0 < b.size
  pub bounded : b.size ≤ buffer_max_size

abbrev pub BlockAt : Option SharedBuffer → Type 0
BlockAt none = Unit {0}
BlockAt (some b) = Block b

abbrev pub AllBlocks : Buffers → Type 0
AllBlocks s = (q : ℕ) → BlockAt (s.buffers q)

write_buffer-BlockAt :
    (buffers : ℕ → Option SharedBuffer) (p : ℕ) (b : Option SharedBuffer)
    → BlockAt b
    → ((q : ℕ) → BlockAt (buffers q))
    → (q : ℕ) → BlockAt (write_buffer buffers p b q)
write_buffer-BlockAt buffers p b w v q = elim (Bool-cases (p == q)) [
  | inl e ↦ rw e w
  | inr e ↦ rw e (v q)
]

length-replicate : (n a : ℕ) → length (replicate n a) ≡ n
length-replicate zero a = refl
length-replicate (suc n) a = ap suc (length-replicate n a)

create_with-AllBlocks :
    (s : Buffers) (size : ℕ) (memory data_memory : Option ℕ)
    → 0 < size
    → size ≤ buffer_max_size
    → AllBlocks s
    → AllBlocks (create_with s size memory data_memory).1
unfolding create_with
create_with-AllBlocks s size none d lo hi v = v
create_with-AllBlocks s size (some p) none lo hi v = v
create_with-AllBlocks s size (some p) (some addr) lo hi v =
    write_buffer-BlockAt s.buffers p _
      (record { whole = length-replicate size 0; some_bytes = lo; bounded = hi }) v

buffer_create-AllBlocks :
    (s : Buffers) (size : ℕ) (memory data_memory : Option ℕ)
    → AllBlocks s
    → AllBlocks (buffer_create s size memory data_memory).1
unfolding buffer_create
buffer_create-AllBlocks s size m d v = elim (Bool-cases (size == 0 || ltb buffer_max_size size)) [
  | inl e ↦ rw e v
  | inr e ↦ rw e (create_with-AllBlocks s size m d (ground (arith, e)) (ground (arith, e)) v)
]

retained-BlockAt :
    (o : Option SharedBuffer)
    → BlockAt o
    → BlockAt (on_buffer (λ b. record b { ref_count = add32 b.ref_count 1 }) o)
retained-BlockAt none w = w
retained-BlockAt (some b) w = record {
  whole = w.whole;
  some_bytes = w.some_bytes;
  bounded = w.bounded;
}

buffer_retain-AllBlocks : (s : Buffers) (p : ℕ) → AllBlocks s → AllBlocks (buffer_retain s p)
unfolding buffer_retain
buffer_retain-AllBlocks s p v = elim (Bool-cases (p == 0)) [
  | inl e ↦ rw e v
  | inr e ↦ rw e (write_buffer-BlockAt s.buffers p _ (retained-BlockAt (s.buffers p) (v p)) v)
]

destroyed-BlockAt : (o : Option SharedBuffer) → BlockAt o → BlockAt (destroyed o)
destroyed-BlockAt none w = w
destroyed-BlockAt (some b) w = elim (Bool-cases (b.ref_count == 0)) [
  | inl e ↦ rw e tt
  | inr e ↦ rw e w
]

buffer_destroy-AllBlocks : (s : Buffers) (p : ℕ) → AllBlocks s → AllBlocks (buffer_destroy s p)
unfolding buffer_destroy
buffer_destroy-AllBlocks s p v = elim (Bool-cases (p == 0)) [
  | inl e ↦ rw e v
  | inr e ↦ rw e (write_buffer-BlockAt s.buffers p _ (destroyed-BlockAt (s.buffers p) (v p)) v)
]

release_at-AllBlocks :
    (s : Buffers) (p : ℕ) (o : Option SharedBuffer)
    → BlockAt o
    → AllBlocks s
    → AllBlocks (release_at s p o)
unfolding release_at
release_at-AllBlocks s p none w v = v
release_at-AllBlocks s p (some b) w v =
    let s' : Buffers = record s { buffers = write_buffer s.buffers p (some (drop_ref b)) } in
    let v' : AllBlocks s' =
      write_buffer-BlockAt s.buffers p (some (drop_ref b))
        (record { whole = w.whole; some_bytes = w.some_bytes; bounded = w.bounded }) v in
    elim (Bool-cases ((drop_ref b).ref_count == 0)) [
      | inl e ↦ rw e (buffer_destroy-AllBlocks s' p v')
      | inr e ↦ rw e v'
    ]

buffer_drop-AllBlocks : (s : Buffers) (p : ℕ) → AllBlocks s → AllBlocks (buffer_drop s p)
unfolding buffer_drop
buffer_drop-AllBlocks s p v = elim (Bool-cases (p == 0)) [
  | inl e ↦ rw e v
  | inr e ↦ rw e (dropped (s.buffers p) (v p))
]
  where
    dropped : (o : Option SharedBuffer) → BlockAt o → AllBlocks (drop_at s p o)
    dropped none w = v
    dropped (some b) w =
        write_buffer-BlockAt s.buffers p (some (drop_ref b))
          (record { whole = w.whole; some_bytes = w.some_bytes; bounded = w.bounded }) v

buffer_release-AllBlocks : (s : Buffers) (p : ℕ) → AllBlocks s → AllBlocks (buffer_release s p)
unfolding buffer_release
buffer_release-AllBlocks s p v = elim (Bool-cases (p == 0)) [
  | inl e ↦ rw e v
  | inr e ↦ rw e (release_at-AllBlocks s p (s.buffers p) (v p) v)
]

-- The state after an answer.
abbrev pub after : Buffers → Answer Buffers → Buffers
after s (done s') = s'
after s _ = s

write_at-AllBlocks :
    (s : Buffers) (p : ℕ) (o : Option SharedBuffer) (offset : ℕ) (src : List ℕ)
    → BlockAt o
    → AllBlocks s
    → AllBlocks (after s (write_at s p o offset src))
unfolding write_at written
write_at-AllBlocks s p none offset src w v = v
write_at-AllBlocks s p (some b) offset src w v =
    elim (Bool-cases (out_of_bounds b offset (length src))) [
      | inl e ↦ rw e v
      | inr e ↦
          let (bytes', f, l, back, same) =
            copy_in_total b.bytes offset src (ground (arith, e, w.whole)) in
          rw e (
            rw f (
              write_buffer-BlockAt s.buffers p _
                (record { whole = l ∙ w.whole; some_bytes = w.some_bytes; bounded = w.bounded }) v))
    ]

buffer_write-AllBlocks :
    (s : Buffers) (p offset : ℕ) (src : List ℕ)
    → AllBlocks s
    → AllBlocks (after s (buffer_write s p offset src))
unfolding buffer_write
buffer_write-AllBlocks s p offset src v = elim (Bool-cases (p == 0)) [
  | inl e ↦ rw e v
  | inr e ↦ rw e (write_at-AllBlocks s p (s.buffers p) offset src (v p) v)
]

-- `drop` and `destroy` are the two sections of a release, which other calls may come between.
pub data Call : Type 0 where
  create : ℕ → Option ℕ → Option ℕ → Call
  retain : ℕ → Call
  release : ℕ → Call
  drop : ℕ → Call
  destroy : ℕ → Call
  write : ℕ → ℕ → List ℕ → Call

pub step : Buffers → Call → Buffers
step s (create size memory data_memory) = (buffer_create s size memory data_memory).1
step s (retain p) = buffer_retain s p
step s (release p) = buffer_release s p
step s (drop p) = buffer_drop s p
step s (destroy p) = buffer_destroy s p
step s (write p offset src) = after s (buffer_write s p offset src)

pub run : Buffers → List Call → Buffers
run s [] = s
run s (c ∷ cs) = run (step s c) cs

step-AllBlocks : (s : Buffers) (c : Call) → AllBlocks s → AllBlocks (step s c)
unfolding step
step-AllBlocks s (create size m d) v = buffer_create-AllBlocks s size m d v
step-AllBlocks s (retain p) v = buffer_retain-AllBlocks s p v
step-AllBlocks s (release p) v = buffer_release-AllBlocks s p v
step-AllBlocks s (drop p) v = buffer_drop-AllBlocks s p v
step-AllBlocks s (destroy p) v = buffer_destroy-AllBlocks s p v
step-AllBlocks s (write p offset src) v = buffer_write-AllBlocks s p offset src v

-- Whatever calls are made, in any order, with the two sections of a release as calls of their own,
-- the block of each buffer has the size that the buffer records, between 1 byte and 2 MiB, if that
-- holds at the start.
pub run-AllBlocks : (cs : List Call) (s : Buffers) → AllBlocks s → AllBlocks (run s cs)
unfolding run
run-AllBlocks [] s v = v
run-AllBlocks (c ∷ cs) s v = run-AllBlocks cs (step s c) (step-AllBlocks s c v)

given_back :
    (s : Buffers) (p : ℕ) (b : SharedBuffer)
    → s.buffers p ≡ some b
    → 0 < b.ref_count
    → b.ref_count + 1 < u32_mod
    → (q : ℕ)
    → let b1 : SharedBuffer = record b { ref_count = add32 b.ref_count 1 } in
      (release_at (record s { buffers = write_buffer s.buffers p (some b1) }) p (some b1)).buffers q
      ≡ s.buffers q
unfolding release_at
given_back s p b at held room q =
    let b1 : SharedBuffer = record b { ref_count = add32 b.ref_count 1 } in
    let count : (drop_ref b1).ref_count ≡ b.ref_count = ground (arith, held, room) in
    let alive : ((drop_ref b1).ref_count == 0) ≡ false = ground (arith, count, held) in
    let same : drop_ref b1 ≡ b = ap (λ n. record b { ref_count = n }) count in
    elim (Bool-cases (p == q)) [
      | inl e ↦
          let pq : p ≡ q = ground (arith, e) in
          rw alive (rw e (ap some same ∙ (sym at ∙ ap s.buffers pq)))
      | inr e ↦ rw alive (rw e refl)
    ]

-- A reference that is taken on a buffer in use and given back leaves every buffer as it was; the
-- count has room.
pub release-retain :
    (s : Buffers) (p : ℕ) (b : SharedBuffer)
    → p ≢ 0
    → s.buffers p ≡ some b
    → 0 < b.ref_count
    → b.ref_count + 1 < u32_mod
    → (q : ℕ) → (buffer_release (buffer_retain s p) p).buffers q ≡ s.buffers q
unfolding buffer_release buffer_retain
release-retain s p b nz at held room q =
    let z : (p == 0) ≡ false = ground (arith, nz) in
    rw (z, at) (rw (==_self p) (given_back s p b at held room q))
