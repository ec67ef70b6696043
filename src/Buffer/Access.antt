-- ===== src/Buffer/Access.antt =====
-- kernel/buffer.c: `buffer_read` and `buffer_write` stay inside a buffer's block, and what is written
-- is read.
use bunix.Common.{
  ℕ, zero, suc, ◌+◌, ◌≤◌, ◌<◌, ◌≡◌, ◌∙◌, refl, ap, Bool, true, false, some, List, [], ◌∷◌, ◌==◌,
  ◌≢◌, ◌⊎◌, inl, inr, ltb, length, get_elem?, modify, length-modify, get_elem?-modify_self,
  get_elem?-modify_ne, arith, Bool-cases, ==_self,
}
use bunix.Buffer.{
  SharedBuffer, Buffers, write_buffer, copy_out, copy_in, out_of_bounds, Answer, refused, done,
  fault, from_copy, read_at, buffer_read, written, write_at, buffer_write,
}

get_elem?_inside : (xs : List ℕ) (i : ℕ) → i < length xs → (x : ℕ) × (get_elem? xs i ≡ some x)
get_elem?_inside [] i h = absurd (omega (arith, h))
get_elem?_inside (x ∷ xs) zero h = (x, refl)
get_elem?_inside (x ∷ xs) (suc i) h = get_elem?_inside xs i (omega (arith, h))

copy_out_step :
    (bytes : List ℕ) (i n b : ℕ) (bs : List ℕ)
    → get_elem? bytes i ≡ some b
    → copy_out bytes (suc i) n ≡ some bs
    → copy_out bytes i (suc n) ≡ some (b ∷ bs)
unfolding copy_out
copy_out_step bytes i n b bs e f = ground (arith, e, f)

-- A copy out of a block that has the bytes.
copy_out_total :
    (bytes : List ℕ) (i n : ℕ)
    → i + n ≤ length bytes
    → (bs : List ℕ) × (copy_out bytes i n ≡ some bs) × (length bs ≡ n)
unfolding copy_out
copy_out_total bytes i zero h = ([], refl, refl)
copy_out_total bytes i (suc n) h =
    let (b, e) = get_elem?_inside bytes i (omega (arith, h)) in
    let (bs, f, l) = copy_out_total bytes (suc i) n (omega (arith, h)) in
    (b ∷ bs, copy_out_step bytes i n b bs e f, ap suc l)

outside : (i j n : ℕ) → (j < i) ⊎ (i + suc n ≤ j) → (j < suc i) ⊎ (suc i + n ≤ j)
outside i j n (inl h) = inl (omega (arith, h))
outside i j n (inr h) = inr (omega (arith, h))

apart : (i j n : ℕ) → (j < i) ⊎ (i + suc n ≤ j) → i ≢ j
apart i j n (inl h) = λ e. omega (arith, h, e)
apart i j n (inr h) = λ e. omega (arith, h, e)

-- A copy into a block that has the room.
pub copy_in_total :
    (bytes : List ℕ) (i : ℕ) (src : List ℕ)
    → i + length src ≤ length bytes
    → (bytes' : List ℕ) × (copy_in bytes i src ≡ some bytes')
      × (length bytes' ≡ length bytes)
      × (copy_out bytes' i (length src) ≡ some src)
      × ((j : ℕ) → (j < i) ⊎ (i + length src ≤ j) → get_elem? bytes' j ≡ get_elem? bytes j)
unfolding copy_in copy_out
copy_in_total bytes i [] h = (bytes, refl, refl, refl, λ j o. refl)
copy_in_total bytes i (b ∷ src) h =
    let data1 = modify bytes i (λ _. b) in
    let l1 : length data1 ≡ length bytes = length-modify bytes i (λ _. b) in
    let (bytes', e, l, back, same) = copy_in_total data1 (suc i) src (omega (arith, h, l1)) in
    let (x, at) = get_elem?_inside bytes i (omega (arith, h)) in
    let inside : ltb i (length bytes) ≡ true = ground (arith, h) in
    let here : get_elem? bytes' i ≡ some b =
      same i (inl (omega arith)) ∙ get_elem?-modify_self bytes i (λ _. b) at in
    (
      bytes',
      rw inside e,
      l ∙ l1,
      copy_out_step bytes' i (length src) b src here back,
      λ j o.
          same j (outside i j (length src) o)
          ∙ get_elem?-modify_ne bytes i j (λ _. b) (apart i j (length src) o),
    )

-- What a call of `buffer_write` did: it was refused, since the bytes do not fit, or they are what
-- `buffer_read` then finds there, and every other byte and every other buffer are as before. It never
-- leaves the block.
abbrev pub Written : Buffers → ℕ → SharedBuffer → ℕ → List ℕ → Answer Buffers → Type 0
Written s p b offset src refused = b.size < offset + length src
Written s p b offset src fault = ◌≡◌ {A = Bool} true false
Written s p b offset src (done s') =
    (offset + length src ≤ b.size)
    × (buffer_read s' p offset (length src) ≡ done src)
    × ((b' : SharedBuffer) × (s'.buffers p ≡ some b')
        × (length b'.bytes ≡ length b.bytes)
        × ((j : ℕ)
            → (j < offset) ⊎ (offset + length src ≤ j)
            → get_elem? b'.bytes j ≡ get_elem? b.bytes j))
    × ((q : ℕ) → p ≢ q → s'.buffers q ≡ s.buffers q)

module _ (s : Buffers) (p : ℕ) (b : SharedBuffer) (nz : p ≢ 0) (at : s.buffers p ≡ some b)
    (block : length b.bytes ≡ b.size) where
  write_back :
      (offset : ℕ) (src bytes' : List ℕ)
      → offset + length src ≤ b.size
      → copy_out bytes' offset (length src) ≡ some src
      → let s' : Buffers = record s {
        buffers = write_buffer s.buffers p (some (record b { bytes = bytes' }));
      } in
        buffer_read s' p offset (length src) ≡ done src
  unfolding buffer_read read_at
  write_back offset src bytes' fits back =
      let z : (p == 0) ≡ false = ground (arith, nz) in
      let inside : out_of_bounds b offset (length src) ≡ false = ground (arith, fits) in
      rw z (rw (==_self p) (rw inside (ap from_copy back)))

  written_total :
      (offset : ℕ) (src : List ℕ)
      → offset + length src ≤ b.size
      → Written s p b offset src (written s p b (copy_in b.bytes offset src))
  unfolding written
  written_total offset src fits =
      let (bytes', e, l, back, same) =
        copy_in_total b.bytes offset src (omega (arith, fits, block)) in
      rw e (
        fits,
        write_back offset src bytes' fits back,
        (record b { bytes = bytes' }, rw (==_self p) refl, l, same),
        λ q ne. let f : (p == q) ≡ false = ground (arith, ne) in rw f refl,
      )

  -- buffer_write to a buffer whose block has the buffer's size is refused exactly where the bytes
  -- do not fit. Otherwise buffer_read finds them there, and every other byte of the buffer and
  -- every other buffer are as before. No byte outside the block is touched.
  pub buffer_write-Written :
      (offset : ℕ) (src : List ℕ) → Written s p b offset src (buffer_write s p offset src)
  unfolding buffer_write write_at
  buffer_write-Written offset src =
      let z : (p == 0) ≡ false = ground (arith, nz) in
      elim (Bool-cases (out_of_bounds b offset (length src))) [
        | inl o ↦ rw (z, at) (rw o (ground (arith, o)))
        | inr o ↦ rw (z, at) (rw o (written_total offset src (ground (arith, o))))
      ]
