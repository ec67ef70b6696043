-- ===== src/Buffer/Tests.antt =====
-- kernel/buffer.c: two buffers.
use bunix.Common.{◌≡◌, refl, none, some, [], ◌∷◌, arith}
use bunix.Buffer.{SharedBuffer, Buffers, write_buffer, buffer_retain, buffer_release, buffer_write}
use bunix.Buffer.Access.{Written, buffer_write-Written}
use bunix.Buffer.Count.{AllBlocks, run, create, write, drop, destroy, run-AllBlocks, release-retain}

abbrev four_bytes : SharedBuffer
four_bytes = record {
  id = 1;
  size = 4;
  ref_count = 1;
  data_addr = 8192;
  bytes = 1 ∷ 2 ∷ 3 ∷ 4 ∷ [];
}

abbrev nothing : Buffers
nothing = record { buffers = λ q. none; next_buffer_id = 1 }

abbrev one_buffer : Buffers
one_buffer = record { buffers = write_buffer (λ q. none) 64 (some four_bytes); next_buffer_id = 2 }

buffer_write-Written_example :
    Written one_buffer 64 four_bytes 1 (7 ∷ 8 ∷ []) (buffer_write one_buffer 64 1 (7 ∷ 8 ∷ []))
buffer_write-Written_example =
    buffer_write-Written one_buffer 64 four_bytes (omega arith) refl refl 1 (7 ∷ 8 ∷ [])

run-AllBlocks_example :
    AllBlocks (
      run nothing
        (create 4 (some 64) (some 8192) ∷ drop 64 ∷ write 64 3 (9 ∷ []) ∷ destroy 64 ∷ []))
run-AllBlocks_example =
    run-AllBlocks (create 4 (some 64) (some 8192) ∷ drop 64 ∷ write 64 3 (9 ∷ []) ∷ destroy 64 ∷ [])
      nothing (λ q. tt)

release-retain_example :
    (buffer_release (buffer_retain one_buffer 64) 64).buffers 64 ≡ one_buffer.buffers 64
release-retain_example =
    release-retain one_buffer 64 four_bytes (omega arith) refl (omega arith) (omega arith) 64
