-- ===== src/Tests/Pieces.antt =====
-- `fpsi/utils/commu_util.cpp` on short lists.
use opprf_fpsi.Prelude.{ℕ, ◌≡◌, refl, List, [], ◌∷◌, arith, length, ok}
use opprf_fpsi.Chunks.{flatten_blocks, chunk_fixed_size_blocks, send_chunk, recv_chunk}
use opprf_fpsi.Chunks.Laws.{chunk_fixed_size_blocks-flatten_blocks, recv_chunk-send_chunk}

abbrev pairs : List (List ℕ)
pairs = (1 ∷ 2 ∷ []) ∷ (3 ∷ 4 ∷ []) ∷ []

chunk_fixed_size_blocks-flatten_blocks_example :
    chunk_fixed_size_blocks (flatten_blocks pairs) 2 ≡ ok pairs
chunk_fixed_size_blocks-flatten_blocks_example =
    chunk_fixed_size_blocks-flatten_blocks 2 pairs (omega arith) (refl, (refl, tt))

abbrev five : List ℕ
five = 1 ∷ 2 ∷ 3 ∷ 4 ∷ 5 ∷ []

recv_chunk-send_chunk_example : recv_chunk 2 (length five) (send_chunk 2 five) ≡ ok (five, [])
recv_chunk-send_chunk_example = recv_chunk-send_chunk 2 five (omega arith)
