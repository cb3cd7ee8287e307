-- ===== src/Chunks.antt =====
-- `fpsi/utils/commu_util.cpp`: lists of blocks in one piece and in several. A message is the list
-- of the blocks in it; sending is the list of the messages, in order. The size of a message,
-- `COMMU_CHUNK_SIZE` of `fpsi/config.h`, is an argument.
pub mod Laws
use opprf_fpsi.Prelude.{
  ℕ, zero, suc, ◌+◌, ◌*◌, ◌/◌, ◌%◌, Bool, ◌||◌, not, ◌==◌, if◌then◌else◌, ◌++◌, List, [], ◌∷◌,
  length, take, drop, Result, ok, err, ◌>>=◌, undefined, runtime_error,
}

module _ {ℓ} {A : Type ℓ} where
  unfoldable pub flatten_blocks : List (List A) → List A
  flatten_blocks [] = []
  flatten_blocks (inner ∷ block_data) = inner ++ flatten_blocks block_data

  -- `left` pieces of one size, one behind the other.
  unfoldable pub pieces : ℕ → ℕ → List A → List (List A)
  pieces zero size blks = []
  pieces (suc left) size blks = take size blks ∷ pieces left size (drop size blks)

  -- Where an assertion fails, the call is undefined.
  unfoldable pub chunk_fixed_size_blocks : List A → ℕ → Result (List (List A))
  chunk_fixed_size_blocks flat_data chunk_size =
      if chunk_size == 0 || not (length flat_data % chunk_size == 0)
      then err undefined
      else ok (pieces (length flat_data / chunk_size) chunk_size flat_data)

  -- The messages: full ones, and one with the rest if there is a rest.
  unfoldable pub send_chunk : ℕ → List A → List (List A)
  send_chunk size blks =
      pieces (length blks / size) size blks
      ++ (if length blks % size == 0 then [] else drop (length blks / size * size) blks ∷ [])

  -- One message of the expected size; another size is refused by the socket.
  unfoldable pub recv_one : ℕ → List (List A) → Result (List A × List (List A))
  recv_one size [] = err runtime_error
  recv_one size (m ∷ ms) = if length m == size then ok (m, ms) else err runtime_error

  unfoldable pub recv_pieces : ℕ → ℕ → List (List A) → Result (List A × List (List A))
  recv_pieces zero size ms = ok ([], ms)
  recv_pieces (suc left) size ms = do
    (m, rest) ← recv_one size ms
    (blks, last) ← recv_pieces left size rest
    ok (m ++ blks, last)

  -- The blocks, for a buffer of `flat_size` blocks, and the messages that are left.
  unfoldable pub recv_chunk : ℕ → ℕ → List (List A) → Result (List A × List (List A))
  recv_chunk size flat_size ms = do
    (blks, rest) ← recv_pieces (flat_size / size) size ms
    if flat_size % size == 0
        then ok (blks, rest)
        else recv_one (flat_size % size) rest >>= λ last. ok (blks ++ last.0, last.1)
