-- ===== src/Ufmap.antt =====
-- `fpsi/ufmap/ufmap.cpp`: the unbalanced fuzzy mapping. A coordinate is the low half of its block;
-- a block is given with its two halves.
pub mod Blocks
pub mod Recover
pub mod Ids
pub mod Exchange
use opprf_fpsi.Prelude.{
  ℕ, zero, suc, ◌+◌, ◌-◌, ◌*◌, ◌/◌, ◌≡◌, List, [], ◌∷◌, if◌then◌else◌, ◌==◌, leb, u64, flat_range,
}
use opprf_fpsi.Mapping.Field.{Field}
use opprf_fpsi.Mapping.Exchange.{sum_from}

-- `cell2Delta` and `canonicalBlock4Delta`, on the low half.
unfoldable pub cell2_delta : ℕ → ℕ → ℕ
cell2_delta input delta = let width = u64 (2 * delta) in if width == 0 then 0 else input / width

unfoldable pub canonical_block_4_delta : ℕ → ℕ → ℕ
canonical_block_4_delta input delta =
    let width = u64 (2 * delta) in
    if width == 0 then 0 else if leb delta input then (input - delta) / width else 0

-- The cells of `candidateBlocks`.
unfoldable pub candidate_blocks : ℕ → ℕ → ℕ × ℕ
candidate_blocks input delta =
    let width = u64 (2 * delta) in
    (
      cell2_delta input delta,
      if width == 0 then 0 else if leb width input then (input - width) / width else 0,
    )

-- Blocks with their halves: `low64`, `high64`, `fromLow64`, and `^` on 64 bits.
pub record Halves {Block : Type 0} (F : Field Block) (Word : Type 0) : Type 0 where
  pub low64 : Block → Word
  pub high64 : Block → Word
  pub from_low64 : Word → Block
  pub xor64 : Word → Word → Word
  pub zero64 : Word
  pub zero-xor64 : (a : Word) → xor64 zero64 a ≡ a
  pub low64-xor : (a b : Block) → low64 (F.xor a b) ≡ xor64 (low64 a) (low64 b)
  pub high64-xor : (a b : Block) → high64 (F.xor a b) ≡ xor64 (high64 a) (high64 b)
  pub low64-from_low64 : (a : Word) → low64 (from_low64 a) ≡ a
  pub high64-from_low64 : (a : Word) → high64 (from_low64 a) ≡ zero64
  pub from_low64-xor64 : (a b : Word) → from_low64 (xor64 a b) ≡ F.xor (from_low64 a) (from_low64 b)

-- The vectors that hold two blocks for each query, by index.
module _ {Block Word : Type 0} (F : Field Block) (H : Halves F Word) where
  open F use {zero_block, xor, mul}
  open H use {low64, high64, from_low64, xor64}

  -- `makeAlignment`: the entry `q`.
  unfoldable pub make_alignment : (ℕ → Block) → ℕ → Block
  make_alignment key_shares q = xor (key_shares (2 * q)) (key_shares (2 * q + 1))

  -- `applyAlignment`: the entry `2 * q + sigma` afterwards.
  unfoldable pub apply_alignment : (ℕ → Block) → (ℕ → Block) → ℕ → ℕ → Block
  apply_alignment query_shares alignment q zero = query_shares (2 * q)
  apply_alignment query_shares alignment q (suc sigma) =
      xor (query_shares (2 * q + 1)) (alignment q)

  -- `queryKeys`: the entry `q`.
  unfoldable pub query_keys : (ℕ → Block) → ℕ → Block
  query_keys key_shares q = from_low64 (high64 (key_shares (2 * q)))

  -- `programBopprf`: the key and the value for the query `q` and the candidate `sigma`, from what
  -- is decoded, the aligned shares and the programmer's random share.
  unfoldable pub program_entry : Block → Block → Block → Block × Block
  program_entry decoded query_share programmer_share =
      let rho = xor decoded query_share in
      (from_low64 (high64 rho), from_low64 (xor64 (low64 rho) (low64 programmer_share)))

  unfoldable pub program_bopprf :
      (ℕ → ℕ → Block) → (ℕ → ℕ → Block) → (ℕ → Block) → ℕ → List (Block × Block)
  program_bopprf decoded query_shares programmer_shares queries =
      flat_range
        (λ q.
          flat_range
            (λ sigma.
              program_entry (decoded q sigma) (query_shares q sigma) (programmer_shares q) ∷ [])
            0 2)
        0 queries

  -- `recoverReceiverShares`: the entry `q`.
  unfoldable pub recover_receiver_shares : (ℕ → Block) → (ℕ → Block) → ℕ → Block
  recover_receiver_shares outputs key_shares q =
      from_low64 (xor64 (low64 (outputs q)) (low64 (key_shares (2 * q))))
