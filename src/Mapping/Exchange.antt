-- ===== src/Mapping/Exchange.antt =====
-- The exchange of identifiers in `FmapSender::fuzzyMap` and `FmapReceiver::fuzzyMap` of
-- `fpsi/cmp_fmap/fmap.cpp`, for one point. The party whose point it is decodes one block for each
-- dimension from the other party's key-value store; the parties hold shares of the PRF at the same
-- places. The second exchange of the code is the first with the parties' roles swapped.
pub mod Laws
use opprf_fpsi.Prelude.{List, [], ◌∷◌}
use opprf_fpsi.Mapping.Field.{Field}

-- What the random VOLE leaves the parties with for one mask: the mask, and the shares of its
-- product with the other party's scalar, of the mask's holder and of the other party.
pub record Vole (Block : Type 0) : Type 0 where
  pub mask : Block
  pub holder_share : Block
  pub other_share : Block

module _ {Block : Type 0} (F : Field Block) where
  open F use {zero_block, xor, mul}

  -- `acc ^= x` for each block.
  unfoldable pub sum_from : Block → List Block → Block
  sum_from acc [] = acc
  sum_from acc (x ∷ xs) = sum_from (xor acc x) xs

  -- `oprfShare_sum[i]` of the other party: its shares and its mask.
  unfoldable pub mask_sum : List Block → Block → Block
  mask_sum shares mask = xor (sum_from zero_block shares) mask

  -- `oprfShare_sum[i] ^= scalar.gf128Mul(oprfShare[..])` for each dimension.
  unfoldable pub times_from : Block → Block → List Block → Block
  times_from scalar acc [] = acc
  times_from scalar acc (x ∷ xs) = times_from scalar (xor acc (mul scalar x)) xs

  -- `encryID[i]`: `got` is the masked sum, `share` the share of the product with its mask, and
  -- `mask` the party's own mask.
  unfoldable pub encrypt : Block → Block → Block → Block → Block → List Block → List Block → Block
  encrypt scalar id got share mask decoded shares =
      xor
        (xor (mul scalar (xor (sum_from zero_block decoded) id))
          (times_from scalar (xor (mul scalar got) share) shares))
        mask

  -- `encryID_rec[i]`, which the other party sends back.
  unfoldable pub reply : Block → Block → Block → Block → Block
  reply scalar encrypted mask_share own_share =
      xor (mul scalar (xor encrypted mask_share)) own_share

  -- The whole exchange for one point: `scalar` and `mine` are of the party whose point it is,
  -- `other_scalar` and `theirs` of the other one.
  unfoldable pub exchange_id :
      Block → Block → Vole Block → Vole Block → Block → List Block → List Block → List Block → Block
  exchange_id scalar other_scalar mine theirs id decoded shares other_shares =
      let got = mask_sum other_shares theirs.mask in
      let encrypted = encrypt scalar id got theirs.other_share mine.mask decoded shares in
      let masked = reply other_scalar encrypted theirs.holder_share mine.other_share in
      xor masked mine.holder_share
