-- ===== src/Okvs/Hash.antt =====
-- `RBOKVS::hashPos` and `RBOKVS::hashBand`. The hash of BLAKE3 is a parameter: the bytes for a seed,
-- a key and a length, each a row of 8 bits, the most significant bit first.
pub mod Laws
use opprf_fpsi.Prelude.{
  ℕ, zero, suc, ◌+◌, ◌-◌, ◌*◌, ◌%◌, Bool, false, List, [], ◌∷◌, ◌++◌, take, drop, replicate,
  if◌then◌else◌, ◌==◌, to_nat, sub64,
}
use opprf_fpsi.Okvs.{Rbokvs, div_ceil, w_blocks}
use opprf_fpsi.Okvs.Row.{Word}
use opprf_fpsi.Okvs.Row.Bits.{flatten}

abbrev pub Byte : Type 0
Byte = List Bool

abbrev pub zero_byte : Byte
zero_byte = replicate 8 false

-- The number that a row of bits is, from the bits read so far.
unfoldable pub bits_value : ℕ → List Bool → ℕ
bits_value out [] = out
bits_value out (b ∷ bs) = bits_value (2 * out + to_nat b) bs

-- `hashOut[i] & ~(0xFF >> n)`: the first `n` bits.
unfoldable pub keep_bits : ℕ → Byte → Byte
keep_bits n byte = take n byte ++ replicate (8 - n) false

unfoldable pub mask_last : ℕ → List Byte → List Byte
mask_last n [] = []
mask_last n (byte ∷ []) = keep_bits n byte ∷ []
mask_last n (byte ∷ next ∷ bytes) = byte ∷ mask_last n (next ∷ bytes)

unfoldable pub mask_band : ℕ → List Byte → List Byte
mask_band w bytes = if w % 8 == 0 then bytes else mask_last (w % 8) bytes

-- The copy to `output`: byte 7 of a word is the first of its eight, and so on.
unfoldable pub copy_words : ℕ → List Byte → List Word
copy_words zero bytes = []
copy_words (suc n) bytes = flatten (take 8 bytes) ∷ copy_words n (drop 8 bytes)

module _ {Block : Type 0} (blake3 : Block → Block → ℕ → List Byte) (o : Rbokvs Block) where
  unfoldable pub hash_pos : Block → ℕ
  hash_pos input =
      if o.m_size == o.m_w
      then 0
      else bits_value 0 (flatten (blake3 o.m_r_pos input 8)) % sub64 o.m_size o.m_w

  unfoldable pub hash_band : Block → List Word
  hash_band input =
      let w_bytes = div_ceil o.m_w 8 in
      let hash_out = mask_band o.m_w (blake3 o.m_r_band input w_bytes) in
      copy_words (2 * w_blocks o) (hash_out ++ replicate (w_blocks o * 16 - w_bytes) zero_byte)
