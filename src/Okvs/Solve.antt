-- ===== src/Okvs/Solve.antt =====
-- The back substitution of `RBOKVS::encode`, `RBOKVS::decode`, and the loops over a band that both
-- unroll.
pub mod Columns
pub mod Laws
use opprf_fpsi.Prelude.{
  ℕ, zero, suc, ◌+◌, ◌-◌, ◌*◌, ◌^◌, Bool, true, false, ◌&&◌, List, [], ◌∷◌, if◌then◌else◌, ltb,
  ◌==◌, u64, sub64, Result, ok, err, undefined, ◌>>=◌,
}
use opprf_fpsi.Okvs.{Rbokvs}
use opprf_fpsi.Okvs.Values.{Values}
use opprf_fpsi.Okvs.Row.{Word, MatrixRow}
use opprf_fpsi.Okvs.Row.Bits.{flatten}
use opprf_fpsi.Okvs.Insert.{Table, set_at}
use opprf_fpsi.Okvs.Hash.{Byte, hash_pos, hash_band}

-- `output` has `size` columns: a read past them is undefined.
module _ {Value : Type 0} (V : Values Value) (output : ℕ → Value) (size : ℕ) where
  -- `output[j]`.
  unfoldable pub column : ℕ → Result Value
  column j = if ltb j size then ok (output j) else err undefined

  -- `(tmp & 1) ? output[j] : ZeroBlock`.
  unfoldable pub column_or_zero : Bool → ℕ → Result Value
  column_or_zero true j = column j
  column_or_zero false j = ok V.zero_value

  -- The 64 statements of a round, of which the first takes the last bit of the word.
  unfoldable pub xor_word : ℕ → Word → Value → Result Value
  xor_word j [] acc = ok acc
  xor_word j (b ∷ w) acc = do sum ← xor_word (suc j) w acc; v ← column_or_zero b j; ok (V.xor sum v)

  -- One round of the loop over single bits.
  unfoldable pub xor_bit : Bool → ℕ → Value → Result Value
  xor_bit true j acc = do v ← column j; ok (V.xor acc v)
  xor_bit false j acc = ok acc

  module _ (base : ℕ) (more64 more : ℕ → Bool) where
    -- The loop over single bits.
    unfoldable pub xor_bits : ℕ → List Bool → Value → Result Value
    xor_bits k [] acc = if more k then err undefined else ok acc
    xor_bits k (b ∷ bs) acc =
        let rest = xor_bit b (base + k) acc >>= xor_bits (suc k) bs in
        if more k then rest else ok acc

    -- The loop over whole words, then the loop over single bits. A read past the band is undefined.
    unfoldable pub xor_band : ℕ → List Word → Value → Result Value
    xor_band k [] acc = if more64 k then err undefined else xor_bits k [] acc
    xor_band k (w ∷ words) acc =
        let rest = xor_word (base + k) w acc >>= xor_band (k + 64) words in
        if more64 k then rest else xor_bits k (flatten (w ∷ words)) acc

-- `ptr[0] &= 0x7FFFFFFFFFFFFFFF`.
unfoldable pub clear_first : List Word → List Word
clear_first [] = []
clear_first ([] ∷ words) = [] ∷ words
clear_first ((b ∷ w) ∷ words) = (false ∷ w) ∷ words

module _ {Block Value : Type 0} (V : Values Value) (o : Rbokvs Block) where
  -- `output[i]` for a column that a row starts at.
  unfoldable pub solve_row : (ℕ → Value) → ℕ → MatrixRow Value → Result Value
  solve_row output i row =
      xor_band V output o.m_size i
        (λ k. ltb (i + k) (sub64 (u64 (i + o.m_w)) 64) && ltb (i + k) (sub64 o.m_size 64))
        (λ k. ltb (i + k) (u64 (i + o.m_w)) && ltb (i + k) o.m_size) 0 (clear_first row.words)
        row.val

  -- `fresh i` is what `mPrng` draws for a column that no row starts at.
  unfoldable pub solve_column : (ℕ → Value) → Table Value → (ℕ → Value) → ℕ → Result Value
  solve_column fresh t output i =
      if t.bit_to_row i == o.m_n then ok (fresh i) else solve_row output i (t.rows (t.bit_to_row i))

  -- The loop from the last column down, with `i` columns left.
  unfoldable pub solve : (ℕ → Value) → Table Value → ℕ → (ℕ → Value) → Result (ℕ → Value)
  solve fresh t zero output = ok output
  solve fresh t (suc i) output = do
    v ← solve_column fresh t output i
    solve fresh t i (set_at output i v)

  unfoldable pub decode : (Block → Block → ℕ → List Byte) → (ℕ → Value) → Block → Result Value
  decode blake3 code_words key =
      xor_band V code_words o.m_size (hash_pos blake3 o key) (λ j. ltb j (sub64 o.m_w 64))
        (λ j. ltb j o.m_w) 0 (hash_band blake3 o key) V.zero_value
