-- ===== src/Okvs/Encode.antt =====
-- `RBOKVS::encode`: the rows of the keys are inserted one by one, then the columns are solved for.
pub mod Rows
pub mod Laws
pub mod Outcome
use opprf_fpsi.Prelude.{ℕ, zero, suc, List, [], ◌∷◌, Result, ok, err, ◌>>=◌}
use opprf_fpsi.Okvs.{Rbokvs}
use opprf_fpsi.Okvs.Values.{Values, Blocks, long_values}
use opprf_fpsi.Okvs.Row.{MatrixRow, EncodeStatus, success, fail, all_zero}
use opprf_fpsi.Okvs.Insert.{Table, insert}
use opprf_fpsi.Okvs.Hash.{Byte, hash_pos, hash_band}
use opprf_fpsi.Okvs.Solve.{solve, decode}

-- `rows` before the hashes are stored: what stands past the keys is never read.
unfoldable pub blank_row : {Value : Type 0} → Values Value → MatrixRow Value
blank_row V = record { start_pos = 0; words = []; val = V.zero_value }

module _ {Block Value : Type 0} (V : Values Value) (blake3 : Block → Block → ℕ → List Byte)
    (o : Rbokvs Block) where
  unfoldable pub new_row : Block → Value → MatrixRow Value
  new_row key val = record {
    start_pos = hash_pos blake3 o key;
    words = hash_band blake3 o key;
    val = val;
  }

  unfoldable pub new_rows : List Block → List Value → ℕ → MatrixRow Value
  new_rows (key ∷ keys) (val ∷ vals) zero = new_row key val
  new_rows (key ∷ keys) (val ∷ vals) (suc i) = new_rows keys vals i
  new_rows _ _ i = blank_row V

  unfoldable pub new_table : List Block → List Value → Table Value
  new_table keys vals = record { rows = new_rows keys vals; bit_to_row = λ p. o.m_n }

  unfoldable pub unless_fail :
      (Table Value → Result (EncodeStatus × Table Value))
      → EncodeStatus × Table Value
      → Result (EncodeStatus × Table Value)
  unless_fail next (fail, t) = ok (fail, t)
  unless_fail next (success, t) = next t
  unless_fail next (all_zero, t) = next t

  -- The loop over the rows, from the row `i` on.
  unfoldable pub insert_rows : ℕ → ℕ → Table Value → Result (EncodeStatus × Table Value)
  insert_rows zero i t = ok (success, t)
  insert_rows (suc left) i t = insert V o t i >>= unless_fail (insert_rows left (suc i))

  -- `memset(output, 0, …)`.
  abbrev pub zero_columns : ℕ → Value
  zero_columns i = V.zero_value

  unfoldable pub solve_table :
      (ℕ → Value) → EncodeStatus × Table Value → Result (EncodeStatus × (ℕ → Value))
  solve_table fresh (fail, t) = ok (fail, zero_columns)
  solve_table fresh (_, t) = do
    output ← solve V o fresh t o.m_size zero_columns
    ok (success, output)

  unfoldable pub encode :
      List Block → List Value → (ℕ → Value) → Result (EncodeStatus × (ℕ → Value))
  encode keys vals fresh = insert_rows o.m_n 0 (new_table keys vals) >>= solve_table fresh

module _ {Block : Type 0} (B : Values Block) (blake3 : Block → Block → ℕ → List Byte)
    (o : Rbokvs Block) (n : ℕ) where
  -- The functions on vectors of `VALUE_LENGTH_IN_BLOCK` blocks.
  unfoldable pub encode_long :
      List Block
      → List (Blocks Block n)
      → (ℕ → Blocks Block n)
      → Result (EncodeStatus × (ℕ → Blocks Block n))
  encode_long keys vals fresh = encode (long_values B n) blake3 o keys vals fresh

  unfoldable pub decode_long : (ℕ → Blocks Block n) → Block → Result (Blocks Block n)
  decode_long code_words key = decode (long_values B n) o blake3 code_words key
