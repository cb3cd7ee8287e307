-- ===== src/Okvs/Insert.antt =====
-- `RBOKVS::insert`: a row goes to the first free column it starts at, and takes up the rows that
-- stand in its way.
pub mod Absorb
pub mod Frame
pub mod Laws
pub mod Loop
use opprf_fpsi.Prelude.{
  ℕ, zero, suc, ◌+◌, Bool, List, [], ◌∷◌, if◌then◌else◌, ltb, ◌==◌, Result, ok, err, undefined,
}
use opprf_fpsi.Equality.Round.Step.{xor_row}
use opprf_fpsi.Okvs.{Rbokvs, w_blocks}
use opprf_fpsi.Okvs.Values.{Values}
use opprf_fpsi.Okvs.Row.{Word, MatrixRow, EncodeStatus, success, fail, all_zero, reformalize}

-- `rows` and `bitToRowMap`; a column that no row starts at maps to `mN`.
pub record Table (Value : Type 0) : Type 0 where
  pub rows : ℕ → MatrixRow Value
  pub bit_to_row : ℕ → ℕ

unfoldable pub set_at : {A : Type 0} → (ℕ → A) → ℕ → A → ℕ → A
set_at f i a j = if j == i then a else f j

-- The loop over the words of two bands.
unfoldable pub xor_words : List Word → List Word → List Word
xor_words (w ∷ words) (v ∷ others) = xor_row w v ∷ xor_words words others
xor_words _ _ = []

module _ {Block Value : Type 0} (V : Values Value) (o : Rbokvs Block) where
  abbrev pub Outcome : Type 0
  Outcome = EncodeStatus × Table Value

  -- `rows[i] = row`.
  unfoldable pub put : Table Value → ℕ → MatrixRow Value → Table Value
  put t i row = record { rows = set_at t.rows i row; bit_to_row = t.bit_to_row }

  unfoldable pub put_status : Table Value → ℕ → EncodeStatus × MatrixRow Value → Outcome
  put_status t i (status, row) = (status, put t i row)

  unfoldable pub reformalize_at : Table Value → ℕ → Outcome
  reformalize_at t i = put_status t i (reformalize V (w_blocks o) (t.rows i))

  unfoldable pub xor_rows : MatrixRow Value → MatrixRow Value → MatrixRow Value
  xor_rows row other = record {
    start_pos = row.start_pos;
    words = xor_words row.words other.words;
    val = V.xor row.val other.val;
  }

  -- The band XOR and the value XOR.
  unfoldable pub absorb : Table Value → ℕ → ℕ → Table Value
  absorb t i colliding = put t i (xor_rows (t.rows i) (t.rows colliding))

  -- `bitToRowMap[rows[i].startPos] = i`.
  unfoldable pub claim : Table Value → ℕ → Table Value
  claim t i = record { rows = t.rows; bit_to_row = set_at t.bit_to_row (t.rows i).start_pos i }

  -- A status other than `SUCCESS` is returned at once.
  unfoldable pub on_success : (Table Value → Result Outcome) → Outcome → Result Outcome
  on_success next (success, t) = next t
  on_success next (fail, t) = ok (fail, t)
  on_success next (all_zero, t) = ok (all_zero, t)

  -- The `while`, which first reads the map at the row's start position.
  unfoldable pub insert_loop : ℕ → ℕ → Table Value → Result Outcome
  insert_loop zero i t = err undefined
  insert_loop (suc fuel) i t =
      let start = (t.rows i).start_pos in
      let colliding = t.bit_to_row start in
      let again = on_success (insert_loop fuel i) (reformalize_at (absorb t i colliding) i) in
      if ltb start o.m_size
      then if colliding == o.m_n then ok (success, claim t i) else again
      else err undefined

  unfoldable pub insert : Table Value → ℕ → Result Outcome
  insert t i = on_success (insert_loop o.m_size i) (reformalize_at t i)
