-- ===== src/Okvs/Encode/Laws.antt =====
-- `encode` ends with columns that decode to the values, or fails because there are none.
use opprf_fpsi.Prelude.{
  ℕ, zero, suc, ◌≤◌, ◌<◌, ◌^◌, ◌≡◌, refl, sym, ap, ap₂, ◌∙◌, true, false, List, [], ◌∷◌, map,
  length, arith, ◌==◌, Result, ok, err, ok_injective, ◌>>=◌,
}
use opprf_fpsi.Okvs.{Rbokvs, w_blocks}
use opprf_fpsi.Okvs.Values.{Values}
use opprf_fpsi.Okvs.Row.{EncodeStatus, success, fail, all_zero}
use opprf_fpsi.Okvs.Row.Bits.{Clear-mono}
use opprf_fpsi.Okvs.Row.Laws.{band, IsRow}
use opprf_fpsi.Okvs.Insert.{Table}
use opprf_fpsi.Okvs.Insert.Frame.{room, Meets, Solves}
use opprf_fpsi.Okvs.Hash.{Byte, hash_pos}
use opprf_fpsi.Okvs.Hash.Laws.{IsHash, hash_band-lem, hash_pos-lem}
use opprf_fpsi.Okvs.Solve.{decode}
use opprf_fpsi.Okvs.Solve.Columns.{solve-Solves, decode-dot}
use opprf_fpsi.Okvs.Encode.{
  new_row, new_rows, new_table, insert_rows, solve_table, zero_columns, encode,
}
use opprf_fpsi.Okvs.Encode.Rows.{Eliminated, insert_rows-Eliminated}

cons_injective : {A : Type 0} (x y : A) (xs ys : List A) → x ∷ xs ≡ y ∷ ys → (x ≡ y) × (xs ≡ ys)
cons_injective x y xs ys e = (cc, cc)

module _ {Block Value : Type 0} (V : Values Value) (blake3 : Block → Block → ℕ → List Byte)
    (o : Rbokvs Block) (hash : IsHash blake3 o) (wide : 64 ≤ o.m_w) (long : o.m_w ≤ o.m_size)
    (bounded : o.m_size < 2 ^ 63) where
  new_rows-IsRow :
      (keys : List Block) (vals : List Value) (j : ℕ)
      → length keys ≡ length vals
      → j < length keys
      → IsRow
          (w_blocks o)
          (room V o (new_rows V blake3 o keys vals j).start_pos)
          (new_rows V blake3 o keys vals j)
        × ((new_rows V blake3 o keys vals j).start_pos ≤ o.m_size)
  unfolding new_rows new_row
  new_rows-IsRow [] vals j same low = absurd (omega arith)
  new_rows-IsRow (key ∷ keys) [] j same low = absurd (omega arith)
  new_rows-IsRow (key ∷ keys) (val ∷ vals) zero same low =
      let (words, size, clear) = hash_band-lem blake3 o key hash in
      let pos = hash_pos-lem blake3 o key long (omega (arith, bounded)) in
      (
        (
          words,
          size,
          Clear-mono o.m_w (room V o (hash_pos blake3 o key)) (band (new_row V blake3 o key val))
              (omega (arith, pos)) clear,
        ),
        omega (arith, pos),
      )
  new_rows-IsRow (key ∷ keys) (val ∷ vals) (suc j) same low =
      new_rows-IsRow keys vals j (omega arith) (omega arith)

  -- The equations of the rows are those that `decode` asks for.
  rows_decode :
      (x : ℕ → Value) (keys : List Block) (vals : List Value)
      → length keys ≡ length vals
      → ((j : ℕ) → j < length keys → Meets V o x (new_rows V blake3 o keys vals j))
      → map (decode V o blake3 x) keys ≡ map ok vals
  unfolding new_rows new_row
  rows_decode x [] [] same meets = refl
  rows_decode x [] (val ∷ vals) same meets = absurd (omega arith)
  rows_decode x (key ∷ keys) [] same meets = absurd (omega arith)
  rows_decode x (key ∷ keys) (val ∷ vals) same meets =
      ap₂ ◌∷◌
        (decode-dot V o wide long bounded blake3 x key hash ∙ ap ok (meets zero (omega arith)))
        (rows_decode x keys vals (omega arith) (λ j low. meets (suc j) (omega arith)))

  decode_rows :
      (x : ℕ → Value) (keys : List Block) (vals : List Value) (j : ℕ)
      → j < length keys
      → map (decode V o blake3 x) keys ≡ map ok vals
      → Meets V o x (new_rows V blake3 o keys vals j)
  unfolding new_rows new_row
  decode_rows x [] vals j low e = absurd (omega arith)
  decode_rows x (key ∷ keys) [] j low e = cc
  decode_rows x (key ∷ keys) (val ∷ vals) zero low e = ok_injective _ _ (
      sym (decode-dot V o wide long bounded blake3 x key hash)
      ∙ (cons_injective (decode V o blake3 x key) (ok val) (map (decode V o blake3 x) keys)
          (map ok vals) e).0)
  decode_rows x (key ∷ keys) (val ∷ vals) (suc j) low e =
      decode_rows x keys vals j (omega arith)
        (cons_injective (decode V o blake3 x key) (ok val) (map (decode V o blake3 x) keys)
          (map ok vals) e).1

  module _ (keys : List Block) (vals : List Value) (fresh : ℕ → Value)
      (all_keys : length keys ≡ o.m_n) (same : length keys ≡ length vals) where
    rows_fit :
        (j : ℕ)
        → j < o.m_n
        → IsRow
            (w_blocks o)
            (room V o (new_rows V blake3 o keys vals j).start_pos)
            (new_rows V blake3 o keys vals j)
          × ((new_rows V blake3 o keys vals j).start_pos ≤ o.m_size)
    rows_fit j low = new_rows-IsRow keys vals j same (omega arith)

    new_table-empty : (p : ℕ) → ((new_table V blake3 o keys vals).bit_to_row p == o.m_n) ≡ true
    unfolding new_table
    new_table-empty p = ground arith

    new_table-rows :
        (j : ℕ) → (new_table V blake3 o keys vals).rows j ≡ new_rows V blake3 o keys vals j
    unfolding new_table
    new_table-rows j = refl

    no_row : (p : ℕ) → ((new_table V blake3 o keys vals).bit_to_row p == o.m_n) ≡ false → ⊥
    no_row p e = let both = sym (new_table-empty p) ∙ e in cc

    -- How `encode` may end.
    abbrev pub Encoded : Result (EncodeStatus × (ℕ → Value)) → Type 0
    Encoded (ok (success, output)) = map (decode V o blake3 output) keys ≡ map ok vals
    Encoded (ok (fail, output)) = (x : ℕ → Value) → map (decode V o blake3 x) keys ≡ map ok vals → ⊥
    Encoded (ok (all_zero, output)) = ⊥
    Encoded (err e) = ⊥

    small64 : o.m_size < 2 ^ 64
    small64 = omega (arith, bounded)

    initial : (x : ℕ → Value) → Solves V o x (new_table V blake3 o keys vals)
    initial x p low e = absurd (no_row p e)

    solve_table-Encoded :
        (r : Result (EncodeStatus × Table Value))
        → Eliminated V blake3 o small64
            (new_rows V blake3 o keys vals)
            rows_fit
            (new_table V blake3 o keys vals)
            0
            r
        → Encoded (r >>= solve_table V blake3 o fresh)
    unfolding solve_table
    solve_table-Encoded (ok (success, t)) (stored, back, forth) =
        let (output, run, solves) =
          solve-Solves V o wide long bounded fresh t o.m_size (zero_columns V blake3 o)
            (omega arith) (λ p above low. absurd (omega arith)) stored in
        rw run (
          rows_decode output keys vals same
            (λ j low. (back output solves).1 j (omega arith) (omega arith)))
    solve_table-Encoded (ok (fail, t)) none =
        λ x e. none x (initial x) (λ j above low. decode_rows x keys vals j (omega arith) e)
    solve_table-Encoded (ok (all_zero, t)) h = absurd h
    solve_table-Encoded (err e) h = h

    pub encode-Encoded : Encoded (encode V blake3 o keys vals fresh)
    unfolding encode
    encode-Encoded =
        solve_table-Encoded (insert_rows V blake3 o o.m_n 0 (new_table V blake3 o keys vals)) (
          insert_rows-Eliminated V blake3 o small64 (new_rows V blake3 o keys vals) rows_fit o.m_n 0
            (new_table V blake3 o keys vals) (omega arith) (λ p low e. absurd (no_row p e))
            (λ j low. new_table-rows j))
